-- ===== src/Runtime.antt =====
-- `ManagedRuntimeConfig` of smallserver/runtime.py. An argument is a Python value, since the
-- constructor tests its type; a constructed configuration has what the tests let through.
pub mod Roundtrip
mod Tests
use small_server.Prelude.{
  ℕ, zero, suc, Bool, true, false, Option, none, some, List, [], ◌∷◌, map, ltb, if◌then◌else◌,
  is_nil, Result, ok, err, ◌>>=◌, ◌>>◌,
}
use small_server.Prelude.Dict
use small_server.Prelude.Dict.{Dict}
use small_server.Prelude.Text.{Text, text_eq}

-- A Python value as the tests see it: `negative n` is the integer -(n + 1), and `object` a value of
-- a type that no test asks for. A `bool` is not an `int` here, since the tests ask for the type itself.
pub data Value : Type 0 where
  int negative : ℕ → Value
  bool : Bool → Value
  text : Text → Value
  object : Value

pub data Section : Type 0 where
  settings : List (Value × Value) → Section
  no_mapping : Section

pub data Defaults : Type 0 where
  sections : List (Value × Section) → Defaults
  unset not_sections : Defaults

pub data ConfigError : Type 0 where
  value_error type_error : ConfigError

-- The arguments of the constructor.
pub record Arguments : Type 0 where
  pub task_capacity : Value
  pub priority_levels : Value
  pub io_buffer_length : Value
  pub eternal_watchers : Value
  pub client_defaults : Defaults

pub record ManagedRuntimeConfig : Type 0 where
  pub task_capacity : ℕ
  pub priority_levels : ℕ
  pub io_buffer_length : ℕ
  pub eternal_watchers : Bool
  pub client_defaults : Option (Dict Text (Dict Text ℕ))

-- The defaults of the fields.
abbrev pub default : ManagedRuntimeConfig
default = record {
  task_capacity = 1024;
  priority_levels = 10;
  io_buffer_length = 1024;
  eternal_watchers = false;
  client_defaults = none;
}

abbrev pub non_negative_int : Value → Result ConfigError ℕ
non_negative_int (int n) = ok n
non_negative_int (negative n) = err value_error
non_negative_int (bool b) = err type_error
non_negative_int (text t) = err type_error
non_negative_int object = err type_error

abbrev pub positive_int : Value → Result ConfigError ℕ
positive_int (int zero) = err value_error
positive_int (int (suc n)) = ok (suc n)
positive_int (negative n) = err value_error
positive_int (bool b) = err type_error
positive_int (text t) = err type_error
positive_int object = err type_error

abbrev pub only_bool : Value → Result ConfigError Bool
only_bool (bool b) = ok b
only_bool (int n) = err type_error
only_bool (negative n) = err type_error
only_bool (text t) = err type_error
only_bool object = err type_error

-- A name of a section or of a setting.
abbrev pub name : Value → Result ConfigError Text
name (text []) = err type_error
name (text (c ∷ cs)) = ok (c ∷ cs)
name (int n) = err type_error
name (negative n) = err type_error
name (bool b) = err type_error
name object = err type_error

-- The loop that both `section_values` and `normalized` stand for, from what the dict holds already.
unfoldable pub collect :
    {V U : Type 0}
    → (V → Result ConfigError U)
    → Dict Text U
    → List (Value × V)
    → Result ConfigError (Dict Text U)
collect read kept [] = ok kept
collect read kept ((k, v) ∷ items) =
    name k >>= λ n. read v >>= λ u. collect read (Dict.put n u kept) items

abbrev pub section_values : Section → Result ConfigError (Dict Text ℕ)
section_values no_mapping = err type_error
section_values (settings values) = collect non_negative_int [] values

abbrev pub normalized : List (Value × Section) → Result ConfigError (Dict Text (Dict Text ℕ))
normalized items = collect section_values [] items

unfoldable pub client_defaults : Defaults → Result ConfigError (Option (Dict Text (Dict Text ℕ)))
client_defaults unset = ok none
client_defaults not_sections = err type_error
client_defaults (sections items) = normalized items >>= λ d. ok (some d)

abbrev pub at_least_two : ℕ → Result ConfigError (Unit {0})
at_least_two levels = if ltb levels 2 then err value_error else ok tt

-- `__post_init__`
unfoldable pub post_init : Arguments → Result ConfigError ManagedRuntimeConfig
post_init a = positive_int a.task_capacity >>= λ capacity.
    positive_int a.priority_levels >>= λ levels. at_least_two levels >>= λ _.
    non_negative_int a.io_buffer_length >>= λ buffer. only_bool a.eternal_watchers >>= λ watchers.
    client_defaults a.client_defaults >>= λ defaults. ok (record {
      task_capacity = capacity;
      priority_levels = levels;
      io_buffer_length = buffer;
      eternal_watchers = watchers;
      client_defaults = defaults;
    })

abbrev pub entry : {U V : Type 0} → (U → V) → Text × U → Value × V
entry write (n, u) = (text n, write u)

abbrev pub plain_section : Dict Text ℕ → Section
plain_section values = settings (map (entry int) values)

abbrev pub plain : Option (Dict Text (Dict Text ℕ)) → Defaults
plain none = unset
plain (some d) = sections (map (entry plain_section) d)

-- `to_smallos_config`, whose keys are the constructor's arguments.
abbrev pub to_smallos_config : ManagedRuntimeConfig → Arguments
to_smallos_config c = record {
  task_capacity = int c.task_capacity;
  priority_levels = int c.priority_levels;
  io_buffer_length = int c.io_buffer_length;
  eternal_watchers = bool c.eternal_watchers;
  client_defaults = plain c.client_defaults;
}
