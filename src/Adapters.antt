-- ===== src/Adapters.antt =====
-- `AdapterRegistry` of smallserver/adapters.py, and `http_error_from_adapter`. An adapter is the
-- number that tells it from the others; what its methods do is a parameter.
pub mod Shutdown
mod Tests
use small_server.Prelude.{
  ℕ, Bool, true, false, not, ◌||◌, Option, none, some, List, [], ◌∷◌, ◌++◌, ◌==◌, if◌then◌else◌,
  is_nil, Result, ok, err,
}
use small_server.Prelude.Dict
use small_server.Prelude.Dict.{Dict}
use small_server.Prelude.Text.{Text, text_eq, codes}

-- What shutting an adapter down raises: an Exception, or another BaseException.
pub data Raised : Type 0 where
  exception interrupt : ℕ → Raised

-- The adapters, with any behaviour, and str.isidentifier.
pub record Adapters : Type 1 where
  pub World : Type 0
  pub is_identifier : Text → Bool
  pub has_methods : ℕ → Bool
  pub shutdown : ℕ → Bool → Bool → World → Option Raised × World

pub record Registry : Type 0 where
  pub adapters : Dict Text ℕ
  pub closed : Bool

abbrev pub init : Registry
init = record { adapters = []; closed = false }

pub data RegistryError : Type 0 where
  registry_closed bad_name name_taken adapter_taken missing_method unknown : RegistryError
  interrupted : ℕ → RegistryError
  shutdown_failed : List (Text × ℕ) → RegistryError

-- Whether an adapter is registered under any name.
unfoldable pub is_registered : ℕ → Dict Text ℕ → Bool
is_registered adapter [] = false
is_registered adapter ((name, other) ∷ adapters) =
    other == adapter || is_registered adapter adapters

abbrev pub has_name : Text → Dict Text ℕ → Bool
has_name name adapters = elim (Dict.get name adapters) [ none ↦ false | some _ ↦ true ]

unfoldable pub register : Adapters → Registry → Text → ℕ → Result RegistryError Registry
unfolding is_registered
register env r name adapter =
    if r.closed
    then err registry_closed
    else if is_nil name || not (env.is_identifier name)
    then err bad_name
    else if has_name name r.adapters
    then err name_taken
    else if is_registered adapter r.adapters
    then err adapter_taken
    else if not (env.has_methods adapter)
    then err missing_method
    else ok (record r { adapters = Dict.put name adapter r.adapters })

unfoldable pub get : Registry → Text → Result RegistryError ℕ
get r name = elim (Dict.get name r.adapters) [ none ↦ err unknown | some a ↦ ok a ]

-- `call` up to the call of the adapter that it names.
unfoldable pub call : Registry → Text → Result RegistryError ℕ
unfolding get
call r name = if r.closed then err registry_closed else get r name

abbrev pub names : Registry → List Text
names r = Dict.keys r.adapters

-- What the loop of `shutdown` has gathered.
pub record Gathered : Type 0 where
  pub failures : List (Text × ℕ)
  pub interrupted_by : Option ℕ

abbrev pub note : Text → Option Raised → Gathered → Gathered
note name none g = g
note name (some (exception x)) g = record g { failures = g.failures ++ (name, x) ∷ [] }
note name (some (interrupt x)) g = elim g.interrupted_by [
  | none ↦ record g { interrupted_by = some x }
  | some _ ↦ g
]

unfoldable pub shutdown_items :
    (env : Adapters) → Bool → Bool → Dict Text ℕ → Gathered → env.World → Gathered × env.World
shutdown_items env wait cancel_pending [] g w = (g, w)
shutdown_items env wait cancel_pending ((name, adapter) ∷ items) g w =
    let (raised, w') = env.shutdown adapter wait cancel_pending w in
    shutdown_items env wait cancel_pending items (note name raised g) w'

-- reversed(...)
abbrev pub reverse_onto {ℓ} : {A : Type ℓ} → List A → List A → List A
reverse_onto [] ys = ys
reverse_onto (x ∷ xs) ys = reverse_onto xs (x ∷ ys)

unfoldable pub outcome : Gathered → Result RegistryError (Unit {0})
outcome g = elim g.interrupted_by [
  | some x ↦ err (interrupted x)
  | none ↦ if is_nil g.failures then ok tt else err (shutdown_failed g.failures)
]

unfoldable pub shutdown :
    (env : Adapters)
    → Registry
    → Bool
    → Bool
    → env.World
    → Result RegistryError (Unit {0}) × Registry × env.World
unfolding shutdown_items outcome
shutdown env r wait cancel_pending w =
    let (g, w') =
      shutdown_items env wait cancel_pending (reverse_onto r.adapters [])
        (record { failures = []; interrupted_by = none }) w in
    if r.closed then (ok tt, r, w) else (outcome g, record r { closed = true }, w')

-- The classes of AdapterError that `http_error_from_adapter` tells apart.
pub data AdapterError : Type 0 where
  capacity unavailable closed cancelled other : AdapterError

-- The status and the detail of the HTTPError.
abbrev pub http_error_from_adapter : AdapterError → ℕ × Text
http_error_from_adapter capacity = (503, codes "service is at capacity")
http_error_from_adapter unavailable = (503, codes "service is unavailable")
http_error_from_adapter closed = (503, codes "service is unavailable")
http_error_from_adapter cancelled = (503, codes "service operation was cancelled")
http_error_from_adapter other = (500, codes "service execution failed")
