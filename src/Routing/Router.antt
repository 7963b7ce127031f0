-- ===== src/Routing/Router.antt =====
-- `Router` of smallserver/routing.py. The `regex` package and the clock are parameters; times are
-- counted in ticks.
use small_server.Prelude.{
  ℕ, zero, suc, ◌+◌, ◌≡◌, ◌↔◌, Bool, true, false, not, ◌&&◌, ◌||◌, Option, none, some, List, [],
  ◌∷◌, ◌++◌, ltb, leb, ◌==◌, if◌then◌else◌, is_nil, length, get_elem?, Result, ok, err, ◌>>=◌,
  arith,
}
use small_server.Prelude.Decimal.{decimal}
use small_server.Prelude.Dict
use small_server.Prelude.Dict.{Dict, Eq}
use small_server.Prelude.Text.{Text, text_eq, codes, text_equal, text_equal_iff, starts_with, upper}
use small_server.Routing.Pattern.{named_group_names}

-- What the code uses of `regex` and of `time`, with any behaviour. `fullmatch` returns `none` where
-- it raises TimeoutError.
pub record Engine : Type 1 where
  pub Compiled : Type 0
  pub Match : Type 0
  pub World : Type 0
  pub installed : Bool
  pub compile : Text → Option Compiled
  pub groupindex : Compiled → List Text
  pub groupdict : Match → List (Text × Option Text)
  pub monotonic : World → ℕ × World
  pub fullmatch : Compiled → Text → ℕ → World → Option (Option Match) × World

pub record RegexRouteConfig : Type 0 where
  pub max_path_bytes : ℕ
  pub max_pattern_length : ℕ
  pub max_routes : ℕ
  pub match_timeout : ℕ
  pub total_match_timeout : ℕ
  pub max_named_captures : ℕ

-- What the methods raise; of a RouteMatchTimeout the route.
pub data RouteError : Type 0 where
  unsupported_methods already_registered too_many_routes : RouteError
  pattern_slash pattern_length regex_unavailable invalid_pattern : RouteError
  unchecked_names duplicate_names too_many_names : RouteError
  path_not_ascii path_too_large : RouteError
  match_timeout : Text → RouteError

pub record RegexRoute (e : Engine) (Handler : Type 0) : Type 0 where
  pub route_id : Text
  pub pattern : Text
  pub compiled : e.Compiled
  pub handlers : Dict Text Handler

pub record Router (e : Engine) (Handler : Type 0) : Type 0 where
  pub static : Dict (Text × Text) Handler
  pub regex : List (RegexRoute e Handler)
  pub regex_by_pattern : Dict Text ℕ
  pub regex_config : RegexRouteConfig

pub record RouteMatch (Handler : Type 0) : Type 0 where
  pub handler : Option Handler
  pub path_params : List (Text × Text)
  pub route_pattern : Option Text
  pub allowed_methods : List Text

-- Pairs of a method and a path as keys.
unfoldable pub key_equal : Text × Text → Text × Text → Bool
key_equal a b = text_equal a.0 b.0 && text_equal a.1 b.1

pub key_equal_iff : (a b : Text × Text) → (key_equal a b ≡ true) ↔ (a ≡ b)
unfolding key_equal
key_equal_iff (m, p) (n, q) = ground (arith, text_equal_iff m n, text_equal_iff p q)

instance abbrev pub key_eq : Eq (Text × Text)
key_eq = record { equal = key_equal; equal_iff = key_equal_iff }

abbrev pub supported_methods : List Text
supported_methods = codes "GET" ∷ codes "POST" ∷ codes "PUT" ∷ codes "PATCH" ∷ codes "DELETE" ∷ []

-- dict.fromkeys(method.upper() for method in methods)
unfoldable pub upper_methods : List Text → List Text → List Text
unfolding upper
upper_methods seen [] = seen
upper_methods seen (m ∷ ms) = upper_methods (Dict.add (upper m) seen) ms

unfoldable pub all_supported : List Text → Bool
all_supported [] = true
all_supported (m ∷ ms) = Dict.contains m supported_methods && all_supported ms

unfoldable pub normalize_methods : List Text → Result RouteError (List Text)
unfolding upper_methods all_supported
normalize_methods methods =
    let normalized = upper_methods [] methods in
    if is_nil normalized || not (all_supported normalized)
    then err unsupported_methods
    else ok normalized

-- Python's order of strings, and sorted().
unfoldable pub text_leb : Text → Text → Bool
text_leb [] t = true
text_leb (c ∷ s) [] = false
text_leb (c ∷ s) (d ∷ t) = ltb c d || (c == d && text_leb s t)

unfoldable pub insert : Text → List Text → List Text
unfolding text_leb
insert s [] = s ∷ []
insert s (t ∷ ts) = if text_leb s t then s ∷ t ∷ ts else t ∷ insert s ts

unfoldable pub sorted : List Text → List Text
unfolding insert
sorted [] = []
sorted (s ∷ ss) = insert s (sorted ss)

-- The captures that are not None.
unfoldable pub captured : List (Text × Option Text) → List (Text × Text)
captured [] = []
captured ((name, none) ∷ gs) = captured gs
captured ((name, some value) ∷ gs) = (name, value) ∷ captured gs

abbrev pub init : {e : Engine} {Handler : Type 0} → RegexRouteConfig → Router e Handler
init config = record { static = []; regex = []; regex_by_pattern = []; regex_config = config }

module _ {Handler : Type 0} where
  unfoldable pub any_registered : Dict (Text × Text) Handler → Text → List Text → Bool
  any_registered static path [] = false
  any_registered static path (m ∷ ms) = elim (Dict.get (m, path) static) [
    | some _ ↦ true
    | none ↦ any_registered static path ms
  ]

  unfoldable pub put_static :
      Dict (Text × Text) Handler → Text → List Text → Handler → Dict (Text × Text) Handler
  put_static static path [] handler = static
  put_static static path (m ∷ ms) handler =
      put_static (Dict.put (m, path) handler static) path ms handler

  abbrev pub add_handlers : Dict Text Handler → List Text → Handler → Dict Text Handler
  add_handlers handlers [] handler = handlers
  add_handlers handlers (m ∷ ms) handler = add_handlers (Dict.put m handler handlers) ms handler

  unfoldable pub has_handler : Dict Text Handler → List Text → Bool
  has_handler handlers [] = false
  has_handler handlers (m ∷ ms) = elim (Dict.get m handlers) [
    | some _ ↦ true
    | none ↦ has_handler handlers ms
  ]

-- Whether every one of the names is among the others.
unfoldable pub all_in : List Text → List Text → Bool
all_in [] names = true
all_in (n ∷ ns) names = Dict.contains n names && all_in ns names

module _ (e : Engine) where
  unfoldable pub check_names : RegexRouteConfig → Text → e.Compiled → Result RouteError e.Compiled
  unfolding all_in
  check_names config pattern compiled =
      let names = named_group_names pattern in
      let compiled_names = e.groupindex compiled in
      if not (all_in names compiled_names && all_in compiled_names names)
      then err unchecked_names
      else if not (length names == length compiled_names)
      then err duplicate_names
      else if ltb config.max_named_captures (length compiled_names)
      then err too_many_names
      else ok compiled

  -- `_compile`
  unfoldable pub compile_pattern : RegexRouteConfig → Text → Result RouteError e.Compiled
  unfolding check_names starts_with named_group_names
  compile_pattern config pattern =
      if not (starts_with pattern (codes "/"))
      then err pattern_slash
      else if ltb config.max_pattern_length (length pattern)
      then err pattern_length
      else if not e.installed
      then err regex_unavailable
      else elim (e.compile (codes "(?=/)(?:" ++ pattern ++ codes ")")) [
        | none ↦ err invalid_pattern
        | some compiled ↦ check_names config pattern compiled
      ]

module _ {e : Engine} {Handler : Type 0} where
  unfoldable pub add_static :
      Router e Handler → Text → List Text → Handler → Result RouteError (Router e Handler)
  unfolding any_registered put_static
  add_static r path methods handler =
      if any_registered r.static path methods
      then err already_registered
      else ok (record r { static = put_static r.static path methods handler })

  abbrev pub static_handler : Router e Handler → Text → Text → Option Handler
  static_handler r method path = Dict.get (upper method, path) r.static

  abbrev set_elem :
      List (RegexRoute e Handler) → ℕ → RegexRoute e Handler → List (RegexRoute e Handler)
  set_elem [] i x = []
  set_elem (y ∷ ys) zero x = x ∷ ys
  set_elem (y ∷ ys) (suc i) x = y ∷ set_elem ys i x

  -- More handlers for a pattern that is registered. An index of `regex_by_pattern` is in range.
  unfoldable pub extend_regex :
      Router e Handler → ℕ → List Text → Handler → Result RouteError (Router e Handler)
  unfolding has_handler
  extend_regex r index methods handler = elim (get_elem? r.regex index) [
    | none ↦ ok r
    | some existing ↦
        if has_handler existing.handlers methods
        then err already_registered
        else ok (record r {
          regex =
              set_elem r.regex index
                (record existing { handlers = add_handlers existing.handlers methods handler });
        })
  ]

  unfoldable pub new_regex :
      Router e Handler → Text → List Text → Handler → e.Compiled → Router e Handler
  unfolding decimal
  new_regex r pattern methods handler compiled = record r {
    regex_by_pattern = Dict.put pattern (length r.regex) r.regex_by_pattern;
    regex =
        r.regex
        ++ record {
          route_id = codes "regex-route-" ++ decimal (length r.regex + 1);
          pattern = pattern;
          compiled = compiled;
          handlers = add_handlers [] methods handler;
        }
          ∷ [];
  }

  unfoldable pub add_regex :
      Router e Handler → Text → List Text → Handler → Result RouteError (Router e Handler)
  unfolding extend_regex new_regex compile_pattern
  add_regex r pattern methods handler = elim (Dict.get pattern r.regex_by_pattern) [
    | some index ↦ extend_regex r index methods handler
    | none ↦
        if leb r.regex_config.max_routes (length r.regex)
        then err too_many_routes
        else compile_pattern e r.regex_config pattern >>= λ compiled.
            ok (new_regex r pattern methods handler compiled)
  ]
