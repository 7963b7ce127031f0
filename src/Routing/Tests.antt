-- ===== src/Routing/Tests.antt =====
-- Runs of the router, and its theorems at them.
use small_server.Prelude.{ℕ, ◌≡◌, refl, true, false, none, some, List, [], ◌∷◌, All, ok, err}
use small_server.Prelude.Dict
use small_server.Prelude.Text.{Text, text_eq, text_equal, codes, upper}
use small_server.Routing.Router.{
  Engine, Router, RegexRouteConfig, already_registered, too_many_routes, key_equal, key_eq, init,
  normalize_methods, add_static, add_regex,
}
use small_server.Routing.Resolve.{resolve}
use small_server.Routing.Static.{after_registration, add_static-lookup, resolve-add_static}

-- An engine that compiles nothing.
abbrev no_engine : Engine
no_engine = record {
  Compiled = Unit;
  Match = Unit;
  World = ℕ;
  installed = false;
  compile = λ _. none;
  groupindex = λ _. [];
  groupdict = λ _. [];
  monotonic = λ w. (w, w);
  fullmatch = λ _ _ _ w. (none, w);
}

abbrev config : RegexRouteConfig
config = record {
  max_path_bytes = 100;
  max_pattern_length = 100;
  max_routes = 0;
  match_timeout = 10;
  total_match_timeout = 50;
  max_named_captures = 20;
}

-- Handlers are numbers.
abbrev router : Router no_engine ℕ
router = init config

abbrev methods : List Text
methods = codes "GET" ∷ codes "POST" ∷ []

abbrev registered : Router no_engine ℕ
registered = record router {
  static = ((codes "GET", codes "/a"), 7) ∷ ((codes "POST", codes "/a"), 7) ∷ [];
}

test_methods : normalize_methods (codes "get" ∷ codes "POST" ∷ codes "Get" ∷ []) ≡ ok methods
unfolding normalize_methods Dict.add Dict.contains text_equal
test_methods = refl

add_registered : add_static router (codes "/a") methods 7 ≡ ok registered
unfolding add_static Dict.get Dict.put key_equal text_equal
add_registered = refl

test_twice :
    add_static registered (codes "/a") (codes "PUT" ∷ codes "POST" ∷ []) 8 ≡ err already_registered
unfolding add_static Dict.get key_equal text_equal
test_twice = refl

test_full : add_regex router (codes "/b") methods 8 ≡ err too_many_routes
unfolding add_regex Dict.get
test_full = refl

add_static-lookup_example :
    All (λ m. Dict.get (m, codes "/a") router.static ≡ none) methods
    × ((method p : Text)
        → Dict.get (method, p) registered.static
          ≡ after_registration router.static (codes "/a") methods 7 method p)
add_static-lookup_example =
    add_static-lookup router registered (codes "/a") methods 7 add_registered

get_named : Dict.contains (upper (codes "get")) methods ≡ true
unfolding Dict.contains upper text_equal
get_named = refl

resolve-add_static_example : resolve registered (codes "get") (codes "/a") 0 ≡ (
  ok (record {
    handler = some 7;
    path_params = [];
    route_pattern = some (codes "/a");
    allowed_methods = [];
  }),
  0,
)
resolve-add_static_example =
    resolve-add_static router registered (codes "/a") methods 7 add_registered (codes "get") 0
      get_named
