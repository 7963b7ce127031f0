-- ===== src/App/Serving/Tests.antt =====
-- A route and a request for it, and the theorem at them.
use small_server.Prelude.{ℕ, ◌+◌, ◌≡◌, refl, true, false, none, some, [], ◌∷◌, ok, err}
use small_server.Prelude.Dict
use small_server.Prelude.Text.{
  text_eq, codes, text_equal, partition, starts_with, has_char, every, upper,
}
use small_server.Http.Headers
use small_server.Http.Headers.{is_token, is_token_char}
use small_server.Http.Request
use small_server.Http.Request.{Request, full_target, settle_target, check_path}
use small_server.Routing.Router.{Engine, Router, init, normalize_methods, add_static, key_equal}
use small_server.App.Dispatch.{Answer, responded, route, conclude, path_query, dispatch}
use small_server.App.Serving.{without_params, dispatch-route}

abbrev no_engine : Engine
no_engine = record {
  Compiled = Unit;
  Match = Unit;
  World = ℕ;
  installed = false;
  compile = λ _. none;
  groupindex = λ _. [];
  groupdict = λ _. [];
  monotonic = λ w. (w, w);
  fullmatch = λ _ _ _ w. (none, w);
}

-- Handlers are numbers, and answer with them as the status.
abbrev router : Router no_engine ℕ
router = init (record {
  max_path_bytes = 100;
  max_pattern_length = 100;
  max_routes = 0;
  match_timeout = 10;
  total_match_timeout = 50;
  max_named_captures = 20;
})

abbrev registered : Router no_engine ℕ
registered = record router { static = ((codes "GET", codes "/a"), 200) ∷ [] }

abbrev run : ℕ → Request → ℕ → Answer × ℕ
run handler r w =
    (responded (record { status = handler; body = r.path; headers = r.headers }), w + 1)

abbrev request : Request
request = record {
  method = codes "get";
  path = codes "/a";
  headers = Headers.empty;
  body = [];
  version = codes "HTTP/1.1";
  raw_target = some (codes "/a");
  query_string = [];
  path_params = (codes "id", codes "7") ∷ [];
  route_pattern = none;
}

constructed : Request.post_init request ≡ ok request
unfolding Request.post_init full_target settle_target check_path text_equal partition starts_with
    is_token every is_token_char has_char
constructed = refl

registers : route router (codes "/a") (codes "get" ∷ []) 200 ≡ ok registered
unfolding route add_static normalize_methods Dict.get Dict.put Dict.add Dict.contains key_equal
    text_equal starts_with has_char
registers = refl

test_query : route router (codes "/a?b") (codes "get" ∷ []) 200 ≡ err path_query
unfolding route starts_with has_char
test_query = refl

normalized : normalize_methods (codes "get" ∷ []) ≡ ok (codes "GET" ∷ [])
unfolding normalize_methods Dict.add Dict.contains text_equal
normalized = refl

named : Dict.contains (upper (codes "get")) (codes "GET" ∷ []) ≡ true
unfolding Dict.contains text_equal upper
named = refl

dispatch-route_example :
    dispatch no_engine run registered request 3 ≡ conclude (run 200 (without_params request) 3)
dispatch-route_example =
    dispatch-route run router registered (codes "/a") (codes "get" ∷ []) (codes "GET" ∷ []) 200
      request request 3 registers normalized constructed refl named
