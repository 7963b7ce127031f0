-- ===== src/Http/Request/Tests.antt =====
-- A request as the parser builds it, and its theorem at it.
use small_server.Prelude.{◌≡◌, refl, none, some, [], ◌∷◌, ok}
use small_server.Prelude.Text.{codes, text_equal, partition, starts_with, has_char, every}
use small_server.Http.Headers
use small_server.Http.Headers.{is_token, is_token_char}
use small_server.Http.Request.{Request, full_target, settle_target, check_path, post_init}
use small_server.Http.Request.Replacing.{post_init-replace}

abbrev request : Request
request = record {
  method = codes "GET";
  path = codes "/a";
  headers = Headers.empty;
  body = [];
  version = codes "HTTP/1.1";
  raw_target = some (codes "/a?b");
  query_string = codes "b";
  path_params = [];
  route_pattern = none;
}

constructed : post_init request ≡ ok request
unfolding post_init full_target settle_target check_path text_equal partition starts_with is_token
    every is_token_char has_char
constructed = refl

post_init-replace_example :
    post_init (record request {
      path_params = (codes "id", codes "7") ∷ [];
      route_pattern = some (codes "/.");
    })
    ≡ ok (record request {
      path_params = (codes "id", codes "7") ∷ [];
      route_pattern = some (codes "/.");
    })
post_init-replace_example =
    post_init-replace request request ((codes "id", codes "7") ∷ []) (some (codes "/.")) constructed
