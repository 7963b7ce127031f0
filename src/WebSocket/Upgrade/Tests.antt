-- ===== src/WebSocket/Upgrade/Tests.antt =====
-- Runs of `_validate_upgrade`, and its theorem at one.
use small_server.Prelude.{◌≡◌, ◌↔◌, refl, true, none, some, [], ◌∷◌}
use small_server.Prelude.Dict
use small_server.Prelude.Text.{codes, text_equal, lower, upper, every}
use small_server.Http.Headers
use small_server.Http.Request.{Request}
use small_server.WebSocket.Upgrade.{
  Base64, origin_not_allowed, has_upgrade, token_list, valid_websocket_key, all_tokens,
  allows_origin, is_upgrade_attempt, validate_upgrade,
}
use small_server.WebSocket.Upgrade.Accepting.{Upgradable, validate_upgrade-Upgradable}

-- A decoder that takes every text for 16 bytes.
abbrev sixteen : Base64
sixteen = record { decoded_length = λ _. some 16 }

abbrev upgrade : Request
upgrade = record {
  method = codes "GET";
  path = codes "/chat";
  headers = record {
    entries =
        (codes "upgrade", (codes "Upgrade", codes "WebSocket"))
        ∷ (codes "connection", (codes "Connection", codes "keep-alive, Upgrade"))
        ∷ (codes "sec-websocket-version", (codes "Sec-WebSocket-Version", codes "13"))
        ∷ (codes "sec-websocket-key", (codes "Sec-WebSocket-Key", codes "k"))
        ∷ [];
  };
  body = [];
  version = codes "HTTP/1.1";
  raw_target = none;
  query_string = [];
  path_params = [];
  route_pattern = none;
}

accepted : validate_upgrade sixteen upgrade none ≡ none
unfolding validate_upgrade has_upgrade token_list valid_websocket_key all_tokens allows_origin upper
    Headers.get Dict.get text_equal lower every
accepted = refl

test_origin : validate_upgrade sixteen upgrade (some []) ≡ some origin_not_allowed
unfolding validate_upgrade has_upgrade token_list valid_websocket_key all_tokens allows_origin upper
    Headers.get Dict.get text_equal lower every
test_origin = refl

test_attempt : is_upgrade_attempt upgrade ≡ true
unfolding is_upgrade_attempt Headers.get Dict.get text_equal
test_attempt = refl

validate_upgrade-Upgradable_example :
    (validate_upgrade sixteen upgrade none ≡ none) ↔ Upgradable sixteen upgrade none
validate_upgrade-Upgradable_example = validate_upgrade-Upgradable sixteen upgrade none
