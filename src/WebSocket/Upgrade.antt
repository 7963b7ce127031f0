-- ===== src/WebSocket/Upgrade.antt =====
-- The validation of an upgrade in smallserver/websocket.py: `_is_upgrade_attempt` and
-- `_validate_upgrade`, and `WebSocketConfig` without its timeouts.
pub mod Accepting
mod Tests
use small_server.Prelude.{
  ℕ, Bool, true, false, not, ◌&&◌, ◌||◌, Option, none, some, List, [], ◌∷◌, ltb, ◌==◌,
  if◌then◌else◌, is_nil, length, String,
}
use small_server.Prelude.Text.{Text, codes, text_equal, within, every, lower, upper}
use small_server.Http.Headers
use small_server.Http.Headers.{is_token}
use small_server.Http.Request.{Request, text_or}
use small_server.Http2.RequestHeaders.{is_member}

pub record WebSocketConfig : Type 0 where
  pub max_frame_payload_bytes : ℕ
  pub max_message_bytes : ℕ
  pub max_inbound_messages : ℕ
  pub max_inbound_bytes : ℕ
  pub max_outbound_commands : ℕ
  pub max_outbound_bytes : ℕ
  pub receive_chunk_bytes : ℕ
  pub write_chunk_bytes : ℕ
  pub max_connections : ℕ

-- Whether `__post_init__` raises nothing.
unfoldable pub is_valid_config : WebSocketConfig → Bool
is_valid_config c =
    not (c.max_frame_payload_bytes == 0)
    && not (c.max_message_bytes == 0)
    && not (c.max_inbound_messages == 0)
    && not (c.max_inbound_bytes == 0)
    && not (c.max_outbound_commands == 0)
    && not (c.max_outbound_bytes == 0)
    && not (c.receive_chunk_bytes == 0)
    && not (c.write_chunk_bytes == 0)
    && not (c.max_connections == 0)
    && not (ltb c.max_message_bytes c.max_frame_payload_bytes)

-- str.isspace on an ISO-8859-1 character.
abbrev pub is_space : ℕ → Bool
is_space c = within 9 13 c || within 28 32 c || c == 0x85 || c == 0xA0

unfoldable pub strip_end : Text → Text
strip_end [] = []
strip_end (c ∷ s) = let rest = strip_end s in if is_space c && is_nil rest then [] else c ∷ rest

unfoldable pub strip_start : Text → Text
strip_start [] = []
strip_start (c ∷ s) = let rest = strip_start s in if is_space c then rest else c ∷ s

abbrev pub onto_first : ℕ → List Text → List Text
onto_first c [] = (c ∷ []) ∷ []
onto_first c (p ∷ ps) = (c ∷ p) ∷ ps

-- s.split(",")
unfoldable pub split_commas : Text → List Text
split_commas [] = [] ∷ []
split_commas (c ∷ s) =
    let rest = split_commas s in if c == b',' then [] ∷ rest else onto_first c rest

-- The pieces without the space around them, and without the empty ones.
unfoldable pub stripped : List Text → List Text
unfolding strip_start strip_end
stripped [] = []
stripped (p ∷ ps) =
    let rest = stripped ps in
    let token = strip_end (strip_start p) in if is_nil token then rest else token ∷ rest

-- `_token_list`
unfoldable pub token_list : Option Text → List Text
unfolding stripped split_commas
token_list none = []
token_list (some value) = stripped (split_commas value)

-- Whether "upgrade" is among the tokens, in any case of its letters.
unfoldable pub has_upgrade : List Text → Bool
unfolding text_equal lower
has_upgrade [] = false
has_upgrade (t ∷ ts) = text_equal (lower t) (codes "upgrade") || has_upgrade ts

abbrev pub given : Option Text → Bool
given value = not (is_nil (text_or value))

-- request.headers.get(name)
abbrev pub header : Request → String → Option Text
header r name = Headers.get r.headers (codes name)

-- `_is_upgrade_attempt`
unfoldable pub is_upgrade_attempt : Request → Bool
is_upgrade_attempt r =
    given (header r "upgrade")
    || given (header r "sec-websocket-key")
    || given (header r "sec-websocket-version")
    || has_upgrade (token_list (header r "connection"))

-- What the code uses of base64: the length of a decoded text, where it is valid.
pub record Base64 : Type 0 where
  pub decoded_length : Text → Option ℕ

-- `_valid_websocket_key`
unfoldable pub valid_websocket_key : Base64 → Option Text → Bool
unfolding every
valid_websocket_key base64 none = false
valid_websocket_key base64 (some value) =
    every (λ c. ltb c 0x80) value
    && (elim (base64.decoded_length value) [ none ↦ false | some n ↦ n == 16 ])

unfoldable pub all_tokens : List Text → Bool
unfolding is_token
all_tokens [] = true
all_tokens (t ∷ ts) = is_token t && all_tokens ts

-- The route's allowed origins; `none` allows every one.
unfoldable pub allows_origin : Option (List Text) → Option Text → Bool
unfolding is_member
allows_origin none origin = true
allows_origin (some origins) none = false
allows_origin (some origins) (some origin) = is_member origin origins

-- The refusals of `_validate_upgrade`, and their statuses.
pub data Refusal : Type 0 where
  not_get not_http1 has_body bad_upgrade bad_connection : Refusal
  unsupported_version bad_key bad_subprotocol origin_not_allowed : Refusal

abbrev pub status : Refusal → ℕ
status unsupported_version = 426
status origin_not_allowed = 403
status _ = 400

abbrev pub is_some : Option Text → Bool
is_some none = false
is_some (some _) = true

-- `_validate_upgrade`: the refusal, if there is one.
unfoldable pub validate_upgrade : Base64 → Request → Option (List Text) → Option Refusal
validate_upgrade base64 r origins =
    let offered = token_list (header r "sec-websocket-protocol") in
    if not (text_equal (upper r.method) (codes "GET"))
    then some not_get
    else if not (text_equal r.version (codes "HTTP/1.1"))
    then some not_http1
    else if not (is_nil r.body)
    then some has_body
    else if not (text_equal (lower (text_or (header r "upgrade"))) (codes "websocket"))
    then some bad_upgrade
    else if not (has_upgrade (token_list (header r "connection")))
    then some bad_connection
    else if not (text_equal (text_or (header r "sec-websocket-version")) (codes "13"))
    then some unsupported_version
    else if not (valid_websocket_key base64 (header r "sec-websocket-key"))
    then some bad_key
    else if is_some (header r "sec-websocket-protocol")
        && (is_nil offered || not (all_tokens offered))
    then some bad_subprotocol
    else if not (allows_origin origins (header r "origin"))
    then some origin_not_allowed
    else none
