-- ===== src/WebSocket/Upgrade/Accepting.antt =====
-- Which requests `_validate_upgrade` accepts: those of the opening handshake of RFC 6455.
use small_server.Prelude.{
  ℕ, ◌≡◌, ◌≢◌, ◌↔◌, refl, true, false, not, ◌&&◌, ◌||◌, ◌⊎◌, Option, none, some, List, [], ◌∷◌, All,
  ltb, ◌<◌, ◌==◌, ==_iff, is_nil, arith,
}
use small_server.Prelude.Text.{Text, codes, text_equal, text_equal_iff, every, lower, upper}
use small_server.Http.Headers.{is_token}
use small_server.Http.Request.{Request, text_or}
use small_server.Http2.RequestHeaders.{is_member}
use small_server.WebSocket.Upgrade.{
  Base64, has_upgrade, token_list, valid_websocket_key, all_tokens, allows_origin, header, is_some,
  validate_upgrade,
}

-- Some token is "upgrade", in any case of its letters.
abbrev pub NamesUpgrade : List Text → Type 0
NamesUpgrade [] = ⊥
NamesUpgrade (t ∷ ts) = (lower t ≡ codes "upgrade") ⊎ NamesUpgrade ts

-- Subprotocols are offered as a list of tokens that is not empty, or not at all.
abbrev pub Offers : Option Text → Type 0
Offers none = Unit
Offers (some value) =
    (token_list (some value) ≢ []) × All (λ t. is_token t ≡ true) (token_list (some value))

abbrev pub Allows : Option (List Text) → Option Text → Type 0
Allows none origin = Unit
Allows (some origins) none = ⊥
Allows (some origins) (some origin) = is_member origin origins ≡ true

-- A header that is given, with a property of its value.
abbrev pub Given : (Text → Type 0) → Option Text → Type 0
Given P none = ⊥
Given P (some value) = P value

-- A key of ASCII characters that decodes to 16 bytes.
abbrev pub IsKey : Base64 → Text → Type 0
IsKey base64 value = All (λ c. c < 128) value × (base64.decoded_length value ≡ some 16)

pub record Upgradable (base64 : Base64) (r : Request) (origins : Option (List Text)) : Type 0 where
  pub by_get : upper r.method ≡ codes "GET"
  pub on_http1 : r.version ≡ codes "HTTP/1.1"
  pub no_body : r.body ≡ []
  pub to_websocket : Given (λ v. lower v ≡ codes "websocket") (header r "upgrade")
  pub connection : NamesUpgrade (token_list (header r "connection"))
  pub version : Given (λ v. v ≡ codes "13") (header r "sec-websocket-version")
  pub key : Given (IsKey base64) (header r "sec-websocket-key")
  pub subprotocols : Offers (header r "sec-websocket-protocol")
  pub origin : Allows origins (header r "origin")

is_nil_iff : (s : Text) → (is_nil s ≡ true) ↔ (s ≡ [])
is_nil_iff [] = ground arith
is_nil_iff (c ∷ s) = ground arith

every-ltb_iff : (s : Text) → (every (λ c. ltb c 0x80) s ≡ true) ↔ All (λ c. c < 128) s
unfolding every
every-ltb_iff [] = (λ h. tt, λ h. refl)
every-ltb_iff (c ∷ s) = ground (arith, every-ltb_iff s)

has_upgrade-NamesUpgrade : (ts : List Text) → (has_upgrade ts ≡ true) ↔ NamesUpgrade ts
unfolding has_upgrade
has_upgrade-NamesUpgrade [] = ground arith
has_upgrade-NamesUpgrade (t ∷ ts) =
    ground (arith, text_equal_iff (lower t) (codes "upgrade"), has_upgrade-NamesUpgrade ts)

all_tokens_iff : (ts : List Text) → (all_tokens ts ≡ true) ↔ All (λ t. is_token t ≡ true) ts
unfolding all_tokens
all_tokens_iff [] = (λ h. tt, λ h. refl)
all_tokens_iff (t ∷ ts) = ground (arith, all_tokens_iff ts)

upgrade_iff :
    (o : Option Text)
    → (text_equal (lower (text_or o)) (codes "websocket") ≡ true)
      ↔ Given (λ v. lower v ≡ codes "websocket") o
unfolding lower text_equal
upgrade_iff none = ground arith
upgrade_iff (some v) = text_equal_iff (lower v) (codes "websocket")

version_iff :
    (o : Option Text) → (text_equal (text_or o) (codes "13") ≡ true) ↔ Given (λ v. v ≡ codes "13") o
unfolding text_equal
version_iff none = ground arith
version_iff (some v) = text_equal_iff v (codes "13")

valid_websocket_key-IsKey :
    (base64 : Base64) (o : Option Text)
    → (valid_websocket_key base64 o ≡ true) ↔ Given (IsKey base64) o
unfolding valid_websocket_key
valid_websocket_key-IsKey base64 none = ground arith
valid_websocket_key-IsKey base64 (some v) = by_length (base64.decoded_length v)
  where
    by_length :
        (n : Option ℕ)
        → (every (λ c. ltb c 0x80) v && (elim n [ none ↦ false | some k ↦ k == 16 ]) ≡ true)
          ↔ (All (λ c. c < 128) v × (n ≡ some 16))
    by_length none = ground (arith, every-ltb_iff v)
    by_length (some k) = ground (arith, every-ltb_iff v, ==_iff k 16)

subprotocols-Offers :
    (o : Option Text)
    → (is_some o && (is_nil (token_list o) || not (all_tokens (token_list o))) ≡ false) ↔ Offers o
subprotocols-Offers none = (λ h. tt, λ h. refl)
subprotocols-Offers (some v) = by_tokens (token_list (some v))
  where
    by_tokens :
        (ts : List Text)
        → (is_nil ts || not (all_tokens ts) ≡ false) ↔ ((ts ≢ []) × All (λ t. is_token t ≡ true) ts)
    by_tokens [] = ground arith
    by_tokens (t ∷ ts) = ground (arith, all_tokens_iff (t ∷ ts))

allows_origin-Allows :
    (origins : Option (List Text)) (o : Option Text)
    → (allows_origin origins o ≡ true) ↔ Allows origins o
unfolding allows_origin
allows_origin-Allows none o = (λ h. tt, λ h. refl)
allows_origin-Allows (some origins) none = ground arith
allows_origin-Allows (some origins) (some o) = (λ h. h, λ h. h)

-- The tests of `_validate_upgrade`, all passed.
passed :
    (base64 : Base64) (r : Request) (origins : Option (List Text))
    → (validate_upgrade base64 r origins ≡ none) ↔ (
        (text_equal (upper r.method) (codes "GET") ≡ true)
        × (text_equal r.version (codes "HTTP/1.1") ≡ true)
        × (is_nil r.body ≡ true)
        × (text_equal (lower (text_or (header r "upgrade"))) (codes "websocket") ≡ true)
        × (has_upgrade (token_list (header r "connection")) ≡ true)
        × (text_equal (text_or (header r "sec-websocket-version")) (codes "13") ≡ true)
        × (valid_websocket_key base64 (header r "sec-websocket-key") ≡ true)
        × (is_some (header r "sec-websocket-protocol")
              && (is_nil (token_list (header r "sec-websocket-protocol"))
                  || not (all_tokens (token_list (header r "sec-websocket-protocol"))))
            ≡ false)
        × (allows_origin origins (header r "origin") ≡ true))
unfolding validate_upgrade
passed base64 r origins = ground arith

-- `_validate_upgrade` refuses nothing just where the request is an opening handshake: a GET in any
-- case of its letters on HTTP/1.1 with no body, with "websocket" in the Upgrade header, "upgrade"
-- among the tokens of the Connection header, version 13, a key of ASCII characters that decodes to 16
-- bytes, at least one subprotocol and only tokens where that header is given, and an origin that the
-- route allows.
pub validate_upgrade-Upgradable :
    (base64 : Base64) (r : Request) (origins : Option (List Text))
    → (validate_upgrade base64 r origins ≡ none) ↔ Upgradable base64 r origins
validate_upgrade-Upgradable base64 r origins = (there, back)
  where
    there : validate_upgrade base64 r origins ≡ none → Upgradable base64 r origins
    there h =
        let p = (passed base64 r origins).0 h in
        record {
          by_get = (text_equal_iff _ _).0 p.0;
          on_http1 = (text_equal_iff _ _).0 p.1;
          no_body = (is_nil_iff r.body).0 p.2;
          to_websocket = (upgrade_iff (header r "upgrade")).0 p.3;
          connection = (has_upgrade-NamesUpgrade (token_list (header r "connection"))).0 p.4;
          version = (version_iff (header r "sec-websocket-version")).0 p.5;
          key = (valid_websocket_key-IsKey base64 (header r "sec-websocket-key")).0 p.6;
          subprotocols = (subprotocols-Offers (header r "sec-websocket-protocol")).0 p.7;
          origin = (allows_origin-Allows origins (header r "origin")).0 p.8;
        }

    back : Upgradable base64 r origins → validate_upgrade base64 r origins ≡ none
    back u = (passed base64 r origins).1 (
      (text_equal_iff _ _).1 u.by_get,
      (text_equal_iff _ _).1 u.on_http1,
      (is_nil_iff r.body).1 u.no_body,
      (upgrade_iff (header r "upgrade")).1 u.to_websocket,
      (has_upgrade-NamesUpgrade (token_list (header r "connection"))).1 u.connection,
      (version_iff (header r "sec-websocket-version")).1 u.version,
      (valid_websocket_key-IsKey base64 (header r "sec-websocket-key")).1 u.key,
      (subprotocols-Offers (header r "sec-websocket-protocol")).1 u.subprotocols,
      (allows_origin-Allows origins (header r "origin")).1 u.origin,
    )
