-- ===== src/Routing/Resolve.antt =====
-- `Router.resolve` of smallserver/routing.py.
use small_server.Prelude.{
  ℕ, ◌+◌, ◌-◌, not, Option, none, some, List, [], ◌∷◌, ltb, leb, if◌then◌else◌, is_nil, length, min,
  Result, ok, err, ◌>>=◌,
}
use small_server.Prelude.Dict
use small_server.Prelude.Dict.{Dict}
use small_server.Prelude.Text.{Text, text_eq, text_equal, every, upper}
use small_server.Routing.Router.{
  Engine, RegexRouteConfig, RouteError, path_not_ascii, path_too_large, match_timeout, RegexRoute,
  Router, RouteMatch, key_eq, static_handler, sorted, captured,
}

unfoldable pub validate_path : RegexRouteConfig → Text → Result RouteError (Unit {0})
unfolding every
validate_path config path =
    if not (every (λ c. ltb c 0x80) path)
    then err path_not_ascii
    else if ltb config.max_path_bytes (length path)
    then err path_too_large
    else ok tt

-- What the first loop of `resolve` leaves: the answer, or for each route its cached match, `none`
-- where the route was not tried.
pub data Tried (e : Engine) (Handler : Type 0) : Type 0 where
  found : RouteMatch Handler → Tried e Handler
  missed : List (Option (Option (Engine.Match e))) → Tried e Handler

abbrev add_all : List Text → List Text → List Text
add_all [] allowed = allowed
add_all (m ∷ ms) allowed = add_all ms (Dict.add m allowed)

-- The methods of the static routes at a path.
unfoldable pub static_methods : {Handler : Type 0} → Dict (Text × Text) Handler → Text → List Text
unfolding text_equal
static_methods [] path = []
static_methods (((m, p), h) ∷ static) path =
    let rest = static_methods static path in if text_equal p path then m ∷ rest else rest

abbrev pub not_matched : {Handler : Type 0} → List Text → RouteMatch Handler
not_matched allowed = record {
  handler = none;
  path_params = [];
  route_pattern = none;
  allowed_methods = sorted allowed;
}

-- What follows a call that may raise.
abbrev with_match {ℓ κ} :
    {A : Type ℓ} {B : Type κ} {W : Type 0}
    → Result RouteError A × W
    → (A → W → Result RouteError B × W)
    → Result RouteError B × W
with_match (err x, w) k = (err x, w)
with_match (ok m, w) k = k m w

module _ {e : Engine} {Handler : Type 0} where
  -- `_match`
  unfoldable pub match_route :
      RegexRouteConfig
      → RegexRoute e Handler
      → Text
      → ℕ
      → e.World
      → Result RouteError (Option e.Match) × e.World
  match_route config route path deadline w =
      let (now, w₁) = e.monotonic w in
      let (matched, w₂) =
        e.fullmatch route.compiled path (min config.match_timeout (deadline - now)) w₁ in
      if leb deadline now
      then (err (match_timeout route.route_id), w₁)
      else elim matched [ none ↦ (err (match_timeout route.route_id), w₂) | some m ↦ (ok m, w₂) ]

  abbrev keep_missed : Option (Option e.Match) → Tried e Handler → Tried e Handler
  keep_missed m (found r) = found r
  keep_missed m (missed ms) = missed (m ∷ ms)

  abbrev matched_by : RegexRoute e Handler → Handler → e.Match → RouteMatch Handler
  matched_by route handler m = record {
    handler = some handler;
    path_params = captured (e.groupdict m);
    route_pattern = some route.pattern;
    allowed_methods = [];
  }

  unfoldable pub try_routes :
      RegexRouteConfig
      → Text
      → Text
      → ℕ
      → List (RegexRoute e Handler)
      → e.World
      → Result RouteError (Tried e Handler) × e.World
  unfolding match_route captured
  try_routes config method path deadline [] w = (ok (missed []), w)
  try_routes config method path deadline (route ∷ routes) w =
      elim (Dict.get method route.handlers) [
        | none ↦
            let rest = try_routes config method path deadline routes w in
            (rest.0 >>= λ t. ok (keep_missed none t), rest.1)
        | some handler ↦ with_match (match_route config route path deadline w) (λ m. λ w'. elim m [
          | some m ↦ (ok (found (matched_by route handler m)), w')
          | none ↦
              let rest = try_routes config method path deadline routes w' in
              (rest.0 >>= λ t. ok (keep_missed (some none) t), rest.1)
        ])
      ]

  abbrev allow : RegexRoute e Handler → Option e.Match → List Text → List Text
  allow route none allowed = allowed
  allow route (some m) allowed = add_all (Dict.keys route.handlers) allowed

  -- A match from the cache, or a new one.
  abbrev cached_match :
      RegexRouteConfig
      → RegexRoute e Handler
      → Text
      → ℕ
      → Option (Option e.Match)
      → e.World
      → Result RouteError (Option e.Match) × e.World
  cached_match config route path deadline none w = match_route config route path deadline w
  cached_match config route path deadline (some m) w = (ok m, w)

  -- The second loop of `resolve`.
  unfoldable pub collect_allowed :
      RegexRouteConfig
      → Text
      → ℕ
      → List (RegexRoute e Handler)
      → List (Option (Option e.Match))
      → List Text
      → e.World
      → Result RouteError (List Text) × e.World
  unfolding match_route
  collect_allowed config path deadline (route ∷ routes) (cached ∷ cache) allowed w =
      with_match (cached_match config route path deadline cached w)
        (λ m. collect_allowed config path deadline routes cache (allow route m allowed))
  collect_allowed config path deadline _ _ allowed w = (ok allowed, w)

  unfoldable pub resolve_allowed :
      Router e Handler
      → Text
      → ℕ
      → Result RouteError (Tried e Handler) × e.World
      → Result RouteError (RouteMatch Handler) × e.World
  unfolding collect_allowed static_methods sorted
  resolve_allowed r path deadline (err x, w) = (err x, w)
  resolve_allowed r path deadline (ok (found m), w) = (ok m, w)
  resolve_allowed r path deadline (ok (missed cache), w) =
      let (allowed, w') =
        collect_allowed r.regex_config path deadline r.regex cache (static_methods r.static path)
          w in
      (allowed >>= λ ms. ok (not_matched ms), w')

  -- `resolve` behind the static routes, where there are regex routes.
  unfoldable pub resolve_regex :
      Router e Handler → Text → Text → e.World → Result RouteError (RouteMatch Handler) × e.World
  unfolding resolve_allowed try_routes validate_path
  resolve_regex r method path w =
      let (now, w') = e.monotonic w in
      let deadline = now + r.regex_config.total_match_timeout in
      elim (validate_path r.regex_config path) [
        | err x ↦ (err x, w)
        | ok _ ↦
            resolve_allowed r path deadline
              (try_routes r.regex_config method path deadline r.regex w')
      ]

  unfoldable pub resolve :
      Router e Handler → Text → Text → e.World → Result RouteError (RouteMatch Handler) × e.World
  unfolding resolve_regex upper static_methods sorted
  resolve r method path w = elim (static_handler r method path) [
    | some handler ↦ (
      ok (record {
        handler = some handler;
        path_params = [];
        route_pattern = some path;
        allowed_methods = [];
      }),
      w,
    )
    | none ↦
        if is_nil r.regex
        then (ok (not_matched (static_methods r.static path)), w)
        else resolve_regex r (upper method) path w
  ]
