-- ===== src/App/Dispatch.antt =====
-- The registration of a static route and `dispatch` of smallserver/app.py. Running a handler is a
-- parameter that acts on the engine's world.
use small_server.Prelude.{
  ℕ, Bool, true, false, not, ◌||◌, Option, none, some, List, [], ◌∷◌, ◌++◌, if◌then◌else◌, is_nil,
  Result, ok, err, ◌>>=◌,
}
use small_server.Prelude.Decimal.{decimal}
use small_server.Prelude.Dict.{Dict}
use small_server.Prelude.Text.{Text, codes, starts_with, has_char}
use small_server.Http.Request
use small_server.Http.Request.{Request, RequestError}
use small_server.Http.Response.{Response, TextError, text}
use small_server.Routing.Router.{
  Engine, Router, RouteMatch, RouteError, path_too_large, normalize_methods, add_static,
  static_handler,
}
use small_server.Routing.Resolve.{resolve}

pub data RegisterError : Type 0 where
  path_slash path_query : RegisterError
  refused : RouteError → RegisterError

abbrev pub or_refused : {A : Type 0} → Result RouteError A → Result RegisterError A
or_refused (ok a) = ok a
or_refused (err x) = err (refused x)

-- `route`, with the handler that the decorator is applied to.
unfoldable pub route :
    {e : Engine} {Handler : Type 0}
    → Router e Handler
    → Text
    → List Text
    → Handler
    → Result RegisterError (Router e Handler)
route router path methods handler =
    if not (starts_with path (codes "/"))
    then err path_slash
    else if has_char b'?' path || has_char b'#' path
    then err path_query
    else or_refused (normalize_methods methods >>= λ ms. add_static router path ms handler)

-- How a handler ends: with a response, an HTTPError, another exception, or without what it should
-- return.
pub data Answer : Type 0 where
  responded : Response → Answer
  http_error : ℕ → Text → Answer
  other_error : ℕ → Answer
  not_awaitable no_response : Answer

-- What `dispatch` raises.
pub data DispatchError : Type 0 where
  route_error : RouteError → DispatchError
  request_error : RequestError → DispatchError
  text_error : TextError → DispatchError
  handler_error : ℕ → DispatchError
  handler_type : DispatchError

abbrev pub or_text :
    {W : Type 0} → Result TextError Response → W → Result DispatchError Response × W
or_text (ok r) w = (ok r, w)
or_text (err x) w = (err (text_error x), w)

-- exc.detail or "HTTP {}".format(exc.status)
abbrev pub error_text : ℕ → Text → Text
error_text status [] = codes "HTTP " ++ decimal status
error_text status (c ∷ cs) = c ∷ cs

-- What the handler's end makes of the dispatch.
unfoldable pub conclude : {W : Type 0} → Answer × W → Result DispatchError Response × W
conclude (responded r, w) = (ok r, w)
conclude (http_error status detail, w) = or_text (text (error_text status detail) status []) w
conclude (other_error x, w) = (err (handler_error x), w)
conclude (not_awaitable, w) = (err handler_type, w)
conclude (no_response, w) = (err handler_type, w)

-- ", ".join(methods)
abbrev pub join_methods : List Text → Text
join_methods [] = []
join_methods (m ∷ []) = m
join_methods (m ∷ n ∷ ms) = m ++ codes ", " ++ join_methods (n ∷ ms)

abbrev pub is_too_large : RouteError → Bool
is_too_large path_too_large = true
is_too_large _ = false

abbrev pub is_plain : Dict Text Text → Option Text → Bool
is_plain params none = is_nil params
is_plain params (some p) = false

-- A request for a static route loses the parameters of another.
unfoldable pub plain_request : Request → Result RequestError Request
plain_request r =
    let again = Request.post_init (record r { path_params = []; route_pattern = none }) in
    if is_plain r.path_params r.route_pattern then ok r else again

module _ (e : Engine) {Handler : Type 0}
    (run : Handler → Request → e.World → Answer × e.World) where
  abbrev pub run_on :
      Handler → Result RequestError Request → e.World → Result DispatchError Response × e.World
  run_on handler (ok r) w = conclude (run handler r w)
  run_on handler (err x) w = (err (request_error x), w)

  -- Without a handler: 405 where another method has one, and 404.
  abbrev pub unrouted : List Text → e.World → Result DispatchError Response × e.World
  unrouted [] w = or_text (text (codes "not found") 404 []) w
  unrouted (m ∷ ms) w =
      or_text (text (codes "method not allowed") 405 ((codes "Allow", join_methods (m ∷ ms)) ∷ []))
        w

  abbrev pub run_match :
      Request
      → RouteMatch Handler
      → Option Handler
      → e.World
      → Result DispatchError Response × e.World
  run_match r m none w = unrouted m.allowed_methods w
  run_match r m (some handler) w =
      run_on handler
        (Request.post_init
          (record r { path_params = m.path_params; route_pattern = m.route_pattern }))
        w

  abbrev pub resolved :
      Request
      → Result RouteError (RouteMatch Handler) × e.World
      → Result DispatchError Response × e.World
  resolved r (ok m, w) = run_match r m m.handler w
  resolved r (err x, w) =
      let large = or_text (text (codes "request target is too large") 414 []) w in
      if is_too_large x then large else (err (route_error x), w)

  abbrev pub dispatch_to :
      Router e Handler
      → Request
      → Option Handler
      → e.World
      → Result DispatchError Response × e.World
  dispatch_to router r (some handler) w = run_on handler (plain_request r) w
  dispatch_to router r none w = resolved r (resolve router r.method r.path w)

  -- `dispatch`
  unfoldable pub dispatch :
      Router e Handler → Request → e.World → Result DispatchError Response × e.World
  dispatch router r w = dispatch_to router r (static_handler router r.method r.path) w
