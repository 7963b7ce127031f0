-- ===== src/App/Serving.antt =====
-- A route that `route` registers is the one that `dispatch` serves.
mod Tests
use small_server.Prelude.{
  ℕ, ◌≡◌, refl, sym, ap, subst, ◌∙◌, Bool, true, false, not, ◌||◌, Option, none, some, inl, inr,
  List, [], ◌∷◌, if◌then◌else◌, Bool-cases, Result, returned, ok_inj, err_ne_ok, ok, err, ◌>>=◌,
  arith,
}
use small_server.Prelude.Dict
use small_server.Prelude.Dict.{Dict}
use small_server.Prelude.Text.{Text, text_eq, codes, starts_with, has_char, upper, text_equal_iff}
use small_server.Http.Request
use small_server.Http.Request.{Request}
use small_server.Http.Request.Replacing.{post_init-replace}
use small_server.Routing.Router.{
  Engine, Router, RouteError, normalize_methods, add_static, static_handler, key_eq,
}
use small_server.Routing.Static.{after_registration, add_static-lookup}
use small_server.App.Dispatch.{
  RegisterError, or_refused, refused, route, Answer, DispatchError, conclude, is_plain,
  plain_request, run_on, dispatch_to, dispatch,
}

accepted :
    {E A : Type 0} (b : Bool) (x : E) (m : Result E A) {a : A}
    → (if b then err x else m) ≡ ok a
    → m ≡ ok a
accepted true x m h = absurd (err_ne_ok h)
accepted false x m h = h

or_refused-ok : {A : Type 0} (m : Result RouteError A) {a : A} → or_refused m ≡ ok a → m ≡ ok a
or_refused-ok (ok b) h = ap ok (ok_inj h)
or_refused-ok (err x) h = absurd (err_ne_ok h)

-- What a request becomes for a static route.
abbrev pub without_params : Request → Request
without_params r = record r { path_params = []; route_pattern = none }

plain_request-ok :
    (a r : Request) → Request.post_init a ≡ ok r → plain_request r ≡ ok (without_params r)
unfolding plain_request
plain_request-ok a r h = by_params r.path_params r.route_pattern refl refl
  where
    given : Dict Text Text → Option Text → Request
    given d o = record r { path_params = d; route_pattern = o }

    by_params :
        (params : Dict Text Text) (pattern : Option Text)
        → r.path_params ≡ params
        → r.route_pattern ≡ pattern
        → (if is_plain params pattern then ok r else Request.post_init (without_params r))
          ≡ ok (without_params r)
    by_params [] none p q = ap (λ d. ok (given d r.route_pattern)) p ∙ ap (λ o. ok (given [] o)) q
    by_params (x ∷ params) none p q = post_init-replace a r [] none h
    by_params params (some o) p q = post_init-replace a r [] none h

module _ {e : Engine} {Handler : Type 0} where
  route-add_static :
      (router router' : Router e Handler) (path : Text) (methods ms : List Text) (handler : Handler)
      → route router path methods handler ≡ ok router'
      → normalize_methods methods ≡ ok ms
      → add_static router path ms handler ≡ ok router'
  unfolding route
  route-add_static router router' path methods ms handler registered normal =
      let put =
        or_refused-ok (normalize_methods methods >>= λ ns. add_static router path ns handler) (
          accepted (has_char b'?' path || has_char b'#' path) RegisterError.path_query _ (
            accepted (not (starts_with path (codes "/"))) RegisterError.path_slash _ registered)) in
      ap (λ m. m >>= λ ns. add_static router path ns handler) (sym normal) ∙ put

  -- A route that has been registered is served: a constructed request with its path and one of its
  -- methods, in any case, is handed to its handler once, with no path parameters and no route pattern
  -- and its other fields as they were, and the dispatch ends as the handler does; no pattern is tried
  -- and no other handler is run.
  pub dispatch-route :
      (run : Handler → Request → e.World → Answer × e.World) (router router' : Router e Handler)
      (path : Text) (methods ms : List Text) (handler : Handler) (a r : Request) (w : e.World)
      → route router path methods handler ≡ ok router'
      → normalize_methods methods ≡ ok ms
      → Request.post_init a ≡ ok r
      → r.path ≡ path
      → Dict.contains (upper r.method) ms ≡ true
      → dispatch e run router' r w ≡ conclude (run handler (without_params r) w)
  unfolding dispatch
  dispatch-route run router router' path methods ms handler a r w registered normal valid here
        named =
      ap (λ o. dispatch_to e run router' r o w) found
      ∙ ap (λ q. run_on e run handler q w) (plain_request-ok a r valid)
    where
      found : static_handler router' r.method r.path ≡ some handler
      found =
          (add_static-lookup router router' path ms handler
              (route-add_static router router' path methods ms handler registered normal)).1
            (upper r.method) r.path
          ∙ (rw (named, (text_equal_iff path r.path).1 (sym here)) refl)
