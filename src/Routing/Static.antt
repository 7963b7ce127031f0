-- ===== src/Routing/Static.antt =====
-- Registering static routes, against what `static_handler` and `resolve` find afterwards.
use small_server.Prelude.{
  ◌≡◌, refl, ap, ◌∙◌, Bool, true, false, ◌&&◌, Option, none, some, inl, inr, List, [], ◌∷◌, All,
  if◌then◌else◌, Bool-cases, Option-cases, Result, ok, err, arith,
}
use small_server.Prelude.Dict
use small_server.Prelude.Dict.{Dict, get-put}
use small_server.Prelude.Text.{Text, text_eq, text_equal, text_equal_iff, upper}
use small_server.Routing.Router.{
  Engine, Router, RouteError, already_registered, key_equal, key_eq, any_registered, put_static,
  add_static,
}
use small_server.Routing.Resolve.{resolve}

-- What a key finds once a handler is registered for the methods at a path.
abbrev pub after_registration :
    {Handler : Type 0}
    → Dict (Text × Text) Handler
    → Text
    → List Text
    → Handler
    → Text
    → Text
    → Option Handler
after_registration static path methods handler method p =
    if Dict.contains method methods && text_equal path p
    then some handler
    else Dict.get (method, p) static

choose :
    {A : Type 0} (d b c : Bool) (x y : A)
    → (if d && c then x else (if b && c then x else y))
      ≡ (if (if b then true else d) && c then x else y)
choose true true c x y = ground arith
choose true false c x y = refl
choose false true c x y = refl
choose false false c x y = refl

module _ {Handler : Type 0} (path : Text) (handler : Handler) where
  written :
      (m method p : Text) (static : Dict (Text × Text) Handler)
      → Dict.get (method, p) (Dict.put (m, path) handler static) ≡ (
          if text_equal m method && text_equal path p
          then some handler
          else Dict.get (method, p) static)
  unfolding key_equal
  written m method p static = get-put (m, path) (method, p) handler static

  get-put_static :
      (static : Dict (Text × Text) Handler) (methods : List Text) (method p : Text)
      → Dict.get (method, p) (put_static static path methods handler)
        ≡ after_registration static path methods handler method p
  unfolding put_static Dict.contains
  get-put_static static [] method p = refl
  get-put_static static (m ∷ ms) method p =
      get-put_static (Dict.put (m, path) handler static) ms method p
      ∙ ap (λ o. if Dict.contains method ms && text_equal path p then some handler else o)
          (written m method p static)
      ∙ choose (Dict.contains method ms) (text_equal m method) (text_equal path p) (some handler)
          (Dict.get (method, p) static)

  none_registered :
      (static : Dict (Text × Text) Handler) (methods : List Text)
      → any_registered static path methods ≡ false
      → All (λ m. Dict.get (m, path) static ≡ none) methods
  unfolding any_registered
  none_registered static [] h = tt
  none_registered static (m ∷ ms) h = elim (Option-cases (Dict.get (m, path) static)) [
    | inl free ↦ (free, none_registered static ms (rw (free, any_registered) at h))
    | inr (f, taken) ↦ absurd (true_ne (rw (taken, any_registered) at h))
  ]
    where
      true_ne : true ≡ false → ⊥
      true_ne p = cc

module _ {e : Engine} {Handler : Type 0} where
  -- A registration that succeeds has found none of its methods registered at the path, and
  -- afterwards every method and path finds the new handler, where it is one of those registered,
  -- and otherwise what it found before.
  pub add_static-lookup :
      (r r' : Router e Handler) (path : Text) (methods : List Text) (handler : Handler)
      → add_static r path methods handler ≡ ok r'
      → All (λ m. Dict.get (m, path) r.static ≡ none) methods
        × ((method p : Text)
            → Dict.get (method, p) r'.static
              ≡ after_registration r.static path methods handler method p)
  unfolding add_static
  add_static-lookup r r' path methods handler h =
      elim (Bool-cases (any_registered r.static path methods)) [
        | inl taken ↦ absurd (err_ne (rw taken at h))
        | inr free ↦ (
          none_registered path handler r.static methods free,
          λ method p.
              ap (λ s. Dict.get (method, p) s) (statics (rw free at h))
              ∙ get-put_static path handler r.static methods method p,
        )
      ]
    where
      err_ne : ◌≡◌ {A = Result RouteError (Router e Handler)} (err already_registered) (ok r') → ⊥
      err_ne p = cc

      statics :
          ◌≡◌ {A = Result RouteError (Router e Handler)}
            (ok (record r { static = put_static r.static path methods handler }))
            (ok r')
          → r'.static ≡ put_static r.static path methods handler
      statics p = cc

  -- A request for a method and a path that a registration names, in any case of the method's
  -- letters, is answered with the registered handler, and no pattern is tried.
  pub resolve-add_static :
      (r r' : Router e Handler) (path : Text) (methods : List Text) (handler : Handler)
      → add_static r path methods handler ≡ ok r'
      → (method : Text) (w : e.World) → Dict.contains (upper method) methods ≡ true
      → resolve r' method path w ≡ (
        ok (record {
          handler = some handler;
          path_params = [];
          route_pattern = some path;
          allowed_methods = [];
        }),
        w,
      )
  unfolding resolve
  resolve-add_static r r' path methods handler h method w named = rw (found, resolve) refl
    where
      found : Dict.get (upper method, path) r'.static ≡ some handler
      found =
          (add_static-lookup r r' path methods handler h).1 (upper method) path
          ∙ (rw (named, (text_equal_iff path path).1 refl) refl)
