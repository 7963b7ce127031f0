-- ===== src/Http/Request/Replacing.antt =====
-- `dataclasses.replace` runs `__post_init__` of `Request` again, on fields that it has settled before.
use small_server.Prelude.{
  ◌≡◌, refl, sym, subst, Bool, true, false, not, ◌||◌, Option, none, some, if◌then◌else◌, Result,
  returned, ok_inj, err_ne_ok, ok, err, arith,
}
use small_server.Prelude.Dict.{Dict}
use small_server.Prelude.Text.{Text, codes, text_equal, text_equal_iff, starts_with, partition}
use small_server.Http.Headers.{is_token}
use small_server.Http.Request.{
  Request, text_or, target_of, full_target, settle_raw, settle_target, check_path, post_init,
}

-- A request whose fields come from its target.
record Settled (r : Request) : Type 0 where
  raw : Text
  given : r.raw_target ≡ some raw
  method_ok : is_token r.method ≡ true
  target_slash : starts_with raw (codes "/") ≡ true
  path_is : text_equal r.path (partition b'?' raw).0 ≡ true
  query_is : text_equal r.query_string (text_or (partition b'?' raw).1) ≡ true
  path_slash : starts_with r.path (codes "/") ≡ true

-- A test that a result has passed.
kept :
    {E A : Type 0} (b : Bool) (e : E) (m : Result E A) {a : A}
    → (if b then err e else m) ≡ ok a
    → (b ≡ false) × (m ≡ ok a)
kept true e m h = absurd (err_ne_ok h)
kept false e m h = (refl, h)

test_passed : (b : Bool) → not b ≡ false → b ≡ true
test_passed b h = ground arith

both : (a b : Bool) → not a || not b ≡ false → (a ≡ true) × (b ≡ true)
both a b h = ground arith

equal_self : (t : Text) → text_equal t t ≡ true
equal_self t = (text_equal_iff t t).1 refl

module _ (a : Request) (method_ok : is_token a.method ≡ true) where
  abbrev parts : Text → Text × Option Text
  parts target = partition b'?' target

  -- The fields that the settling leaves.
  settle_raw-Settled :
      (o : Option Text) {r : Request}
      → a.raw_target ≡ o
      → starts_with (target_of o a) (codes "/") ≡ true
      → settle_raw o a (target_of o a) (parts (target_of o a)).0 (text_or (parts (target_of o a)).1)
        ≡ ok r
      → starts_with r.path (codes "/") ≡ true
      → Settled r
  settle_raw-Settled none {r} o t h p =
      let target = target_of none a in
      let given = kept _ _ _ h in
      subst Settled (ok_inj given.1) (record {
        raw = target;
        given = refl;
        method_ok = method_ok;
        target_slash = t;
        path_is = equal_self (parts target).0;
        query_is = equal_self (text_or (parts target).1);
        path_slash =
            subst (λ q. starts_with (Request.path q) (codes "/") ≡ true) (sym (ok_inj given.1)) p;
      })
  settle_raw-Settled (some raw) {r} o t h p =
      let given = kept _ _ _ h in
      let same =
        both (text_equal a.path (parts raw).0) (text_equal a.query_string (text_or (parts raw).1))
          given.0 in
      subst Settled (ok_inj given.1) (record {
        raw = raw;
        given = o;
        method_ok = method_ok;
        target_slash = t;
        path_is = same.0;
        query_is = same.1;
        path_slash =
            subst (λ q. starts_with (Request.path q) (codes "/") ≡ true) (sym (ok_inj given.1)) p;
      })

post_init-Settled : (a r : Request) → post_init a ≡ ok r → Settled r
unfolding post_init full_target settle_target check_path
post_init-Settled a r h =
    let one = kept _ _ _ h in
    let two = kept _ _ _ one.1 in
    let (q, settled, last) =
      returned (settle_raw a.raw_target a (target_of a.raw_target a) _ _) two.1 in
    let three = kept (not (starts_with q.path (codes "/"))) _ _ last in
    subst Settled (ok_inj three.1) (
      settle_raw-Settled a (test_passed (is_token a.method) one.0) a.raw_target refl
        (test_passed (starts_with (target_of a.raw_target a) (codes "/")) two.0) settled
        (test_passed (starts_with q.path (codes "/")) three.0))

replaced :
    (r : Request) (params : Dict Text Text) (pattern : Option Text)
    → Settled r
    → post_init (record r { path_params = params; route_pattern = pattern })
      ≡ ok (record r { path_params = params; route_pattern = pattern })
unfolding post_init full_target settle_target check_path
replaced r params pattern s =
    rw (s.given, s.method_ok, s.target_slash, s.path_is, s.query_is, s.path_slash) refl

-- A request that has been constructed can be replaced with other path parameters and another route
-- pattern, as `dispatch` does: the construction that runs again raises nothing and leaves the other
-- fields as they are.
pub post_init-replace :
    (a r : Request) (params : Dict Text Text) (pattern : Option Text)
    → post_init a ≡ ok r
    → post_init (record r { path_params = params; route_pattern = pattern })
      ≡ ok (record r { path_params = params; route_pattern = pattern })
post_init-replace a r params pattern h = replaced r params pattern (post_init-Settled a r h)
