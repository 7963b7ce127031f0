-- ===== src/Server/Handle/Retained.antt =====
-- The failures that `ServerHandle` keeps belong to what it still owns: the dicts of the closing
-- connections, of the pending cancellations and of the cleanup errors, taken by themselves.
use small_server.Prelude.{ℕ, ◌≡◌, refl, sym, Bool, true, false, not, ◌&&◌, ◌∙◌, ◌==◌, [], arith}
use small_server.Prelude.Dict
use small_server.Prelude.Dict.{
  Dict, IsUnique, IsUnique-put, IsUnique-remove, has, has-put, has-remove, has-remove_ne, nat_eq,
}
use small_server.Server.Handle.{
  Objects, Resource, of_connection, of_task, resource_eq, same_resource, Failure,
}

-- Every connection and every task that waits for a retry has the failure of its last attempt.
pub record Retained (closing pending : Objects) (errors : Dict Resource Failure) : Type 0 where
  pub closing_unique : IsUnique closing
  pub pending_unique : IsUnique pending
  pub closing_failed : (i : ℕ) → has i closing ≡ true → has (of_connection i) errors ≡ true
  pub pending_failed : (t : ℕ) → has t pending ≡ true → has (of_task t) errors ≡ true

pub Retained-none : (errors : Dict Resource Failure) → Retained [] [] errors
unfolding has Dict.get
Retained-none errors = record {
  closing_unique = tt;
  pending_unique = tt;
  closing_failed = λ i h. absurd (clash h);
  pending_failed = λ t h. absurd (clash h);
}
  where
    clash : false ≡ true → ⊥
    clash p = cc

others : (a b : Bool) → not a && b ≡ true → (a ≡ false) × (b ≡ true)
others a b h = ground arith

module _ (c p : Objects) (e : Dict Resource Failure) (v : Retained c p e) where
  kept_put : (r q : Resource) (x : Failure) → has r e ≡ true → has r (Dict.put q x e) ≡ true
  kept_put r q x h = ground (arith, has-put q r x e)

  new_put : (r : Resource) (x : Failure) → has r (Dict.put r x e) ≡ true
  new_put r x = ground (arith, has-put r r x e, resource_eq.equal_iff r r)

  kept_drop :
      (r q : Resource) → same_resource q r ≡ false → has r e ≡ true → has r (Dict.remove q e) ≡ true
  kept_drop r q n h = ground (arith, has-remove_ne q r e n)

  pub Retained-put : (r : Resource) (x : Failure) → Retained c p (Dict.put r x e)
  Retained-put r x = record {
    closing_unique = v.closing_unique;
    pending_unique = v.pending_unique;
    closing_failed = λ i h. kept_put (of_connection i) r x (v.closing_failed i h);
    pending_failed = λ t h. kept_put (of_task t) r x (v.pending_failed t h);
  }

  pub Retained-drop :
      (r : Resource)
      → ((i : ℕ) → same_resource r (of_connection i) ≡ false)
      → ((t : ℕ) → same_resource r (of_task t) ≡ false)
      → Retained c p (Dict.remove r e)
  Retained-drop r n m = record {
    closing_unique = v.closing_unique;
    pending_unique = v.pending_unique;
    closing_failed = λ i h. kept_drop (of_connection i) r (n i) (v.closing_failed i h);
    pending_failed = λ t h. kept_drop (of_task t) r (m t) (v.pending_failed t h);
  }

  pub Retained-retain :
      (i : ℕ) (x : Failure) → Retained (Dict.put i tt c) p (Dict.put (of_connection i) x e)
  Retained-retain i x = record {
    closing_unique = IsUnique-put i tt c v.closing_unique;
    pending_unique = v.pending_unique;
    closing_failed = λ j h. ground (
      arith,
      h,
      has-put i j tt c,
      v.closing_failed j,
      has-put (of_connection i) (of_connection j) x e,
    );
    pending_failed = λ t h. kept_put (of_task t) (of_connection i) x (v.pending_failed t h);
  }

  pub Retained-closed : (i : ℕ) → Retained (Dict.remove i c) p (Dict.remove (of_connection i) e)
  Retained-closed i = record {
    closing_unique = IsUnique-remove i c v.closing_unique;
    pending_unique = v.pending_unique;
    closing_failed = λ j h.
        let both = others (i == j) (has j c) (sym (has-remove i j c v.closing_unique) ∙ h) in
        kept_drop (of_connection j) (of_connection i) both.0 (v.closing_failed j both.1);
    pending_failed = λ t h. kept_drop (of_task t) (of_connection i) refl (v.pending_failed t h);
  }

  pub Retained-pending :
      (t : ℕ) (x : Failure) → Retained c (Dict.put t tt p) (Dict.put (of_task t) x e)
  Retained-pending t x = record {
    closing_unique = v.closing_unique;
    pending_unique = IsUnique-put t tt p v.pending_unique;
    closing_failed = λ i h. kept_put (of_connection i) (of_task t) x (v.closing_failed i h);
    pending_failed = λ u h.
        ground
          (arith, h, has-put t u tt p, v.pending_failed u, has-put (of_task t) (of_task u) x e);
  }

  pub Retained-cancelled : (t : ℕ) → Retained c (Dict.remove t p) (Dict.remove (of_task t) e)
  Retained-cancelled t = record {
    closing_unique = v.closing_unique;
    pending_unique = IsUnique-remove t p v.pending_unique;
    closing_failed = λ i h. kept_drop (of_connection i) (of_task t) refl (v.closing_failed i h);
    pending_failed = λ u h.
        let both = others (t == u) (has u p) (sym (has-remove t u p v.pending_unique) ∙ h) in
        kept_drop (of_task u) (of_task t) both.0 (v.pending_failed u both.1);
  }
