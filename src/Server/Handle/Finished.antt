-- ===== src/Server/Handle/Finished.antt =====
-- What `_update_finished` makes of a handle: it is finished just where all is released.
use small_server.Prelude.{
  ℕ, ◌+◌, ◌≡◌, refl, sym, ap, subst, Bool, true, false, ◌&&◌, inl, inr, [], if◌then◌else◌, is_nil,
  Bool-cases, List, ◌∷◌, arith,
}
use small_server.Prelude.Dict.{nat_eq}
use small_server.Server.Handle.{Environment, ServerHandle, resource_eq, is_closed}
use small_server.Server.Handle.Release.{is_released, call_finalized, set_finished, update_finished}
use small_server.Server.Handle.Retained.{Retained, Retained-none}
use small_server.Server.Handle.Ownership.{Counts, calls, Keeps, to_notify}

-- What `_update_finished` finds where the handle has no more to do.
pub record Released {W : Type 0} (s : ServerHandle W) : Type 0 where
  pub requested : s.close_requested ≡ true
  pub no_wakeup : is_closed s.wakeup ≡ true
  pub no_listener : s.listener.closed ≡ true
  pub no_connections : s.connections ≡ []
  pub no_closing : s.closing_connections ≡ []
  pub no_pending : s.pending_task_cancellations ≡ []
  pub no_websockets : s.websocket_states ≡ []

both : (a b : Bool) → a && b ≡ true → (a ≡ true) × (b ≡ true)
both a b h = ground arith

is_nil_lem {ℓ} : {A : Type ℓ} (xs : List A) → is_nil xs ≡ true → xs ≡ []
is_nil_lem [] h = refl
is_nil_lem (x ∷ xs) h = absurd (clash h)
  where
    clash : false ≡ true → ⊥
    clash p = cc

module _ {W : Type 0} (env : Environment W) (count : W → ℕ) (counts : Counts env count) where
  pub is_released-Released : (s : ServerHandle W) → is_released env s ≡ true → Released s
  is_released-Released s h =
      let (h1, g) = both _ (is_nil s.websocket_states) h in
      let (h2, f) = both _ (is_nil s.pending_task_cancellations) h1 in
      let (h3, e) = both _ (is_nil s.closing_connections) h2 in
      let (h4, d) = both _ (is_nil s.connections) h3 in
      let (h5, c) = both _ s.listener.closed h4 in
      let (a, b) = both s.close_requested (is_closed s.wakeup) h5 in
      record {
        requested = a;
        no_wakeup = b;
        no_listener = c;
        no_connections = is_nil_lem s.connections d;
        no_closing = is_nil_lem s.closing_connections e;
        no_pending = is_nil_lem s.pending_task_cancellations f;
        no_websockets = is_nil_lem s.websocket_states g;
      }

  abbrev cleaned : ServerHandle W → ServerHandle W
  cleaned s = record s { finished = true; cleanup_errors = [] }

  nothing-Retained :
      (s : ServerHandle W)
      → Released s
      → Retained s.closing_connections s.pending_task_cancellations []
  nothing-Retained s released = rw (released.no_closing, released.no_pending) (Retained-none [])

  call_finalized-Keeps :
      (set : Bool) (s : ServerHandle W)
      → Released s
      → s.on_finalized ≡ set
      → Keeps count s (call_finalized env set (cleaned s))
  call_finalized-Keeps false s released q = record {
    account = λ i h. h;
    retained = λ v. nothing-Retained s released;
    notified = λ n h. refl;
    once = ap (λ b. count s.world + to_notify b) (sym q);
  }
  call_finalized-Keeps true s released q = record {
    account = λ i h. h;
    retained = λ v. nothing-Retained s released;
    notified = λ n h. refl;
    once = called;
  }
    where
      called : count (env.on_finalized s.world) + 0 ≡ calls count s
      called = omega (arith, counts.on_finalized s.world, ap to_notify q)

  finished-Keeps : (s : ServerHandle W) → Released s → Keeps count s (set_finished env true s)
  finished-Keeps s released = elim (Bool-cases s.finished) [
    | inl before ↦ subst (Keeps count s) (sym (ap choose before)) (record {
      account = λ i h. h;
      retained = λ v. nothing-Retained s released;
      notified = λ n h. n before;
      once = refl;
    })
    | inr first ↦
        subst (Keeps count s) (sym (ap choose first))
          (call_finalized-Keeps s.on_finalized s released refl)
  ]
    where
      choose : Bool → ServerHandle W
      choose b = if b then cleaned s else call_finalized env s.on_finalized (cleaned s)

  pub update_finished-Keeps : (s : ServerHandle W) → Keeps count s (update_finished env s)
  unfolding update_finished
  update_finished-Keeps s = elim (Bool-cases (is_released env s)) [
    | inl done ↦
        subst (λ b. Keeps count s (set_finished env b s)) (sym done)
          (finished-Keeps s (is_released-Released s done))
    | inr waits ↦
        subst (λ b. Keeps count s (set_finished env b s)) (sym waits)
          (record {
            account = λ i h. h;
            retained = λ v. v;
            notified = λ n h. absurd (clash h);
            once = refl;
          })
  ]
    where
      clash : false ≡ true → ⊥
      clash p = cc

  call_finalized-Released :
      (set : Bool) (s : ServerHandle W) → Released s → Released (call_finalized env set (cleaned s))
  call_finalized-Released false s r = record {
    requested = r.requested;
    no_wakeup = r.no_wakeup;
    no_listener = r.no_listener;
    no_connections = r.no_connections;
    no_closing = r.no_closing;
    no_pending = r.no_pending;
    no_websockets = r.no_websockets;
  }
  call_finalized-Released true s r = record {
    requested = r.requested;
    no_wakeup = r.no_wakeup;
    no_listener = r.no_listener;
    no_connections = r.no_connections;
    no_closing = r.no_closing;
    no_pending = r.no_pending;
    no_websockets = r.no_websockets;
  }

  cleaned-Released : (s : ServerHandle W) → Released s → Released (cleaned s)
  cleaned-Released s r = record {
    requested = r.requested;
    no_wakeup = r.no_wakeup;
    no_listener = r.no_listener;
    no_connections = r.no_connections;
    no_closing = r.no_closing;
    no_pending = r.no_pending;
    no_websockets = r.no_websockets;
  }

  Released-if :
      (b : Bool) (r q : ServerHandle W) → Released r → Released q → Released (if b then r else q)
  Released-if true r q a b = a
  Released-if false r q a b = b

  -- What `_update_finished` calls finished is released.
  pub update_finished-Released :
      (s : ServerHandle W)
      → (update_finished env s).finished ≡ true
      → Released (update_finished env s)
  unfolding update_finished
  update_finished-Released s h = by_test (is_released env s) refl h
    where
      clash : false ≡ true → ⊥
      clash p = cc

      by_test :
          (b : Bool)
          → is_released env s ≡ b
          → (set_finished env b s).finished ≡ true
          → Released (set_finished env b s)
      by_test false q h = absurd (clash h)
      by_test true q h =
          let r = is_released-Released s q in
          Released-if s.finished (cleaned s) (call_finalized env s.on_finalized (cleaned s))
            (cleaned-Released s r) (call_finalized-Released s.on_finalized s r)
