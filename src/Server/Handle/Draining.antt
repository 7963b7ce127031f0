-- ===== src/Server/Handle/Draining.antt =====
-- The loops of `_finish_close` leave nothing where nothing raises.
use small_server.Prelude.{
  ℕ, ◌≡◌, refl, sym, ap, subst, ◌∙◌, Bool, true, false, ◌||◌, ◌==◌, Option, none, some, inl, inr,
  [], if◌then◌else◌, Bool-cases, List, ◌∷◌, arith,
}
use small_server.Prelude.Dict
use small_server.Prelude.Dict.{
  Dict, is_some, has, has-put, has-remove_ne, nat_eq, IsUnique, remove-none,
}
use small_server.Transport
use small_server.Transport.{TransportHandle, close, close_safely, succeeded}
use small_server.Server.Handle.{Environment, ServerHandle, Objects, resource_eq, Failure, is_closed}
use small_server.Server.Handle.Release.{
  close_stream, settle_close, close_or_retain, cancel_call, settle_cancel, cancel_or_retain_task,
}
use small_server.Server.Handle.Closing.{
  retried, retry_closing, settle_pending, retry_pending, count_cancelled, cancel_once, release,
  finish_connections, cancel_owned, release_all,
}

-- What `_update_finished` looks at, but the listener.
pub record Core : Type 0 where
  pub requested : Bool
  pub no_wakeup : Bool
  pub connections : Dict ℕ ℕ
  pub closing : Objects
  pub pending : Objects
  pub websockets : Objects

abbrev pub core : {W : Type 0} → ServerHandle W → Core
core s = record {
  requested = s.close_requested;
  no_wakeup = is_closed s.wakeup;
  connections = s.connections;
  closing = s.closing_connections;
  pending = s.pending_task_cancellations;
  websockets = s.websocket_states;
}

abbrev pub set_connections : Dict ℕ ℕ → Core → Core
set_connections d c = record c { connections = d }

abbrev pub set_closing : Objects → Core → Core
set_closing d c = record c { closing = d }

abbrev pub set_pending : Objects → Core → Core
set_pending d c = record c { pending = d }

-- Nothing that is closed or cancelled raises.
pub record Quiet {W : Type 0} (env : Environment W) : Type 0 where
  pub closes : (i : ℕ) (w : W) → (env.socket_close i w).0 ≡ none
  pub closes_listener : (w : W) → (env.listener_close w).0 ≡ none
  pub closes_wakeup : (w : W) → (env.wakeup_close w).0 ≡ none
  pub cancels : (t : ℕ) (w : W) → (cancel_call env env.cancel_task t w).0 ≡ none

pub clash : false ≡ true → ⊥
clash p = cc

pub some_ne {ℓ} : {A : Type ℓ} {a : A} → some a ≡ none → ⊥
some_ne p = cc

remove_self : {V : Type 0} (k : ℕ) (v : V) (d : Dict ℕ V) → Dict.remove k ((k, v) ∷ d) ≡ d
unfolding Dict.remove
remove_self k v d = rw (==_refl k) refl
  where
    ==_refl : (k : ℕ) → (k == k) ≡ true
    ==_refl k = ground arith

settle_quiet :
    {W : Type 0} (h : TransportHandle) (r : Option ℕ × W)
    → r.0 ≡ none
    → ((Transport.settle_close h r).0 ≡ none) × ((Transport.settle_close h r).1.closed ≡ true)
settle_quiet h (none, w) q = (refl, refl)
settle_quiet h (some x, w) q = absurd (some_ne q)

pub close-quiet :
    {W : Type 0} (f : W → Option ℕ × W) (h : TransportHandle) (w : W)
    → (f w).0 ≡ none
    → ((close f h w).0 ≡ none) × ((close f h w).1.closed ≡ true)
unfolding close
close-quiet {W = W} f h w q = elim (Bool-cases h.closed) [
  | inl done ↦ subst (λ b. Fine (choose b)) (sym done) (refl, done)
  | inr again ↦ subst (λ b. Fine (choose b)) (sym again) (settle_quiet h (f w) q)
]
  where
    Fine : Option ℕ × TransportHandle × W → Type 0
    Fine r = (r.0 ≡ none) × (r.1.closed ≡ true)

    choose : Bool → Option ℕ × TransportHandle × W
    choose b = if b then (none, h, w) else Transport.settle_close h (f w)

module _ {W : Type 0} (env : Environment W) (quiet : Quiet env) where
  succeeded_quiet : (r : Option ℕ × TransportHandle × W) → r.0 ≡ none → (succeeded r).0 ≡ true
  succeeded_quiet (none, h, w) q = refl
  succeeded_quiet (some x, h, w) q = absurd (some_ne q)

  close_stream-quiet : (i : ℕ) (s : ServerHandle W) → (close_stream env i s).0 ≡ true
  unfolding close_safely
  close_stream-quiet i s =
      succeeded_quiet (close (env.socket_close i) (s.streams i) s.world)
        (close-quiet (env.socket_close i) (s.streams i) s.world (quiet.closes i s.world)).0

  retried-core :
      (i : ℕ) (r : Bool × ServerHandle W)
      → r.0 ≡ true
      → core (retried env i r)
        ≡ record (core r.1) { closing = Dict.remove i r.1.closing_connections }
  retried-core i (true, s) q = refl
  retried-core i (false, s) q = absurd (clash q)

  settle_close-core :
      (finish : ServerHandle W → ServerHandle W) (i : ℕ) (x : Option Failure)
      (r : Bool × ServerHandle W)
      → r.0 ≡ true
      → core (settle_close env finish i x r).1
        ≡ record (core r.1) { closing = Dict.remove i r.1.closing_connections }
  settle_close-core finish i x (true, s) q = refl
  settle_close-core finish i x (false, s) q = absurd (clash q)

  settle_cancel-core :
      (t : ℕ) (r : Option Failure × W) (s : ServerHandle W)
      → r.0 ≡ none
      → ((settle_cancel env t r s).0 ≡ true)
        × (core (settle_cancel env t r s).1
            ≡ record (core s) { pending = Dict.remove t s.pending_task_cancellations })
  settle_cancel-core t (none, w) s q = (refl, refl)
  settle_cancel-core t (some x, w) s q = absurd (some_ne q)

  retry_closing-core :
      (items : Objects) (s : ServerHandle W) (c : Core)
      → core s ≡ set_closing items c
      → core (retry_closing env items s) ≡ set_closing [] c
  unfolding retry_closing
  retry_closing-core [] s c q = q
  retry_closing-core ((i, u) ∷ items) s c q =
      retry_closing-core items (retried env i (close_stream env i s)) c (
        retried-core i (close_stream env i s) (close_stream-quiet i s)
        ∙ ap (λ k. set_closing (Dict.remove i (Core.closing k)) k) q
        ∙ ap (λ d. set_closing d c) (remove_self i u items))

  cancel-core :
      (t : ℕ) (s : ServerHandle W)
      → ((cancel_or_retain_task env t s).0 ≡ true)
        × (core (cancel_or_retain_task env t s).1
            ≡ set_pending (Dict.remove t s.pending_task_cancellations) (core s))
  unfolding cancel_or_retain_task
  cancel-core t s =
      settle_cancel-core t (cancel_call env env.cancel_task t s.world) s (quiet.cancels t s.world)

  settle_pending-core :
      (t : ℕ) (tried : List ℕ) (r : Bool × ServerHandle W)
      → r.0 ≡ true
      → core (settle_pending env t tried r).1
        ≡ set_pending (Dict.remove t r.1.pending_task_cancellations) (core r.1)
  settle_pending-core t tried (true, s) q = refl
  settle_pending-core t tried (false, s) q = absurd (clash q)

  abbrev without_pending : ℕ → Core → Core
  without_pending t k = set_pending (Dict.remove t (Core.pending k)) k

  retry_pending-core :
      (items : Objects) (r : List ℕ × ServerHandle W) (c : Core)
      → IsUnique items
      → core r.1 ≡ set_pending items c
      → core (retry_pending env items r).1 ≡ set_pending [] c
  unfolding retry_pending
  retry_pending-core [] r c u q = q
  retry_pending-core ((t, v) ∷ items) (tried, s) c u q =
      let one = cancel-core t s in
      retry_pending-core items
        (settle_pending env t (Dict.add t tried) (cancel_or_retain_task env t s)) c u.1
        (settle_pending-core t (Dict.add t tried) (cancel_or_retain_task env t s) one.0
          ∙ ap (without_pending t) (one.1 ∙ ap (without_pending t) q)
          ∙ ap (λ d. set_pending (Dict.remove t d) c) (remove_self t v items)
          ∙ ap (λ d. set_pending d c) (remove-none t items u.0))

  release-core :
      (i : ℕ) (s : ServerHandle W)
      → core (release env i s)
        ≡ set_closing
            (Dict.remove i s.closing_connections)
            (set_connections (Dict.remove i s.connections) (core s))
  unfolding close_or_retain
  release-core i s =
      settle_close-core (λ r. r) i none
        (close_stream env i (record s { connections = Dict.remove i s.connections }))
        (close_stream-quiet i (record s { connections = Dict.remove i s.connections }))

  count_cancelled-core :
      (t : ℕ) (tried : List ℕ) (r : Bool × ServerHandle W)
      → core (count_cancelled env t tried r).1 ≡ core r.1
  count_cancelled-core t tried (true, s) = refl
  count_cancelled-core t tried (false, s) = refl

  -- With nothing pending, a cancellation leaves nothing pending.
  cancel_once-core :
      (t : ℕ) (r : List ℕ × ServerHandle W) (c : Core)
      → core r.1 ≡ set_pending [] c
      → core (cancel_once env none t r).1 ≡ set_pending [] c
  unfolding Dict.remove
  cancel_once-core t (tried, s) c q =
      by_test (Dict.contains t s.cancelled_task_ids || Dict.contains t tried)
    where
      done : List ℕ × ServerHandle W
      done = count_cancelled env t (Dict.add t tried) (cancel_or_retain_task env t s)

      by_test : (b : Bool) → core (if b then (tried, s) else done).1 ≡ set_pending [] c
      by_test true = q
      by_test false =
          count_cancelled-core t (Dict.add t tried) (cancel_or_retain_task env t s)
          ∙ (cancel-core t s).1
          ∙ ap (without_pending t) q

  finish_connections-core :
      (items : Dict ℕ ℕ) (r : List ℕ × ServerHandle W) (c : Core)
      → core r.1 ≡ set_connections items (set_closing [] (set_pending [] c))
      → core (finish_connections env none true items r).1
        ≡ set_connections [] (set_closing [] (set_pending [] c))
  unfolding finish_connections Dict.remove
  finish_connections-core [] r c q = q
  finish_connections-core ((i, t) ∷ items) (tried, s) c q =
      let r = cancel_once env none t (tried, s) in
      finish_connections-core items (r.0, release env i r.1) c
        (release-core i r.1
          ∙ ap
              (λ k.
                set_closing (Dict.remove i (Core.closing k))
                  (set_connections (Dict.remove i (Core.connections k)) k))
              (cancel_once-core t (tried, s) (set_connections ((i, t) ∷ items) (set_closing [] c))
                q)
          ∙ ap (λ d. set_connections d (set_closing [] (set_pending [] c))) (remove_self i t items))

  cancel_owned-core :
      (ts : List ℕ) (r : List ℕ × ServerHandle W) (c : Core)
      → core r.1 ≡ set_pending [] c
      → core (cancel_owned env none ts r).1 ≡ set_pending [] c
  unfolding cancel_owned
  cancel_owned-core [] r c q = q
  cancel_owned-core (t ∷ ts) r c q =
      cancel_owned-core ts (cancel_once env none t r) c (cancel_once-core t r c q)

  -- The loops leave nothing.
  pub release_all-core :
      (s : ServerHandle W)
      → IsUnique s.pending_task_cancellations
      → core (release_all env none true s)
        ≡ set_connections [] (set_closing [] (set_pending [] (core s)))
  release_all-core s u =
      let s1 = retry_closing env s.closing_connections s in
      let q1 = retry_closing-core s.closing_connections s (core s) refl in
      let r2 = retry_pending env s1.pending_task_cancellations ([], s1) in
      let q2 =
        retry_pending-core s1.pending_task_cancellations ([], s1) (set_closing [] (core s))
          (subst IsUnique (sym (ap Core.pending q1)) u)
          (q1 ∙ ap (λ d. set_pending d (set_closing [] (core s))) (sym (ap Core.pending q1))) in
      let r3 = finish_connections env none true r2.1.connections r2 in
      let q3 = finish_connections-core r2.1.connections r2 (core s) (
        q2
        ∙ ap (λ d. set_connections d (set_closing [] (set_pending [] (core s))))
            (sym (ap Core.connections q2))) in
      cancel_owned-core r3.1.owned_tasks r3 (set_connections [] (set_closing [] (core s))) q3
