-- ===== src/Server/Handle/Settling.antt =====
-- A connection or a task that is released is closed, or it is kept with the failure of the attempt:
-- `_close_or_retain` and `_cancel_or_retain_task`.
use small_server.Prelude.{
  ℕ, ◌≡◌, refl, sym, ap, subst, ◌∙◌, Bool, true, false, ◌||◌, ◌==◌, Option, none, some, inl, inr,
  Bool-cases, arith,
}
use small_server.Prelude.Dict
use small_server.Prelude.Dict.{Dict, is_some, has, has-put, has-remove_ne, nat_eq}
use small_server.Transport.{TransportHandle}
use small_server.Server.Handle.{
  Environment, ServerHandle, Resource, of_connection, resource_eq, Failure, close_error,
  first_failure,
}
use small_server.Server.Handle.Release.{
  close_stream, put_error, retain, notified, notify_or_finish, connection_close_failed,
  settle_close, close_or_retain, cancel_call, settle_cancel, cancel_or_retain_task,
}
use small_server.Server.Handle.Retained.{
  Retained, Retained-put, Retained-closed, Retained-retain, Retained-pending, Retained-cancelled,
}
use small_server.Server.Handle.Ownership.{
  accounted, Counts, calls, Keeps, Keeps-refl, Keeps-trans, Keeps-if, close_stream-StreamClosed,
}

module _ {W : Type 0} (env : Environment W) (count : W → ℕ) (counts : Counts env count) where
  pub put_error-Keeps :
      (r : Resource) (x : Failure) (s : ServerHandle W) → Keeps count s (put_error env r x s)
  put_error-Keeps r x s = record {
    account = λ i h. h;
    retained =
        λ v. Retained-put s.closing_connections s.pending_task_cancellations s.cleanup_errors v r x;
    notified = λ n. n;
    once = refl;
  }

  pub notified-Keeps :
      (finish : ServerHandle W → ServerHandle W)
      → ((s : ServerHandle W) → Keeps count s (finish s))
      → (s : ServerHandle W) (r : Option ℕ × W) → count r.1 ≡ count s.world
      → Keeps count s (notified env finish r s)
  notified-Keeps finish keeps s (none, w) q = record {
    account = λ i h. h;
    retained = λ v. v;
    notified = λ n. n;
    once = omega (arith, q);
  }
  notified-Keeps finish keeps s (some x, w) q =
      Keeps-trans count
        (record {
          account = λ i h. h;
          retained = λ v. v;
          notified = λ n. n;
          once = omega (arith, q);
        })
        (keeps (record s { world = w }))

  pub notify_or_finish-Keeps :
      (finish : ServerHandle W → ServerHandle W)
      → ((s : ServerHandle W) → Keeps count s (finish s))
      → (h : Option TransportHandle) (s : ServerHandle W)
      → Keeps count s (notify_or_finish env finish h s)
  notify_or_finish-Keeps finish keeps none s = keeps s
  notify_or_finish-Keeps finish keeps (some h) s =
      Keeps-if count s.notification_sent (Keeps-refl count s) (
        notified-Keeps finish keeps s (env.wakeup_notify s.world) (counts.on_wakeup_notify s.world))

  pub connection_close_failed-Keeps :
      (finish : ServerHandle W → ServerHandle W)
      → ((s : ServerHandle W) → Keeps count s (finish s))
      → (x : Failure) (s : ServerHandle W) → Keeps count s (connection_close_failed env finish x s)
  unfolding connection_close_failed
  connection_close_failed-Keeps finish keeps x s =
      Keeps-if count s.finalization_attempted same
        (Keeps-trans count same (notify_or_finish-Keeps finish keeps s.wakeup noted))
    where
      noted : ServerHandle W
      noted = record s { failure = some (first_failure s.failure x); close_requested = true }

      same : Keeps count s noted
      same = record { account = λ i h. h; retained = λ v. v; notified = λ n. n; once = refl }

  -- A connection that is closed, or kept with its failure, in either case with an account of it.
  pub record Settled (i : ℕ) (s r : ServerHandle W) : Type 0 where
    pub keeps : Keeps count s r
    pub settled : accounted r i ≡ true

  pub removed-account :
      (i j : ℕ) (s : ServerHandle W)
      → (s.streams i).closed ≡ true
      → accounted s j ≡ true
      → has j s.connections || has j (Dict.remove i s.closing_connections) || (s.streams j).closed
        ≡ true
  removed-account i j s done h = elim (Bool-cases (i == j)) [
    | inl same ↦
        third (has j s.connections) (has j (Dict.remove i s.closing_connections))
          (s.streams j).closed (ap (λ k. (s.streams k).closed) (sym (same_number same)) ∙ done)
    | inr other ↦ rw (has-remove_ne i j s.closing_connections other) h
  ]
    where
      same_number : (i == j) ≡ true → i ≡ j
      same_number p = ground arith

      third : (a b c : Bool) → c ≡ true → a || b || c ≡ true
      third a b c h = ground arith

  retained_connection :
      (i : ℕ) (x : Failure) (t : Option ℕ) (s : ServerHandle W)
      → is_some t ≡ has i s.connections
      → Settled i s (put_error env (of_connection i) x (retain env i t s))
  retained_connection i x none s q = record {
    keeps = record {
      account = λ j h.
          added (has j s.connections) (has j s.closing_connections) (s.streams j).closed
            (has j (Dict.put i tt s.closing_connections))
            (λ p. ground (arith, has-put i j tt s.closing_connections)) h;
      retained = λ v.
          Retained-retain s.closing_connections s.pending_task_cancellations s.cleanup_errors v i x;
      notified = λ n. n;
      once = refl;
    };
    settled =
        second (has i s.connections) (has i (Dict.put i tt s.closing_connections))
          (s.streams i).closed (ground (arith, has-put i i tt s.closing_connections));
  }
    where
      added : (a b c d : Bool) → (b ≡ true → d ≡ true) → a || b || c ≡ true → a || d || c ≡ true
      added a b c d f h = ground arith

      second : (a b c : Bool) → b ≡ true → a || b || c ≡ true
      second a b c h = ground arith
  retained_connection i x (some t) s q = record {
    keeps = put_error-Keeps (of_connection i) x s;
    settled =
        first (has i s.connections) (has i s.closing_connections) (s.streams i).closed (sym q);
  }
    where
      first : (a b c : Bool) → a ≡ true → a || b || c ≡ true
      first a b c h = ground arith

  settle_close-Settled :
      (finish : ServerHandle W → ServerHandle W)
      → ((s : ServerHandle W) → Keeps count s (finish s))
      → (i : ℕ) (primary : Option Failure) (r : Bool × ServerHandle W)
      → (r.1.streams i).closed ≡ r.0
      → Settled i r.1 (settle_close env finish i primary r).1
  unfolding has
  settle_close-Settled finish keeps i primary (true, s) done = record {
    keeps = record {
      account = λ j h. removed-account i j s done h;
      retained = λ v.
          Retained-closed s.closing_connections s.pending_task_cancellations s.cleanup_errors v i;
      notified = λ n. n;
      once = refl;
    };
    settled =
        third (has i s.connections) (has i (Dict.remove i s.closing_connections))
          (s.streams i).closed done;
  }
    where
      third : (a b c : Bool) → c ≡ true → a || b || c ≡ true
      third a b c h = ground arith
  settle_close-Settled finish keeps i primary (false, s) failed =
      let x = close_error (s.streams i).close_error in
      let kept = retained_connection i x (Dict.get i s.connections) s refl in
      let told =
        connection_close_failed-Keeps finish keeps (first_failure primary x)
          (put_error env (of_connection i) x (retain env i (Dict.get i s.connections) s)) in
      record { keeps = Keeps-trans count kept.keeps told; settled = told.account i kept.settled }

  -- `_close_or_retain` settles its connection, whoever owned it before.
  pub close_or_retain-Settled :
      (finish : ServerHandle W → ServerHandle W)
      → ((s : ServerHandle W) → Keeps count s (finish s))
      → (i : ℕ) (primary : Option Failure) (s : ServerHandle W)
      → Settled i s (close_or_retain env finish i primary s).1
  unfolding close_or_retain
  close_or_retain-Settled finish keeps i primary s =
      let c = close_stream-StreamClosed env count counts i s in
      let r = settle_close-Settled finish keeps i primary (close_stream env i s) c.tells in
      record { keeps = Keeps-trans count c.keeps r.keeps; settled = r.settled }

  -- A change that keeps all but the account of one connection, which is then settled.
  pub record KeepsBut (i : ℕ) (s r : ServerHandle W) : Type 0 where
    pub account : (j : ℕ) → (i == j) ≡ false → accounted s j ≡ true → accounted r j ≡ true
    pub retained :
        Retained s.closing_connections s.pending_task_cancellations s.cleanup_errors
        → Retained r.closing_connections r.pending_task_cancellations r.cleanup_errors
    pub notified :
        (s.finished ≡ true → s.on_finalized ≡ false) → r.finished ≡ true → r.on_finalized ≡ false
    pub once : calls count r ≡ calls count s

  pub KeepsBut-Settled :
      (i : ℕ) (s r q : ServerHandle W) → KeepsBut i s r → Settled i r q → Keeps count s q
  KeepsBut-Settled i s r q k settled = record {
    account = λ j h. elim (Bool-cases (i == j)) [
      | inl same ↦ subst (λ k. accounted q k ≡ true) (same_number j same) settled.settled
      | inr other ↦ settled.keeps.account j (k.account j other h)
    ];
    retained = λ v. settled.keeps.retained (k.retained v);
    notified = λ n. settled.keeps.notified (k.notified n);
    once = settled.keeps.once ∙ k.once;
  }
    where
      same_number : (j : ℕ) → (i == j) ≡ true → i ≡ j
      same_number j p = ground arith

  settle_cancel-Keeps :
      (t : ℕ) (s : ServerHandle W) (r : Option Failure × W)
      → count r.1 ≡ count s.world
      → Keeps count s (settle_cancel env t r s).1
  settle_cancel-Keeps t s (none, w) q = record {
    account = λ i h. h;
    retained = λ v.
        Retained-cancelled s.closing_connections s.pending_task_cancellations s.cleanup_errors v t;
    notified = λ n. n;
    once = omega (arith, q);
  }
  settle_cancel-Keeps t s (some x, w) q = record {
    account = λ i h. h;
    retained = λ v.
        Retained-pending s.closing_connections s.pending_task_cancellations s.cleanup_errors v t x;
    notified = λ n. n;
    once = omega (arith, q);
  }

  pub cancel_or_retain_task-Keeps :
      (t : ℕ) (s : ServerHandle W) → Keeps count s (cancel_or_retain_task env t s).1
  unfolding cancel_or_retain_task
  cancel_or_retain_task-Keeps t s =
      settle_cancel-Keeps t s (cancel_call env env.cancel_task t s.world)
        (counts.on_cancel t s.world)
