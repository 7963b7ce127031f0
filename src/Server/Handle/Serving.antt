-- ===== src/Server/Handle/Serving.antt =====
-- The requests of `ServerHandle` lose no connection and no failure, and none of them makes
-- `_on_finalized` be called twice.
use small_server.Prelude.{
  ℕ, ◌≡◌, refl, Bool, true, false, not, ◌&&◌, ◌||◌, ◌==◌, Option, none, some, inl, inr,
  if◌then◌else◌, Bool-cases, Result, ltb, leb, ok, err, arith,
}
use small_server.Prelude.Dict
use small_server.Prelude.Dict.{Dict, is_some, has, has-put, has-remove_ne, nat_eq}
use small_server.Transport.{TransportHandle}
use small_server.Server.Handle.Finished.{update_finished-Keeps}
use small_server.Server.Handle.{
  Environment, ServerHandle, resource_eq, Failure, set_stream, close_error,
}
use small_server.Server.Handle.Release.{cancel_or_retain_task}
use small_server.Server.Handle.Retained.{Retained-retain}
use small_server.Server.Handle.Ownership.{
  accounted, Counts, Keeps, Keeps-refl, Keeps-trans, Keeps-if, Keeps-if_second, signal_world,
}
use small_server.Server.Handle.{raised}
use small_server.Server.Handle.Settling.{
  notified-Keeps, Settled, KeepsBut, connection_close_failed-Keeps, close_or_retain-Settled,
  KeepsBut-Settled, cancel_or_retain_task-Keeps,
}
use small_server.Server.Handle.Closing.{ask_websockets, begin_close, finish_close}
use small_server.Server.Handle.Retrying.{ask_websockets-Keeps}
use small_server.Server.Handle.Finishing.{finish_close-Keeps}
use small_server.Server.Handle.Requests.{
  CloseError, incomplete, not_current_task, notice, request_close, is_cursor, close_from_task,
  fail_listener, listener_failed, after_signal, signal_capacity, notify_listener,
  notify_capacity_released, close_in, force_connection_close, accepted_setup_failed, task_or,
  connection_finished, abort_startup, register, unregistered, registration_failed, cancel_child,
  cancel_created, refuse_accepted, task_failed,
}
use small_server.Server.Handle.Requests
use small_server.Server.Handle.{signal_failed, owned_connection_count}
use small_server.Server.Handle.Release.{note_failure}

module _ {W : Type 0} (env : Environment W) (count : W → ℕ) (counts : Counts env count) where
  closing_account :
      (i j : ℕ) (h : TransportHandle) (s : ServerHandle W)
      → accounted s j ≡ true
      → has j s.connections
          || has j (Dict.put i tt s.closing_connections)
          || (set_stream i h s.streams j).closed
        ≡ true
  closing_account i j h s q = elim (Bool-cases (i == j)) [
    | inl same ↦
        second (has j s.connections) (has j (Dict.put i tt s.closing_connections)) _
          (ground (arith, has-put i j tt s.closing_connections))
    | inr other ↦ rw (has-put i j tt s.closing_connections, other) q
  ]
    where
      second : (a b c : Bool) → b ≡ true → a || b || c ≡ true
      second a b c h = ground arith

  active_account :
      (i j t : ℕ) (h : TransportHandle) (s : ServerHandle W)
      → accounted s j ≡ true
      → has j (Dict.put i t s.connections)
          || has j s.closing_connections
          || (set_stream i h s.streams j).closed
        ≡ true
  active_account i j t h s q = elim (Bool-cases (i == j)) [
    | inl same ↦
        first (has j (Dict.put i t s.connections)) (has j s.closing_connections) _
          (ground (arith, has-put i j t s.connections))
    | inr other ↦ rw (has-put i j t s.connections, other) q
  ]
    where
      first : (a b c : Bool) → a ≡ true → a || b || c ≡ true
      first a b c h = ground arith

  notice-Keeps :
      (r : Option ℕ × W) (s : ServerHandle W)
      → count r.1 ≡ count s.world
      → Keeps count s (notice env r s).1
  notice-Keeps (none, w) s q = record {
    account = λ i h. h;
    retained = λ v. v;
    notified = λ n. n;
    once = omega (arith, q);
  }
  notice-Keeps (some x, w) s q = record {
    account = λ i h. h;
    retained = λ v. v;
    notified = λ n. n;
    once = omega (arith, q);
  }

  pub request_close-Keeps :
      (h : Option TransportHandle) (s : ServerHandle W) → Keeps count s (request_close env h s).1
  request_close-Keeps none s = Keeps-refl count s
  request_close-Keeps (some h) s =
      Keeps-if_second count s.notification_sent
        (if s.finalization_attempted && not s.finished then err incomplete else ok tt, asking)
        (notice env (env.wakeup_notify s.world) asking) there
        (Keeps-trans count there
          (notice-Keeps (env.wakeup_notify s.world) asking (counts.on_wakeup_notify s.world)))
    where
      asking : ServerHandle W
      asking = record s { close_requested = true }

      there : Keeps count s asking
      there = record { account = λ i h. h; retained = λ v. v; notified = λ n. n; once = refl }

  pub close-Keeps : (s : ServerHandle W) → Keeps count s (Requests.close env s).1
  unfolding Requests.close
  close-Keeps s =
      Keeps-if_second count s.finished (ok tt, s) (request_close env s.wakeup s)
        (Keeps-refl count s) (request_close-Keeps s.wakeup s)

  pub close_from_task-Keeps :
      (t : ℕ) (s : ServerHandle W) → Keeps count s (close_from_task env t s).1
  unfolding close_from_task
  close_from_task-Keeps t s =
      Keeps-if_second count (not (is_cursor env env.cursor t)) (err not_current_task, s)
        (ok tt, if s.finished then s else finish_close env (some t) false asked)
        (Keeps-refl count s)
        (Keeps-if count s.finished (Keeps-refl count s) (
          Keeps-trans count
            (record { account = λ i h. h; retained = λ v. v; notified = λ n. n; once = refl })
            (Keeps-trans count (ask_websockets-Keeps env count counts (begin_close env s))
              (finish_close-Keeps env count counts (some t) false asked))))
    where
      asked : ServerHandle W
      asked = ask_websockets env (begin_close env s)

  same-Keeps :
      (x : Failure) (s : ServerHandle W)
      → Keeps count s (record (note_failure env x s) { close_requested = true })
  same-Keeps x s = record { account = λ i h. h; retained = λ v. v; notified = λ n. n; once = refl }

  fail_listener-Keeps :
      (current : Option ℕ) (h : Option TransportHandle) (s : ServerHandle W)
      → Keeps count s (fail_listener env current h s)
  fail_listener-Keeps current none s =
      Keeps-if count s.notification_sent (Keeps-refl count s)
        (finish_close-Keeps env count counts current false s)
  fail_listener-Keeps current (some h) s = Keeps-if count s.notification_sent (Keeps-refl count s) (
      notified-Keeps env count counts (finish_close env current false)
        (finish_close-Keeps env count counts current false) s (env.wakeup_notify s.world)
        (counts.on_wakeup_notify s.world))

  pub listener_failed-Keeps :
      (x : Failure) (current : Option ℕ) (s : ServerHandle W)
      → Keeps count s (listener_failed env x current s)
  unfolding listener_failed
  listener_failed-Keeps x current s = Keeps-trans count (same-Keeps x s) (
      fail_listener-Keeps current s.wakeup
        (record (note_failure env x s) { close_requested = true }))

  after_signal-Keeps :
      (r : Result ℕ ℕ × W) (s : ServerHandle W)
      → count r.1 ≡ count s.world
      → Keeps count s (after_signal env r s)
  after_signal-Keeps (ok n, w) s q =
      let there = moved s w q in
      Keeps-if count (n == 0) there (
        Keeps-trans count there
          (listener_failed-Keeps signal_failed env.cursor (record s { world = w })))
    where
      moved :
          (s : ServerHandle W) (w : W)
          → count w ≡ count s.world
          → Keeps count s (record s { world = w })
      moved s w q = record {
        account = λ i h. h;
        retained = λ v. v;
        notified = λ n. n;
        once = omega (arith, q);
      }
  after_signal-Keeps (err x, w) s q =
      Keeps-trans count
        (record {
          account = λ i h. h;
          retained = λ v. v;
          notified = λ n. n;
          once = omega (arith, q);
        })
        (listener_failed-Keeps (raised x) env.cursor (record s { world = w }))

  notify_listener-Keeps :
      (t : Option ℕ) (s : ServerHandle W) → Keeps count s (notify_listener env t s)
  notify_listener-Keeps none s = Keeps-refl count s
  notify_listener-Keeps (some t) s = by_method env.accept_signal counts.on_signal
    where
      by_method :
          (m : Option (ℕ → W → Result ℕ ℕ × W))
          → ((t : ℕ) (w : W) → count (signal_world m t w) ≡ count w)
          → Keeps count s (signal_capacity env m t s)
      by_method none silent = listener_failed-Keeps signal_failed env.cursor s
      by_method (some signal) silent = after_signal-Keeps (signal t s.world) s (silent t s.world)

  notify_capacity_released-Keeps :
      (previous : ℕ) (s : ServerHandle W) → Keeps count s (notify_capacity_released env previous s)
  unfolding notify_capacity_released
  notify_capacity_released-Keeps previous s =
      Keeps-if count
        (not s.capacity_waiting
          || ltb previous s.max_connections
          || leb s.max_connections (owned_connection_count s))
        (Keeps-refl count s) (notify_listener-Keeps s.listener_task s)

  close_in-Settled :
      (current : Option ℕ) (i : ℕ) (primary : Option Failure) (s : ServerHandle W)
      → Settled env count counts i s (close_in env current i primary s).1
  close_in-Settled current i primary s =
      close_or_retain-Settled env count counts (finish_close env current false)
        (finish_close-Keeps env count counts current false) i primary s

  pub force_connection_close-Keeps :
      (current : Option ℕ) (i : ℕ) (primary : Option Failure) (s : ServerHandle W)
      → Keeps count s (force_connection_close env current i primary s).1
  unfolding force_connection_close
  force_connection_close-Keeps current i primary s =
      Keeps-trans count
        (record { account = λ i h. h; retained = λ v. v; notified = λ n. n; once = refl })
        (close_in-Settled current i primary _).keeps

  pub accepted_setup_failed-Keeps :
      (primary : Failure) (i : ℕ) (h : TransportHandle) (current : Option ℕ) (s : ServerHandle W)
      → Keeps count s (accepted_setup_failed env primary i h current s)
  unfolding accepted_setup_failed
  accepted_setup_failed-Keeps primary i h current s =
      Keeps-trans count
        (record {
          account = λ j q. closing_account i j h s q;
          retained = λ v.
              Retained-retain s.closing_connections s.pending_task_cancellations s.cleanup_errors v
                i (close_error h.close_error);
          notified = λ n. n;
          once = refl;
        })
        (connection_close_failed-Keeps env count counts (finish_close env current false)
          (finish_close-Keeps env count counts current false) primary _)

  pub connection_finished-Keeps :
      (t i : ℕ) (primary : Option Failure) (s : ServerHandle W)
      → Keeps count s (connection_finished env t i primary s)
  unfolding connection_finished
  connection_finished-Keeps t i primary s =
      let s2 = (close_in env (some t) i primary taken).1 in
      let s3 = notify_capacity_released env (owned_connection_count s) s2 in
      Keeps-trans count
        (KeepsBut-Settled env count counts i s taken s2
          (record {
            account = λ j other h. rw (has-remove_ne i j s.connections other) h;
            retained = λ v. v;
            notified = λ n. n;
            once = refl;
          })
          (close_in-Settled (some t) i primary taken))
        (Keeps-trans count (notify_capacity_released-Keeps (owned_connection_count s) s2)
          (update_finished-Keeps env count counts s3))
    where
      taken : ServerHandle W
      taken = record s {
        connections = Dict.remove i s.connections;
        graceful_connections = Dict.discard i s.graceful_connections;
        graceful_closers = Dict.remove i s.graceful_closers;
        owned_tasks = Dict.discard (task_or env (Dict.get i s.connections) t) s.owned_tasks;
      }

  pub register-Keeps :
      (i : ℕ) (h : TransportHandle) (t : ℕ) (s : ServerHandle W)
      → Keeps count s (register env i h t s)
  register-Keeps i h t s = record {
    account = λ j q. active_account i j t h s q;
    retained = λ v. v;
    notified = λ n. n;
    once = refl;
  }

  unregistered-Keeps : (t : ℕ) (r : Bool × ServerHandle W) → Keeps count r.1 (unregistered env t r)
  unregistered-Keeps t (true, s) = record {
    account = λ i h. h;
    retained = λ v. v;
    notified = λ n. n;
    once = refl;
  }
  unregistered-Keeps t (false, s) = Keeps-refl count s

  pub cancel_child-Keeps : (t : ℕ) (s : ServerHandle W) → Keeps count s (cancel_child env t s)
  unfolding cancel_child
  cancel_child-Keeps t s =
      Keeps-trans count (cancel_or_retain_task-Keeps env count counts t s)
        (unregistered-Keeps t (cancel_or_retain_task env t s))

  cancel_created-Keeps :
      (t : Option ℕ) (s : ServerHandle W) → Keeps count s (cancel_created env t s)
  cancel_created-Keeps none s = Keeps-refl count s
  cancel_created-Keeps (some t) s = cancel_child-Keeps t s

  -- A connection that leaves the dict of the active ones, with its stream, until it is settled.
  taken-KeepsBut :
      (i : ℕ) (h : TransportHandle) (s : ServerHandle W)
      → KeepsBut env count counts i s (record s { streams = set_stream i h s.streams })
  taken-KeepsBut i h s = record {
    account = λ j other q. rw other q;
    retained = λ v. v;
    notified = λ n. n;
    once = refl;
  }

  pub refuse_accepted-Keeps :
      (i : ℕ) (h : TransportHandle) (current : Option ℕ) (s : ServerHandle W)
      → Keeps count s (refuse_accepted env i h current s).1
  unfolding refuse_accepted
  refuse_accepted-Keeps i h current s =
      KeepsBut-Settled env count counts i s (record s { streams = set_stream i h s.streams })
        (close_in env current i none (record s { streams = set_stream i h s.streams })).1
        (taken-KeepsBut i h s) (close_in-Settled current i none _)

  removed-KeepsBut :
      (i : ℕ) (s r : ServerHandle W)
      → KeepsBut env count counts i s r
      → KeepsBut env count counts i s (record r { connections = Dict.remove i r.connections })
  removed-KeepsBut i s r k = record {
    account = λ j other h. rw (has-remove_ne i j r.connections other) (k.account j other h);
    retained = k.retained;
    notified = k.notified;
    once = k.once;
  }

  Keeps-KeepsBut :
      (i : ℕ) {s r : ServerHandle W} → Keeps count s r → KeepsBut env count counts i s r
  Keeps-KeepsBut i k = record {
    account = λ j other h. k.account j h;
    retained = k.retained;
    notified = k.notified;
    once = k.once;
  }

  pub task_failed-Keeps :
      (x : Failure) (i : ℕ) (h : TransportHandle) (current : Option ℕ) (s : ServerHandle W)
      → Keeps count s (task_failed env x i h current s)
  unfolding registration_failed
  task_failed-Keeps x i h current s =
      let s1 = record s { streams = set_stream i h s.streams } in
      let taken = record s1 { connections = Dict.remove i s1.connections } in
      let s2 = (close_in env current i (some x) taken).1 in
      Keeps-trans count
        (KeepsBut-Settled env count counts i s taken s2
          (removed-KeepsBut i s s1 (taken-KeepsBut i h s))
          (close_in-Settled current i (some x) taken))
        (listener_failed-Keeps x current s2)

  pub registration_failed-Keeps :
      (x : Failure) (i : ℕ) (t current : Option ℕ) (s : ServerHandle W)
      → Keeps count s (registration_failed env x i t current s)
  unfolding registration_failed
  registration_failed-Keeps x i t current s =
      let s1 = cancel_created env t s in
      let taken = record s1 { connections = Dict.remove i s1.connections } in
      let s2 = (close_in env current i (some x) taken).1 in
      Keeps-trans count
        (KeepsBut-Settled env count counts i s taken s2
          (removed-KeepsBut i s s1 (Keeps-KeepsBut i (cancel_created-Keeps t s)))
          (close_in-Settled current i (some x) taken))
        (listener_failed-Keeps x current s2)
