-- ===== src/Server/Handle/Lifetime.antt =====
-- The life of a `ServerHandle`: the requests that reach it, one after the other.
use small_server.Prelude.{
  ℕ, ◌+◌, ◌≤◌, ◌↔◌, ◌≡◌, refl, ap, ◌∙◌, Bool, true, false, Option, none, some, List, arith,
}
use small_server.Prelude.Dict.{nat_eq}
use small_server.Transport.{TransportHandle}
use small_server.Server.Handle.{Environment, ServerHandle, resource_eq, Failure}
use small_server.Server.Handle.Release.{cancel_or_retain_task}
use small_server.Server.Handle.Settling.{cancel_or_retain_task-Keeps}
use small_server.Server.Handle.Retained.{Retained}
use small_server.Server.Handle.Ownership.{
  accounted, Counts, Keeps, Keeps-refl, Keeps-trans, to_notify,
}
use small_server.Server.Handle.Closing.{finish_close}
use small_server.Server.Handle.Finishing.{finish_close-Keeps}
use small_server.Server.Handle.Requests.{
  CloseError, incomplete, not_current_task, notice, request_close, is_cursor, close_from_task,
  fail_listener, listener_failed, after_signal, signal_capacity, notify_listener,
  notify_capacity_released, close_in, force_connection_close, accepted_setup_failed, task_or,
  connection_finished, abort_startup, abort_startup, register, unregistered, registration_failed,
  cancel_child, refuse_accepted, task_failed, own_tasks, disown, make_graceful,
}
use small_server.Server.Handle.Requests
use small_server.Server.Handle.Requests.{add_websocket, drop_websocket}
use small_server.Server.Handle.Serving.{
  close-Keeps, close_from_task-Keeps, listener_failed-Keeps, force_connection_close-Keeps,
  accepted_setup_failed-Keeps, connection_finished-Keeps, register-Keeps, registration_failed-Keeps,
  task_failed-Keeps, refuse_accepted-Keeps, cancel_child-Keeps,
}
use small_server.Server.Handle.Soundness.{Sound}
use small_server.Server.Handle.Requests.{finalize, set_capacity_waiting}

-- One request. What the listener's task and the connections' tasks ask for on behalf of a stream, they
-- ask for while the handle has not finished.
pub data Request {W : Type 0} (env : Environment W) : ServerHandle W → ServerHandle W → Type 0 where
  closing : {s : ServerHandle W} → Request env s (Requests.close env s).1
  finalizing : {s : ServerHandle W} → Request env s (finalize env s)
  watched : {s : ServerHandle W} (t : ℕ) → Request env s (finish_close env (some t) false s)
  closing_in_task : {s : ServerHandle W} (t : ℕ) → Request env s (close_from_task env t s).1
  listening_failed :
      {s : ServerHandle W} (x : Failure) (current : Option ℕ)
      → Request env s (listener_failed env x current s)
  registered :
      {s : ServerHandle W} (i : ℕ) (h : TransportHandle) (t : ℕ)
      → s.finished ≡ false
      → Request env s (register env i h t s)
  unregistered_again :
      {s : ServerHandle W} (x : Failure) (i : ℕ) (t current : Option ℕ)
      → s.finished ≡ false
      → Request env s (registration_failed env x i t current s)
  without_task :
      {s : ServerHandle W} (x : Failure) (i : ℕ) (h : TransportHandle) (current : Option ℕ)
      → s.finished ≡ false
      → Request env s (task_failed env x i h current s)
  turned_away :
      {s : ServerHandle W} (i : ℕ) (h : TransportHandle) (current : Option ℕ)
      → s.finished ≡ false
      → Request env s (refuse_accepted env i h current s).1
  task_cancelled : {s : ServerHandle W} (t : ℕ) → Request env s (cancel_or_retain_task env t s).1
  child_cancelled : {s : ServerHandle W} (t : ℕ) → Request env s (cancel_child env t s)
  tasks_owned : {s : ServerHandle W} (tasks : List ℕ) → Request env s (own_tasks env tasks s)
  task_disowned : {s : ServerHandle W} (t : ℕ) → Request env s (disown env t s)
  graceful : {s : ServerHandle W} (i : ℕ) → Request env s (make_graceful env i s)
  setup_failed :
      {s : ServerHandle W} (primary : Failure) (i : ℕ) (h : TransportHandle) (current : Option ℕ)
      → s.finished ≡ false
      → Request env s (accepted_setup_failed env primary i h current s)
  forced :
      {s : ServerHandle W} (current : Option ℕ) (i : ℕ) (primary : Option Failure)
      → s.finished ≡ false
      → Request env s (force_connection_close env current i primary s).1
  ended :
      {s : ServerHandle W} (t i : ℕ) (primary : Option Failure)
      → Request env s (connection_finished env t i primary s)
  upgraded :
      {s : ServerHandle W} (i : ℕ) → s.finished ≡ false → Request env s (add_websocket env i s)
  left : {s : ServerHandle W} (i : ℕ) → s.finished ≡ false → Request env s (drop_websocket env i s)
  aborted :
      {s : ServerHandle W} (tasks : List ℕ)
      → s.finished ≡ false
      → Request env s (abort_startup env tasks s)
  waited : {s : ServerHandle W} (waits : Bool) → Request env s (set_capacity_waiting env waits s)

-- Requests one after the other.
pub data Requested {W : Type 0} (env : Environment W)
    : ServerHandle W → ServerHandle W → Type 0 where
  at_rest : {s : ServerHandle W} → Requested env s s
  and_then : {s r q : ServerHandle W} → Requested env s r → Request env r q → Requested env s q

-- What holds of a handle at rest.
pub record Valid {W : Type 0} (s : ServerHandle W) : Type 0 where
  pub sound : Sound s
  pub notified : s.finished ≡ true → s.on_finalized ≡ false
  pub retained : Retained s.closing_connections s.pending_task_cancellations s.cleanup_errors

module _ {W : Type 0} (env : Environment W) (count : W → ℕ) (counts : Counts env count) where
  Request-Keeps : {s r : ServerHandle W} → Request env s r → Keeps count s r
  Request-Keeps {s} closing = close-Keeps env count counts s
  Request-Keeps {s} finalizing = finish_close-Keeps env count counts none true s
  Request-Keeps {s} (watched t) = finish_close-Keeps env count counts (some t) false s
  Request-Keeps {s} (closing_in_task t) = close_from_task-Keeps env count counts t s
  Request-Keeps {s} (listening_failed x current) =
      listener_failed-Keeps env count counts x current s
  Request-Keeps {s} (registered i h t q) = register-Keeps env count counts i h t s
  Request-Keeps {s} (unregistered_again x i t current q) =
      registration_failed-Keeps env count counts x i t current s
  Request-Keeps {s} (without_task x i h current q) =
      task_failed-Keeps env count counts x i h current s
  Request-Keeps {s} (turned_away i h current q) =
      refuse_accepted-Keeps env count counts i h current s
  Request-Keeps {s} (task_cancelled t) = cancel_or_retain_task-Keeps env count counts t s
  Request-Keeps {s} (child_cancelled t) = cancel_child-Keeps env count counts t s
  Request-Keeps (tasks_owned tasks) = record {
    account = λ j h. h;
    retained = λ v. v;
    notified = λ n. n;
    once = refl;
  }
  Request-Keeps (task_disowned t) = record {
    account = λ j h. h;
    retained = λ v. v;
    notified = λ n. n;
    once = refl;
  }
  Request-Keeps (graceful i) = record {
    account = λ j h. h;
    retained = λ v. v;
    notified = λ n. n;
    once = refl;
  }
  Request-Keeps {s} (setup_failed primary i h current q) =
      accepted_setup_failed-Keeps env count counts primary i h current s
  Request-Keeps {s} (forced current i primary q) =
      force_connection_close-Keeps env count counts current i primary s
  Request-Keeps {s} (ended t i primary) = connection_finished-Keeps env count counts t i primary s
  Request-Keeps (upgraded i q) = record {
    account = λ j h. h;
    retained = λ v. v;
    notified = λ n. n;
    once = refl;
  }
  Request-Keeps (left i q) = record {
    account = λ j h. h;
    retained = λ v. v;
    notified = λ n. n;
    once = refl;
  }
  Request-Keeps {s} (aborted tasks q) =
      Keeps-trans count
        (record { account = λ j h. h; retained = λ v. v; notified = λ n. n; once = refl })
        (finish_close-Keeps env count counts none true
          (record s { close_requested = true; owned_tasks = tasks }))
  Request-Keeps (waited waits) = record {
    account = λ j h. h;
    retained = λ v. v;
    notified = λ n. n;
    once = refl;
  }

  Requested-Keeps : {s r : ServerHandle W} → Requested env s r → Keeps count s r
  Requested-Keeps {s} at_rest = Keeps-refl count s
  Requested-Keeps (and_then before x) = Keeps-trans count (Requested-Keeps before) (Request-Keeps x)

  -- Whatever requests reach a handle, no connection is lost: one that it has owned is still owned,
  -- active or closing, or it has been closed.
  pub accounted-Requested :
      {s r : ServerHandle W}
      → Requested env s r
      → (i : ℕ) → accounted s i ≡ true
      → accounted r i ≡ true
  accounted-Requested steps i h = (Requested-Keeps steps).account i h

  -- Whatever requests reach a handle whose callback is set, `on_finalized` is called at most once, and
  -- it has been called just where the callback is no longer set. `count` counts its calls: nothing
  -- else that the handle calls changes it.
  pub on_finalized-Requested :
      {s r : ServerHandle W}
      → Requested env s r
      → s.on_finalized ≡ true
      → (count r.world ≤ count s.world + 1)
        × ((count r.world ≡ count s.world + 1) ↔ (r.on_finalized ≡ false))
  on_finalized-Requested {s} {r} steps set =
      called r.on_finalized (count r.world) (count s.world)
        ((Requested-Keeps steps).once ∙ ap (λ b. count s.world + to_notify b) set)
    where
      called :
          (b : Bool) (m n : ℕ) → m + to_notify b ≡ n + 1 → (m ≤ n + 1) × ((m ≡ n + 1) ↔ (b ≡ false))
      called b m n h = ground arith
