-- ===== src/Server/Handle/Tests.antt =====
-- A server whose stream 3 cannot be closed, and the theorems at it.
use small_server.Prelude.{
  ℕ, ◌+◌, ◌≤◌, ◌≡◌, ◌↔◌, refl, true, false, none, some, [], ◌∷◌, ◌==◌, if◌then◌else◌, ok,
}
use small_server.Prelude.Dict
use small_server.Transport
use small_server.Transport.{TransportHandle}
use small_server.Server.Handle.{Environment, ServerHandle, of_connection, raised}
use small_server.Server.Handle.Release.{
  connection_close_failed, close_or_retain, cancel_or_retain_task, update_finished,
}
use small_server.Server.Handle.Closing.{
  retry_closing, retry_pending, finish_connections, cancel_owned, finish_close,
}
use small_server.Server.Handle.Requests.{
  finalize, register, connection_finished, notify_capacity_released,
}
use small_server.Server.Handle.Ownership.{accounted, Counts}
use small_server.Server.Handle.Lifetime.{
  Requested, at_rest, and_then, registered, ended, finalizing, accounted-Requested,
  on_finalized-Requested,
}
use small_server.Server.Handle.Draining.{Quiet}
use small_server.Server.Handle.Progress.{finalize-finished}

-- The world counts the calls of `on_finalized`; closing the stream `stuck` raises.
abbrev env : ℕ → Environment ℕ
env stuck = record {
  socket_close = λ i w. (if i == stuck then some 9 else none, w);
  listener_close = λ w. (none, w);
  wakeup_close = λ w. (none, w);
  wakeup_notify = λ w. (none, w);
  cancel_task = some (λ t w. (none, w));
  resume_task = λ t w. (none, w);
  accept_signal = none;
  request_shutdown = λ i w. w;
  closer = λ i w. (none, w);
  on_finalized = λ w. w + 1;
  observer_tasks = record {
    send_signal = λ t w. (ok 0, w);
    is_done = λ t w. false;
    accept_signal = λ t w. w;
    observer = λ e w. (none, w);
  };
  cursor = none;
}

abbrev fresh : TransportHandle
fresh = record { closed = false; close_error = none }

abbrev started : ServerHandle ℕ
started = record {
  max_connections = 2;
  listener = fresh;
  wakeup = some fresh;
  route_observer_channel = none;
  on_finalized = true;
  close_requested = false;
  notification_sent = false;
  finalization_attempted = false;
  finished = false;
  failure = none;
  cleanup_errors = [];
  listener_task = some 1;
  listener_resumed = false;
  owned_tasks = 1 ∷ [];
  cancelled_task_ids = [];
  connections = [];
  closing_connections = [];
  pending_task_cancellations = [];
  websocket_states = [];
  capacity_waiting = false;
  graceful_connections = [];
  graceful_closers = [];
  streams = λ i. fresh;
  world = 0;
}

abbrev serving : ℕ → ServerHandle ℕ
serving stuck = register (env stuck) 4 fresh 11 (register (env stuck) 3 fresh 10 started)

abbrev closed : ℕ → ServerHandle ℕ
closed stuck = finalize (env stuck) (connection_finished (env stuck) 10 3 none (serving stuck))

test_stuck : (closed 3).finished ≡ false
unfolding finish_close connection_finished close_or_retain connection_close_failed
    cancel_or_retain_task update_finished retry_closing retry_pending finish_connections
    cancel_owned notify_capacity_released Dict.remove Dict.put Dict.get Dict.add Dict.discard
    Dict.contains Transport.close Transport.close_safely
test_stuck = refl

test_kept : (closed 3).cleanup_errors ≡ (of_connection 3, raised 9) ∷ []
unfolding finish_close connection_finished close_or_retain connection_close_failed
    cancel_or_retain_task update_finished retry_closing retry_pending finish_connections
    cancel_owned notify_capacity_released Dict.remove Dict.put Dict.get Dict.add Dict.discard
    Dict.contains Transport.close Transport.close_safely
test_kept = refl

test_finished : (closed 5).world ≡ 1
unfolding finish_close connection_finished close_or_retain connection_close_failed
    cancel_or_retain_task update_finished retry_closing retry_pending finish_connections
    cancel_owned notify_capacity_released Dict.remove Dict.put Dict.get Dict.add Dict.discard
    Dict.contains Transport.close Transport.close_safely
test_finished = refl

counts : (stuck : ℕ) → Counts (env stuck) (λ w. w)
counts stuck = record {
  on_socket_close = λ i w. refl;
  on_listener_close = λ w. refl;
  on_wakeup_close = λ w. refl;
  on_wakeup_notify = λ w. refl;
  on_cancel = λ t w. refl;
  on_resume = λ t w. refl;
  on_signal = λ t w. refl;
  on_closer = λ i w. refl;
  on_request = λ i w. refl;
  on_observer = λ t w. refl;
  on_finalized = λ w. refl;
}

requests : (stuck : ℕ) → Requested (env stuck) started (closed stuck)
requests stuck =
    and_then
      (and_then
        (and_then (and_then at_rest (registered 3 fresh 10 refl)) (registered 4 fresh 11 refl))
        (ended 10 3 none))
      finalizing

served : (stuck : ℕ) → Requested (env stuck) (serving stuck) (closed stuck)
served stuck = and_then (and_then at_rest (ended 10 3 none)) finalizing

owned : accounted (serving 3) 3 ≡ true
unfolding Dict.has Dict.get Dict.put
owned = refl

accounted-Requested_example : accounted (closed 3) 3 ≡ true
accounted-Requested_example = accounted-Requested (env 3) (λ w. w) (counts 3) (served 3) 3 owned

on_finalized-Requested_example :
    ((closed 5).world ≤ 1) × (((closed 5).world ≡ 1) ↔ ((closed 5).on_finalized ≡ false))
on_finalized-Requested_example =
    on_finalized-Requested (env 5) (λ w. w) (counts 5) (requests 5) refl

-- With no stream that fails.
quiet : Quiet (record (env 0) { socket_close = λ i w. (none, w) })
quiet = record {
  closes = λ i w. refl;
  closes_listener = λ w. refl;
  closes_wakeup = λ w. refl;
  cancels = λ t w. refl;
}

finalize-finished_example :
    ((finalize (record (env 0) { socket_close = λ i w. (none, w) }) (serving 0)).finished ≡ true)
    × ((finalize (record (env 0) { socket_close = λ i w. (none, w) }) (serving 0)).cleanup_errors
        ≡ [])
finalize-finished_example =
    finalize-finished (record (env 0) { socket_close = λ i w. (none, w) }) quiet (serving 0) tt refl
      refl
