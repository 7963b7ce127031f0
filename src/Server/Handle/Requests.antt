-- ===== src/Server/Handle/Requests.antt =====
-- The methods of `ServerHandle` that its owner, the scheduler and the connections call, and what the
-- listener's task of smallserver/app.py does to the handle with an accepted connection.
use small_server.Prelude.{
  ℕ, Bool, true, false, not, ◌&&◌, ◌||◌, Option, none, some, List, [], ◌∷◌, ◌++◌, leb, ltb, ◌==◌,
  if◌then◌else◌, Result, ok, err,
}
use small_server.Prelude.Dict
use small_server.Prelude.Dict.{Dict, nat_eq}
use small_server.Transport.{TransportHandle}
use small_server.Server.Handle.{
  Environment, ServerHandle, of_connection, resource_eq, Failure, raised, signal_failed,
  close_error, set_stream, owned_connection_count,
}
use small_server.Server.Handle.Release.{
  note_failure, put_error, notified, connection_close_failed, close_or_retain,
  cancel_or_retain_task, update_finished,
}
use small_server.Server.Handle.Closing.{ask_websockets, begin_close, finish_close}

-- What `close` and `close_from_task` raise.
pub data CloseError : Type 0 where
  no_wakeup incomplete not_current_task : CloseError
  notify_raised : ℕ → CloseError

module _ {W : Type 0} (env : Environment W) where
  abbrev pub notice : Option ℕ × W → ServerHandle W → Result CloseError (Unit {0}) × ServerHandle W
  notice (none, w) s = (ok tt, record s { notification_sent = true; world = w })
  notice (some x, w) s = (err (notify_raised x), record s { world = w })

  abbrev pub request_close :
      Option TransportHandle → ServerHandle W → Result CloseError (Unit {0}) × ServerHandle W
  request_close none s = (err no_wakeup, s)
  request_close (some h) s =
      let s1 = record s { close_requested = true } in
      let noticed = notice (env.wakeup_notify s1.world) s1 in
      if s1.notification_sent
      then (if s1.finalization_attempted && not s1.finished then err incomplete else ok tt, s1)
      else noticed

  unfoldable pub close : ServerHandle W → Result CloseError (Unit {0}) × ServerHandle W
  close s = let requested = request_close s.wakeup s in if s.finished then (ok tt, s) else requested

  abbrev pub finalize : ServerHandle W → ServerHandle W
  finalize s = finish_close env none true s

  abbrev pub is_cursor : Option ℕ → ℕ → Bool
  is_cursor none t = false
  is_cursor (some c) t = c == t

  unfoldable pub close_from_task :
      ℕ → ServerHandle W → Result CloseError (Unit {0}) × ServerHandle W
  close_from_task t s =
      let closed = finish_close env (some t) false (ask_websockets env (begin_close env s)) in
      if not (is_cursor env.cursor t)
      then (err not_current_task, s)
      else (ok tt, if s.finished then s else closed)

  -- The task in which `_finish_close` may run is `current`.
  abbrev pub fail_listener : Option ℕ → Option TransportHandle → ServerHandle W → ServerHandle W
  fail_listener current (some h) s =
      let noticed = notified env (finish_close env current false) (env.wakeup_notify s.world) s in
      if s.notification_sent then s else noticed
  fail_listener current none s =
      let closed = finish_close env current false s in if s.notification_sent then s else closed

  unfoldable pub listener_failed : Failure → Option ℕ → ServerHandle W → ServerHandle W
  listener_failed x current s =
      fail_listener current s.wakeup (record (note_failure env x s) { close_requested = true })

  abbrev pub after_signal : Result ℕ ℕ × W → ServerHandle W → ServerHandle W
  after_signal (ok n, w) s =
      let s1 = record s { world = w } in
      let failed = listener_failed signal_failed env.cursor s1 in if n == 0 then s1 else failed
  after_signal (err x, w) s = listener_failed (raised x) env.cursor (record s { world = w })

  abbrev pub signal_capacity : Option (ℕ → W → Result ℕ ℕ × W) → ℕ → ServerHandle W → ServerHandle W
  signal_capacity none t s = listener_failed signal_failed env.cursor s
  signal_capacity (some signal) t s = after_signal (signal t s.world) s

  abbrev pub notify_listener : Option ℕ → ServerHandle W → ServerHandle W
  notify_listener none s = s
  notify_listener (some t) s = signal_capacity env.accept_signal t s

  -- `_notify_capacity_released`
  unfoldable pub notify_capacity_released : ℕ → ServerHandle W → ServerHandle W
  notify_capacity_released previous s =
      let signalled = notify_listener s.listener_task s in
      if not s.capacity_waiting
        || ltb previous s.max_connections
        || leb s.max_connections (owned_connection_count s)
      then s
      else signalled

  -- `_close_or_retain` in a task.
  abbrev pub close_in : Option ℕ → ℕ → Option Failure → ServerHandle W → Bool × ServerHandle W
  close_in current i primary s = close_or_retain env (finish_close env current false) i primary s

  unfoldable pub force_connection_close :
      Option ℕ → ℕ → Option Failure → ServerHandle W → Bool × ServerHandle W
  force_connection_close current i primary s = close_in current i primary (record s {
    graceful_connections = Dict.discard i s.graceful_connections;
    graceful_closers = Dict.remove i s.graceful_closers;
  })

  -- The stream of a failed set-up comes with the state that its rollback has left.
  unfoldable pub accepted_setup_failed :
      Failure → ℕ → TransportHandle → Option ℕ → ServerHandle W → ServerHandle W
  accepted_setup_failed primary i h current s =
      let x = close_error h.close_error in
      let s1 = put_error env (of_connection i) x (record s {
        streams = set_stream i h s.streams;
        closing_connections = Dict.put i tt s.closing_connections;
      }) in
      connection_close_failed env (finish_close env current false) primary
        (note_failure env primary s1)

  abbrev pub task_or : Option ℕ → ℕ → ℕ
  task_or none t = t
  task_or (some u) t = u

  -- `_connection_finished`
  unfoldable pub connection_finished : ℕ → ℕ → Option Failure → ServerHandle W → ServerHandle W
  connection_finished t i primary s =
      let s1 = record s {
        connections = Dict.remove i s.connections;
        graceful_connections = Dict.discard i s.graceful_connections;
        graceful_closers = Dict.remove i s.graceful_closers;
        owned_tasks = Dict.discard (task_or (Dict.get i s.connections) t) s.owned_tasks;
      } in
      let (_, s2) = close_in (some t) i primary s1 in
      update_finished env (notify_capacity_released (owned_connection_count s) s2)

  abbrev pub abort_startup : List ℕ → ServerHandle W → ServerHandle W
  abort_startup tasks s =
      finish_close env none true (record s { close_requested = true; owned_tasks = tasks })

  -- `_wait_for_capacity` sets the flag while the listener's task waits for its signal.
  abbrev pub set_capacity_waiting : Bool → ServerHandle W → ServerHandle W
  set_capacity_waiting waits s = record s { capacity_waiting = waits }

  -- An accepted stream gets its task, in `_accept_loop`.
  abbrev pub register : ℕ → TransportHandle → ℕ → ServerHandle W → ServerHandle W
  register i h t s = record s {
    streams = set_stream i h s.streams;
    connections = Dict.put i t s.connections;
    owned_tasks = s.owned_tasks ++ t ∷ [];
  }

  abbrev pub unregistered : ℕ → Bool × ServerHandle W → ServerHandle W
  unregistered t (true, s) = record s { owned_tasks = Dict.discard t s.owned_tasks }
  unregistered t (false, s) = s

  -- A child of a connection's task is cancelled, and its task is no longer owned where that succeeds.
  unfoldable pub cancel_child : ℕ → ServerHandle W → ServerHandle W
  cancel_child t s = unregistered t (cancel_or_retain_task env t s)

  -- The connection's task is cancelled, unless it could not even be created.
  abbrev pub cancel_created : Option ℕ → ServerHandle W → ServerHandle W
  cancel_created none s = s
  cancel_created (some t) s = cancel_child t s

  -- A stream that comes after the handle has been closed, in `_accept_loop`.
  unfoldable pub refuse_accepted :
      ℕ → TransportHandle → Option ℕ → ServerHandle W → Bool × ServerHandle W
  refuse_accepted i h current s =
      close_in current i none (record s { streams = set_stream i h s.streams })

  -- The registration of a stream whose task could not be created or forked, in `_accept_loop`. A
  -- stream without a task has not been registered.
  unfoldable pub registration_failed :
      Failure → ℕ → Option ℕ → Option ℕ → ServerHandle W → ServerHandle W
  registration_failed x i t current s =
      let s1 = cancel_created t s in
      let (_, s2) =
        close_in current i (some x) (record s1 { connections = Dict.remove i s1.connections }) in
      listener_failed x current s2

  -- The stream whose task could not be created.
  abbrev pub task_failed :
      Failure → ℕ → TransportHandle → Option ℕ → ServerHandle W → ServerHandle W
  task_failed x i h current s =
      registration_failed x i none current (record s { streams = set_stream i h s.streams })

  -- An HTTP/2 connection gets its children, its closer, and a task for a request.
  abbrev pub own_tasks : List ℕ → ServerHandle W → ServerHandle W
  own_tasks tasks s = record s { owned_tasks = s.owned_tasks ++ tasks }

  abbrev pub disown : ℕ → ServerHandle W → ServerHandle W
  disown t s = record s { owned_tasks = Dict.discard t s.owned_tasks }

  abbrev pub make_graceful : ℕ → ServerHandle W → ServerHandle W
  make_graceful i s = record s {
    graceful_connections = Dict.add i s.graceful_connections;
    graceful_closers = Dict.put i tt s.graceful_closers;
  }

  -- `_dispatch_websocket` adds a connection's state and drops it at the end.
  abbrev pub add_websocket : ℕ → ServerHandle W → ServerHandle W
  add_websocket i s = record s { websocket_states = Dict.put i tt s.websocket_states }

  abbrev pub drop_websocket : ℕ → ServerHandle W → ServerHandle W
  drop_websocket i s = record s { websocket_states = Dict.remove i s.websocket_states }
