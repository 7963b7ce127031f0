-- ===== src/Server/Handle/Closing.antt =====
-- `_finish_close` of `ServerHandle`, a step of it after the other. `current` is the task that calls,
-- and `owner` the argument `owner_thread`.
use small_server.Prelude.{
  ℕ, Bool, true, false, ◌||◌, Option, none, some, List, [], ◌∷◌, ◌==◌, if◌then◌else◌,
}
use small_server.Prelude.Dict
use small_server.Prelude.Dict.{Dict, nat_eq}
use small_server.Transport.{TransportHandle, close}
use small_server.Server.RouteObserver.{RouteObserverChannel}
use small_server.Server.RouteObserver
use small_server.Server.Handle.{
  Environment, ServerHandle, Objects, of_wakeup, of_listener, of_connection, of_task, resource_eq,
  raised, close_error,
}
use small_server.Server.Handle.Release.{
  attempt, close_stream, put_error, drop_error, close_or_retain, cancel_or_retain_task,
  update_finished,
}

abbrev pub is_current : Option ℕ → ℕ → Bool
is_current none t = false
is_current (some c) t = c == t

abbrev pub is_some {ℓ} : {A : Type ℓ} → Option A → Bool
is_some none = false
is_some (some a) = true

module _ {W : Type 0} (env : Environment W) where
  -- Every WebSocket is asked to close. `request_shutdown` is taken to return: what it may raise, a
  -- KeyboardInterrupt or SystemExit of a cancelled handler or the failure of a signal, is not modelled.
  abbrev pub request_shutdowns : Objects → W → W
  request_shutdowns [] w = w
  request_shutdowns ((i, _) ∷ states) w = request_shutdowns states (env.request_shutdown i w)

  abbrev pub ask_websockets : ServerHandle W → ServerHandle W
  ask_websockets s = record s { world = request_shutdowns s.websocket_states s.world }

  abbrev pub channel_stopped : RouteObserverChannel × W → ServerHandle W → ServerHandle W
  channel_stopped (c, w) s = record s { route_observer_channel = some c; world = w }

  abbrev pub stop_channel : Option RouteObserverChannel → ServerHandle W → ServerHandle W
  stop_channel none s = s
  stop_channel (some c) s = channel_stopped (RouteObserver.stop env.observer_tasks c s.world) s

  abbrev pub wakeup_closed : Option ℕ × TransportHandle × W → ServerHandle W → ServerHandle W
  wakeup_closed (none, h, w) s = drop_error env of_wakeup (record s { wakeup = some h; world = w })
  wakeup_closed (some x, h, w) s =
      put_error env of_wakeup (raised x) (record s { wakeup = some h; world = w })

  abbrev pub close_wakeup : Option TransportHandle → ServerHandle W → ServerHandle W
  close_wakeup none s = s
  close_wakeup (some h) s =
      let tried = wakeup_closed (close env.wakeup_close h s.world) s in
      if h.closed then s else tried

  abbrev pub retried : ℕ → Bool × ServerHandle W → ServerHandle W
  retried i (true, s) =
      drop_error env (of_connection i)
        (record s { closing_connections = Dict.remove i s.closing_connections })
  retried i (false, s) = put_error env (of_connection i) (close_error (s.streams i).close_error) s

  -- The retry of the connections that an earlier close has left.
  unfoldable pub retry_closing : Objects → ServerHandle W → ServerHandle W
  retry_closing [] s = s
  retry_closing ((i, _) ∷ items) s = retry_closing items (retried i (close_stream env i s))

  -- The retry of a cancellation; the tasks that have been tried are kept beside the handle.
  abbrev pub settle_pending : ℕ → List ℕ → Bool × ServerHandle W → List ℕ × ServerHandle W
  settle_pending t tried (true, s) = (
    tried,
    drop_error env (of_task t) (record s {
      pending_task_cancellations = Dict.remove t s.pending_task_cancellations;
      cancelled_task_ids = Dict.add t s.cancelled_task_ids;
    }),
  )
  settle_pending t tried (false, s) = (tried, s)

  unfoldable pub retry_pending : Objects → List ℕ × ServerHandle W → List ℕ × ServerHandle W
  retry_pending [] r = r
  retry_pending ((t, _) ∷ items) (tried, s) =
      retry_pending items (settle_pending t (Dict.add t tried) (cancel_or_retain_task env t s))

  abbrev pub count_cancelled : ℕ → List ℕ → Bool × ServerHandle W → List ℕ × ServerHandle W
  count_cancelled t tried (true, s) =
      (tried, record s { cancelled_task_ids = Dict.add t s.cancelled_task_ids })
  count_cancelled t tried (false, s) = (tried, s)

  -- A task is cancelled unless it is the one that calls or has been cancelled or tried already.
  abbrev pub cancel_once : Option ℕ → ℕ → List ℕ × ServerHandle W → List ℕ × ServerHandle W
  cancel_once current t (tried, s) =
      let done = count_cancelled t (Dict.add t tried) (cancel_or_retain_task env t s) in
      if is_current current t || Dict.contains t s.cancelled_task_ids || Dict.contains t tried
      then (tried, s)
      else done

  -- An active connection is taken from the dict and closed. What `_connection_close_failed` would call
  -- is not reached, since a finalization is under way.
  abbrev pub release : ℕ → ServerHandle W → ServerHandle W
  release i s =
      (close_or_retain env (λ r. r) i none
        (record s { connections = Dict.remove i s.connections })).1

  abbrev pub asked : ℕ → Option ℕ × W → ServerHandle W → Bool × ServerHandle W
  asked t (none, w) s = (true, record s { world = w })
  asked t (some x, w) s = (false, attempt env (env.resume_task t) (record s { world = w }))

  -- A connection's closer is called, or its task is resumed; with true, it closes by itself.
  abbrev pub ask : ℕ → ℕ → Option (Unit {0}) → ServerHandle W → Bool × ServerHandle W
  ask i t none s = (false, attempt env (env.resume_task t) s)
  ask i t (some _) s = asked t (env.closer i s.world) s

  abbrev pub after_asking : ℕ → Bool × ServerHandle W → ServerHandle W
  after_asking i (graceful, s) =
      let released = release i s in
      if graceful || is_some (Dict.get i s.websocket_states) then s else released

  -- One turn of the loop over the active connections.
  abbrev pub finish_connection :
      Option ℕ → Bool → ℕ → ℕ → List ℕ × ServerHandle W → List ℕ × ServerHandle W
  finish_connection current true i t (tried, s) =
      let (tried', s') = cancel_once current t (tried, s) in
      (tried', if is_current current t then s' else release i s')
  finish_connection current false i t (tried, s) = (
    tried,
    if is_current current t then s else after_asking i (ask i t (Dict.get i s.graceful_closers) s),
  )

  unfoldable pub finish_connections :
      Option ℕ → Bool → Dict ℕ ℕ → List ℕ × ServerHandle W → List ℕ × ServerHandle W
  finish_connections current owner [] r = r
  finish_connections current owner ((i, t) ∷ items) r =
      finish_connections current owner items (finish_connection current owner i t r)

  unfoldable pub cancel_owned :
      Option ℕ → List ℕ → List ℕ × ServerHandle W → List ℕ × ServerHandle W
  cancel_owned current [] r = r
  cancel_owned current (t ∷ ts) r = cancel_owned current ts (cancel_once current t r)

  abbrev pub finish_owned : Option ℕ → Bool → List ℕ × ServerHandle W → ServerHandle W
  finish_owned current true (tried, s) =
      record ((cancel_owned current s.owned_tasks (tried, s)).1) { listener_resumed = true }
  finish_owned current false (tried, s) = s

  abbrev pub resume_listener : Option ℕ → Option ℕ → ServerHandle W → ServerHandle W
  resume_listener current none s = s
  resume_listener current (some t) s =
      let resumed = record (attempt env (env.resume_task t) s) { listener_resumed = true } in
      if is_current current t || s.listener_resumed then s else resumed

  abbrev pub listener_closed : Option ℕ × TransportHandle × W → ServerHandle W → ServerHandle W
  listener_closed (none, h, w) s = drop_error env of_listener (record s { listener = h; world = w })
  listener_closed (some x, h, w) s =
      put_error env of_listener (raised x) (record s { listener = h; world = w })

  abbrev pub close_listener : ServerHandle W → ServerHandle W
  close_listener s =
      let tried = listener_closed (close env.listener_close s.listener s.world) s in
      if s.listener.closed then s else tried

  abbrev pub begin_close : ServerHandle W → ServerHandle W
  begin_close s = record s { close_requested = true; finalization_attempted = true }

  -- What is done before the loops.
  abbrev pub announce : ServerHandle W → ServerHandle W
  announce s =
      let s1 = ask_websockets (begin_close s) in
      let s2 = stop_channel s1.route_observer_channel s1 in close_wakeup s2.wakeup s2

  -- The loops over the connections and the tasks.
  abbrev pub release_all : Option ℕ → Bool → ServerHandle W → ServerHandle W
  release_all current owner s =
      let s1 = retry_closing s.closing_connections s in
      let (tried, s2) = retry_pending s1.pending_task_cancellations ([], s1) in
      finish_owned current owner (finish_connections current owner s2.connections (tried, s2))

  -- `_finish_close`
  unfoldable pub finish_close : Option ℕ → Bool → ServerHandle W → ServerHandle W
  finish_close current owner s =
      let s1 = release_all current owner (announce s) in
      let s2 = close_listener (resume_listener current s1.listener_task s1) in
      if s.finished then s else update_finished env s2
