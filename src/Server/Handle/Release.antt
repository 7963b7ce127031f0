-- ===== src/Server/Handle/Release.antt =====
-- The methods of `ServerHandle` that release one resource or keep it with its failure:
-- `_close_or_retain`, `_connection_close_failed`, `_cancel_or_retain_task` and `_update_finished`.
use small_server.Prelude.{ℕ, Bool, true, false, ◌&&◌, Option, none, some, [], if◌then◌else◌, is_nil}
use small_server.Prelude.Dict
use small_server.Prelude.Dict.{nat_eq}
use small_server.Transport.{TransportHandle, close_safely}
use small_server.Server.Handle.{
  Environment, ServerHandle, Resource, of_connection, of_task, resource_eq, Failure, raised,
  cannot_cancel, first_failure, close_error, set_stream, is_closed,
}

module _ {W : Type 0} (env : Environment W) where
  -- A call whose exceptions are left aside.
  abbrev pub attempt : (W → Option ℕ × W) → ServerHandle W → ServerHandle W
  attempt call s = let (_, w) = call s.world in record s { world = w }

  -- What `close_safely` leaves of a connection's stream.
  abbrev pub stream_closed : ℕ → Bool × TransportHandle × W → ServerHandle W → Bool × ServerHandle W
  stream_closed i (closed, h, w) s =
      (closed, record s { streams = set_stream i h s.streams; world = w })

  abbrev pub close_stream : ℕ → ServerHandle W → Bool × ServerHandle W
  close_stream i s = stream_closed i (close_safely (env.socket_close i) (s.streams i) s.world) s

  -- The handle keeps its first failure.
  abbrev pub note_failure : Failure → ServerHandle W → ServerHandle W
  note_failure x s = record s { failure = some (first_failure s.failure x) }

  abbrev pub put_error : Resource → Failure → ServerHandle W → ServerHandle W
  put_error r x s = record s { cleanup_errors = Dict.put r x s.cleanup_errors }

  abbrev pub drop_error : Resource → ServerHandle W → ServerHandle W
  drop_error r s = record s { cleanup_errors = Dict.remove r s.cleanup_errors }

  abbrev pub retain : ℕ → Option ℕ → ServerHandle W → ServerHandle W
  retain i none s = record s { closing_connections = Dict.put i tt s.closing_connections }
  retain i (some t) s = s

  -- The notification of a fatal failure: with no channel, or where it raises, `finish` is called.
  abbrev pub notified :
      (ServerHandle W → ServerHandle W) → Option ℕ × W → ServerHandle W → ServerHandle W
  notified finish (none, w) s = record s { notification_sent = true; world = w }
  notified finish (some x, w) s = finish (record s { world = w })

  abbrev pub notify_or_finish :
      (ServerHandle W → ServerHandle W) → Option TransportHandle → ServerHandle W → ServerHandle W
  notify_or_finish finish none s = finish s
  notify_or_finish finish (some h) s =
      let notice = notified finish (env.wakeup_notify s.world) s in
      if s.notification_sent then s else notice

  -- `_connection_close_failed`; `finish` is `_finish_close` for the task that called.
  unfoldable pub connection_close_failed :
      (ServerHandle W → ServerHandle W) → Failure → ServerHandle W → ServerHandle W
  connection_close_failed finish x s =
      let s1 = record s { failure = some (first_failure s.failure x); close_requested = true } in
      let noticed = notify_or_finish finish s1.wakeup s1 in
      if s1.finalization_attempted then s1 else noticed

  abbrev pub settle_close :
      (ServerHandle W → ServerHandle W)
      → ℕ
      → Option Failure
      → Bool × ServerHandle W
      → Bool × ServerHandle W
  settle_close finish i primary (true, s) = (
    true,
    drop_error (of_connection i)
        (record s { closing_connections = Dict.remove i s.closing_connections }),
  )
  settle_close finish i primary (false, s) =
      let x = close_error (s.streams i).close_error in
      (
        false,
        connection_close_failed finish (first_failure primary x)
            (put_error (of_connection i) x (retain i (Dict.get i s.connections) s)),
      )

  -- `_close_or_retain`
  unfoldable pub close_or_retain :
      (ServerHandle W → ServerHandle W)
      → ℕ
      → Option Failure
      → ServerHandle W
      → Bool × ServerHandle W
  close_or_retain finish i primary s = settle_close finish i primary (close_stream i s)

  abbrev pub cancel_call : Option (ℕ → W → Option ℕ × W) → ℕ → W → Option Failure × W
  cancel_call none t w = (some cannot_cancel, w)
  cancel_call (some cancel) t w =
      let (x, w') = cancel t w in (elim x [ none ↦ none | some n ↦ some (raised n) ], w')

  abbrev pub settle_cancel : ℕ → Option Failure × W → ServerHandle W → Bool × ServerHandle W
  settle_cancel t (none, w) s = (
    true,
    drop_error (of_task t) (record s {
      pending_task_cancellations = Dict.remove t s.pending_task_cancellations;
      world = w;
    }),
  )
  settle_cancel t (some x, w) s = (
    false,
    put_error (of_task t) x (record s {
      pending_task_cancellations = Dict.put t tt s.pending_task_cancellations;
      world = w;
    }),
  )

  -- `_cancel_or_retain_task`
  unfoldable pub cancel_or_retain_task : ℕ → ServerHandle W → Bool × ServerHandle W
  cancel_or_retain_task t s = settle_cancel t (cancel_call env.cancel_task t s.world) s

  -- The test of `_update_finished`.
  abbrev pub is_released : ServerHandle W → Bool
  is_released s =
      s.close_requested
      && is_closed s.wakeup
      && s.listener.closed
      && is_nil s.connections
      && is_nil s.closing_connections
      && is_nil s.pending_task_cancellations
      && is_nil s.websocket_states

  abbrev pub call_finalized : Bool → ServerHandle W → ServerHandle W
  call_finalized false s = record s { on_finalized = false }
  call_finalized true s = record s { on_finalized = false; world = env.on_finalized s.world }

  abbrev pub set_finished : Bool → ServerHandle W → ServerHandle W
  set_finished false s = record s { finished = false }
  set_finished true s =
      let s1 = record s { finished = true; cleanup_errors = [] } in
      if s.finished then s1 else call_finalized s.on_finalized s1

  -- `_update_finished`
  unfoldable pub update_finished : ServerHandle W → ServerHandle W
  update_finished s = set_finished (is_released s) s
