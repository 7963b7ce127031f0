-- ===== src/WebSocket/Mailbox.antt =====
-- The mailboxes of `_WebSocketState` of smallserver/websocket.py, and `_drain_protocol_events`, which
-- fills them. A text is its UTF-8 bytes. Signals to tasks and deadlines are left out.
pub mod Bounds
mod Tests
use small_server.Prelude.{
  ℕ, ◌+◌, ◌-◌, Bool, true, false, not, ◌&&◌, ◌||◌, Option, none, some, List, [], ◌∷◌, ◌++◌, ltb,
  leb, ◌==◌, if◌then◌else◌, length, Result, ok, err,
}
use small_server.Prelude.Text.{Text, codes, text_equal}

pub data Kind : Type 0 where
  text bytes : Kind

abbrev pub same_kind : Kind → Kind → Bool
same_kind text text = true
same_kind bytes bytes = true
same_kind _ _ = false

pub record Message : Type 0 where
  pub kind : Kind
  pub content : Text

-- What the code uses of wsproto: the events that it sends, with those that answer an event.
pub record Api : Type 1 where
  pub Out : Type 0
  pub text_message : Text → Out
  pub bytes_message : Text → Out
  pub ping : Text → Out
  pub close_connection : ℕ → Text → Out
  pub ping_response : Text → Out
  pub close_response : ℕ → Text → Out
  pub close_code : Out → ℕ
  pub close_reason : Out → Text

-- The events that `_drain_protocol_events` tells apart.
pub data Event : Type 0 where
  message : Kind → Text → Bool → Event
  ping_received pong_received : Text → Event
  close_received : ℕ → Text → Event

pub record OutboundCommand (Out : Type 0) : Type 0 where
  pub event : Out
  pub size : ℕ

pub data SocketError : Type 0 where
  not_accepted closed already_pinging kind_changed : SocketError
  message_too_large inbound_full outbound_full bad_close_code long_reason : SocketError
  disconnected : ℕ → Text → SocketError

pub record Mailbox (api : Api) : Type 0 where
  pub max_message_bytes : ℕ
  pub max_inbound_messages : ℕ
  pub max_inbound_bytes : ℕ
  pub max_outbound_commands : ℕ
  pub max_outbound_bytes : ℕ
  pub accepted : Bool
  pub shutdown : Bool
  pub peer_closed : Bool
  pub close_sent : Bool
  pub disconnect : Option (ℕ × Text)
  pub inbox : List Message
  pub inbox_bytes : ℕ
  pub outbox : List (OutboundCommand (Api.Out api))
  pub outbox_bytes : ℕ
  pub message_kind : Option Kind
  pub message_buffer : Text
  pub message_bytes : ℕ
  pub ping_generation : ℕ
  pub pending_ping_generation : Option ℕ
  pub pending_ping_payload : Option Text

-- What a method that may raise returns, with the state that it leaves.
abbrev pub Step : Api → Type 0 → Type 0
Step api A = Result SocketError A × Mailbox api

-- `_valid_close_code`
unfoldable pub valid_close_code : ℕ → Bool
valid_close_code code =
    (leb 1000 code && leb code 1014 && not (code == 1004 || code == 1005 || code == 1006))
    || (leb 3000 code && leb code 4999)

-- `_close_event_size`
abbrev pub close_event_size : (api : Api) → api.Out → ℕ
close_event_size api event =
    if api.close_code event == 1005 then 0 else 2 + length (api.close_reason event)

-- The answer to a close, and the reason that is kept.
abbrev pub close_answer : (api : Api) → ℕ → Text → api.Out
close_answer api code reason =
    if code == 1002
    then api.close_connection 1002 (codes "protocol error")
    else if code == 1007
    then api.close_connection 1007 (codes "invalid payload")
    else api.close_response code reason

abbrev pub kept_reason : ℕ → Text → Text
kept_reason code reason =
    if code == 1002
    then codes "protocol error"
    else if code == 1007
    then codes "invalid payload"
    else reason

module _ {api : Api} where
  unfoldable pub deliver_message : Mailbox api → Message → Bool × Mailbox api
  deliver_message s m =
      let size = length m.content in
      if leb s.max_inbound_messages (length s.inbox)
        || ltb s.max_inbound_bytes (s.inbox_bytes + size)
      then (false, s)
      else (true, record s { inbox = s.inbox ++ m ∷ []; inbox_bytes = s.inbox_bytes + size })

  unfoldable pub enqueue_control : Mailbox api → api.Out → ℕ → Bool × Mailbox api
  enqueue_control s event size =
      if leb s.max_outbound_commands (length s.outbox)
        || ltb s.max_outbound_bytes (s.outbox_bytes + size)
      then (false, s)
      else (
        true,
        record s {
          outbox = s.outbox ++ (record { event = event; size = size }) ∷ [];
          outbox_bytes = s.outbox_bytes + size;
        },
      )

  -- A command that is queued, or the WebSocketCapacityError.
  abbrev pub queued : Bool × Mailbox api → Step api (Unit {0})
  queued (true, s) = (ok tt, s)
  queued (false, s) = (err outbound_full, s)

  -- `_enqueue` up to the wait for the writer.
  abbrev pub enqueue : Mailbox api → api.Out → ℕ → Step api (Unit {0})
  enqueue s event size = queued (enqueue_control s event size)

  -- `_disconnect`
  unfoldable pub set_disconnect : Mailbox api → ℕ → Text → Mailbox api
  set_disconnect s code reason = elim s.disconnect [
    | none ↦ record s { disconnect = some (code, reason) }
    | some _ ↦ s
  ]

  unfoldable pub require_open : Mailbox api → Result SocketError (Unit {0})
  require_open s = if not s.accepted then err not_accepted else elim s.disconnect [
    | some (code, reason) ↦ err (disconnected code reason)
    | none ↦ if s.shutdown then err closed else ok tt
  ]

  -- `receive`; `none` stands for the wait for a signal.
  unfoldable pub receive : Mailbox api → Option (Step api Message)
  receive s = if not s.accepted then some (err not_accepted, s) else elim s.inbox [
    | m ∷ ms ↦ some (ok m, record s { inbox = ms; inbox_bytes = s.inbox_bytes - length m.content })
    | [] ↦ elim s.disconnect [
      | some (code, reason) ↦ some (err (disconnected code reason), s)
      | none ↦ none
    ]
  ]

  unfoldable pub send_message : Mailbox api → Message → Step api (Unit {0})
  unfolding require_open
  send_message s m = elim (require_open s) [
    | err e ↦ (err e, s)
    | ok _ ↦
        if ltb s.max_message_bytes (length m.content)
        then (err message_too_large, s)
        else enqueue s
            (elim m.kind [
              | text ↦ api.text_message m.content
              | bytes ↦ api.bytes_message m.content
            ])
            (length m.content)
  ]

  -- The writer takes a command.
  unfoldable pub take_command : Mailbox api → Option (OutboundCommand api.Out × Mailbox api)
  take_command s = elim s.outbox [
    | [] ↦ none
    | c ∷ cs ↦ some (c, record s { outbox = cs; outbox_bytes = s.outbox_bytes - c.size })
  ]

  -- `_fail_outbound`, with the waiting commands that it fails.
  unfoldable pub fail_outbound : Mailbox api → List (OutboundCommand api.Out) × Mailbox api
  fail_outbound s = (s.outbox, record s { outbox = []; outbox_bytes = 0 })

  unfoldable pub clear_pending_ping : Mailbox api → Mailbox api
  clear_pending_ping s = record s { pending_ping_generation = none; pending_ping_payload = none }

  unfoldable pub handle_pong : Mailbox api → Text → Mailbox api
  unfolding clear_pending_ping text_equal
  handle_pong s payload = elim s.pending_ping_generation [
    | none ↦ s
    | some _ ↦ elim s.pending_ping_payload [
      | none ↦ s
      | some p ↦ if text_equal payload p then clear_pending_ping s else s
    ]
  ]

  abbrev pub delivered : Bool × Mailbox api → Step api (Unit {0})
  delivered (true, s) = (ok tt, s)
  delivered (false, s) = (err inbound_full, s)

  -- A part of a message, where its kind is settled.
  unfoldable pub add_part : Mailbox api → Kind → Text → Bool → Step api (Unit {0})
  add_part s kind part finished =
      let size = s.message_bytes + length part in
      let counted = record s { message_kind = some kind; message_bytes = size } in
      let whole = s.message_buffer ++ part in
      if ltb s.max_message_bytes size
      then (err message_too_large, counted)
      else if not finished
      then (ok tt, record counted { message_buffer = whole })
      else delivered (
          deliver_message (record s { message_kind = none; message_buffer = []; message_bytes = 0 })
            (record { kind = kind; content = whole }))

  unfoldable pub on_message : Mailbox api → Kind → Text → Bool → Step api (Unit {0})
  on_message s kind part finished = elim s.message_kind [
    | none ↦ add_part (record s { message_buffer = []; message_bytes = 0 }) kind part finished
    | some k ↦ if same_kind k kind then add_part s kind part finished else (err kind_changed, s)
  ]

  abbrev pub close_queued : ℕ → Text → Bool × Mailbox api → Step api (Unit {0})
  close_queued code reason (false, s) = (err outbound_full, s)
  close_queued code reason (true, s) =
      (ok tt, set_disconnect (record s { close_sent = true }) code (kept_reason code reason))

  unfoldable pub on_close : Mailbox api → ℕ → Text → Step api (Unit {0})
  on_close s code reason =
      let s' = record s { peer_closed = true } in
      let answer = close_answer api code reason in
      if s.close_sent
      then (ok tt, set_disconnect s' code (kept_reason code reason))
      else close_queued code reason (enqueue_control s' answer (close_event_size api answer))

  abbrev pub next : Step api (Unit {0}) → (Mailbox api → Step api Bool) → Step api Bool
  next (ok _, s) k = k s
  next (err e, s) k = (err e, s)

  -- `_drain_protocol_events`: whether the peer has closed.
  unfoldable pub drain_events : List Event → Mailbox api → Step api Bool
  drain_events [] s = (ok false, s)
  drain_events (message kind part finished ∷ es) s =
      next (on_message s kind part finished) (drain_events es)
  drain_events (ping_received payload ∷ es) s =
      next (enqueue s (api.ping_response payload) (length payload)) (drain_events es)
  drain_events (pong_received payload ∷ es) s = drain_events es (handle_pong s payload)
  drain_events (close_received code reason ∷ es) s =
      next (on_close s code reason) (λ s'. (ok true, s'))
