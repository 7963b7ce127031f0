-- ===== src/WebSocket/Mailbox/Bounds.antt =====
-- The mailboxes stay within their limits, and their byte counters count what waits.
use small_server.Prelude.{
  ℕ, ◌+◌, ◌≤◌, ◌≡◌, Bool, true, false, ◌||◌, Option, none, inl, inr, List, [], ◌∷◌, ◌++◌, ltb, leb,
  ltb→le, Bool-cases, Option-cases, length, length-append, ok, err, arith,
}
use small_server.Prelude.Text.{Text, text_equal}
use small_server.WebSocket.Mailbox.{
  Api, Kind, Message, Event, message, ping_received, pong_received, close_received, OutboundCommand,
  Mailbox, Step, deliver_message, enqueue_control, enqueue, set_disconnect, clear_pending_ping,
  handle_pong, delivered, queued, close_queued, same_kind, add_part, on_message, close_answer,
  kept_reason, close_event_size, on_close, next, drain_events,
}

abbrev pub messages_size : List Message → ℕ
messages_size [] = 0
messages_size (m ∷ ms) = length m.content + messages_size ms

abbrev pub commands_size : {Out : Type 0} → List (OutboundCommand Out) → ℕ
commands_size [] = 0
commands_size (c ∷ cs) = c.size + commands_size cs

messages_size-append :
    (ms ns : List Message) → messages_size (ms ++ ns) ≡ messages_size ms + messages_size ns
messages_size-append [] ns = omega arith
messages_size-append (m ∷ ms) ns = omega (arith, messages_size-append ms ns)

commands_size-append :
    {Out : Type 0} (cs ds : List (OutboundCommand Out))
    → commands_size (cs ++ ds) ≡ commands_size cs + commands_size ds
commands_size-append [] ds = omega arith
commands_size-append (c ∷ cs) ds = omega (arith, commands_size-append cs ds)

pub record Inv {api : Api} (s : Mailbox api) : Type 0 where
  pub inbox_counted : s.inbox_bytes ≡ messages_size s.inbox
  pub outbox_counted : s.outbox_bytes ≡ commands_size s.outbox
  pub inbox_length : length s.inbox ≤ s.max_inbound_messages
  pub inbox_le : s.inbox_bytes ≤ s.max_inbound_bytes
  pub outbox_length : length s.outbox ≤ s.max_outbound_commands
  pub outbox_le : s.outbox_bytes ≤ s.max_outbound_bytes
  pub buffer_counted : length s.message_buffer ≤ s.message_bytes
  pub buffer_le : length s.message_buffer ≤ s.max_message_bytes

abbrev full : ℕ → ℕ → ℕ → ℕ → Bool
full limit count max size = leb limit count || ltb max size

not_full :
    (limit count max size : ℕ)
    → full limit count max size ≡ false
    → (count + 1 ≤ limit) × (size ≤ max)
not_full limit count max size h = ground arith

module _ {api : Api} where
  deliver_message-Inv : (s : Mailbox api) (m : Message) → Inv s → Inv (deliver_message s m).1
  unfolding deliver_message
  deliver_message-Inv s m v =
      elim (Bool-cases (
        full s.max_inbound_messages (length s.inbox) s.max_inbound_bytes
          (s.inbox_bytes + length m.content))) [
            | inl refused ↦ rw refused v
            | inr room ↦ rw room (record {
              inbox_counted = omega (arith, v.inbox_counted, messages_size-append s.inbox (m ∷ []));
              outbox_counted = v.outbox_counted;
              inbox_length = omega (
                arith,
                length-append s.inbox (m ∷ []),
                (not_full s.max_inbound_messages (length s.inbox) s.max_inbound_bytes
                    (s.inbox_bytes + length m.content) room).0,
              );
              inbox_le =
                  (not_full s.max_inbound_messages (length s.inbox) s.max_inbound_bytes
                    (s.inbox_bytes + length m.content) room).1;
              outbox_length = v.outbox_length;
              outbox_le = v.outbox_le;
              buffer_counted = v.buffer_counted;
              buffer_le = v.buffer_le;
            })
          ]

  pub enqueue_control-Inv :
      (s : Mailbox api) (event : api.Out) (size : ℕ) → Inv s → Inv (enqueue_control s event size).1
  unfolding enqueue_control
  enqueue_control-Inv s event size v =
      elim (Bool-cases (
        full s.max_outbound_commands (length s.outbox) s.max_outbound_bytes
          (s.outbox_bytes + size))) [
            | inl refused ↦ rw refused v
            | inr room ↦ rw room (record {
              inbox_counted = v.inbox_counted;
              outbox_counted = omega (
                arith,
                v.outbox_counted,
                commands_size-append s.outbox (record { event = event; size = size } ∷ []),
              );
              inbox_length = v.inbox_length;
              inbox_le = v.inbox_le;
              outbox_length = omega (
                arith,
                length-append s.outbox (record { event = event; size = size } ∷ []),
                (not_full s.max_outbound_commands (length s.outbox) s.max_outbound_bytes
                    (s.outbox_bytes + size) room).0,
              );
              outbox_le =
                  (not_full s.max_outbound_commands (length s.outbox) s.max_outbound_bytes
                    (s.outbox_bytes + size) room).1;
              buffer_counted = v.buffer_counted;
              buffer_le = v.buffer_le;
            })
          ]

  set_disconnect-Inv :
      (s : Mailbox api) (code : ℕ) (reason : Text) → Inv s → Inv (set_disconnect s code reason)
  unfolding set_disconnect
  set_disconnect-Inv s code reason v = elim (Option-cases s.disconnect) [
    | inl unset ↦
        rw (unset, set_disconnect)
          (record {
            inbox_counted = v.inbox_counted;
            outbox_counted = v.outbox_counted;
            inbox_length = v.inbox_length;
            inbox_le = v.inbox_le;
            outbox_length = v.outbox_length;
            outbox_le = v.outbox_le;
            buffer_counted = v.buffer_counted;
            buffer_le = v.buffer_le;
          })
    | inr (_, gone) ↦ rw (gone, set_disconnect) v
  ]

  clear_pending_ping-Inv : (s : Mailbox api) → Inv s → Inv (clear_pending_ping s)
  unfolding clear_pending_ping
  clear_pending_ping-Inv s v = record {
    inbox_counted = v.inbox_counted;
    outbox_counted = v.outbox_counted;
    inbox_length = v.inbox_length;
    inbox_le = v.inbox_le;
    outbox_length = v.outbox_length;
    outbox_le = v.outbox_le;
    buffer_counted = v.buffer_counted;
    buffer_le = v.buffer_le;
  }

  handle_pong-Inv : (s : Mailbox api) (payload : Text) → Inv s → Inv (handle_pong s payload)
  unfolding handle_pong
  handle_pong-Inv s payload v = elim (Option-cases s.pending_ping_generation) [
    | inl idle ↦ rw (idle, handle_pong) v
    | inr (_, waits) ↦ elim (Option-cases s.pending_ping_payload) [
      | inl missing ↦ rw (waits, missing, handle_pong) v
      | inr (p, sent) ↦ elim (Bool-cases (text_equal payload p)) [
        | inl same ↦ rw (waits, sent, same, handle_pong) (clear_pending_ping-Inv s v)
        | inr other ↦ rw (waits, sent, other, handle_pong) v
      ]
    ]
  ]

  -- The buffer for a message, emptied.
  emptied-Inv :
      (s : Mailbox api) (kind : Option Kind)
      → Inv s
      → Inv (record s { message_kind = kind; message_buffer = []; message_bytes = 0 })
  emptied-Inv s kind v = record {
    inbox_counted = v.inbox_counted;
    outbox_counted = v.outbox_counted;
    inbox_length = v.inbox_length;
    inbox_le = v.inbox_le;
    outbox_length = v.outbox_length;
    outbox_le = v.outbox_le;
    buffer_counted = omega arith;
    buffer_le = omega arith;
  }

  delivered-Inv : (r : Bool × Mailbox api) → Inv r.1 → Inv (delivered r).1
  delivered-Inv (true, s) v = v
  delivered-Inv (false, s) v = v

  add_part-Inv :
      (s : Mailbox api) (kind : Kind) (part : Text) (finished : Bool)
      → Inv s
      → Inv (add_part s kind part finished).1
  unfolding add_part
  add_part-Inv s kind part finished v =
      elim (Bool-cases (ltb s.max_message_bytes (s.message_bytes + length part))) [
        | inl large ↦ rw large (record {
          inbox_counted = v.inbox_counted;
          outbox_counted = v.outbox_counted;
          inbox_length = v.inbox_length;
          inbox_le = v.inbox_le;
          outbox_length = v.outbox_length;
          outbox_le = v.outbox_le;
          buffer_counted = omega (arith, v.buffer_counted);
          buffer_le = v.buffer_le;
        })
        | inr fits ↦ rw fits (elim (Bool-cases finished) [
          | inl whole ↦ rw whole (
              delivered-Inv (deliver_message _ _) (
                deliver_message-Inv _ (record { kind = kind; content = s.message_buffer ++ part })
                  (emptied-Inv s none v)))
          | inr unset ↦ rw unset (record {
            inbox_counted = v.inbox_counted;
            outbox_counted = v.outbox_counted;
            inbox_length = v.inbox_length;
            inbox_le = v.inbox_le;
            outbox_length = v.outbox_length;
            outbox_le = v.outbox_le;
            buffer_counted = omega (arith, v.buffer_counted, length-append s.message_buffer part);
            buffer_le =
                omega
                  (arith, v.buffer_counted, length-append s.message_buffer part, ltb→le _ _ fits);
          })
        ])
      ]

  on_message-Inv :
      (s : Mailbox api) (kind : Kind) (part : Text) (finished : Bool)
      → Inv s
      → Inv (on_message s kind part finished).1
  unfolding on_message
  on_message-Inv s kind part finished v = elim (Option-cases s.message_kind) [
    | inl first ↦
        rw (first, on_message) (add_part-Inv _ kind part finished (emptied-Inv s s.message_kind v))
    | inr (k, more) ↦ elim (Bool-cases (same_kind k kind)) [
      | inl same ↦ rw (more, same, on_message) (add_part-Inv _ kind part finished v)
      | inr other ↦ rw (more, other, on_message) v
    ]
  ]

  queued-Inv : (r : Bool × Mailbox api) → Inv r.1 → Inv (queued r).1
  queued-Inv (true, s) v = v
  queued-Inv (false, s) v = v

  close_queued-Inv :
      (code : ℕ) (reason : Text) (r : Bool × Mailbox api)
      → Inv r.1
      → Inv (close_queued code reason r).1
  close_queued-Inv code reason (false, s) v = v
  close_queued-Inv code reason (true, s) v = set_disconnect-Inv _ code _ (record {
    inbox_counted = v.inbox_counted;
    outbox_counted = v.outbox_counted;
    inbox_length = v.inbox_length;
    inbox_le = v.inbox_le;
    outbox_length = v.outbox_length;
    outbox_le = v.outbox_le;
    buffer_counted = v.buffer_counted;
    buffer_le = v.buffer_le;
  })

  on_close-Inv :
      (s : Mailbox api) (code : ℕ) (reason : Text) → Inv s → Inv (on_close s code reason).1
  unfolding on_close
  on_close-Inv s code reason v = elim (Bool-cases s.close_sent) [
    | inl sent ↦ rw sent (set_disconnect-Inv _ code (kept_reason code reason) (closing true))
    | inr unset ↦ rw unset (
        close_queued-Inv code reason _ (
          enqueue_control-Inv _ (close_answer api code reason)
            (close_event_size api (close_answer api code reason)) (closing false)))
  ]
    where
      closing : (sent : Bool) → Inv (record s { peer_closed = true; close_sent = sent })
      closing sent = record {
        inbox_counted = v.inbox_counted;
        outbox_counted = v.outbox_counted;
        inbox_length = v.inbox_length;
        inbox_le = v.inbox_le;
        outbox_length = v.outbox_length;
        outbox_le = v.outbox_le;
        buffer_counted = v.buffer_counted;
        buffer_le = v.buffer_le;
      }

  next-Inv :
      (r : Step api (Unit {0})) (k : Mailbox api → Step api Bool)
      → Inv r.1
      → ((t : Mailbox api) → Inv t → Inv (k t).1)
      → Inv (next r k).1
  next-Inv (ok _, s) k v h = h s v
  next-Inv (err e, s) k v h = v

  -- From mailboxes within the invariant, whatever events come, and also where one raises: the
  -- mailboxes hold no more messages, commands and bytes than their limits, the byte counters are
  -- the sums of what waits, and the message that is being assembled is within the message limit.
  pub drain_events-Inv : (es : List Event) (s : Mailbox api) → Inv s → Inv (drain_events es s).1
  unfolding drain_events
  drain_events-Inv [] s v = v
  drain_events-Inv (message kind part finished ∷ es) s v =
      next-Inv (on_message s kind part finished) _ (on_message-Inv s kind part finished v)
        (drain_events-Inv es)
  drain_events-Inv (ping_received payload ∷ es) s v =
      next-Inv (enqueue s (api.ping_response payload) (length payload)) _
        (queued-Inv _ (enqueue_control-Inv s _ _ v)) (drain_events-Inv es)
  drain_events-Inv (pong_received payload ∷ es) s v =
      drain_events-Inv es (handle_pong s payload) (handle_pong-Inv s payload v)
  drain_events-Inv (close_received code reason ∷ es) s v =
      next-Inv (on_close s code reason) _ (on_close-Inv s code reason v) (λ t w. w)
