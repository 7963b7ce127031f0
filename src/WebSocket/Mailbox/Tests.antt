-- ===== src/WebSocket/Mailbox/Tests.antt =====
-- A run of `_drain_protocol_events`, and its theorem at it.
use small_server.Prelude.{ℕ, ◌≡◌, refl, true, false, none, List, [], ◌∷◌, ok, err, arith}
use small_server.Prelude.Text.{Text, codes}
use small_server.WebSocket.Mailbox.{
  Api, text, Event, message, ping_received, close_received, Mailbox, kind_changed, inbound_full,
  bytes, deliver_message, on_message, add_part, enqueue_control, on_close, drain_events,
}
use small_server.WebSocket.Mailbox.Bounds.{Inv, drain_events-Inv}

-- Events that are sent are a code and their content.
abbrev pairs : Api
pairs = record {
  Out = ℕ × Text;
  text_message = λ s. (1, s);
  bytes_message = λ s. (2, s);
  ping = λ s. (9, s);
  close_connection = λ c s. (c, s);
  ping_response = λ s. (10, s);
  close_response = λ c s. (c, s);
  close_code = λ e. e.0;
  close_reason = λ e. e.1;
}

abbrev opened : Mailbox pairs
opened = record {
  max_message_bytes = 10;
  max_inbound_messages = 1;
  max_inbound_bytes = 10;
  max_outbound_commands = 2;
  max_outbound_bytes = 20;
  accepted = true;
  shutdown = false;
  peer_closed = false;
  close_sent = false;
  disconnect = none;
  inbox = [];
  inbox_bytes = 0;
  outbox = [];
  outbox_bytes = 0;
  message_kind = none;
  message_buffer = [];
  message_bytes = 0;
  ping_generation = 0;
  pending_ping_generation = none;
  pending_ping_payload = none;
}

abbrev events : List Event
events =
    message text (codes "he") false
    ∷ ping_received (codes "p")
    ∷ message text (codes "llo") true
    ∷ close_received 1000 (codes "bye")
    ∷ []

test_drained : (drain_events events opened).0 ≡ ok true
unfolding drain_events on_message add_part deliver_message enqueue_control on_close
test_drained = refl

test_kinds :
    (drain_events (message text (codes "a") false ∷ message bytes (codes "b") true ∷ []) opened).0
    ≡ err kind_changed
unfolding drain_events on_message add_part deliver_message
test_kinds = refl

test_full :
    (drain_events (message text (codes "a") true ∷ message text (codes "b") true ∷ []) opened).0
    ≡ err inbound_full
unfolding drain_events on_message add_part deliver_message
test_full = refl

opened-Inv : Inv opened
opened-Inv = record {
  inbox_counted = refl;
  outbox_counted = refl;
  inbox_length = omega arith;
  inbox_le = omega arith;
  outbox_length = omega arith;
  outbox_le = omega arith;
  buffer_counted = omega arith;
  buffer_le = omega arith;
}

drain_events-Inv_example : Inv (drain_events events opened).1
drain_events-Inv_example = drain_events-Inv events opened opened-Inv
