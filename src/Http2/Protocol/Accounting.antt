-- ===== src/Http2/Protocol/Accounting.antt =====
-- The byte counters of `H2Protocol` count what they stand for, and the limits hold: the operations
-- that give up a stream.
use small_server.Prelude.{
  ℕ, ◌+◌, ◌≤◌, ◌≡◌, Bool, false, inl, inr, List, [], ◌∷◌, ◌||◌, ltb, Bool-cases, Option-cases,
  length, length-append, arith,
}
use small_server.Prelude.Dict
use small_server.Prelude.Dict.{Dict, nat_eq, total, total-remove, length-discard}
use small_server.Prelude.Text.{Text}
use small_server.Http2.Connection.{H2, ErrorCode}
use small_server.Http2.Protocol.{
  Protocol, ReadyRequest, InboundStream, Command, reset, response, remaining, keep_commands,
  release_inbound, drop_outbound, drop_commands, drop_stream, reset_stream, capture_control_output,
}

abbrev pub body_size : InboundStream → ℕ
body_size s = length s.body

-- The body bytes of the responses that wait.
abbrev pub commands_size : List Command → ℕ
commands_size [] = 0
commands_size (reset j ∷ cs) = commands_size cs
commands_size (response j r ∷ cs) = length r.body + commands_size cs

-- `taken` output bytes belong to commands that `flush` has taken out of the list.
pub record Inv {h2 : H2} (taken : ℕ) (p : Protocol h2) : Type 0 where
  pub buffered : p.buffered_request_bytes ≡ total body_size p.inbound
  pub pending :
      p.pending_output_bytes ≡ total remaining p.outbound + commands_size p.commands + taken
  pub streams_le : length p.active_streams ≤ p.config.max_concurrent_streams
  pub buffered_le : p.buffered_request_bytes ≤ p.config.max_connection_buffer_bytes
  pub control_le : length p.control_output ≤ p.config.max_control_output_bytes
  pub output_le :
      p.pending_output_bytes + length p.control_output ≤ p.config.max_pending_output_bytes

keep_commands_size :
    (k : ℕ) (cs : List Command)
    → commands_size (keep_commands k cs).0 + (keep_commands k cs).1 ≡ commands_size cs
unfolding keep_commands
keep_commands_size k [] = omega arith
keep_commands_size k (reset j ∷ cs) = keep_commands_size k cs
keep_commands_size k (response j r ∷ cs) = ground (arith, keep_commands_size k cs)

abbrev produced : {h2 : H2} → Protocol h2 → Text
produced {h2} p = (h2.data_to_send p.connection).0

-- The test of `_capture_control_output`.
abbrev too_much : {h2 : H2} → Protocol h2 → Bool
too_much p =
    let next = length p.control_output + length (produced p) in
    ltb p.config.max_control_output_bytes next
    || ltb p.config.max_pending_output_bytes (next + p.pending_output_bytes)

within :
    {h2 : H2} (p : Protocol h2)
    → too_much p ≡ false
    → (length p.control_output + length (produced p) ≤ p.config.max_control_output_bytes)
      × (length p.control_output + length (produced p) + p.pending_output_bytes
          ≤ p.config.max_pending_output_bytes)
within p h = ground arith

module _ {h2 : H2} (taken : ℕ) where
  pub release_inbound-Inv :
      (p : Protocol h2) (k : ℕ) → Inv taken p → Inv taken (release_inbound p k)
  unfolding release_inbound
  release_inbound-Inv p k v = elim (Option-cases (Dict.get k p.inbound)) [
    | inl missing ↦ rw (missing, release_inbound) v
    | inr (s, found) ↦
        rw (found, release_inbound)
          (record {
            buffered = omega (arith, v.buffered, total-remove body_size k p.inbound found);
            pending = v.pending;
            streams_le = v.streams_le;
            buffered_le = omega (arith, v.buffered_le);
            control_le = v.control_le;
            output_le = v.output_le;
          })
  ]

  drop_outbound-Inv : (p : Protocol h2) (k : ℕ) → Inv taken p → Inv taken (drop_outbound p k)
  unfolding drop_outbound
  drop_outbound-Inv p k v = elim (Option-cases (Dict.get k p.outbound)) [
    | inl missing ↦ rw (missing, drop_outbound) v
    | inr (s, found) ↦
        rw (found, drop_outbound)
          (record {
            buffered = v.buffered;
            pending = omega (arith, v.pending, total-remove remaining k p.outbound found);
            streams_le = v.streams_le;
            buffered_le = v.buffered_le;
            control_le = v.control_le;
            output_le = omega (arith, v.output_le);
          })
  ]

  drop_commands-Inv : (p : Protocol h2) (k : ℕ) → Inv taken p → Inv taken (drop_commands p k)
  unfolding drop_commands
  drop_commands-Inv p k v = record {
    buffered = v.buffered;
    pending = omega (arith, v.pending, keep_commands_size k p.commands);
    streams_le = omega (arith, v.streams_le, length-discard k p.active_streams);
    buffered_le = v.buffered_le;
    control_le = v.control_le;
    output_le = omega (arith, v.output_le);
  }

  unready-Inv :
      (p : Protocol h2) (items : List ReadyRequest)
      → Inv taken p
      → Inv taken (record p { ready_requests = items })
  unready-Inv p items v = record {
    buffered = v.buffered;
    pending = v.pending;
    streams_le = v.streams_le;
    buffered_le = v.buffered_le;
    control_le = v.control_le;
    output_le = v.output_le;
  }

  -- From a state within the invariant, dropping a stream keeps the counters right and the limits,
  -- whatever the stream held and whatever a flush has taken up.
  pub drop_stream-Inv : (p : Protocol h2) (k : ℕ) → Inv taken p → Inv taken (drop_stream p k)
  unfolding drop_stream
  drop_stream-Inv p k v =
      drop_commands-Inv _ k
        (drop_outbound-Inv _ k (unready-Inv (release_inbound p k) _ (release_inbound-Inv p k v)))

  pub connection-Inv :
      (p : Protocol h2) (connection : H2.Connection h2)
      → Inv taken p
      → Inv taken (record p { connection = connection })
  connection-Inv p connection v = record {
    buffered = v.buffered;
    pending = v.pending;
    streams_le = v.streams_le;
    buffered_le = v.buffered_le;
    control_le = v.control_le;
    output_le = v.output_le;
  }

  pub reset_stream-Inv :
      (p : Protocol h2) (k : ℕ) (code : ErrorCode) → Inv taken p → Inv taken (reset_stream p k code)
  unfolding reset_stream
  reset_stream-Inv p k code v = drop_stream-Inv _ k (connection-Inv p _ v)

  -- From a state within the invariant, and whether it raises or not, `_capture_control_output`
  -- keeps the counters right and the limits on control output and on all output.
  pub capture_control_output-Inv :
      (p : Protocol h2) → Inv taken p → Inv taken (capture_control_output p).1
  unfolding capture_control_output
  capture_control_output-Inv p v = elim (Bool-cases (too_much p)) [
    | inl full ↦ rw full (connection-Inv p _ v)
    | inr fits ↦ rw fits (record {
      buffered = v.buffered;
      pending = v.pending;
      streams_le = v.streams_le;
      buffered_le = v.buffered_le;
      control_le = omega (arith, (within p fits).0, length-append p.control_output (produced p));
      output_le = omega (arith, (within p fits).1, length-append p.control_output (produced p));
    })
  ]
