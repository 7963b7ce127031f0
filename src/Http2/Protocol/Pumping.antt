-- ===== src/Http2/Protocol/Pumping.antt =====
-- The counters and limits of `H2Protocol` through one turn of the loop over the outbound streams in
-- `flush`.
use small_server.Prelude.{
  ℕ, ◌+◌, ◌-◌, ◌≤◌, ◌≡◌, refl, min, some, inl, inr, ◌==◌, ==_iff, Bool-cases, Option-cases, length,
  take, drop, arith, ◌∙◌,
}
use small_server.Prelude.Dict
use small_server.Prelude.Dict.{nat_eq, get-put, total, total-remove, total-put_old, length-discard}
use small_server.Prelude.Text.{Text}
use small_server.Http2.Connection.{H2}
use small_server.Http2.Protocol.{Protocol, OutboundStream, remaining, fits_output}
use small_server.Http2.Protocol.Accounting.{Inv, drop_stream-Inv, connection-Inv}
use small_server.Http2.Protocol.Output.{end_outbound, after_send, send_chunk, pump_stream}

module _ {h2 : H2} (taken : ℕ) where
  end_outbound-Inv :
      (p : Protocol h2) (k : ℕ) {o : OutboundStream}
      → Dict.get k p.outbound ≡ some o
      → remaining o ≡ 0
      → Inv taken p
      → Inv taken (end_outbound p k)
  end_outbound-Inv p k found done v = record {
    buffered = v.buffered;
    pending = omega (arith, v.pending, done, total-remove remaining k p.outbound found);
    streams_le = omega (arith, v.streams_le, length-discard k p.active_streams);
    buffered_le = v.buffered_le;
    control_le = v.control_le;
    output_le = v.output_le;
  }

  -- The state behind a chunk of `c` bytes.
  abbrev sent : Protocol h2 → ℕ → OutboundStream → ℕ → Protocol h2
  sent p k o c = record p {
    connection = (h2.data_to_send p.connection).1;
    outbound = Dict.put k (record o { offset = o.offset + c }) p.outbound;
    pending_output_bytes = p.pending_output_bytes - c;
  }

  sent-Inv :
      (p : Protocol h2) (k : ℕ) (o : OutboundStream) (c : ℕ)
      → Dict.get k p.outbound ≡ some o
      → c ≤ remaining o
      → Inv taken p
      → Inv taken (sent p k o c)
  sent-Inv p k o c found small v = record {
    buffered = v.buffered;
    pending = omega (
      arith,
      v.pending,
      small,
      total-put_old remaining k (record o { offset = o.offset + c }) p.outbound found,
    );
    streams_le = v.streams_le;
    buffered_le = v.buffered_le;
    control_le = v.control_le;
    output_le = omega (arith, v.output_le);
  }

  found_sent :
      (p : Protocol h2) (k : ℕ) (o : OutboundStream) (c : ℕ)
      → Dict.get k (sent p k o c).outbound ≡ some (record o { offset = o.offset + c })
  found_sent p k o c =
      get-put k k (record o { offset = o.offset + c }) p.outbound ∙ rw ((==_iff k k).1 refl) refl

  after_send-Inv :
      (p : Protocol h2) (k : ℕ) (o : OutboundStream) (c : ℕ) (output : Text)
      → Dict.get k p.outbound ≡ some o
      → c ≤ remaining o
      → Inv taken p
      → Inv taken (after_send p k o c output).1
  unfolding after_send
  after_send-Inv p k o c output found small v =
      elim (Bool-cases
        (fits_output (sent p k o c) (length (h2.data_to_send p.connection).0) (length output))) [
          | inr large ↦ rw large (sent-Inv p k o c found small v)
          | inl fits ↦ rw fits (elim (Bool-cases (c == remaining o)) [
            | inr more ↦ rw more (sent-Inv p k o c found small v)
            | inl last ↦ rw last (
                end_outbound-Inv (sent p k o c) k (found_sent p k o c)
                  (omega (arith, (==_iff c (remaining o)).0 last)) (sent-Inv p k o c found small v))
          ])
        ]

  send_chunk-Inv :
      (p : Protocol h2) (k : ℕ) (o : OutboundStream) (c : ℕ) (output : Text)
      → Dict.get k p.outbound ≡ some o
      → c ≤ remaining o
      → Inv taken p
      → Inv taken (send_chunk p k o c output).1
  unfolding send_chunk
  send_chunk-Inv p k o c output found small v = elim (Bool-cases (c == 0)) [
    | inl nothing ↦ rw nothing v
    | inr some_bytes ↦
        rw some_bytes
          (elim (Bool-cases
            (h2.send_data p.connection k (take c (drop o.offset o.body)) (c == remaining o)).0) [
              | inr raised ↦ rw raised (drop_stream-Inv taken _ k (connection-Inv taken p _ v))
              | inl taken_up ↦
                  rw taken_up
                    (after_send-Inv _ k o c output found small (connection-Inv taken p _ v))
            ])
  ]

  -- From a state within the invariant, the turn of an outbound stream keeps the counters right and
  -- the limits, whether the stream is at its end, is dropped, waits for its window or sends a chunk,
  -- and also where the output would be too large.
  pub pump_stream-Inv :
      (p : Protocol h2) (k : ℕ) (o : OutboundStream) (output : Text)
      → Dict.get k p.outbound ≡ some o
      → Inv taken p
      → Inv taken (pump_stream (k, o) output p).1
  unfolding pump_stream
  pump_stream-Inv p k o output found v = elim (Bool-cases (remaining o == 0)) [
    | inl done ↦ rw done (end_outbound-Inv p k found ((==_iff (remaining o) 0).0 done) v)
    | inr more ↦ elim (Option-cases (h2.local_flow_control_window p.connection k)) [
      | inl raised ↦ rw (more, raised, pump_stream) (drop_stream-Inv taken p k v)
      | inr (window, open_window) ↦
          rw (more, open_window, pump_stream)
            (send_chunk-Inv p k o
              (min (remaining o) (min window (h2.max_outbound_frame_size p.connection))) output
              found (omega arith) v)
    ]
  ]
