-- ===== src/Http2/Protocol/Writing.antt =====
-- The counters and limits of `H2Protocol` through `queue_response` and one command or stream of a
-- `flush`.
use small_server.Prelude.{
  ℕ, ◌+◌, ◌-◌, ◌*◌, ◌≤◌, ◌≡◌, refl, subst, Bool, true, false, none, inl, inr, List, [], ◌∷◌, ◌++◌,
  ltb, leb, ◌||◌, is_nil, Bool-cases, length, arith,
}
use small_server.Prelude.Dict
use small_server.Prelude.Dict.{
  nat_eq, get-put, total, total-remove, total-put_old, total-put_new, length-discard,
}
use small_server.Prelude.Text.{Text}
use small_server.Http.Response.{Response}
use small_server.Http2.Connection.{H2, enhance_your_calm, internal_error}
use small_server.Http2.Protocol.{Protocol, Command, reset, response, remaining, release_inbound}
use small_server.Http2.Protocol.Accounting.{
  Inv, commands_size, release_inbound-Inv, drop_stream-Inv, reset_stream-Inv, connection-Inv,
  capture_control_output-Inv,
}
use small_server.Http2.Protocol.Output.{
  has_command, response_headers, header_size, queue_released, queue_response, start_response,
  command_stream, run_command,
}

pub commands_size-append :
    (cs ds : List Command) → commands_size (cs ++ ds) ≡ commands_size cs + commands_size ds
commands_size-append [] ds = omega arith
commands_size-append (reset j ∷ cs) ds = commands_size-append cs ds
commands_size-append (response j r ∷ cs) ds = omega (arith, commands_size-append cs ds)

abbrev no_room : {h2 : H2} → Protocol h2 → ℕ → Bool
no_room p size =
    ltb p.config.max_response_body_bytes size
    || ltb p.config.max_pending_output_bytes
        (length p.control_output + p.pending_output_bytes + size)

room :
    {h2 : H2} (p : Protocol h2) (size : ℕ)
    → no_room p size ≡ false
    → length p.control_output + p.pending_output_bytes + size ≤ p.config.max_pending_output_bytes
room p size h = ground arith

nil_length : (s : Text) → is_nil s ≡ true → length s ≡ 0
nil_length [] h = refl
nil_length (c ∷ s) h = cc

module _ {h2 : H2} where
  commands-Inv :
      (p : Protocol h2) (j : ℕ)
      → Inv 0 p
      → Inv 0 (record p { commands = p.commands ++ reset j ∷ [] })
  commands-Inv p j v = record {
    buffered = v.buffered;
    pending = omega (arith, v.pending, commands_size-append p.commands (reset j ∷ []));
    streams_le = v.streams_le;
    buffered_le = v.buffered_le;
    control_le = v.control_le;
    output_le = v.output_le;
  }

  queue_released-Inv :
      (p : Protocol h2) (k : ℕ) (r : Response) → Inv 0 p → Inv 0 (queue_released p k r).1
  unfolding queue_released
  queue_released-Inv p k r v = elim (Bool-cases (no_room p (length r.body))) [
    | inl full ↦ rw full (elim (Bool-cases (has_command k p.commands)) [
      | inl old ↦ rw old v
      | inr new ↦ rw new (commands-Inv p k v)
    ])
    | inr fits ↦
        rw fits (elim (Bool-cases (leb (p.config.max_concurrent_streams * 2) (length p.commands))) [
          | inl many ↦ rw many (reset_stream-Inv 0 p k enhance_your_calm v)
          | inr few ↦ rw few (record {
            buffered = v.buffered;
            pending = omega (arith, v.pending, commands_size-append p.commands (response k r ∷ []));
            streams_le = v.streams_le;
            buffered_le = v.buffered_le;
            control_le = v.control_le;
            output_le = omega (arith, room p (length r.body) fits);
          })
        ])
  ]

  -- From a state within the invariant, queueing a response keeps the counters right and the
  -- limits, whether it is taken or refused.
  pub queue_response-Inv :
      (p : Protocol h2) (k : ℕ) (r : Response) → Inv 0 p → Inv 0 (queue_response p k r).1
  unfolding queue_response
  queue_response-Inv p k r v = elim (Bool-cases (Dict.contains k p.active_streams)) [
    | inr inactive ↦ rw inactive v
    | inl active ↦
        rw active (queue_released-Inv (release_inbound p k) k r (release_inbound-Inv 0 p k v))
  ]

  -- A response that is taken up moves from the commands to the outbound streams.
  start_response-Inv :
      (taken : ℕ) (p : Protocol h2) (k : ℕ) (r : Response)
      → Dict.get k p.outbound ≡ none
      → Inv (length r.body + taken) p
      → Inv taken (start_response p k r)
  unfolding start_response
  start_response-Inv taken p k r free v =
      elim (Bool-cases (ltb p.config.max_header_bytes (header_size (response_headers r)))) [
        | inl large ↦ rw large (reset_stream-Inv taken unqueued k internal_error w)
        | inr small ↦
            rw small
              (elim (Bool-cases
                (h2.send_headers p.connection k (response_headers r) (is_nil r.body)).0) [
                  | inr raised ↦
                      rw raised (drop_stream-Inv taken _ k (connection-Inv taken unqueued _ w))
                  | inl sent ↦ rw sent (elim (Bool-cases (is_nil r.body)) [
                    | inl empty ↦ rw empty (record {
                      buffered = v.buffered;
                      pending = omega (arith, v.pending, nil_length r.body empty);
                      streams_le = omega (arith, v.streams_le, length-discard k p.active_streams);
                      buffered_le = v.buffered_le;
                      control_le = v.control_le;
                      output_le = omega (arith, v.output_le, nil_length r.body empty);
                    })
                    | inr more ↦ rw more (record {
                      buffered = v.buffered;
                      pending = omega (
                        arith,
                        v.pending,
                        total-put_new remaining k (record { body = r.body; offset = 0 }) p.outbound
                            free,
                      );
                      streams_le = v.streams_le;
                      buffered_le = v.buffered_le;
                      control_le = v.control_le;
                      output_le = v.output_le;
                    })
                  ])
                ])
      ]
    where
      unqueued : Protocol h2
      unqueued = record p { pending_output_bytes = p.pending_output_bytes - length r.body }

      w : Inv taken unqueued
      w = record {
        buffered = v.buffered;
        pending = omega (arith, v.pending);
        streams_le = v.streams_le;
        buffered_le = v.buffered_le;
        control_le = v.control_le;
        output_le = omega (arith, v.output_le);
      }

  -- From a state within the invariant, where no other response of its stream is under way, a
  -- command that `flush` takes up keeps the counters right and the limits, whether hyper-h2 takes
  -- the response or not: the bytes of the command are those of an outbound stream afterwards, or
  -- are given up.
  pub run_command-Inv :
      (taken : ℕ) (p : Protocol h2) (c : Command)
      → Dict.get (command_stream c) p.outbound ≡ none
      → Inv (commands_size (c ∷ []) + taken) p
      → Inv taken (run_command c p).1
  unfolding run_command
  run_command-Inv taken p (reset j) free v =
      capture_control_output-Inv taken _
        (reset_stream-Inv taken p j enhance_your_calm (subst (λ n. Inv n p) (omega arith) v))
  run_command-Inv taken p (response j r) free v =
      capture_control_output-Inv taken _
        (start_response-Inv taken p j r free (subst (λ n. Inv n p) (omega arith) v))
