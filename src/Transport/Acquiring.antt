-- ===== src/Transport/Acquiring.antt =====
-- Acquiring streams in smallserver/_transport.py: `open_listener`, `accept` behind its loop and
-- `create_wakeup_channel`, with the rollback where a later step raises.
use small_server.Prelude.{ℕ, Bool, Option, none, some, Result, ok, err}
use small_server.Prelude.Text.{Text, codes}
use small_server.Cleanup.{Action, Transaction, empty, add}

-- The kernel, with any behaviour; an exception is a number of its own, and so is a raw stream.
-- `validate` is what follows the creation of a wakeup channel: its methods are looked up and its wait
-- object is validated. `is_interrupt` tells which exceptions are a KeyboardInterrupt or a SystemExit.
pub record Network (W : Type 0) : Type 0 where
  pub supports_wakeup_channel : Bool
  pub is_interrupt : ℕ → Bool
  pub resolve_passive_address : W → Option ℕ × W
  pub socket_open : W → Result ℕ ℕ × W
  pub socket_set_reuse_address : ℕ → W → Option ℕ × W
  pub socket_bind : ℕ → W → Option ℕ × W
  pub socket_listen : ℕ → W → Option ℕ × W
  pub socket_setblocking : ℕ → W → Option ℕ × W
  pub socket_peer_address : ℕ → W → Option ℕ × W
  pub socket_close : ℕ → W → Option ℕ × W
  pub create_wakeup_channel : W → Result ℕ ℕ × W
  pub validate : ℕ → W → Option ℕ × W
  pub wakeup_close : ℕ → W → Option ℕ × W

-- What an acquisition ends in: the stream, an exception with nothing left open, or
-- `_TransportAcquisitionFailure` with the exception and the transaction.
pub data Outcome (W : Type 0) : Type 0 where
  acquired : ℕ → Outcome W
  failed : ℕ → Outcome W
  unfinished : ℕ → Transaction W ℕ → Outcome W

-- One step after the other until one raises.
abbrev pub and_then : {W : Type 0} → Option ℕ × W → (W → Option ℕ × W) → Option ℕ × W
and_then (none, w) next = next w
and_then (some x, w) next = (some x, w)

-- `transaction.add`, whose search for a key always ends in one.
abbrev pub added : {W : Type 0} → Option (Transaction W ℕ) → Transaction W ℕ → Transaction W ℕ
added none t = t
added (some u) t = u

abbrev pub add_action : {W : Type 0} → Transaction W ℕ → Text → Action W ℕ → ℕ → Transaction W ℕ
add_action t name action x = added (add t name action (some x)) t

module _ {W : Type 0} where
  -- The rollback: the result of closing decides whether a transaction is needed.
  abbrev pub rolled_back : ℕ → Text → Action W ℕ → Option ℕ × W → Outcome W × W
  rolled_back primary name close (none, w) = (failed primary, w)
  rolled_back primary name close (some x, w) =
      (unfinished primary (add_action empty name close x), w)

  abbrev pub kept_or_closed : ℕ → Text → Action W ℕ → Option ℕ × W → Outcome W × W
  kept_or_closed raw name close (none, w) = (acquired raw, w)
  kept_or_closed raw name close (some primary, w) = rolled_back primary name close (close w)

  abbrev pub configure_listener : Network W → ℕ → W → Option ℕ × W
  configure_listener net raw w =
      and_then
        (and_then (and_then (net.socket_set_reuse_address raw w) (net.socket_bind raw))
          (net.socket_listen raw))
        (net.socket_setblocking raw)

  abbrev pub configure_opened : Network W → Result ℕ ℕ × W → Outcome W × W
  configure_opened net (err x, w) = (failed x, w)
  configure_opened net (ok raw, w) =
      kept_or_closed raw (codes "listener") (net.socket_close raw) (configure_listener net raw w)

  abbrev pub open_resolved : Network W → Option ℕ × W → Outcome W × W
  open_resolved net (some x, w) = (failed x, w)
  open_resolved net (none, w) = configure_opened net (net.socket_open w)

  -- `open_listener`
  unfoldable pub open_listener : Network W → W → Outcome W × W
  open_listener net w = open_resolved net (net.resolve_passive_address w)

  -- `accept`, once the kernel has returned a raw stream.
  unfoldable pub configure_accepted : Network W → ℕ → W → Outcome W × W
  configure_accepted net raw w =
      kept_or_closed raw (codes "accepted-connection") (net.socket_close raw)
        (and_then (net.socket_setblocking raw w) (net.socket_peer_address raw))

  abbrev pub validate_created : Network W → Result ℕ ℕ × W → Outcome W × W
  validate_created net (err x, w) = (failed x, w)
  validate_created net (ok raw, w) =
      kept_or_closed raw (codes "wakeup") (net.wakeup_close raw) (net.validate raw w)

  -- `create_wakeup_channel`, on a kernel that supports them.
  unfoldable pub create_wakeup_channel : Network W → W → Outcome W × W
  create_wakeup_channel net w = validate_created net (net.create_wakeup_channel w)
