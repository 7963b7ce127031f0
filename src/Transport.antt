-- ===== src/Transport.antt =====
-- Sending and closing in smallserver/_transport.py: `KernelTransport.send_all`, `_wait_for_retry`,
-- `close` and `close_safely`, and `WakeupChannel.close`, which closes in the same way.
pub mod Sending
pub mod Closing
pub mod Acquiring
mod Tests
use small_server.Prelude.{
  ℕ, zero, suc, ◌+◌, ◌-◌, Bool, true, false, Option, none, some, List, [], ltb, leb, ◌==◌,
  if◌then◌else◌, length, drop, Result, ok, err,
}
use small_server.Prelude.Text.{Text}

pub data RetryMode : Type 0 where
  read write : RetryMode

-- The kernel and the scheduler, with any behaviour. An exception is a number of its own.
pub record Kernel : Type 1 where
  pub World : Type 0
  pub socket_send : World → Text → Result ℕ ℕ × World
  pub socket_retry_mode : ℕ → Option RetryMode
  pub wait : RetryMode → World → Result ℕ (Unit {0}) × World

pub data SendError : Type 0 where
  raised : ℕ → SendError
  no_progress oversized : SendError

abbrev pub Sent : Kernel → Type 0
Sent k = Result SendError (Unit {0}) × Kernel.World k

-- `_wait_for_retry`: with no mode the exception is raised again.
unfoldable pub wait_for_retry : (k : Kernel) → ℕ → k.World → Sent k
wait_for_retry k x w = elim (k.socket_retry_mode x) [
  | none ↦ (err (raised x), w)
  | some mode ↦
      let (waited, w') = k.wait mode w in
      elim waited [ ok _ ↦ (ok tt, w') | err y ↦ (err (raised y), w') ]
]

-- What an attempt asks of the loop: another turn at an offset, or the end.
pub data Turn : Type 0 where
  again : ℕ → Turn
  failed : SendError → Turn

abbrev pub after_wait : {W : Type 0} → ℕ → Result SendError (Unit {0}) × W → Turn × W
after_wait offset (ok _, w) = (again offset, w)
after_wait offset (err x, w) = (failed x, w)

abbrev pub take_count : ℕ → ℕ → ℕ → Turn
take_count size offset sent =
    if sent == 0
    then failed no_progress
    else if ltb (size - offset) sent
    then failed oversized
    else again (offset + sent)

-- One turn of the loop of `send_all`.
unfoldable pub attempt : (k : Kernel) → Text → ℕ → k.World → Turn × k.World
attempt k new offset w =
    let (sent, w') = k.socket_send w (drop offset new) in
    elim sent [
      | ok n ↦ (take_count (length new) offset n, w')
      | err x ↦ after_wait offset (wait_for_retry k x w')
    ]

-- What follows a turn.
abbrev pub after_turn :
    {W A : Type 0}
    → (ℕ → W → Option (Result SendError A × W))
    → Turn × W
    → Option (Result SendError A × W)
after_turn more (again offset, w) = more offset w
after_turn more (failed x, w) = some (err x, w)

-- The loop of `send_all` from an offset; `none` where the fuel does not suffice.
unfoldable pub send_from : (k : Kernel) → ℕ → Text → ℕ → k.World → Option (Sent k)
send_from k zero new offset w = if leb (length new) offset then some (ok tt, w) else none
send_from k (suc n) new offset w =
    let rest = after_turn (send_from k n new) (attempt k new offset w) in
    if leb (length new) offset then some (ok tt, w) else rest

abbrev pub send_all : (k : Kernel) → ℕ → Text → k.World → Option (Sent k)
send_all k fuel new w = send_from k fuel new 0 w

pub record TransportHandle : Type 0 where
  pub closed : Bool
  pub close_error : Option ℕ

-- What the kernel's result leaves of the handle.
abbrev pub settle_close :
    {W : Type 0} → TransportHandle → Option ℕ × W → Option ℕ × TransportHandle × W
settle_close h (none, w) = (none, record { closed = true; close_error = none }, w)
settle_close h (some x, w) = (some x, record h { close_error = some x }, w)

-- `close`, with the exception that it raises; `socket_close` is the kernel's, on the handle's stream.
unfoldable pub close :
    {W : Type 0} → (W → Option ℕ × W) → TransportHandle → W → Option ℕ × TransportHandle × W
close socket_close h w =
    let tried = settle_close h (socket_close w) in if h.closed then (none, h, w) else tried

abbrev pub succeeded : {W : Type 0} → Option ℕ × TransportHandle × W → Bool × TransportHandle × W
succeeded (none, h, w) = (true, h, w)
succeeded (some x, h, w) = (false, h, w)

-- `close_safely`
unfoldable pub close_safely :
    {W : Type 0} → (W → Option ℕ × W) → TransportHandle → W → Bool × TransportHandle × W
close_safely socket_close h w = succeeded (close socket_close h w)
