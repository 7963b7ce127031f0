-- ===== src/Server/Handle/Ownership.antt =====
-- What each method that releases a resource keeps: the account of the connections, the failures of
-- what is still owned, and the number of calls of `_on_finalized`.
use small_server.Prelude.{
  ℕ, ◌+◌, ◌≡◌, refl, ap, ◌∙◌, Bool, true, false, ◌||◌, ◌==◌, Option, none, some, inl, inr,
  if◌then◌else◌, Bool-cases, Result, arith,
}
use small_server.Prelude.Dict.{has, nat_eq}
use small_server.Transport.{TransportHandle, close, close_safely, succeeded}
use small_server.Transport.Closing.{Closed, close-Closed}
use small_server.Server.Handle.{Environment, ServerHandle, resource_eq, set_stream}
use small_server.Server.Handle.Release.{attempt, stream_closed, close_stream, cancel_call}
use small_server.Server.Handle.Retained.{Retained}

-- A connection is accounted for while the handle owns it, active or closing, and once it is closed.
abbrev pub accounted : {W : Type 0} → ServerHandle W → ℕ → Bool
accounted s i = has i s.connections || has i s.closing_connections || (s.streams i).closed

abbrev pub to_notify : Bool → ℕ
to_notify set = if set then 1 else 0

-- The world after a signal to the listener's task.
abbrev pub signal_world : {W : Type 0} → Option (ℕ → W → Result ℕ ℕ × W) → ℕ → W → W
signal_world none t w = w
signal_world (some signal) t w = (signal t w).1

-- `count` counts the calls of `_on_finalized`: nothing else that is called changes it.
pub record Counts {W : Type 0} (env : Environment W) (count : W → ℕ) : Type 0 where
  pub on_socket_close : (i : ℕ) (w : W) → count (env.socket_close i w).1 ≡ count w
  pub on_listener_close : (w : W) → count (env.listener_close w).1 ≡ count w
  pub on_wakeup_close : (w : W) → count (env.wakeup_close w).1 ≡ count w
  pub on_wakeup_notify : (w : W) → count (env.wakeup_notify w).1 ≡ count w
  pub on_cancel : (t : ℕ) (w : W) → count (cancel_call env env.cancel_task t w).1 ≡ count w
  pub on_resume : (t : ℕ) (w : W) → count (env.resume_task t w).1 ≡ count w
  pub on_signal : (t : ℕ) (w : W) → count (signal_world env.accept_signal t w) ≡ count w
  pub on_closer : (i : ℕ) (w : W) → count (env.closer i w).1 ≡ count w
  pub on_request : (i : ℕ) (w : W) → count (env.request_shutdown i w) ≡ count w
  pub on_observer : (t : ℕ) (w : W) → count (env.observer_tasks.accept_signal t w) ≡ count w
  pub on_finalized : (w : W) → count (env.on_finalized w) ≡ count w + 1

module _ {W : Type 0} (count : W → ℕ) where
  abbrev pub calls : ServerHandle W → ℕ
  calls s = count s.world + to_notify s.on_finalized

  pub record Keeps (s r : ServerHandle W) : Type 0 where
    pub account : (i : ℕ) → accounted s i ≡ true → accounted r i ≡ true
    pub retained :
        Retained s.closing_connections s.pending_task_cancellations s.cleanup_errors
        → Retained r.closing_connections r.pending_task_cancellations r.cleanup_errors
    pub notified :
        (s.finished ≡ true → s.on_finalized ≡ false) → r.finished ≡ true → r.on_finalized ≡ false
    pub once : calls r ≡ calls s

  pub Keeps-refl : (s : ServerHandle W) → Keeps s s
  Keeps-refl s = record { account = λ i h. h; retained = λ v. v; notified = λ n. n; once = refl }

  pub Keeps-trans : {s r q : ServerHandle W} → Keeps s r → Keeps r q → Keeps s q
  Keeps-trans a b = record {
    account = λ i h. b.account i (a.account i h);
    retained = λ v. b.retained (a.retained v);
    notified = λ n. b.notified (a.notified n);
    once = b.once ∙ a.once;
  }

  pub Keeps-if :
      (b : Bool) {s r q : ServerHandle W} → Keeps s r → Keeps s q → Keeps s (if b then r else q)
  Keeps-if true a b = a
  Keeps-if false a b = b

  pub Keeps-if_second :
      {A : Type 0} (b : Bool) {s : ServerHandle W} (r q : A × ServerHandle W)
      → Keeps s r.1
      → Keeps s q.1
      → Keeps s (if b then r else q).1
  Keeps-if_second true r q a b = a
  Keeps-if_second false r q a b = b

set_stream-closed :
    (i j : ℕ) (h : TransportHandle) (streams : ℕ → TransportHandle)
    → ((streams i).closed ≡ true → h.closed ≡ true)
    → (streams j).closed ≡ true
    → (set_stream i h streams j).closed ≡ true
set_stream-closed i j h streams kept q = elim (Bool-cases (i == j)) [
  | inl same ↦ rw same (kept (rw (← same_number same) at q))
  | inr other ↦ rw other q
]
  where
    same_number : (i == j) ≡ true → i ≡ j
    same_number p = ground arith

set_stream_self :
    (i : ℕ) (h : TransportHandle) (streams : ℕ → TransportHandle) → set_stream i h streams i ≡ h
set_stream_self i h streams = rw (==_refl i) refl
  where
    ==_refl : (i : ℕ) → (i == i) ≡ true
    ==_refl i = ground arith

or_closed : (a b c d : Bool) → (c ≡ true → d ≡ true) → a || b || c ≡ true → a || b || d ≡ true
or_closed a b c d f h = ground arith

module _ {W : Type 0} (env : Environment W) (count : W → ℕ) (counts : Counts env count) where
  pub attempt-Keeps :
      (call : W → Option ℕ × W)
      → ((w : W) → count (call w).1 ≡ count w)
      → (s : ServerHandle W) → Keeps count s (attempt env call s)
  attempt-Keeps call silent s = record {
    account = λ i h. h;
    retained = λ v. v;
    notified = λ n. n;
    once = omega (arith, silent s.world);
  }

  -- A closing of a stream, as its result tells.
  pub record StreamClosed (i : ℕ) (s : ServerHandle W) (r : Bool × ServerHandle W) : Type 0 where
    pub keeps : Keeps count s r.1
    pub tells : (r.1.streams i).closed ≡ r.0
    pub connections_kept : r.1.connections ≡ s.connections
    pub closing_kept : r.1.closing_connections ≡ s.closing_connections
    pub finished_kept : r.1.finished ≡ s.finished

  stream_closed-StreamClosed :
      (i : ℕ) (s : ServerHandle W) (r : Option ℕ × TransportHandle × W)
      → Closed count (s.streams i) s.world r
      → StreamClosed i s (stream_closed env i (succeeded r) s)
  stream_closed-StreamClosed i s (none, h, w) c = record {
    keeps = record {
      account = λ j q.
          or_closed (has j s.connections) (has j s.closing_connections) (s.streams j).closed
            (set_stream i h s.streams j).closed (set_stream-closed i j h s.streams c.kept) q;
      retained = λ v. v;
      notified = λ n. n;
      once = omega (arith, c.unmeasured);
    };
    tells = ap (λ h. h.closed) (set_stream_self i h s.streams) ∙ c.tells;
    connections_kept = refl;
    closing_kept = refl;
    finished_kept = refl;
  }
  stream_closed-StreamClosed i s (some x, h, w) c = record {
    keeps = record {
      account = λ j q.
          or_closed (has j s.connections) (has j s.closing_connections) (s.streams j).closed
            (set_stream i h s.streams j).closed (set_stream-closed i j h s.streams c.kept) q;
      retained = λ v. v;
      notified = λ n. n;
      once = omega (arith, c.unmeasured);
    };
    tells = ap (λ h. h.closed) (set_stream_self i h s.streams) ∙ c.tells;
    connections_kept = refl;
    closing_kept = refl;
    finished_kept = refl;
  }

  pub close_stream-StreamClosed :
      (i : ℕ) (s : ServerHandle W) → StreamClosed i s (close_stream env i s)
  unfolding close_safely
  close_stream-StreamClosed i s =
      stream_closed-StreamClosed i s (close (env.socket_close i) (s.streams i) s.world) (
        close-Closed count (env.socket_close i) (s.streams i) s.world
          (counts.on_socket_close i s.world))
