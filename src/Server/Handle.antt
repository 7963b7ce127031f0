-- ===== src/Server/Handle.antt =====
-- The state of `ServerHandle` of smallserver/server.py.
-- A stream, a task and the connection of a stream are named by the number that `id` gives, which is
-- their key in the handle's dicts; the kernel's handles of the streams, which are shared objects, are
-- a store. What is called outside of the handle is a parameter and acts on the field `world`.
pub mod Release
pub mod Closing
pub mod Requests
pub mod Retained
pub mod Ownership
pub mod Settling
pub mod Finished
pub mod Retrying
pub mod Finishing
pub mod Serving
pub mod Soundness
pub mod Lifetime
pub mod Draining
pub mod Progress
mod Tests
use small_server.Prelude.{
  ℕ, ◌+◌, ◌≡◌, ◌↔◌, refl, Bool, true, false, not, ◌&&◌, ◌||◌, Option, none, some, List, [], ◌∷◌,
  ◌++◌, leb, ltb, ◌==◌, ==_iff, if◌then◌else◌, is_nil, length, Result, ok, err, arith,
}
use small_server.Prelude.Dict
use small_server.Prelude.Dict.{Dict, Eq, nat_eq}
use small_server.Transport.{TransportHandle, close, close_safely}
use small_server.Server.RouteObserver.{RouteObserverChannel, Tasks}
use small_server.Server.RouteObserver

-- The keys of `_cleanup_errors`: "wakeup", "listener", "connection:{}" and "task:{}".
pub data Resource : Type 0 where
  of_wakeup of_listener : Resource
  of_connection of_task : ℕ → Resource

abbrev pub same_resource : Resource → Resource → Bool
same_resource of_wakeup of_wakeup = true
same_resource of_listener of_listener = true
same_resource (of_connection i) (of_connection j) = i == j
same_resource (of_task i) (of_task j) = i == j
same_resource _ _ = false

pub same_resource_iff : (r q : Resource) → (same_resource r q ≡ true) ↔ (r ≡ q)
same_resource_iff (of_connection i) (of_connection j) = ground (arith, ==_iff i j)
same_resource_iff (of_task i) (of_task j) = ground (arith, ==_iff i j)
same_resource_iff _ _ = ground arith

-- What the handle keeps of an exception: a raised one by its number, and those of its own.
pub data Failure : Type 0 where
  raised : ℕ → Failure
  close_failed cannot_cancel signal_failed : Failure

-- The runtime, the kernel and the tasks, with any behaviour. `cancel_task` is none where the runtime
-- has no such method, and `accept_signal` where the listener's task has none.
pub record Environment (W : Type 0) : Type 0 where
  pub socket_close : ℕ → W → Option ℕ × W
  pub listener_close : W → Option ℕ × W
  pub wakeup_close : W → Option ℕ × W
  pub wakeup_notify : W → Option ℕ × W
  pub cancel_task : Option (ℕ → W → Option ℕ × W)
  pub resume_task : ℕ → W → Option ℕ × W
  pub accept_signal : Option (ℕ → W → Result ℕ ℕ × W)
  pub request_shutdown : ℕ → W → W
  pub closer : ℕ → W → Option ℕ × W
  pub on_finalized : W → W
  pub observer_tasks : Tasks W
  pub cursor : Option ℕ

-- `_closing_connections` and the like: a dict from the number of an object to the object.
abbrev pub Objects : Type 0
Objects = Dict ℕ (Unit {0})

-- `_on_finalized` tells whether the callback is still set. `_connections` holds the task of each
-- connection.
pub record ServerHandle (W : Type 0) : Type 0 where
  pub max_connections : ℕ
  pub listener : TransportHandle
  pub wakeup : Option TransportHandle
  pub route_observer_channel : Option RouteObserverChannel
  pub on_finalized : Bool
  pub close_requested : Bool
  pub notification_sent : Bool
  pub finalization_attempted : Bool
  pub finished : Bool
  pub failure : Option Failure
  pub cleanup_errors : Dict Resource Failure
  pub listener_task : Option ℕ
  pub listener_resumed : Bool
  pub owned_tasks : List ℕ
  pub cancelled_task_ids : List ℕ
  pub connections : Dict ℕ ℕ
  pub closing_connections : Objects
  pub pending_task_cancellations : Objects
  pub websocket_states : Objects
  pub capacity_waiting : Bool
  pub graceful_connections : List ℕ
  pub graceful_closers : Objects
  pub streams : ℕ → TransportHandle
  pub world : W

instance abbrev pub resource_eq : Eq Resource
resource_eq = record { equal = same_resource; equal_iff = same_resource_iff }

abbrev pub is_closed : Option TransportHandle → Bool
is_closed none = true
is_closed (some h) = h.closed

abbrev pub owned_connection_count : {W : Type 0} → ServerHandle W → ℕ
owned_connection_count s = length s.connections + length s.closing_connections

abbrev pub first_failure : Option Failure → Failure → Failure
first_failure none x = x
first_failure (some y) x = y

-- The failure that a handle keeps of a failed close.
abbrev pub close_error : Option ℕ → Failure
close_error none = close_failed
close_error (some x) = raised x

abbrev pub set_stream : ℕ → TransportHandle → (ℕ → TransportHandle) → ℕ → TransportHandle
set_stream i h streams j = if i == j then h else streams j
