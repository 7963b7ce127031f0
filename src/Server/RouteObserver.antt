-- ===== src/Server/RouteObserver.antt =====
-- The channel for failed routes of smallserver/server.py: `RouteObserverChannel` and
-- `run_route_observer`. The tasks, the signals and the observer are parameters that act on a world.
pub mod Delivery
pub mod Order
mod Tests
use small_server.Prelude.{
  ℕ, zero, suc, ◌+◌, Bool, true, false, not, ◌||◌, Option, none, some, List, [], ◌∷◌, ◌++◌, leb,
  ◌==◌, if◌then◌else◌, length, Result, ok, err,
}
use small_server.Prelude.Text.{Text}

pub record RouteErrorEvent : Type 0 where
  pub route_id : Text
  pub category : Text

pub record RouteObserverChannel : Type 0 where
  pub max_events : ℕ
  pub events : List RouteErrorEvent
  pub task : Option ℕ
  pub accepting : Bool
  pub dropped : ℕ
  pub failures : ℕ

abbrev pub init : ℕ → RouteObserverChannel
init max_events = record {
  max_events = max_events;
  events = [];
  task = none;
  accepting = true;
  dropped = 0;
  failures = 0;
}

-- The tasks and the observer. `send_signal` is `source_task.sendSignal` with the number of the signal
-- filled in, and `accept_signal` the target's, on a task that is not done.
pub record Tasks (W : Type 0) : Type 0 where
  pub send_signal : ℕ → W → Result ℕ ℕ × W
  pub is_done : ℕ → W → Bool
  pub accept_signal : ℕ → W → W
  pub observer : RouteErrorEvent → W → Option ℕ × W

abbrev pub bind : ℕ → RouteObserverChannel → RouteObserverChannel
bind task c = record c { task = some task }

-- deque.pop
abbrev pub pop : List RouteErrorEvent → List RouteErrorEvent
pop [] = []
pop (e ∷ []) = []
pop (e ∷ f ∷ es) = e ∷ pop (f ∷ es)

abbrev pub is_zero : Result ℕ ℕ → Bool
is_zero (ok n) = n == 0
is_zero (err x) = false

module _ {W : Type 0} (tasks : Tasks W) where
  -- Whether the signal reached the channel's task.
  unfoldable pub signalled : Option ℕ → W → Bool × W
  signalled none w = (false, w)
  signalled (some task) w = let (result, w') = tasks.send_signal task w in (is_zero result, w')

  -- What follows the signal for an event that has been appended.
  abbrev pub settle : Bool × W → RouteObserverChannel → Bool × RouteObserverChannel × W
  settle (true, w) c = (true, c, w)
  settle (false, w) c = (false, record c { events = pop c.events; dropped = c.dropped + 1 }, w)

  unfoldable pub enqueue :
      RouteErrorEvent → RouteObserverChannel → W → Bool × RouteObserverChannel × W
  enqueue event c w =
      if not c.accepting || leb c.max_events (length c.events)
      then (false, record c { dropped = c.dropped + 1 }, w)
      else settle (signalled c.task w) (record c { events = c.events ++ event ∷ [] })

  abbrev pub wake : Option ℕ → W → W
  wake none w = w
  wake (some task) w = if tasks.is_done task w then w else tasks.accept_signal task w

  unfoldable pub stop : RouteObserverChannel → W → RouteObserverChannel × W
  stop c w = (
    record c { accepting = false; dropped = c.dropped + length c.events; events = [] },
    wake c.task w,
  )

  abbrev pub count_failure : Option ℕ → ℕ → ℕ
  count_failure none failures = failures
  count_failure (some x) failures = failures + 1

  -- The inner loop of `run_route_observer`, on the events that wait.
  unfoldable pub drain : List RouteErrorEvent → RouteObserverChannel → W → RouteObserverChannel × W
  drain [] c w = (record c { events = [] }, w)
  drain (event ∷ events) c w =
      let (raised, w') = tasks.observer event w in
      drain events (record c { events = events; failures = count_failure raised c.failures }) w'

  -- The outer loop up to its wait: with no more to do it leaves, and its task is forgotten.
  unfoldable pub run : RouteObserverChannel → W → RouteObserverChannel × W
  run c w = if c.accepting then drain c.events c w else (record c { task = none }, w)
