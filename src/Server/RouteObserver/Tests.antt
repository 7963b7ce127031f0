-- ===== src/Server/RouteObserver/Tests.antt =====
-- A channel for two events, and the theorems at it.
use small_server.Prelude.{◌≤◌, ◌≡◌, refl, false, none, some, List, [], ◌∷◌, ◌++◌, length, ok, arith}
use small_server.Prelude.Text.{codes}
use small_server.Server.RouteObserver.{
  RouteErrorEvent, Tasks, init, signalled, enqueue, drain, run, stop,
}
use small_server.Server.RouteObserver.Delivery.{
  Step, offered, bound, turn, stopped, Log, steps, total, steps-total,
}
use small_server.Server.RouteObserver.Order.{history, steps-history}

abbrev event : RouteErrorEvent
event = record { route_id = codes "/a"; category = codes "handler" }

-- The world is the log of the observer.
abbrev tasks : Tasks (List RouteErrorEvent)
tasks = record {
  send_signal = λ t w. (ok 0, w);
  is_done = λ t w. false;
  accept_signal = λ t w. w;
  observer = λ e w. (none, w ++ e ∷ []);
}

abbrev trace : List Step
trace =
    offered event
    ∷ bound 7
    ∷ offered event
    ∷ offered event
    ∷ offered event
    ∷ turn
    ∷ offered event
    ∷ stopped
    ∷ offered event
    ∷ []

test_steps :
    steps tasks trace (init 2, [])
    ≡ (record (init 2) { accepting = false; dropped = 4; task = some 7 }, event ∷ event ∷ [])
unfolding enqueue run stop drain signalled
test_steps = refl

log : Log tasks (λ w. w)
log = record { observed = λ e w. refl; sent = λ t w. refl; accepted = λ t w. refl }

steps-total_example :
    (total (λ w. w) (steps tasks trace (init 2, [])).0 (steps tasks trace (init 2, [])).1 ≡ 6)
    × (length (steps tasks trace (init 2, [])).0.events ≤ 2)
steps-total_example = steps-total tasks (λ w. w) log trace (init 2) [] (omega arith)

abbrev second : RouteErrorEvent
second = record { route_id = codes "/b"; category = codes "response" }

-- The third offer finds the channel full.
abbrev open_trace : List Step
open_trace =
    bound 7
    ∷ offered event
    ∷ offered second
    ∷ offered event
    ∷ turn
    ∷ offered second
    ∷ offered event
    ∷ []

steps-history_example :
    history (λ w. w) (steps tasks open_trace (init 2, [])) ≡ event ∷ second ∷ second ∷ event ∷ []
unfolding enqueue run drain signalled
steps-history_example = steps-history tasks (λ w. w) log open_trace (init 2, []) refl
