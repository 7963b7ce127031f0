-- ===== src/Server/RouteObserver/Delivery.antt =====
-- Every event that is offered to `RouteObserverChannel` is delivered, dropped or still waiting.
use small_server.Prelude.{
  ℕ, ◌+◌, ◌≤◌, ◌≡◌, refl, sym, ap, subst, ◌∙◌, Bool, true, false, not, ◌||◌, Option, none, some,
  inl, inr, List, [], ◌∷◌, ◌++◌, append-nil, append_assoc, if◌then◌else◌, leb, Bool-cases, length,
  max, length-append, arith,
}
use small_server.Server.RouteObserver.{
  RouteErrorEvent, RouteObserverChannel, Tasks, bind, pop, signalled, settle, enqueue, stop, drain,
  run, count_failure, wake,
}

-- What happens to a channel: an event is offered, the observer's task has a turn, the server stops.
pub data Step : Type 0 where
  offered : RouteErrorEvent → Step
  bound : ℕ → Step
  turn stopped : Step

pop-append : (es : List RouteErrorEvent) (e : RouteErrorEvent) → pop (es ++ e ∷ []) ≡ es
pop-append [] e = refl
pop-append (f ∷ []) e = refl
pop-append (f ∷ g ∷ es) e = ap (◌∷◌ f) (pop-append (g ∷ es) e)

abbrev pub offers : List Step → ℕ
offers [] = 0
offers (offered e ∷ steps) = offers steps + 1
offers (bound t ∷ steps) = offers steps
offers (turn ∷ steps) = offers steps
offers (stopped ∷ steps) = offers steps

offers-cons : (x : Step) (xs : List Step) → offers (x ∷ xs) ≡ offers (x ∷ []) + offers xs
offers-cons (offered e) xs = omega arith
offers-cons (bound t) xs = omega arith
offers-cons turn xs = omega arith
offers-cons stopped xs = omega arith

-- The observer's log: it alone writes it, an entry for each event that it is called on.
pub record Log {W : Type 0} (tasks : Tasks W) (seen : W → List RouteErrorEvent) : Type 0 where
  pub observed : (e : RouteErrorEvent) (w : W) → seen (tasks.observer e w).1 ≡ seen w ++ e ∷ []
  pub sent : (t : ℕ) (w : W) → seen (tasks.send_signal t w).1 ≡ seen w
  pub accepted : (t : ℕ) (w : W) → seen (tasks.accept_signal t w) ≡ seen w

-- The events that have been delivered, that wait and that were dropped.
abbrev pub total : {W : Type 0} → (W → List RouteErrorEvent) → RouteObserverChannel → W → ℕ
total seen c w = length (seen w) + length c.events + c.dropped

module _ {W : Type 0} (tasks : Tasks W) where
  abbrev pub step : Step → RouteObserverChannel × W → RouteObserverChannel × W
  step (offered e) (c, w) = let (_, c', w') = enqueue tasks e c w in (c', w')
  step (bound t) (c, w) = (bind t c, w)
  step turn (c, w) = run tasks c w
  step stopped (c, w) = stop tasks c w

  abbrev pub steps : List Step → RouteObserverChannel × W → RouteObserverChannel × W
  steps [] s = s
  steps (x ∷ xs) s = steps xs (step x s)

module _ {W : Type 0} (tasks : Tasks W) (seen : W → List RouteErrorEvent)
    (log : Log tasks seen) where
  signalled-seen : (t : Option ℕ) (w : W) → seen (signalled tasks t w).1 ≡ seen w
  unfolding signalled
  signalled-seen none w = refl
  signalled-seen (some t) w = log.sent t w

  -- What an offer does, with its result.
  abbrev pub Outcome : RouteErrorEvent → RouteObserverChannel → RouteObserverChannel → Bool → Type 0
  Outcome e c d true =
      (d.events ≡ c.events ++ e ∷ []) × (d.dropped ≡ c.dropped) × (c.accepting ≡ true)
  Outcome e c d false = (d.events ≡ c.events) × (d.dropped ≡ c.dropped + 1)

  pub record Offered (e : RouteErrorEvent) (c : RouteObserverChannel) (w : W)
      (r : Bool × RouteObserverChannel × W) : Type 0 where
    pub unseen : seen r.2 ≡ seen w
    max_kept : r.1.max_events ≡ c.max_events
    accepting_kept : r.1.accepting ≡ c.accepting
    events_le : length r.1.events ≤ max (length c.events) c.max_events
    pub outcome : Outcome e c r.1 r.0

  settle-Offered :
      (e : RouteErrorEvent) (c : RouteObserverChannel) (w : W) (r : Bool × W)
      → seen r.1 ≡ seen w
      → c.accepting ≡ true
      → length c.events + 1 ≤ c.max_events
      → Offered e c w (settle tasks r (record c { events = c.events ++ e ∷ [] }))
  settle-Offered e c w (true, w') q a h = record {
    unseen = q;
    max_kept = refl;
    accepting_kept = refl;
    events_le = omega (arith, h, length-append c.events (e ∷ []));
    outcome = (refl, refl, a);
  }
  settle-Offered e c w (false, w') q a h = record {
    unseen = q;
    max_kept = refl;
    accepting_kept = refl;
    events_le = rw (pop-append c.events e) (omega arith);
    outcome = (pop-append c.events e, refl);
  }

  pub enqueue-Offered :
      (e : RouteErrorEvent) (c : RouteObserverChannel) (w : W) → Offered e c w (enqueue tasks e c w)
  unfolding enqueue
  enqueue-Offered e c w =
      elim (Bool-cases (not c.accepting || leb c.max_events (length c.events))) [
        | inl refused ↦ rw refused (record {
          unseen = refl;
          max_kept = refl;
          accepting_kept = refl;
          events_le = omega arith;
          outcome = (refl, refl);
        })
        | inr room ↦ rw room (
            settle-Offered e c w (signalled tasks c.task w) (signalled-seen c.task w)
              (accepts c.accepting (leb c.max_events (length c.events)) room)
              (fits c.accepting c.max_events (length c.events) room))
      ]
    where
      accepts : (a b : Bool) → (not a || b) ≡ false → a ≡ true
      accepts a b h = ground arith

      fits : (a : Bool) (m n : ℕ) → (not a || leb m n) ≡ false → n + 1 ≤ m
      fits a m n h = ground arith

  -- A drain delivers every event that waits.
  pub drain-seen :
      (events : List RouteErrorEvent) (c : RouteObserverChannel) (w : W)
      → (seen (drain tasks events c w).1 ≡ seen w ++ events)
        × ((drain tasks events c w).0.events ≡ [])
        × ((drain tasks events c w).0.dropped ≡ c.dropped)
        × ((drain tasks events c w).0.max_events ≡ c.max_events)
  unfolding drain
  drain-seen [] c w = (sym (append-nil (seen w)), refl, refl, refl)
  drain-seen (e ∷ es) c w =
      let r =
        drain-seen es
          (record c {
            events = es;
            failures = count_failure tasks (tasks.observer e w).0 c.failures;
          })
          (tasks.observer e w).1 in
      (
        r.0 ∙ ap (λ l. l ++ es) (log.observed e w) ∙ append_assoc (seen w) (e ∷ []) es,
        r.1,
        r.2,
        r.3,
      )

  wake-seen : (t : Option ℕ) (w : W) → seen (wake tasks t w) ≡ seen w
  wake-seen none w = refl
  wake-seen (some t) w = elim (Bool-cases (tasks.is_done t w)) [
    | inl done ↦ rw done refl
    | inr waits ↦ rw waits (log.accepted t w)
  ]

  record Kept (x : Step) (c : RouteObserverChannel) (w : W) (r : RouteObserverChannel × W)
      : Type 0 where
    counted : total seen r.0 r.1 ≡ total seen c w + offers (x ∷ [])
    within_max : length c.events ≤ c.max_events → length r.0.events ≤ r.0.max_events
    max_kept : r.0.max_events ≡ c.max_events

  offered-Kept :
      (e : RouteErrorEvent) (c : RouteObserverChannel) (w : W) (r : Bool × RouteObserverChannel × W)
      → Offered e c w r
      → Kept (offered e) c w (r.1, r.2)
  offered-Kept e c w (true, d, w') o = record {
    counted = omega (
      arith,
      ap length o.unseen,
      ap length o.outcome.0,
      o.outcome.1,
      length-append c.events (e ∷ []),
    );
    within_max = λ h. omega (arith, o.events_le, o.max_kept, h);
    max_kept = o.max_kept;
  }
  offered-Kept e c w (false, d, w') o = record {
    counted = omega (arith, ap length o.unseen, ap length o.outcome.0, o.outcome.1);
    within_max = λ h. omega (arith, o.events_le, o.max_kept, h);
    max_kept = o.max_kept;
  }

  step-Kept : (x : Step) (c : RouteObserverChannel) (w : W) → Kept x c w (step tasks x (c, w))
  unfolding run stop enqueue
  step-Kept (offered e) c w = offered-Kept e c w (enqueue tasks e c w) (enqueue-Offered e c w)
  step-Kept (bound t) c w = record { counted = omega arith; within_max = λ h. h; max_kept = refl }
  step-Kept turn c w = elim (Bool-cases c.accepting) [
    | inl accepts ↦
        subst (Kept turn c w) (sym (ap choose accepts))
          (drained (drain tasks c.events c w) (drain-seen c.events c w))
    | inr closed ↦
        subst (Kept turn c w) (sym (ap choose closed))
          (record { counted = omega arith; within_max = λ h. h; max_kept = refl })
  ]
    where
      choose : Bool → RouteObserverChannel × W
      choose b = if b then drain tasks c.events c w else (record c { task = none }, w)

      drained :
          (r : RouteObserverChannel × W)
          → (seen r.1 ≡ seen w ++ c.events)
            × (r.0.events ≡ [])
            × (r.0.dropped ≡ c.dropped)
            × (r.0.max_events ≡ c.max_events)
          → Kept turn c w r
      drained r d = record {
        counted = omega (arith, ap length d.0, ap length d.1, d.2, length-append (seen w) c.events);
        within_max = λ h. omega (arith, ap length d.1);
        max_kept = d.3;
      }
  step-Kept stopped c w = record {
    counted = omega (arith, ap length (wake-seen c.task w));
    within_max = λ h. omega arith;
    max_kept = refl;
  }

  -- However offers, turns of the observer's task and stops follow each other, every event that has
  -- been offered has been delivered to the observer, waits in the channel or is counted as dropped,
  -- and no more events wait than the limit allows. The observer's log is written by the observer
  -- alone.
  pub steps-total :
      (xs : List Step) (c : RouteObserverChannel) (w : W)
      → length c.events ≤ c.max_events
      → (total seen (steps tasks xs (c, w)).0 (steps tasks xs (c, w)).1
          ≡ total seen c w + offers xs)
        × (length (steps tasks xs (c, w)).0.events ≤ c.max_events)
  steps-total [] c w h = (omega arith, h)
  steps-total (x ∷ xs) c w h =
      let next = step tasks x (c, w) in
      let k = step-Kept x c w in
      let rest = steps-total xs next.0 next.1 (k.within_max h) in
      (omega (arith, rest.0, k.counted, offers-cons x xs), omega (arith, rest.1, k.max_kept))
