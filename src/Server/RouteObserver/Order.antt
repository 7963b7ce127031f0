-- ===== src/Server/RouteObserver/Order.antt =====
-- `RouteObserverChannel` as a first-in, first-out queue: the order in which events are delivered.
use small_server.Prelude.{
  ◌≡◌, sym, ap, subst, ◌∙◌, Bool, true, false, Bool-cases, inl, inr, List, [], ◌∷◌, ◌++◌,
  append-nil, append_assoc, if◌then◌else◌, none, arith,
}
use small_server.Server.RouteObserver.{
  RouteErrorEvent, RouteObserverChannel, Tasks, enqueue, run, drain,
}
use small_server.Server.RouteObserver.Delivery.{
  Step, offered, bound, turn, stopped, Log, step, steps, Offered, enqueue-Offered, drain-seen,
}

-- Whether the server does not stop in these steps.
abbrev pub serves : List Step → Bool
serves [] = true
serves (offered e ∷ xs) = serves xs
serves (bound t ∷ xs) = serves xs
serves (turn ∷ xs) = serves xs
serves (stopped ∷ xs) = false

module _ {W : Type 0} (tasks : Tasks W) where
  -- The event that a step adds: an offer that `enqueue` answers with true.
  abbrev pub arrival : Step → RouteObserverChannel × W → List RouteErrorEvent
  arrival (offered e) (c, w) = if (enqueue tasks e c w).0 then e ∷ [] else []
  arrival (bound t) s = []
  arrival turn s = []
  arrival stopped s = []

  abbrev pub arrivals : List Step → RouteObserverChannel × W → List RouteErrorEvent
  arrivals [] s = []
  arrivals (x ∷ xs) s = arrival x s ++ arrivals xs (step tasks x s)

-- The abstract queue: what has been delivered, then what waits.
abbrev pub history :
    {W : Type 0} → (W → List RouteErrorEvent) → RouteObserverChannel × W → List RouteErrorEvent
history seen (c, w) = seen w ++ c.events

module _ {W : Type 0} (tasks : Tasks W) (seen : W → List RouteErrorEvent)
    (log : Log tasks seen) where
  unchanged : (es : List RouteErrorEvent) → es ≡ es ++ []
  unchanged es = sym (append-nil es)

  enqueue-history :
      (e : RouteErrorEvent) (c : RouteObserverChannel) (w : W) (r : Bool × RouteObserverChannel × W)
      → Offered tasks seen log e c w r
      → history seen (r.1, r.2) ≡ history seen (c, w) ++ (if r.0 then e ∷ [] else [])
  enqueue-history e c w (true, d, w') o =
      ap (λ l. l ++ d.events) o.unseen
      ∙ ap (λ l. seen w ++ l) o.outcome.0
      ∙ sym (append_assoc (seen w) c.events (e ∷ []))
  enqueue-history e c w (false, d, w') o =
      ap (λ l. l ++ d.events) o.unseen
      ∙ ap (λ l. seen w ++ l) o.outcome.0
      ∙ unchanged (seen w ++ c.events)

  turn-history :
      (c : RouteObserverChannel) (w : W) → history seen (run tasks c w) ≡ history seen (c, w) ++ []
  unfolding run
  turn-history c w = elim (Bool-cases c.accepting) [
    | inl accepts ↦
        subst (λ b. history seen (choose b) ≡ history seen (c, w) ++ []) (sym accepts)
          (drained (drain tasks c.events c w) (drain-seen tasks seen log c.events c w).0
            (drain-seen tasks seen log c.events c w).1)
    | inr closed ↦
        subst (λ b. history seen (choose b) ≡ history seen (c, w) ++ []) (sym closed)
          (unchanged (history seen (c, w)))
  ]
    where
      choose : Bool → RouteObserverChannel × W
      choose b = if b then drain tasks c.events c w else (record c { task = none }, w)

      drained :
          (r : RouteObserverChannel × W)
          → seen r.1 ≡ seen w ++ c.events
          → r.0.events ≡ []
          → history seen r ≡ history seen (c, w) ++ []
      drained r delivered empty =
          ap (λ l. l ++ r.0.events) delivered ∙ ap (λ l. (seen w ++ c.events) ++ l) empty

  joined :
      (x : Step) (xs : List Step) (s : RouteObserverChannel × W)
      → history seen (step tasks x s) ≡ history seen s ++ arrival tasks x s
      → history seen (steps tasks xs (step tasks x s))
        ≡ history seen (step tasks x s) ++ arrivals tasks xs (step tasks x s)
      → history seen (steps tasks (x ∷ xs) s) ≡ history seen s ++ arrivals tasks (x ∷ xs) s
  joined x xs s one rest =
      rest
      ∙ ap (λ l. l ++ arrivals tasks xs (step tasks x s)) one
      ∙ append_assoc (history seen s) (arrival tasks x s) (arrivals tasks xs (step tasks x s))

  -- As long as the server is not stopped, the channel is a first-in, first-out queue: what has been
  -- delivered, followed by what waits, grows at its end by exactly the offered events that `enqueue`
  -- answered with true, in the order of their offers. So each of them is delivered once and in that
  -- order, and no refused event is delivered. The observer's log is written by the observer alone.
  pub steps-history :
      (xs : List Step) (s : RouteObserverChannel × W)
      → serves xs ≡ true
      → history seen (steps tasks xs s) ≡ history seen s ++ arrivals tasks xs s
  steps-history [] s h = unchanged (history seen s)
  steps-history (offered e ∷ xs) (c, w) h =
      joined (offered e) xs (c, w)
        (enqueue-history e c w (enqueue tasks e c w) (enqueue-Offered tasks seen log e c w))
        (steps-history xs (step tasks (offered e) (c, w)) h)
  steps-history (bound t ∷ xs) s h =
      joined (bound t) xs s (unchanged (history seen s))
        (steps-history xs (step tasks (bound t) s) h)
  steps-history (turn ∷ xs) (c, w) h =
      joined turn xs (c, w) (turn-history c w) (steps-history xs (step tasks turn (c, w)) h)
  steps-history (stopped ∷ xs) s h = ground arith
