-- ===== src/Server/Handle/Progress.antt =====
-- `finalize` finishes where nothing that it calls raises.
use small_server.Prelude.{
  ℕ, ◌≡◌, refl, sym, ap, subst, ◌∙◌, Bool, true, false, ◌&&◌, Option, none, some, inl, inr, [],
  if◌then◌else◌, is_nil, Bool-cases,
}
use small_server.Prelude.Dict.{nat_eq, IsUnique}
use small_server.Transport.{TransportHandle, close}
use small_server.Server.Handle.{Environment, ServerHandle, resource_eq, is_closed}
use small_server.Server.Handle.Release.{
  attempt, is_released, call_finalized, set_finished, update_finished,
}
use small_server.Server.RouteObserver.{RouteObserverChannel}
use small_server.Server.Handle.Closing.{
  ask_websockets, stop_channel, wakeup_closed, close_wakeup, resume_listener, listener_closed,
  close_listener, begin_close, announce, release_all, finish_close,
}
use small_server.Server.Handle.Requests.{finalize}
use small_server.Server.Handle.Draining.{
  Core, core, set_connections, set_closing, set_pending, Quiet, some_ne, close-quiet,
  release_all-core,
}

module _ {W : Type 0} (env : Environment W) (quiet : Quiet env) where
  stop_channel-core :
      (c : Option RouteObserverChannel) (s : ServerHandle W)
      → (core (stop_channel env c s) ≡ core s) × ((stop_channel env c s).wakeup ≡ s.wakeup)
  stop_channel-core none s = (refl, refl)
  stop_channel-core (some c) s = (refl, refl)

  abbrev set_no_wakeup : Bool → Core → Core
  set_no_wakeup b c = record c { no_wakeup = b }

  wakeup_closed-core :
      (r : Option ℕ × TransportHandle × W) (s : ServerHandle W)
      → r.0 ≡ none
      → r.1.closed ≡ true
      → core (wakeup_closed env r s) ≡ set_no_wakeup true (core s)
  wakeup_closed-core (none, h, w) s q closed = ap (λ b. set_no_wakeup b (core s)) closed
  wakeup_closed-core (some x, h, w) s q closed = absurd (some_ne q)

  close_wakeup-core :
      (h : Option TransportHandle) (s : ServerHandle W)
      → s.wakeup ≡ h
      → core (close_wakeup env h s) ≡ set_no_wakeup true (core s)
  close_wakeup-core none s q = ap (λ k. set_no_wakeup (is_closed k) (core s)) q
  close_wakeup-core (some h) s q = elim (Bool-cases h.closed) [
    | inl done ↦
        subst (λ b. core (choose b) ≡ set_no_wakeup true (core s)) (sym done)
          (ap (λ b. set_no_wakeup b (core s)) (ap is_closed q ∙ done))
    | inr again ↦
        let fine = close-quiet env.wakeup_close h s.world (quiet.closes_wakeup s.world) in
        subst (λ b. core (choose b) ≡ set_no_wakeup true (core s)) (sym again)
          (wakeup_closed-core (close env.wakeup_close h s.world) s fine.0 fine.1)
  ]
    where
      choose : Bool → ServerHandle W
      choose b = if b then s else wakeup_closed env (close env.wakeup_close h s.world) s

  announce-core :
      (s : ServerHandle W)
      → core (announce env s) ≡ record (core s) { requested = true; no_wakeup = true }
  announce-core s =
      let s1 = ask_websockets env (begin_close env s) in
      let s2 = stop_channel env s1.route_observer_channel s1 in
      close_wakeup-core s2.wakeup s2 refl
      ∙ ap (set_no_wakeup true) (stop_channel-core s1.route_observer_channel s1).0

  resume_listener-core :
      (t : Option ℕ) (s : ServerHandle W) → core (resume_listener env none t s) ≡ core s
  resume_listener-core none s = refl
  resume_listener-core (some t) s = by_test s.listener_resumed
    where
      by_test :
          (b : Bool)
          → core (
              if b
              then s
              else record (attempt env (env.resume_task t) s) { listener_resumed = true })
            ≡ core s
      by_test true = refl
      by_test false = refl

  listener_closed-core :
      (r : Option ℕ × TransportHandle × W) (s : ServerHandle W)
      → r.0 ≡ none
      → r.1.closed ≡ true
      → (core (listener_closed env r s) ≡ core s)
        × ((listener_closed env r s).listener.closed ≡ true)
  listener_closed-core (none, h, w) s q closed = (refl, closed)
  listener_closed-core (some x, h, w) s q closed = absurd (some_ne q)

  close_listener-core :
      (s : ServerHandle W)
      → (core (close_listener env s) ≡ core s) × ((close_listener env s).listener.closed ≡ true)
  close_listener-core s = elim (Bool-cases s.listener.closed) [
    | inl done ↦ subst (λ b. Fine (choose b)) (sym done) (refl, done)
    | inr again ↦
        let fine =
          close-quiet env.listener_close s.listener s.world (quiet.closes_listener s.world) in
        subst (λ b. Fine (choose b)) (sym again)
          (listener_closed-core (close env.listener_close s.listener s.world) s fine.0 fine.1)
  ]
    where
      Fine : ServerHandle W → Type 0
      Fine r = (core r ≡ core s) × (r.listener.closed ≡ true)

      choose : Bool → ServerHandle W
      choose b =
          if b then s else listener_closed env (close env.listener_close s.listener s.world) s

  call_finalized-finished :
      (set : Bool) (s : ServerHandle W)
      → ((call_finalized env set s).finished ≡ s.finished)
        × ((call_finalized env set s).cleanup_errors ≡ s.cleanup_errors)
  call_finalized-finished false s = (refl, refl)
  call_finalized-finished true s = (refl, refl)

  update_finished-done :
      (s : ServerHandle W)
      → is_released env s ≡ true
      → ((update_finished env s).finished ≡ true) × ((update_finished env s).cleanup_errors ≡ [])
  unfolding update_finished
  update_finished-done s q = subst (λ b. Fine (set_finished env b s)) (sym q) (by_test s.finished)
    where
      Fine : ServerHandle W → Type 0
      Fine r = (r.finished ≡ true) × (r.cleanup_errors ≡ [])

      cleaned : ServerHandle W
      cleaned = record s { finished = true; cleanup_errors = [] }

      by_test : (b : Bool) → Fine (if b then cleaned else call_finalized env s.on_finalized cleaned)
      by_test true = (refl, refl)
      by_test false = call_finalized-finished s.on_finalized cleaned

  abbrev core_released : Core → Bool → Bool
  core_released c listener =
      c.requested
      && c.no_wakeup
      && listener
      && is_nil c.connections
      && is_nil c.closing
      && is_nil c.pending
      && is_nil c.websockets

  -- Where no close and no cancellation raises and no WebSocket is left, `finalize` finishes the handle,
  -- whatever it still owned, and no cleanup error is left.
  pub finalize-finished :
      (s : ServerHandle W)
      → IsUnique s.pending_task_cancellations
      → s.websocket_states ≡ []
      → s.finished ≡ false
      → ((finalize env s).finished ≡ true) × ((finalize env s).cleanup_errors ≡ [])
  unfolding finish_close
  finalize-finished s u no_websockets q =
      let s1 = announce env s in
      let q1 = announce-core s in
      let s2 = release_all env none true s1 in
      let q2 = release_all-core env quiet s1 (subst IsUnique (sym (ap Core.pending q1)) u) in
      let s3 = resume_listener env none s2.listener_task s2 in
      let s4 = close_listener env s3 in
      let q4 = close_listener-core s3 in
      let all =
        q4.0
        ∙ resume_listener-core s2.listener_task s2
        ∙ q2
        ∙ ap (λ c. set_connections [] (set_closing [] (set_pending [] c))) q1 in
      subst (λ b. Fine (if b then s else update_finished env s4)) (sym q)
        (update_finished-done s4 (
          ap (λ c. core_released c s4.listener.closed) all
          ∙ ap (λ b. true && true && b && true && true && true && is_nil s.websocket_states) q4.1
          ∙ ap is_nil no_websockets))
    where
      Fine : ServerHandle W → Type 0
      Fine r = (r.finished ≡ true) × (r.cleanup_errors ≡ [])
