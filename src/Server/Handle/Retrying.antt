-- ===== src/Server/Handle/Retrying.antt =====
-- The first steps of `_finish_close`: what is told, and the retries of what an earlier attempt left.
use small_server.Prelude.{
  ℕ, ◌≡◌, refl, ◌∙◌, Bool, true, false, ◌||◌, Option, none, some, inl, inr, [], if◌then◌else◌,
  Bool-cases, List, ◌∷◌, arith,
}
use small_server.Prelude.Dict
use small_server.Prelude.Dict.{Dict, is_some, has, has-put, has-remove_ne, nat_eq}
use small_server.Transport.{TransportHandle, close}
use small_server.Transport.Closing.{Closed, close-Closed}
use small_server.Server.Handle.{
  Environment, ServerHandle, Objects, of_connection, resource_eq, close_error,
}
use small_server.Server.Handle.Release.{close_stream, cancel_or_retain_task}
use small_server.Server.Handle.Retained.{Retained-put, Retained-closed, Retained-cancelled}
use small_server.Server.Handle.Ownership.{
  Counts, Keeps, Keeps-refl, Keeps-trans, Keeps-if, close_stream-StreamClosed,
}
use small_server.Server.RouteObserver.{RouteObserverChannel}
use small_server.Server.RouteObserver
use small_server.Server.Handle.{of_wakeup, raised}
use small_server.Server.Handle.Retained.{Retained-drop}
use small_server.Server.Handle.Settling.{
  put_error-Keeps, removed-account, cancel_or_retain_task-Keeps,
}
use small_server.Server.Handle.Closing.{
  is_current, request_shutdowns, ask_websockets, stop_channel, wakeup_closed, close_wakeup, retried,
  retry_closing, settle_pending, retry_pending, count_cancelled, cancel_once, begin_close, announce,
}

module _ {W : Type 0} (env : Environment W) (count : W → ℕ) (counts : Counts env count) where
  abbrev pub Pairs : List ℕ × ServerHandle W → List ℕ × ServerHandle W → Type 0
  Pairs r q = Keeps count r.1 q.1

  pub request_shutdowns-count :
      (states : Objects) (w : W) → count (request_shutdowns env states w) ≡ count w
  request_shutdowns-count [] w = refl
  request_shutdowns-count ((i, _) ∷ states) w =
      request_shutdowns-count states (env.request_shutdown i w) ∙ counts.on_request i w

  pub ask_websockets-Keeps : (s : ServerHandle W) → Keeps count s (ask_websockets env s)
  ask_websockets-Keeps s = record {
    account = λ i h. h;
    retained = λ v. v;
    notified = λ n. n;
    once = omega (arith, request_shutdowns-count s.websocket_states s.world);
  }

  wake-count : (t : Option ℕ) (w : W) → count (RouteObserver.wake env.observer_tasks t w) ≡ count w
  wake-count none w = refl
  wake-count (some t) w = elim (Bool-cases (env.observer_tasks.is_done t w)) [
    | inl done ↦ rw done refl
    | inr waits ↦ rw waits (counts.on_observer t w)
  ]

  stop_channel-Keeps :
      (c : Option RouteObserverChannel) (s : ServerHandle W) → Keeps count s (stop_channel env c s)
  unfolding RouteObserver.stop
  stop_channel-Keeps none s = Keeps-refl count s
  stop_channel-Keeps (some c) s = record {
    account = λ i h. h;
    retained = λ v. v;
    notified = λ n. n;
    once = omega (arith, wake-count c.task s.world);
  }

  close_wakeup-Keeps :
      (h : Option TransportHandle) (s : ServerHandle W) → Keeps count s (close_wakeup env h s)
  close_wakeup-Keeps none s = Keeps-refl count s
  close_wakeup-Keeps (some h) s = Keeps-if count h.closed (Keeps-refl count s) (
      settled (close env.wakeup_close h s.world)
        (close-Closed count env.wakeup_close h s.world (counts.on_wakeup_close s.world)))
    where
      settled :
          (r : Option ℕ × TransportHandle × W)
          → Closed count h s.world r
          → Keeps count s (wakeup_closed env r s)
      settled (none, g, w) c = record {
        account = λ i h. h;
        retained = λ v.
            Retained-drop s.closing_connections s.pending_task_cancellations s.cleanup_errors v
              of_wakeup (λ i. refl) (λ t. refl);
        notified = λ n. n;
        once = omega (arith, c.unmeasured);
      }
      settled (some x, g, w) c = record {
        account = λ i h. h;
        retained = λ v.
            Retained-put s.closing_connections s.pending_task_cancellations s.cleanup_errors v
              of_wakeup (raised x);
        notified = λ n. n;
        once = omega (arith, c.unmeasured);
      }

  pub announce-Keeps : (s : ServerHandle W) → Keeps count s (announce env s)
  announce-Keeps s =
      let s0 = begin_close env s in
      let s1 = ask_websockets env s0 in
      let s2 = stop_channel env s1.route_observer_channel s1 in
      Keeps-trans count
        (record { account = λ i h. h; retained = λ v. v; notified = λ n. n; once = refl })
        (Keeps-trans count (ask_websockets-Keeps s0) (
          Keeps-trans count (stop_channel-Keeps s1.route_observer_channel s1)
            (close_wakeup-Keeps s2.wakeup s2)))

  retried-Keeps :
      (i : ℕ) (r : Bool × ServerHandle W)
      → (r.1.streams i).closed ≡ r.0
      → Keeps count r.1 (retried env i r)
  retried-Keeps i (true, s) done = record {
    account = λ j h. removed-account env count counts i j s done h;
    retained = λ v.
        Retained-closed s.closing_connections s.pending_task_cancellations s.cleanup_errors v i;
    notified = λ n. n;
    once = refl;
  }
  retried-Keeps i (false, s) failed =
      put_error-Keeps env count counts (of_connection i) (close_error (s.streams i).close_error) s

  pub retry_closing-Keeps :
      (items : Objects) (s : ServerHandle W) → Keeps count s (retry_closing env items s)
  unfolding retry_closing
  retry_closing-Keeps [] s = Keeps-refl count s
  retry_closing-Keeps ((i, _) ∷ items) s =
      let c = close_stream-StreamClosed env count counts i s in
      let r = close_stream env i s in
      Keeps-trans count c.keeps (
        Keeps-trans count (retried-Keeps i r c.tells) (retry_closing-Keeps items (retried env i r)))

  settle_pending-Keeps :
      (t : ℕ) (tried : List ℕ) (r : Bool × ServerHandle W)
      → Keeps count r.1 (settle_pending env t tried r).1
  settle_pending-Keeps t tried (true, s) = record {
    account = λ i h. h;
    retained = λ v.
        Retained-cancelled s.closing_connections s.pending_task_cancellations s.cleanup_errors v t;
    notified = λ n. n;
    once = refl;
  }
  settle_pending-Keeps t tried (false, s) = Keeps-refl count s

  pub retry_pending-Keeps :
      (items : Objects) (r : List ℕ × ServerHandle W) → Pairs r (retry_pending env items r)
  unfolding retry_pending
  retry_pending-Keeps [] r = Keeps-refl count r.1
  retry_pending-Keeps ((t, _) ∷ items) (tried, s) =
      let c = cancel_or_retain_task env t s in
      Keeps-trans count (cancel_or_retain_task-Keeps env count counts t s) (
        Keeps-trans count (settle_pending-Keeps t (Dict.add t tried) c)
          (retry_pending-Keeps items (settle_pending env t (Dict.add t tried) c)))

  count_cancelled-Keeps :
      (t : ℕ) (tried : List ℕ) (r : Bool × ServerHandle W)
      → Keeps count r.1 (count_cancelled env t tried r).1
  count_cancelled-Keeps t tried (true, s) = record {
    account = λ i h. h;
    retained = λ v. v;
    notified = λ n. n;
    once = refl;
  }
  count_cancelled-Keeps t tried (false, s) = Keeps-refl count s

  Pairs-if :
      (b : Bool) (s r q : List ℕ × ServerHandle W)
      → Pairs s r
      → Pairs s q
      → Pairs s (if b then r else q)
  Pairs-if true s r q a b = a
  Pairs-if false s r q a b = b

  pub cancel_once-Keeps :
      (current : Option ℕ) (t : ℕ) (r : List ℕ × ServerHandle W)
      → Pairs r (cancel_once env current t r)
  cancel_once-Keeps current t (tried, s) =
      Pairs-if
        (is_current current t || Dict.contains t s.cancelled_task_ids || Dict.contains t tried)
        (tried, s) (tried, s)
        (count_cancelled env t (Dict.add t tried) (cancel_or_retain_task env t s))
        (Keeps-refl count s)
        (Keeps-trans count (cancel_or_retain_task-Keeps env count counts t s)
          (count_cancelled-Keeps t (Dict.add t tried) (cancel_or_retain_task env t s)))
