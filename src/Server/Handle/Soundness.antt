-- ===== src/Server/Handle/Soundness.antt =====
-- A handle that calls itself finished has released all that it owned, after each request.
use small_server.Prelude.{
  ℕ, ◌≡◌, refl, sym, subst, ◌∙◌, Bool, true, false, not, ◌&&◌, Option, none, some, inl, inr, [],
  if◌then◌else◌, Bool-cases, Result, ok, err,
}
use small_server.Prelude.Dict
use small_server.Prelude.Dict.{Dict, is_some, has, has-put, has-remove_ne, nat_eq}
use small_server.Transport.{TransportHandle}
use small_server.Server.Handle.Finished.{update_finished-Released}
use small_server.Server.Handle.{
  Environment, ServerHandle, resource_eq, Failure, first_failure, is_closed,
}
use small_server.Server.Handle.Release.{
  close_stream, retain, notified, notify_or_finish, connection_close_failed, settle_close,
  close_or_retain, cancel_call, settle_cancel, cancel_or_retain_task, update_finished,
}
use small_server.Server.Handle.Ownership.{Counts, close_stream-StreamClosed}
use small_server.Server.Handle.Closing.{ask_websockets, begin_close, finish_close}
use small_server.Server.Handle.Requests.{
  CloseError, incomplete, not_current_task, notice, request_close, is_cursor, close_from_task,
  fail_listener, listener_failed, after_signal, signal_capacity, notify_listener,
  notify_capacity_released, close_in, force_connection_close, accepted_setup_failed, task_or,
  connection_finished, abort_startup, register, unregistered, registration_failed, cancel_child,
  cancel_created, refuse_accepted,
}
use small_server.Server.Handle.Requests
use small_server.Server.Handle.Release.{note_failure}
use small_server.Server.Handle.Requests.{add_websocket, drop_websocket}

-- Nothing that the handle owns is open. A cancellation may be pending: a connection's task may ask for
-- one when all else is released.
pub record Shut {W : Type 0} (s : ServerHandle W) : Type 0 where
  pub requested : s.close_requested ≡ true
  pub no_wakeup : is_closed s.wakeup ≡ true
  pub no_listener : s.listener.closed ≡ true
  pub no_connections : s.connections ≡ []
  pub no_closing : s.closing_connections ≡ []
  pub no_websockets : s.websocket_states ≡ []

-- Once it has finished, the handle owns nothing that is open.
abbrev pub Sound : {W : Type 0} → ServerHandle W → Type 0
Sound s = s.finished ≡ true → Shut s

clash : false ≡ true → ⊥
clash p = cc

module _ {W : Type 0} (env : Environment W) (count : W → ℕ) (counts : Counts env count) where
  pub unfinished-Sound : (s : ServerHandle W) → s.finished ≡ false → Sound s
  unfinished-Sound s q h = absurd (clash (sym q ∙ h))

  update_finished-Sound : (s : ServerHandle W) → Sound (update_finished env s)
  update_finished-Sound s h =
      let r = update_finished-Released env count counts s h in
      record {
        requested = r.requested;
        no_wakeup = r.no_wakeup;
        no_listener = r.no_listener;
        no_connections = r.no_connections;
        no_closing = r.no_closing;
        no_websockets = r.no_websockets;
      }

  Sound-if : (b : Bool) (r q : ServerHandle W) → Sound r → Sound q → Sound (if b then r else q)
  Sound-if true r q a b = a
  Sound-if false r q a b = b

  Sound-if_second :
      {A : Type 0} (b : Bool) (r q : A × ServerHandle W)
      → Sound r.1
      → Sound q.1
      → Sound (if b then r else q).1
  Sound-if_second true r q a b = a
  Sound-if_second false r q a b = b

  pub finish_close-Sound :
      (current : Option ℕ) (owner : Bool) (s : ServerHandle W)
      → Sound s
      → Sound (finish_close env current owner s)
  unfolding finish_close
  finish_close-Sound current owner s v =
      Sound-if s.finished s (update_finished env _) v (update_finished-Sound _)

  -- A request for which the handle has not finished.
  notified-Sound :
      (current : Option ℕ) (r : Option ℕ × W) (s : ServerHandle W)
      → s.finished ≡ false
      → Sound (notified env (finish_close env current false) r s)
  notified-Sound current (none, w) s q =
      unfinished-Sound (record s { notification_sent = true; world = w }) q
  notified-Sound current (some x, w) s q =
      finish_close-Sound current false (record s { world = w })
        (unfinished-Sound (record s { world = w }) q)

  notify_or_finish-Sound :
      (current : Option ℕ) (h : Option TransportHandle) (s : ServerHandle W)
      → s.finished ≡ false
      → Sound (notify_or_finish env (finish_close env current false) h s)
  notify_or_finish-Sound current none s q =
      finish_close-Sound current false s (unfinished-Sound s q)
  notify_or_finish-Sound current (some h) s q =
      Sound-if s.notification_sent s
        (notified env (finish_close env current false) (env.wakeup_notify s.world) s)
        (unfinished-Sound s q) (notified-Sound current (env.wakeup_notify s.world) s q)

  connection_close_failed-Sound :
      (current : Option ℕ) (x : Failure) (s : ServerHandle W)
      → s.finished ≡ false
      → Sound (connection_close_failed env (finish_close env current false) x s)
  unfolding connection_close_failed
  connection_close_failed-Sound current x s q =
      Sound-if s.finalization_attempted noted
        (notify_or_finish env (finish_close env current false) s.wakeup noted)
        (unfinished-Sound noted q) (notify_or_finish-Sound current s.wakeup noted q)
    where
      noted : ServerHandle W
      noted = record s { failure = some (first_failure s.failure x); close_requested = true }

  retain-finished :
      (i : ℕ) (t : Option ℕ) (s : ServerHandle W) → (retain env i t s).finished ≡ s.finished
  retain-finished i none s = refl
  retain-finished i (some t) s = refl

  settle_close-Sound :
      (current : Option ℕ) (i : ℕ) (primary : Option Failure) (r : Bool × ServerHandle W)
      → r.1.finished ≡ false
      → Sound (settle_close env (finish_close env current false) i primary r).1
  settle_close-Sound current i primary (true, s) q =
      unfinished-Sound (settle_close env (finish_close env current false) i primary (true, s)).1 q
  settle_close-Sound current i primary (false, s) q =
      connection_close_failed-Sound current _ _ (retain-finished i (Dict.get i s.connections) s ∙ q)

  close_in-Sound :
      (current : Option ℕ) (i : ℕ) (primary : Option Failure) (s : ServerHandle W)
      → s.finished ≡ false
      → Sound (close_in env current i primary s).1
  unfolding close_or_retain
  close_in-Sound current i primary s q =
      settle_close-Sound current i primary (close_stream env i s)
        ((close_stream-StreamClosed env count counts i s).finished_kept ∙ q)

  pub force_connection_close-Sound :
      (current : Option ℕ) (i : ℕ) (primary : Option Failure) (s : ServerHandle W)
      → s.finished ≡ false
      → Sound (force_connection_close env current i primary s).1
  unfolding force_connection_close
  force_connection_close-Sound current i primary s q = close_in-Sound current i primary _ q

  pub accepted_setup_failed-Sound :
      (primary : Failure) (i : ℕ) (h : TransportHandle) (current : Option ℕ) (s : ServerHandle W)
      → s.finished ≡ false
      → Sound (accepted_setup_failed env primary i h current s)
  unfolding accepted_setup_failed
  accepted_setup_failed-Sound primary i h current s q =
      connection_close_failed-Sound current primary _ q

  pub connection_finished-Sound :
      (t i : ℕ) (primary : Option Failure) (s : ServerHandle W)
      → Sound (connection_finished env t i primary s)
  unfolding connection_finished
  connection_finished-Sound t i primary s = update_finished-Sound _

  fail_listener-Sound :
      (current : Option ℕ) (h : Option TransportHandle) (s : ServerHandle W)
      → Sound s
      → Sound (fail_listener env current h s)
  fail_listener-Sound current none s v =
      Sound-if s.notification_sent s (finish_close env current false s) v
        (finish_close-Sound current false s v)
  fail_listener-Sound current (some h) s v =
      Sound-if s.notification_sent s
        (notified env (finish_close env current false) (env.wakeup_notify s.world) s) v
        (notified_either (env.wakeup_notify s.world))
    where
      notified_either :
          (r : Option ℕ × W) → Sound (notified env (finish_close env current false) r s)
      notified_either (none, w) = λ q. record {
        requested = (v q).requested;
        no_wakeup = (v q).no_wakeup;
        no_listener = (v q).no_listener;
        no_connections = (v q).no_connections;
        no_closing = (v q).no_closing;
        no_websockets = (v q).no_websockets;
      }
      notified_either (some x, w) =
          finish_close-Sound current false (record s { world = w })
            (λ q. record {
              requested = (v q).requested;
              no_wakeup = (v q).no_wakeup;
              no_listener = (v q).no_listener;
              no_connections = (v q).no_connections;
              no_closing = (v q).no_closing;
              no_websockets = (v q).no_websockets;
            })

  pub listener_failed-Sound :
      (x : Failure) (current : Option ℕ) (s : ServerHandle W)
      → Sound s
      → Sound (listener_failed env x current s)
  unfolding listener_failed
  listener_failed-Sound x current s v =
      fail_listener-Sound current s.wakeup
        (record (note_failure env x s) { close_requested = true })
        (λ q. record {
          requested = refl;
          no_wakeup = (v q).no_wakeup;
          no_listener = (v q).no_listener;
          no_connections = (v q).no_connections;
          no_closing = (v q).no_closing;
          no_websockets = (v q).no_websockets;
        })

  unregistered-finished :
      (t : ℕ) (r : Bool × ServerHandle W) → (unregistered env t r).finished ≡ r.1.finished
  unregistered-finished t (true, s) = refl
  unregistered-finished t (false, s) = refl

  settle_cancel-finished :
      (t : ℕ) (r : Option Failure × W) (s : ServerHandle W)
      → (settle_cancel env t r s).1.finished ≡ s.finished
  settle_cancel-finished t (none, w) s = refl
  settle_cancel-finished t (some x, w) s = refl

  cancel_child-finished :
      (t : ℕ) (s : ServerHandle W) → (cancel_child env t s).finished ≡ s.finished
  unfolding cancel_child cancel_or_retain_task
  cancel_child-finished t s =
      let r = cancel_call env env.cancel_task t s.world in
      unregistered-finished t (settle_cancel env t r s) ∙ settle_cancel-finished t r s

  cancel_created-finished :
      (t : Option ℕ) (s : ServerHandle W) → (cancel_created env t s).finished ≡ s.finished
  cancel_created-finished none s = refl
  cancel_created-finished (some t) s = cancel_child-finished t s

  -- A cancellation changes nothing of what `Shut` says.
  settle_cancel-Sound :
      (t : ℕ) (r : Option Failure × W) (s : ServerHandle W)
      → Sound s
      → Sound (settle_cancel env t r s).1
  settle_cancel-Sound t (none, w) s v = λ q. record {
    requested = (v q).requested;
    no_wakeup = (v q).no_wakeup;
    no_listener = (v q).no_listener;
    no_connections = (v q).no_connections;
    no_closing = (v q).no_closing;
    no_websockets = (v q).no_websockets;
  }
  settle_cancel-Sound t (some x, w) s v = λ q. record {
    requested = (v q).requested;
    no_wakeup = (v q).no_wakeup;
    no_listener = (v q).no_listener;
    no_connections = (v q).no_connections;
    no_closing = (v q).no_closing;
    no_websockets = (v q).no_websockets;
  }

  pub cancel_or_retain_task-Sound :
      (t : ℕ) (s : ServerHandle W) → Sound s → Sound (cancel_or_retain_task env t s).1
  unfolding cancel_or_retain_task
  cancel_or_retain_task-Sound t s v =
      settle_cancel-Sound t (cancel_call env env.cancel_task t s.world) s v

  unregistered-Sound :
      (t : ℕ) (r : Bool × ServerHandle W) → Sound r.1 → Sound (unregistered env t r)
  unregistered-Sound t (true, s) v = λ q. record {
    requested = (v q).requested;
    no_wakeup = (v q).no_wakeup;
    no_listener = (v q).no_listener;
    no_connections = (v q).no_connections;
    no_closing = (v q).no_closing;
    no_websockets = (v q).no_websockets;
  }
  unregistered-Sound t (false, s) v = v

  pub cancel_child-Sound : (t : ℕ) (s : ServerHandle W) → Sound s → Sound (cancel_child env t s)
  unfolding cancel_child
  cancel_child-Sound t s v =
      unregistered-Sound t (cancel_or_retain_task env t s) (cancel_or_retain_task-Sound t s v)

  pub refuse_accepted-Sound :
      (i : ℕ) (h : TransportHandle) (current : Option ℕ) (s : ServerHandle W)
      → s.finished ≡ false
      → Sound (refuse_accepted env i h current s).1
  unfolding refuse_accepted
  refuse_accepted-Sound i h current s q = close_in-Sound current i none _ q

  pub registration_failed-Sound :
      (x : Failure) (i : ℕ) (t current : Option ℕ) (s : ServerHandle W)
      → s.finished ≡ false
      → Sound (registration_failed env x i t current s)
  unfolding registration_failed
  registration_failed-Sound x i t current s q =
      listener_failed-Sound x current _
        (close_in-Sound current i (some x) _ (cancel_created-finished t s ∙ q))

  notice-finished :
      (r : Option ℕ × W) (s : ServerHandle W) → (notice env r s).1.finished ≡ s.finished
  notice-finished (none, w) s = refl
  notice-finished (some x, w) s = refl

  request_close-Sound :
      (h : Option TransportHandle) (s : ServerHandle W)
      → s.finished ≡ false
      → Sound (request_close env h s).1
  request_close-Sound none s q = unfinished-Sound s q
  request_close-Sound (some h) s q =
      Sound-if_second s.notification_sent
        (if s.finalization_attempted && not s.finished then err incomplete else ok tt, asking)
        (notice env (env.wakeup_notify s.world) asking) (unfinished-Sound asking q)
        (unfinished-Sound (notice env (env.wakeup_notify s.world) asking).1
          (notice-finished (env.wakeup_notify s.world) asking ∙ q))
    where
      asking : ServerHandle W
      asking = record s { close_requested = true }

  pub close-Sound : (s : ServerHandle W) → Sound s → Sound (Requests.close env s).1
  unfolding Requests.close
  close-Sound s v = elim (Bool-cases s.finished) [
    | inl done ↦ subst (λ b. Sound (choose b).1) (sym done) v
    | inr q ↦ subst (λ b. Sound (choose b).1) (sym q) (request_close-Sound s.wakeup s q)
  ]
    where
      choose : Bool → Result CloseError (Unit {0}) × ServerHandle W
      choose b = if b then (ok tt, s) else request_close env s.wakeup s

  pub close_from_task-Sound :
      (t : ℕ) (s : ServerHandle W) → Sound s → Sound (close_from_task env t s).1
  unfolding close_from_task
  close_from_task-Sound t s v =
      Sound-if_second (not (is_cursor env env.cursor t)) (err not_current_task, s)
        (ok tt, if s.finished then s else finish_close env (some t) false asked) v
        (elim (Bool-cases s.finished) [
          | inl done ↦ subst (λ b. Sound (choose b)) (sym done) v
          | inr q ↦
              subst (λ b. Sound (choose b)) (sym q)
                (finish_close-Sound (some t) false asked (unfinished-Sound asked q))
        ])
    where
      asked : ServerHandle W
      asked = ask_websockets env (begin_close env s)

      choose : Bool → ServerHandle W
      choose b = if b then s else finish_close env (some t) false asked
