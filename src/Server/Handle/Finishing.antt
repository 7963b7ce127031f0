-- ===== src/Server/Handle/Finishing.antt =====
-- `_finish_close` loses no connection and no failure, and it calls `_on_finalized` at most once.
use small_server.Prelude.{
  ℕ, ◌≡◌, refl, Bool, true, false, ◌||◌, Option, none, some, [], List, ◌∷◌, arith,
}
use small_server.Prelude.Dict
use small_server.Prelude.Dict.{Dict, is_some, has, has-put, has-remove_ne, nat_eq}
use small_server.Transport.{TransportHandle, close}
use small_server.Transport.Closing.{Closed, close-Closed}
use small_server.Server.Handle.Finished.{update_finished-Keeps}
use small_server.Server.Handle.{Environment, ServerHandle, resource_eq}
use small_server.Server.Handle.Retained.{Retained-put}
use small_server.Server.Handle.Ownership.{
  attempt-Keeps, Counts, Keeps, Keeps-refl, Keeps-trans, Keeps-if,
}
use small_server.Server.Handle.{of_listener, raised}
use small_server.Server.Handle.Retained.{Retained-drop}
use small_server.Server.Handle.Settling.{close_or_retain-Settled, KeepsBut-Settled}
use small_server.Server.Handle.Closing.{
  is_current, retry_closing, retry_pending, cancel_once, release, asked, ask, after_asking,
  finish_connection, finish_connections, cancel_owned, finish_owned, resume_listener,
  listener_closed, close_listener, announce, release_all, finish_close,
}
use small_server.Server.Handle.Retrying.{
  Pairs, announce-Keeps, retry_closing-Keeps, retry_pending-Keeps, cancel_once-Keeps,
}

module _ {W : Type 0} (env : Environment W) (count : W → ℕ) (counts : Counts env count) where
  release-Keeps : (i : ℕ) (s : ServerHandle W) → Keeps count s (release env i s)
  release-Keeps i s =
      KeepsBut-Settled env count counts i s taken (release env i s)
        (record {
          account = λ j other h. rw (has-remove_ne i j s.connections other) h;
          retained = λ v. v;
          notified = λ n. n;
          once = refl;
        })
        (close_or_retain-Settled env count counts (λ r. r) (λ r. Keeps-refl count r) i none taken)
    where
      taken : ServerHandle W
      taken = record s { connections = Dict.remove i s.connections }

  asked-Keeps :
      (t : ℕ) (r : Option ℕ × W) (s : ServerHandle W)
      → count r.1 ≡ count s.world
      → Keeps count s (asked env t r s).1
  asked-Keeps t (none, w) s q = record {
    account = λ i h. h;
    retained = λ v. v;
    notified = λ n. n;
    once = omega (arith, q);
  }
  asked-Keeps t (some x, w) s q = record {
    account = λ i h. h;
    retained = λ v. v;
    notified = λ n. n;
    once = omega (arith, q, counts.on_resume t w);
  }

  ask-Keeps :
      (i t : ℕ) (c : Option (Unit {0})) (s : ServerHandle W) → Keeps count s (ask env i t c s).1
  ask-Keeps i t none s = attempt-Keeps env count counts (env.resume_task t) (counts.on_resume t) s
  ask-Keeps i t (some u) s = asked-Keeps t (env.closer i s.world) s (counts.on_closer i s.world)

  after_asking-Keeps : (i : ℕ) (r : Bool × ServerHandle W) → Keeps count r.1 (after_asking env i r)
  after_asking-Keeps i (graceful, s) =
      Keeps-if count (graceful || is_some (Dict.get i s.websocket_states)) (Keeps-refl count s)
        (release-Keeps i s)

  finish_connection-Keeps :
      (current : Option ℕ) (owner : Bool) (i t : ℕ) (r : List ℕ × ServerHandle W)
      → Pairs env count counts r (finish_connection env current owner i t r)
  finish_connection-Keeps current true i t (tried, s) =
      let r = (cancel_once env current t (tried, s)).1 in
      Keeps-trans count (cancel_once-Keeps env count counts current t (tried, s))
        (Keeps-if count (is_current current t) (Keeps-refl count r) (release-Keeps i r))
  finish_connection-Keeps current false i t (tried, s) =
      let r = ask env i t (Dict.get i s.graceful_closers) s in
      Keeps-if count (is_current current t) (Keeps-refl count s) (
        Keeps-trans count (ask-Keeps i t (Dict.get i s.graceful_closers) s)
          (after_asking-Keeps i r))

  finish_connections-Keeps :
      (current : Option ℕ) (owner : Bool) (items : Dict ℕ ℕ) (r : List ℕ × ServerHandle W)
      → Pairs env count counts r (finish_connections env current owner items r)
  unfolding finish_connections
  finish_connections-Keeps current owner [] r = Keeps-refl count r.1
  finish_connections-Keeps current owner ((i, t) ∷ items) r =
      Keeps-trans count (finish_connection-Keeps current owner i t r)
        (finish_connections-Keeps current owner items (finish_connection env current owner i t r))

  cancel_owned-Keeps :
      (current : Option ℕ) (ts : List ℕ) (r : List ℕ × ServerHandle W)
      → Pairs env count counts r (cancel_owned env current ts r)
  unfolding cancel_owned
  cancel_owned-Keeps current [] r = Keeps-refl count r.1
  cancel_owned-Keeps current (t ∷ ts) r =
      Keeps-trans count (cancel_once-Keeps env count counts current t r)
        (cancel_owned-Keeps current ts (cancel_once env current t r))

  finish_owned-Keeps :
      (current : Option ℕ) (owner : Bool) (r : List ℕ × ServerHandle W)
      → Keeps count r.1 (finish_owned env current owner r)
  finish_owned-Keeps current true (tried, s) =
      Keeps-trans count (cancel_owned-Keeps current s.owned_tasks (tried, s))
        (record { account = λ i h. h; retained = λ v. v; notified = λ n. n; once = refl })
  finish_owned-Keeps current false (tried, s) = Keeps-refl count s

  resume_listener-Keeps :
      (current t : Option ℕ) (s : ServerHandle W) → Keeps count s (resume_listener env current t s)
  resume_listener-Keeps current none s = Keeps-refl count s
  resume_listener-Keeps current (some t) s =
      Keeps-if count (is_current current t || s.listener_resumed) (Keeps-refl count s) (
        Keeps-trans count
          (attempt-Keeps env count counts (env.resume_task t) (counts.on_resume t) s)
          (record { account = λ i h. h; retained = λ v. v; notified = λ n. n; once = refl }))

  close_listener-Keeps : (s : ServerHandle W) → Keeps count s (close_listener env s)
  close_listener-Keeps s = Keeps-if count s.listener.closed (Keeps-refl count s) (
      settled (close env.listener_close s.listener s.world) (
        close-Closed count env.listener_close s.listener s.world
          (counts.on_listener_close s.world)))
    where
      settled :
          (r : Option ℕ × TransportHandle × W)
          → Closed count s.listener s.world r
          → Keeps count s (listener_closed env r s)
      settled (none, g, w) c = record {
        account = λ i h. h;
        retained = λ v.
            Retained-drop s.closing_connections s.pending_task_cancellations s.cleanup_errors v
              of_listener (λ i. refl) (λ t. refl);
        notified = λ n. n;
        once = omega (arith, c.unmeasured);
      }
      settled (some x, g, w) c = record {
        account = λ i h. h;
        retained = λ v.
            Retained-put s.closing_connections s.pending_task_cancellations s.cleanup_errors v
              of_listener (raised x);
        notified = λ n. n;
        once = omega (arith, c.unmeasured);
      }

  release_all-Keeps :
      (current : Option ℕ) (owner : Bool) (s : ServerHandle W)
      → Keeps count s (release_all env current owner s)
  release_all-Keeps current owner s =
      let s1 = retry_closing env s.closing_connections s in
      let r = retry_pending env s1.pending_task_cancellations ([], s1) in
      let q = finish_connections env current owner r.1.connections r in
      Keeps-trans count (retry_closing-Keeps env count counts s.closing_connections s) (
        Keeps-trans count
          (retry_pending-Keeps env count counts s1.pending_task_cancellations ([], s1))
          (Keeps-trans count (finish_connections-Keeps current owner r.1.connections r)
            (finish_owned-Keeps current owner q)))

  pub finish_close-Keeps :
      (current : Option ℕ) (owner : Bool) (s : ServerHandle W)
      → Keeps count s (finish_close env current owner s)
  unfolding finish_close
  finish_close-Keeps current owner s =
      let s1 = announce env s in
      let s2 = release_all env current owner s1 in
      let s3 = resume_listener env current s2.listener_task s2 in
      Keeps-if count s.finished (Keeps-refl count s) (
        Keeps-trans count (announce-Keeps env count counts s) (
          Keeps-trans count (release_all-Keeps current owner s1) (
            Keeps-trans count (resume_listener-Keeps current s2.listener_task s2) (
              Keeps-trans count (close_listener-Keeps s3)
                (update_finished-Keeps env count counts (close_listener env s3))))))
