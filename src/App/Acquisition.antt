-- ===== src/App/Acquisition.antt =====
-- What acquiring a stream leaves open: the stream, nothing, or what the transaction holds.
use small_server.Prelude.{
  ℕ, suc, ◌+◌, ◌≡◌, refl, ◌∙◌, Option, none, some, [], ◌∷◌, ◌++◌, length, Result, ok, err, arith,
}
use small_server.Prelude.Dict
use small_server.Prelude.Dict.{Dict, put-none}
use small_server.Prelude.Text.{Text, text_eq, codes}
use small_server.Cleanup.{Action, Transaction, empty, add, free_key}
use small_server.Transport.Acquiring.{
  Network, Outcome, acquired, failed, unfinished, and_then, add_action, rolled_back, kept_or_closed,
  configure_listener, configure_opened, open_resolved, open_listener, validate_created,
  create_wakeup_channel,
}
use small_server.App.Binding.{Application}

-- Adding an action under a name that is free.
module _ {W : Type 0} where
  free_key_first :
      (n : ℕ) (t : Transaction W ℕ) (name : Text)
      → Dict.get name t.actions ≡ none
      → free_key (n + 1) t name name 2 ≡ some name
  unfolding free_key
  free_key_first n t name q = rw (add_one n, q, free_key) refl
    where
      add_one : (n : ℕ) → n + 1 ≡ suc n
      add_one n = omega arith

  pub add_action-actions :
      (t : Transaction W ℕ) (name : Text) (action : Action W ℕ) (x : ℕ)
      → Dict.get name t.actions ≡ none
      → (add_action t name action x).actions ≡ t.actions ++ (name, action) ∷ []
  unfolding add
  add_action-actions t name action x q =
      rw (free_key_first (length t.actions) t name q, add) (put-none name action t.actions q)

abbrev pub gained : {A : Type 0} → Result ℕ A → ℕ
gained (ok a) = 1
gained (err x) = 0

abbrev pub lost : Option ℕ → ℕ
lost none = 1
lost (some x) = 0

-- `count` counts what is open; `n` have been opened and `m` closed.
pub record Moves {W : Type 0} (count : W → ℕ) (a b : Application W) (n m : ℕ) : Type 0 where
  pub counted : count b.world + m ≡ count a.world + n
  pub active_kept : b.active_invocation ≡ a.active_invocation

-- The documented behaviour of the kernel: a stream is open once the kernel has returned it, until a
-- close returns.
pub record Opens {W : Type 0} (net : Network (Application W)) (count : W → ℕ) : Type 0 where
  pub opens :
      (a : Application W) → Moves count a (net.socket_open a).1 (gained (net.socket_open a).0) 0
  pub creates :
      (a : Application W)
      → Moves count a (net.create_wakeup_channel a).1 (gained (net.create_wakeup_channel a).0) 0
  pub closes :
      (i : ℕ) (a : Application W)
      → Moves count a (net.socket_close i a).1 0 (lost (net.socket_close i a).0)
  pub closes_channel :
      (i : ℕ) (a : Application W)
      → Moves count a (net.wakeup_close i a).1 0 (lost (net.wakeup_close i a).0)
  pub resolves : (a : Application W) → Moves count a (net.resolve_passive_address a).1 0 0
  pub reuses : (i : ℕ) (a : Application W) → Moves count a (net.socket_set_reuse_address i a).1 0 0
  pub binds : (i : ℕ) (a : Application W) → Moves count a (net.socket_bind i a).1 0 0
  pub listens : (i : ℕ) (a : Application W) → Moves count a (net.socket_listen i a).1 0 0
  pub sets_blocking : (i : ℕ) (a : Application W) → Moves count a (net.socket_setblocking i a).1 0 0
  pub validates : (i : ℕ) (a : Application W) → Moves count a (net.validate i a).1 0 0

module _ {W : Type 0} (count : W → ℕ) where
  pub Moves-trans :
      (a b c : Application W) (n m i j : ℕ)
      → Moves count a b n m
      → Moves count b c i j
      → Moves count a c (n + i) (m + j)
  Moves-trans a b c n m i j p q = record {
    counted = omega (arith, p.counted, q.counted);
    active_kept = q.active_kept ∙ p.active_kept;
  }

  -- What an acquisition leaves.
  abbrev pub Left : Text → Application W → Outcome (Application W) → Application W → Type 0
  Left name a (acquired raw) b = Moves count a b 1 0
  Left name a (failed x) b = Moves count a b 0 0
  Left name a (unfinished x t) b =
      Moves count a b 1 0 × ((close : Action (Application W) ℕ) × (t.actions ≡ (name, close) ∷ []))

  and_then-Moves :
      (a : Application W) (r : Option ℕ × Application W)
      (next : Application W → Option ℕ × Application W)
      → Moves count a r.1 0 0
      → ((b : Application W) → Moves count b (next b).1 0 0)
      → Moves count a (and_then r next).1 0 0
  and_then-Moves a (none, b) next p q = Moves-trans a b (next b).1 0 0 0 0 p (q b)
  and_then-Moves a (some x, b) next p q = p

  rolled_back-Left :
      (a b : Application W) (primary : ℕ) (name : Text) (close : Action (Application W) ℕ)
      (r : Option ℕ × Application W)
      → Moves count a b 1 0
      → Moves count b r.1 0 (lost r.0)
      → Left name a (rolled_back primary name close r).0 (rolled_back primary name close r).1
  rolled_back-Left a b primary name close (none, c) p q = record {
    counted = omega (arith, p.counted, q.counted);
    active_kept = q.active_kept ∙ p.active_kept;
  }
  rolled_back-Left a b primary name close (some x, c) p q = (
    record {
      counted = omega (arith, p.counted, q.counted);
      active_kept = q.active_kept ∙ p.active_kept;
    },
    (close, add_action-actions empty name close x (unfold Dict.get in refl)),
  )

  kept_or_closed-Left :
      (a b : Application W) (raw : ℕ) (name : Text) (close : Action (Application W) ℕ)
      (r : Option ℕ × Application W)
      → Moves count a b 1 0
      → Moves count b r.1 0 0
      → ((c : Application W) → Moves count c (close c).1 0 (lost (close c).0))
      → Left name a (kept_or_closed raw name close r).0 (kept_or_closed raw name close r).1
  kept_or_closed-Left a b raw name close (none, c) p q closes = Moves-trans a b c 1 0 0 0 p q
  kept_or_closed-Left a b raw name close (some x, c) p q closes =
      rolled_back-Left a c x name close (close c) (Moves-trans a b c 1 0 0 0 p q) (closes c)

module _ {W : Type 0} (count : W → ℕ) (net : Network (Application W))
    (opens : Opens net count) where
  pub open_listener-Left :
      (a : Application W)
      → Left count (codes "listener") a (open_listener net a).0 (open_listener net a).1
  unfolding open_listener
  open_listener-Left a = resolved (net.resolve_passive_address a) (opens.resolves a)
    where
      configured :
          (b : Application W) (r : Result ℕ ℕ × Application W)
          → Moves count a b 0 0
          → Moves count b r.1 (gained r.0) 0
          → Left count (codes "listener") a (configure_opened net r).0 (configure_opened net r).1
      configured b (err x, c) p q = Moves-trans count a b c 0 0 0 0 p q
      configured b (ok raw, c) p q =
          kept_or_closed-Left count a c raw (codes "listener") (net.socket_close raw)
            (configure_listener net raw c) (Moves-trans count a b c 0 0 1 0 p q)
            (and_then-Moves count c
              (and_then (and_then (net.socket_set_reuse_address raw c) (net.socket_bind raw))
                (net.socket_listen raw))
              (net.socket_setblocking raw)
              (and_then-Moves count c
                (and_then (net.socket_set_reuse_address raw c) (net.socket_bind raw))
                (net.socket_listen raw)
                (and_then-Moves count c (net.socket_set_reuse_address raw c) (net.socket_bind raw)
                  (opens.reuses raw c) (opens.binds raw))
                (opens.listens raw))
              (opens.sets_blocking raw))
            (opens.closes raw)

      resolved :
          (r : Option ℕ × Application W)
          → Moves count a r.1 0 0
          → Left count (codes "listener") a (open_resolved net r).0 (open_resolved net r).1
      resolved (none, b) p = configured b (net.socket_open b) p (opens.opens b)
      resolved (some x, b) p = p

  pub create_wakeup_channel-Left :
      (a : Application W)
      → Left count
          (codes "wakeup")
          a
          (create_wakeup_channel net a).0
          (create_wakeup_channel net a).1
  unfolding create_wakeup_channel
  create_wakeup_channel-Left a = created (net.create_wakeup_channel a) (opens.creates a)
    where
      created :
          (r : Result ℕ ℕ × Application W)
          → Moves count a r.1 (gained r.0) 0
          → Left count (codes "wakeup") a (validate_created net r).0 (validate_created net r).1
      created (err x, b) p = p
      created (ok raw, b) p =
          kept_or_closed-Left count a b raw (codes "wakeup") (net.wakeup_close raw)
            (net.validate raw b) p (opens.validates raw b) (opens.closes_channel raw)
