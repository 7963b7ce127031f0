-- ===== src/App/Rollback.antt =====
-- A failed binding leaves nothing open that is not kept for a retry, and the invocation reserved just
-- while something is.
use small_server.Prelude.{ℕ, ◌+◌, ◌≡◌, ◌≢◌, Option, none, some, [], length}
use small_server.Prelude.Dict
use small_server.Prelude.Dict.{Dict, put-none}
use small_server.Prelude.Text.{Text, text_eq}
use small_server.Cleanup.{Transaction, CleanupError}
use small_server.Transport.Acquiring.{Network}
use small_server.App.Binding.{
  Application, Binding, bound, refused, startup_failed, interrupted, release_invocation,
}
use small_server.App.Acquisition.{Opens}

-- The streams of a bound handle.
abbrev pub streams : Option ℕ → ℕ
streams none = 1
streams (some channel) = 2

-- A callback that releases the invocation.
abbrev pub Releases : {W : Type 0} → ℕ → Option (Application W → Application W) → Type 0
Releases marker callback = callback ≡ some (release_invocation marker)

-- Just the streams of the cleanup's transaction are open, and the reservation stays until its end.
abbrev pub Pends :
    {W : Type 0} → (W → ℕ) → ℕ → ℕ → CleanupError (Application W) ℕ → Application W → Type 0
Pends count marker n e b =
    (count b.world ≡ n + length e.transaction.actions)
    × (e.transaction.actions ≢ [])
    × (b.active_invocation ≡ some marker)
    × Releases marker e.on_cleanup_complete

-- What a binding leaves open, where `n` streams were open and `before` had the invocation.
abbrev pub Accounts :
    {W : Type 0} → (W → ℕ) → ℕ → ℕ → ℕ → Option ℕ → Binding W → Application W → Type 0
Accounts count marker handle n before (bound listener channel) b =
    (count b.world ≡ n + streams channel) × (b.active_invocation ≡ some handle)
Accounts count marker handle n before (refused x) b =
    (count b.world ≡ n) × (b.active_invocation ≡ before)
Accounts count marker handle n before (startup_failed x e) b = Pends count marker n e b
Accounts count marker handle n before (interrupted x e) b = Pends count marker n e b

module _ {W : Type 0} (count : W → ℕ) (net : Network (Application W)) (opens : Opens net count)
    (marker handle : ℕ) where
  -- The same from the reservation on, for an application that had no invocation.
  abbrev Ends : Application W → Binding W × Application W → Type 0
  Ends a r = Accounts count marker handle (count a.world) none r.0 r.1

  record Holds (a : Application W) (r : Transaction (Application W) ℕ × Application W)
      : Type 0 where
    counted : count r.1.world ≡ count a.world + length r.0.actions
    reserved_kept : r.1.active_invocation ≡ some marker
