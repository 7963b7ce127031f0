-- ===== src/App/Configuration.antt =====
-- `SmallServer._resolve_server_config` of smallserver/app.py. That the argument is a `ServerConfig` or
-- None is its type here.
use small_server.Prelude.{
  ℕ, ◌+◌, ◌≤◌, ◌<◌, ◌≡◌, ◌↔◌, refl, sym, ap, Bool, true, false, Option, none, some, if◌then◌else◌,
  ltb, leb, max, Bool-cases, inl, inr, Result, ok_inj, err_ne_ok, ok, err, arith,
}
use small_server.Runtime.{ManagedRuntimeConfig}
use small_server.Runtime
use small_server.Server.Config.{ServerConfig, Limits}
use small_server.Server.Config

pub data ResolveError : Type 0 where
  not_managed priorities_too_high capacity_too_low : ResolveError

abbrev pub config_or {ℓ} : {A : Type ℓ} → Option A → A → A
config_or none d = d
config_or (some a) d = a

abbrev pub control_tasks : Bool → ℕ
control_tasks observed = if observed then 3 else 2

-- The checks on the runtime that the server will create.
unfoldable pub check_managed :
    Bool → ServerConfig → ManagedRuntimeConfig → Result ResolveError ServerConfig
check_managed observed resolved runtime =
    if leb runtime.priority_levels
      (max resolved.limits.listener_priority resolved.limits.connection_priority)
    then err priorities_too_high
    else if ltb runtime.task_capacity (resolved.limits.max_connections + control_tasks observed)
    then err capacity_too_low
    else ok resolved

-- The check on a runtime of the caller.
abbrev check_caller : Option ManagedRuntimeConfig → ServerConfig → Result ResolveError ServerConfig
check_caller none resolved = ok resolved
check_caller (some c) resolved = err not_managed

unfoldable pub resolve_for : Bool → ServerConfig → Bool → Result ResolveError ServerConfig
resolve_for observed resolved true =
    check_managed observed resolved (config_or resolved.managed_runtime Runtime.default)
resolve_for observed resolved false = check_caller resolved.managed_runtime resolved

-- `observed` tells whether the application has a route error observer.
abbrev pub resolve_server_config :
    Bool → Option ServerConfig → Bool → Result ResolveError ServerConfig
resolve_server_config observed config managed =
    resolve_for observed (config_or config Config.default) managed

-- A runtime with room for a server: the tasks' priorities exist, and every connection that the server
-- admits and its control tasks have a place.
pub record HasRoom (observed : Bool) (c : ServerConfig) (runtime : ManagedRuntimeConfig)
    : Type 0 where
  pub listener : c.limits.listener_priority < runtime.priority_levels
  pub connection : c.limits.connection_priority < runtime.priority_levels
  pub tasks : c.limits.max_connections + control_tasks observed ≤ runtime.task_capacity

check_managed-HasRoom :
    (observed : Bool) (c r : ServerConfig) (m : ManagedRuntimeConfig)
    → (check_managed observed c m ≡ ok r) ↔ ((r ≡ c) × HasRoom observed c m)
unfolding check_managed
check_managed-HasRoom observed c r m = elim (Bool-cases (leb m.priority_levels (max l p))) [
  | inl high ↦ rw high (
    λ q. absurd (err_ne_ok q),
    λ h. absurd (not_high l p m.priority_levels high h.1.listener h.1.connection),
  )
  | inr low ↦ rw low (elim (Bool-cases (ltb m.task_capacity (n + control_tasks observed))) [
    | inl full ↦ rw full (
      λ q. absurd (err_ne_ok q),
      λ h. absurd (not_full (n + control_tasks observed) m.task_capacity full h.1.tasks),
    )
    | inr room ↦ rw room (
      λ q. (
        sym (ok_inj q),
        record {
          listener = is_low_left l p m.priority_levels low;
          connection = is_low_right l p m.priority_levels low;
          tasks = has_room (n + control_tasks observed) m.task_capacity room;
        },
      ),
      λ h. ap ok (sym h.0),
    )
  ])
]
  where
    l : ℕ
    l = c.limits.listener_priority

    p : ℕ
    p = c.limits.connection_priority

    n : ℕ
    n = c.limits.max_connections

    not_high : (l p k : ℕ) → leb k (max l p) ≡ true → l < k → p < k → ⊥
    not_high l p k h i j = ground arith

    is_low_left : (l p k : ℕ) → leb k (max l p) ≡ false → l < k
    is_low_left l p k h = ground arith

    is_low_right : (l p k : ℕ) → leb k (max l p) ≡ false → p < k
    is_low_right l p k h = ground arith

    not_full : (n k : ℕ) → ltb k n ≡ true → n ≤ k → ⊥
    not_full n k h i = ground arith

    has_room : (n k : ℕ) → ltb k n ≡ false → n ≤ k
    has_room n k h = ground arith

-- What the resolution asks of a configuration.
abbrev pub Accepts : Bool → ServerConfig → Bool → Type 0
Accepts observed c true = HasRoom observed c (config_or c.managed_runtime Runtime.default)
Accepts observed c false = c.managed_runtime ≡ none

check_caller-Accepts :
    (m : Option ManagedRuntimeConfig) (c r : ServerConfig)
    → (check_caller m c ≡ ok r) ↔ ((r ≡ c) × (m ≡ none))
check_caller-Accepts none c r = (λ q. (sym (ok_inj q), refl), λ h. ap ok (sym h.0))
check_caller-Accepts (some m) c r = (λ q. absurd (err_ne_ok q), λ h. absurd (some_ne h.1))
  where
    some_ne : some m ≡ none → ⊥
    some_ne p = cc

resolve_for-Accepts :
    (observed : Bool) (c r : ServerConfig) (managed : Bool)
    → (resolve_for observed c managed ≡ ok r) ↔ ((r ≡ c) × Accepts observed c managed)
unfolding resolve_for
resolve_for-Accepts observed c r true =
    check_managed-HasRoom observed c r (config_or c.managed_runtime Runtime.default)
resolve_for-Accepts observed c r false = check_caller-Accepts c.managed_runtime c r

-- A configuration is resolved just where it may be served, and is then left as it is: for a runtime
-- that the server creates, where the priorities of the tasks are below the runtime's levels and its
-- tasks have a place for every connection, the listener, the close watcher and the observer, if there
-- is one; and for a runtime of the caller, where it has no settings for a created one.
pub resolve_server_config-Accepts :
    (observed : Bool) (config : Option ServerConfig) (r : ServerConfig) (managed : Bool)
    → (resolve_server_config observed config managed ≡ ok r) ↔ (
        (r ≡ config_or config Config.default)
        × Accepts observed (config_or config Config.default) managed)
resolve_server_config-Accepts observed config r managed =
    resolve_for-Accepts observed (config_or config Config.default) r managed
