-- ===== src/Cleanup.antt =====
-- `_CleanupTransaction` and `_ServerCleanupError` of smallserver/errors.py. The locks are left out:
-- an operation is one step.
pub mod Retry
mod Tests
use small_server.Prelude.{
  ℕ, zero, suc, ◌+◌, Bool, true, false, not, Option, none, some, List, [], ◌∷◌, ◌++◌, if◌then◌else◌,
  is_nil, length,
}
use small_server.Prelude.Decimal.{decimal}
use small_server.Prelude.Dict
use small_server.Prelude.Dict.{Dict}
use small_server.Prelude.Text.{Text, text_eq, codes}

-- A cleanup action on the world `W`: the exception that it raises, if it does.
abbrev pub Action : Type 0 → Type 0 → Type 0
Action W E = W → Option E × W

pub record Transaction (W E : Type 0) : Type 0 where
  pub actions : Dict Text (Action W E)
  pub errors : Dict Text E

abbrev pub empty : {W E : Type 0} → Transaction W E
empty = record { actions = []; errors = [] }

-- The first key that is free, from `key` on and then from `suffix` on. One turn more than there are
-- actions is enough.
unfoldable pub free_key : {W E : Type 0} → ℕ → Transaction W E → Text → Text → ℕ → Option Text
free_key zero t name key suffix = none
free_key (suc n) t name key suffix =
    let rest = free_key n t name (name ++ codes ":" ++ decimal suffix) (suc suffix) in
    elim (Dict.get key t.actions) [ none ↦ some key | some _ ↦ rest ]

abbrev put_error : {E : Type 0} → Text → Option E → Dict Text E → Dict Text E
put_error key none errors = errors
put_error key (some x) errors = Dict.put key x errors

unfoldable pub add :
    {W E : Type 0} → Transaction W E → Text → Action W E → Option E → Option (Transaction W E)
unfolding free_key decimal
add t name action error = elim (free_key (length t.actions + 1) t name name 2) [
  | none ↦ none
  | some key ↦
      some
        (record { actions = Dict.put key action t.actions; errors = put_error key error t.errors })
]

-- What one action's outcome does to the transaction.
unfoldable pub settle : {W E : Type 0} → Transaction W E → Text → Option E → Transaction W E
settle t name none = record {
  actions = Dict.remove name t.actions;
  errors = Dict.remove name t.errors;
}
settle t name (some x) = record t { errors = Dict.put name x t.errors }

unfoldable pub retry_items :
    {W E : Type 0} → Dict Text (Action W E) → Transaction W E → W → Transaction W E × W
unfolding settle
retry_items [] t w = (t, w)
retry_items ((name, action) ∷ items) t w =
    let (raised, w') = action w in retry_items items (settle t name raised) w'

-- `retry`; the errors that it returns are those of the transaction that it leaves.
unfoldable pub retry : {W E : Type 0} → Transaction W E → W → Transaction W E × W
unfolding retry_items
retry t w = retry_items t.actions t w

-- What is left when the actions have another owner.
abbrev pub transfer : {W E : Type 0} → Transaction W E → Transaction W E
transfer t = empty

abbrev pub complete : {W E : Type 0} → Transaction W E → Bool
complete t = is_nil t.actions

-- `_ServerCleanupError`: `on_cleanup_complete` counts by what it does to the world.
pub record CleanupError (W E : Type 0) : Type 0 where
  pub transaction : Transaction W E
  pub on_cleanup_complete : Option (W → W)
  pub completion_notified : Bool

abbrev call : {W : Type 0} → Option (W → W) → W → W
call none w = w
call (some f) w = f w

unfoldable pub notify_cleanup_complete :
    {W E : Type 0} → CleanupError W E → W → CleanupError W E × W
notify_cleanup_complete c w = if c.completion_notified then (c, w) else (
  record c { completion_notified = true; on_cleanup_complete = none },
  call c.on_cleanup_complete w,
)

-- `retry_cleanup`, and `finalize`.
unfoldable pub retry_cleanup : {W E : Type 0} → CleanupError W E → W → Bool × CleanupError W E × W
unfolding retry notify_cleanup_complete
retry_cleanup c w =
    let (t, w') = retry c.transaction w in
    let c' = record c { transaction = t } in
    if complete t
    then (true, (notify_cleanup_complete c' w').0, (notify_cleanup_complete c' w').1)
    else (false, c', w')
