-- ===== src/Cleanup/Tests.antt =====
-- A retry, and its theorem at it.
use small_server.Prelude.{ℕ, ◌≡◌, refl, none, some, List, [], ◌∷◌}
use small_server.Prelude.Dict
use small_server.Prelude.Dict.{IsUnique}
use small_server.Prelude.Text.{text_eq, text_equal, codes}
use small_server.Cleanup.{Action, Transaction, free_key, add, retry}
use small_server.Cleanup.Retry.{failing, retry-actions}

-- Actions that log a number; the second raises.
abbrev closes : ℕ → Action (List ℕ) ℕ
closes n = λ w. (none, n ∷ w)

abbrev raises : ℕ → Action (List ℕ) ℕ
raises n = λ w. (some n, n ∷ w)

abbrev transaction : Transaction (List ℕ) ℕ
transaction = record {
  actions = (codes "a", closes 1) ∷ (codes "b", raises 2) ∷ (codes "c", closes 3) ∷ [];
  errors = [];
}

test_suffix : free_key 4 transaction (codes "a") (codes "a") 2 ≡ some (codes "a:2")
unfolding add Dict.get text_equal
test_suffix = refl

test_retry : retry transaction [] ≡ (
  record { actions = (codes "b", raises 2) ∷ []; errors = (codes "b", 2) ∷ [] },
  3 ∷ 2 ∷ 1 ∷ [],
)
unfolding retry Dict.remove Dict.put text_equal
test_retry = refl

transaction-IsUnique : IsUnique transaction.actions
unfolding Dict.get text_equal
transaction-IsUnique = (refl, (refl, (refl, tt)))

retry-actions_example :
    ((retry transaction []).0.actions ≡ (failing transaction.actions []).0)
    × ((retry transaction []).1 ≡ (failing transaction.actions []).1)
retry-actions_example = retry-actions transaction [] transaction-IsUnique
