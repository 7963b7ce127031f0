-- ===== src/Cleanup/Retry.antt =====
-- What `_CleanupTransaction.retry` keeps.
use small_server.Prelude.{
  ◌≡◌, refl, sym, ap, subst, ◌∙◌, Option, none, some, inl, inr, List, [], ◌∷◌, ◌++◌, append_assoc,
  Bool-cases,
}
use small_server.Prelude.Dict
use small_server.Prelude.Dict.{
  Dict, IsUnique, IsUnique-remove, IsUnique-append, get-put, get-remove-none, get-remove_ne,
}
use small_server.Prelude.Text.{Text, text_eq, text_equal, text_equal_iff}
use small_server.Cleanup.{Action, Transaction, settle, retry_items, retry}

-- The actions that raise when all of them are run once, in order, and the world afterwards.
abbrev pub keep_if {ℓ} : {A : Type ℓ} {E : Type 0} → Option E → A → List A → List A
keep_if none a kept = kept
keep_if (some x) a kept = a ∷ kept

unfoldable pub failing : {W E : Type 0} → Dict Text (Action W E) → W → Dict Text (Action W E) × W
failing [] w = ([], w)
failing ((name, action) ∷ items) w =
    let (raised, w') = action w in
    let rest = failing items w' in (keep_if raised (name, action) rest.0, rest.1)

module _ {V : Type 0} where
  remove-append :
      (done : Dict Text V) (name : Text) (v : V) (items : Dict Text V)
      → Dict.get name done ≡ none
      → Dict.remove name (done ++ (name, v) ∷ items) ≡ done ++ items
  unfolding Dict.remove Dict.get
  remove-append [] name v items h = rw ((text_equal_iff name name).1 refl) refl
  remove-append ((k, u) ∷ d) name v items h = elim (Bool-cases (text_equal k name)) [
    | inl same ↦ absurd (some_ne (rw same at h))
    | inr other ↦ rw other (ap (◌∷◌ (k, u)) (remove-append d name v items (rw other at h)))
  ]
    where
      some_ne : some u ≡ none → ⊥
      some_ne p = cc

-- The actions of `items` are run with those of `done` kept: what is left is `done` and the failing
-- ones, and the world is the same.
abbrev Kept :
    {W E : Type 0} → Dict Text (Action W E) → Dict Text (Action W E) → Transaction W E → W → Type 0
Kept items done t w =
    ((retry_items items t w).0.actions ≡ done ++ (failing items w).0)
    × ((retry_items items t w).1 ≡ (failing items w).1)

module _ {W E : Type 0} where
  -- One action has been run.
  after_one :
      (name : Text) (action : Action W E) (items done : Dict Text (Action W E))
      (t : Transaction W E)
      → ((d : Dict Text (Action W E)) (s : Transaction W E) (w : W)
          → s.actions ≡ d ++ items
          → IsUnique (d ++ items)
          → Kept items d s w)
      → t.actions ≡ done ++ (name, action) ∷ items
      → IsUnique (done ++ (name, action) ∷ items)
      → (raised : Option E) (w : W)
      → ((retry_items items (settle t name raised) w).0.actions
          ≡ done ++ keep_if raised (name, action) (failing items w).0)
        × ((retry_items items (settle t name raised) w).1 ≡ (failing items w).1)
  unfolding settle
  after_one name action items done t ih q u none w =
      ih done _ w (ap (Dict.remove name) q ∙ removed)
        (subst IsUnique removed (IsUnique-remove name _ u))
    where
      removed : Dict.remove name (done ++ (name, action) ∷ items) ≡ done ++ items
      removed = remove-append done name action items (IsUnique-append name action done items u)
  after_one name action items done t ih q u (some x) w =
      let kept =
        ih (done ++ (name, action) ∷ []) (settle t name (some x)) w (q ∙ sym moved)
          (subst IsUnique (sym moved) u) in
      (kept.0 ∙ append_assoc done ((name, action) ∷ []) (failing items w).0, kept.1)
    where
      moved : (done ++ (name, action) ∷ []) ++ items ≡ done ++ (name, action) ∷ items
      moved = append_assoc done ((name, action) ∷ []) items

  retry_items-Kept :
      (items done : Dict Text (Action W E)) (t : Transaction W E) (w : W)
      → t.actions ≡ done ++ items
      → IsUnique (done ++ items)
      → Kept items done t w
  unfolding retry_items failing
  retry_items-Kept [] done t w q u = (q, refl)
  retry_items-Kept ((name, action) ∷ items) done t w q u =
      after_one name action items done t (retry_items-Kept items) q u (action w).0 (action w).1

  -- Where the actions have different names, as in a dict, `retry` runs each of them once, in
  -- order, whatever the others raise, and keeps just those that raise, in their order.
  pub retry-actions :
      (t : Transaction W E) (w : W)
      → IsUnique t.actions
      → ((retry t w).0.actions ≡ (failing t.actions w).0)
        × ((retry t w).1 ≡ (failing t.actions w).1)
  unfolding retry
  retry-actions t w u = retry_items-Kept t.actions [] t w refl u
