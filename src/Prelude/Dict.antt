-- ===== src/Prelude/Dict.antt =====
-- Python's `dict` and `set` as lists in insertion order: a write to a present key keeps its place.
-- A lookup finds the first entry of a key; no operation here makes a second one.
use Prim.Native.Nat.{ℕ, ◌+◌, ◌≤◌}
use mathlib.Core.Path.{◌≡◌, refl, sym, ap}
use mathlib.Core.Logic.{◌↔◌, ◌≢◌, inl, inr}
use mathlib.Core.Bool.{Bool, true, false, not, ◌&&◌, ◌||◌}
use mathlib.Core.List.{List, [], ◌∷◌, ◌++◌}
use mathlib.Core.Option.{Option, none, some}
use native.Mathlib.Omega.{arith}
use small_server.Prelude.Tests.{if◌then◌else◌, ==_iff, Bool-cases}
use small_server.Prelude.Tests
use small_server.Prelude.Lists.{length}

-- Keys with a Boolean equality.
pub record Eq {κ} (K : Type κ) : Type κ where
  pub equal : K → K → Bool
  pub equal_iff : (j k : K) → (equal j k ≡ true) ↔ (j ≡ k)

instance abbrev pub nat_eq : Eq ℕ
nat_eq = record { equal = Tests.◌==◌; equal_iff = ==_iff }

abbrev pub ◌==◌ {κ} : {K : Type κ} ⦃keys : Eq K⦄ (j k : K) → Bool
◌==◌ ⦃keys⦄ j k = keys.equal j k

infix 50 ◌==◌
abbrev pub is_some {ℓ} : {A : Type ℓ} → Option A → Bool
is_some none = false
is_some (some a) = true

abbrev pub Dict {ℓ κ} : Type ℓ → Type κ → Type (ℓ ⊔ κ)
Dict K V = List (K × V)

module _ {ℓ} {K : Type ℓ} ⦃e : Eq K⦄ where
  unfoldable pub contains : K → List K → Bool
  contains k [] = false
  contains k (j ∷ js) = if j == k then true else contains k js

  -- set.discard
  unfoldable pub discard : K → List K → List K
  discard k [] = []
  discard k (j ∷ js) = if j == k then js else j ∷ discard k js

  -- set.add
  unfoldable pub add : K → List K → List K
  add k [] = k ∷ []
  add k (j ∷ js) = if j == k then j ∷ js else j ∷ add k js

  pub length-add : (k : K) (js : List K) → length (add k js) ≤ length js + 1
  unfolding add
  length-add k [] = omega arith
  length-add k (j ∷ js) = ground (arith, length-add k js)

  pub length-discard : (k : K) (js : List K) → length (discard k js) ≤ length js
  unfolding discard
  length-discard k [] = omega arith
  length-discard k (j ∷ js) = ground (arith, length-discard k js)

module _ {ℓ κ} {K : Type ℓ} {V : Type κ} ⦃e : Eq K⦄ where
  -- d.get(k)
  unfoldable pub get : K → Dict K V → Option V
  get k [] = none
  get k ((j, v) ∷ d) = if j == k then some v else get k d

  -- d[k] = v
  unfoldable pub put : K → V → Dict K V → Dict K V
  put k v [] = (k, v) ∷ []
  put k v ((j, w) ∷ d) = if j == k then (j, v) ∷ d else (j, w) ∷ put k v d

  -- d.pop(k, None)
  unfoldable pub remove : K → Dict K V → Dict K V
  remove k [] = []
  remove k ((j, w) ∷ d) = if j == k then d else (j, w) ∷ remove k d

  abbrev pub keys : Dict K V → List K
  keys [] = []
  keys ((k, v) ∷ d) = k ∷ keys d

  abbrev pub values : Dict K V → List V
  values [] = []
  values ((k, v) ∷ d) = v ∷ values d

  -- A key that is looked up after a write shows the write, and every other key what it did.
  pub get-put :
      (k j : K) (v : V) (d : Dict K V) → get j (put k v d) ≡ (if k == j then some v else get j d)
  unfolding get put
  get-put k j v [] = refl
  get-put k j v ((i, w) ∷ d) =
      ground (arith, e.equal_iff k j, e.equal_iff i k, e.equal_iff i j, get-put k j v d)

-- The sum of a measure over the values.
abbrev pub total {ℓ κ} : {K : Type ℓ} {V : Type κ} → (V → ℕ) → Dict K V → ℕ
total f [] = 0
total f ((k, v) ∷ d) = f v + total f d

module _ {ℓ κ} {K : Type ℓ} {V : Type κ} ⦃e : Eq K⦄ (f : V → ℕ) where
  pub total-remove :
      (k : K) (d : Dict K V) {v : V} → get k d ≡ some v → total f (remove k d) + f v ≡ total f d
  unfolding get remove
  total-remove k [] h = cc
  total-remove k ((j, w) ∷ d) {v} h = elim (Bool-cases (j == k)) [
    | inl same ↦ rw same (removed (rw same at h))
    | inr other ↦ rw other (kept (total-remove k d (rw other at h)))
  ]
    where
      removed : some w ≡ some v → total f d + f v ≡ f w + total f d
      removed p = ground arith

      kept :
          total f (remove k d) + f v ≡ total f d
          → f w + total f (remove k d) + f v ≡ f w + total f d
      kept p = omega arith

  pub total-put_new :
      (k : K) (v : V) (d : Dict K V) → get k d ≡ none → total f (put k v d) ≡ total f d + f v
  unfolding get put
  total-put_new k v [] h = omega arith
  total-put_new k v ((j, w) ∷ d) h = elim (Bool-cases (j == k)) [
    | inl same ↦ absurd (some_ne (rw same at h))
    | inr other ↦ rw other (added (total-put_new k v d (rw other at h)))
  ]
    where
      some_ne : some w ≡ none → ⊥
      some_ne p = cc

      added :
          total f (put k v d) ≡ total f d + f v → f w + total f (put k v d) ≡ f w + total f d + f v
      added p = omega arith

  pub total-put_old :
      (k : K) (v : V) (d : Dict K V) {u : V}
      → get k d ≡ some u
      → total f (put k v d) + f u ≡ total f d + f v
  unfolding get put
  total-put_old k v [] h = cc
  total-put_old k v ((j, w) ∷ d) {u} h = elim (Bool-cases (j == k)) [
    | inl same ↦ rw same (replaced (rw same at h))
    | inr other ↦ rw other (kept (total-put_old k v d (rw other at h)))
  ]
    where
      replaced : some w ≡ some u → f v + total f d + f u ≡ f w + total f d + f v
      replaced p = ground arith

      kept :
          total f (put k v d) + f u ≡ total f d + f v
          → f w + total f (put k v d) + f u ≡ f w + total f d + f v
      kept p = omega arith

-- A predicate at every key.
abbrev pub AllKeys {ℓ κ μ} : {K : Type ℓ} {V : Type κ} → (K → Type μ) → Dict K V → Type μ
AllKeys P [] = Unit
AllKeys P ((k, v) ∷ d) = P k × AllKeys P d

module _ {ℓ κ μ} {K : Type ℓ} {V : Type κ} ⦃e : Eq K⦄ (P : K → Type μ) where
  pub AllKeys-remove : (k : K) (d : Dict K V) → AllKeys P d → AllKeys P (remove k d)
  unfolding remove
  AllKeys-remove k [] h = h
  AllKeys-remove k ((j, w) ∷ d) h = elim (Bool-cases (j == k)) [
    | inl same ↦ rw same h.1
    | inr other ↦ rw other (h.0, AllKeys-remove k d h.1)
  ]

  pub AllKeys-put : (k : K) (v : V) (d : Dict K V) → P k → AllKeys P d → AllKeys P (put k v d)
  unfolding put
  AllKeys-put k v [] pk h = (pk, tt)
  AllKeys-put k v ((j, w) ∷ d) pk h = elim (Bool-cases (j == k)) [
    | inl same ↦ rw same h
    | inr other ↦ rw other (h.0, AllKeys-put k v d pk h.1)
  ]

  -- A key that is found has the predicate, and one that cannot have it is not found.
  pub AllKeys-get : (k : K) (d : Dict K V) {v : V} → get k d ≡ some v → AllKeys P d → P k
  unfolding get
  AllKeys-get k [] q h = cc
  AllKeys-get k ((j, w) ∷ d) q h = elim (Bool-cases (j == k)) [
    | inl same ↦ rw (← (e.equal_iff j k).0 same) h.0
    | inr other ↦ AllKeys-get k d (rw other at q) h.1
  ]

pub AllKeys-map {ℓ κ μ ν} :
    {K : Type ℓ} {V : Type κ} (P : K → Type μ) (Q : K → Type ν)
    → ((k : K) → P k → Q k)
    → (d : Dict K V) → AllKeys P d
    → AllKeys Q d
AllKeys-map P Q f [] h = tt
AllKeys-map P Q f ((k, v) ∷ d) h = (f k h.0, AllKeys-map P Q f d h.1)

-- Every key stands once, as in a Python dict.
abbrev pub IsUnique {ℓ κ} : {K : Type ℓ} {V : Type κ} ⦃e : Eq K⦄ → Dict K V → Type κ
IsUnique [] = Unit
IsUnique ((k, v) ∷ d) = (get k d ≡ none) × IsUnique d

module _ {ℓ κ} {K : Type ℓ} {V : Type κ} ⦃e : Eq K⦄ where
  pub get-remove-none : (j k : K) (d : Dict K V) → get j d ≡ none → get j (remove k d) ≡ none
  unfolding get remove
  get-remove-none j k [] h = refl
  get-remove-none j k ((i, w) ∷ d) h = ground (arith, get-remove-none j k d)

  pub get-remove_ne : (j k : K) (d : Dict K V) → j ≢ k → get j (remove k d) ≡ get j d
  unfolding get remove
  get-remove_ne j k [] h = refl
  get-remove_ne j k ((i, w) ∷ d) h =
      ground (arith, e.equal_iff i k, e.equal_iff i j, get-remove_ne j k d h)

  pub IsUnique-remove : (k : K) (d : Dict K V) → IsUnique d → IsUnique (remove k d)
  unfolding remove
  IsUnique-remove k [] h = h
  IsUnique-remove k ((j, w) ∷ d) h = elim (Bool-cases (j == k)) [
    | inl same ↦ rw same h.1
    | inr other ↦ rw other (get-remove-none j k d h.0, IsUnique-remove k d h.1)
  ]

  pub IsUnique-put : (k : K) (v : V) (d : Dict K V) → IsUnique d → IsUnique (put k v d)
  unfolding put
  IsUnique-put k v [] h = (unfold get in refl, tt)
  IsUnique-put k v ((j, w) ∷ d) h = elim (Bool-cases (j == k)) [
    | inl same ↦ rw same h
    | inr other ↦ rw other (apart other, IsUnique-put k v d h.1)
  ]
    where
      apart : (j == k) ≡ false → get j (put k v d) ≡ none
      apart o = ground (arith, get-put k j v d, e.equal_iff j k, e.equal_iff k j)

  -- A removed key is gone.
  pub get-remove_self : (k : K) (d : Dict K V) → IsUnique d → get k (remove k d) ≡ none
  unfolding get remove
  get-remove_self k [] h = refl
  get-remove_self k ((j, w) ∷ d) h = ground (arith, e.equal_iff j k, get-remove_self k d h.1)

  pub get-append_none : (k : K) (d items : Dict K V) → get k (d ++ items) ≡ none → get k d ≡ none
  unfolding get
  get-append_none k [] items h = refl
  get-append_none k ((j, w) ∷ d) items h = ground (arith, get-append_none k d items)

  get-append_cons :
      (k j : K) (v : V) (d items : Dict K V) → get j (d ++ (k, v) ∷ items) ≡ none → (k == j) ≡ false
  unfolding get
  get-append_cons k j v [] items h = ground arith
  get-append_cons k j v ((i, w) ∷ d) items h = ground (arith, get-append_cons k j v d items)

  -- A key does not stand before its place.
  pub IsUnique-append :
      (k : K) (v : V) (d items : Dict K V) → IsUnique (d ++ (k, v) ∷ items) → get k d ≡ none
  unfolding get
  IsUnique-append k v [] items h = refl
  IsUnique-append k v ((j, w) ∷ d) items h = ground (
    arith,
    e.equal_iff j k,
    e.equal_iff k j,
    get-append_cons k j v d items h.0,
    IsUnique-append k v d items h.1,
  )

  pub put-none : (k : K) (v : V) (d : Dict K V) → get k d ≡ none → put k v d ≡ d ++ (k, v) ∷ []
  unfolding get put
  put-none k v [] h = refl
  put-none k v ((j, w) ∷ d) h = elim (Bool-cases (j == k)) [
    | inl same ↦ absurd (some_ne (rw same at h))
    | inr other ↦ rw other (ap (◌∷◌ (j, w)) (put-none k v d (rw other at h)))
  ]
    where
      some_ne : some w ≡ none → ⊥
      some_ne p = cc

  -- k in d
  unfoldable pub has : K → Dict K V → Bool
  has k d = is_some (get k d)

  pub has-put : (k j : K) (v : V) (d : Dict K V) → has j (put k v d) ≡ (k == j) || has j d
  unfolding has
  has-put k j v d =
      rw (get-put k j v d)
        (elim (Bool-cases (k == j)) [ inl same ↦ rw same refl | inr other ↦ rw other refl ])

  pub has-remove_ne : (k j : K) (d : Dict K V) → (k == j) ≡ false → has j (remove k d) ≡ has j d
  unfolding has
  has-remove_ne k j d h = ap is_some (get-remove_ne j k d (λ q. absurd (apart (sym q))))
    where
      apart : k ≡ j → ⊥
      apart q = ground (arith, e.equal_iff k j)

  pub has-remove :
      (k j : K) (d : Dict K V) → IsUnique d → has j (remove k d) ≡ not (k == j) && has j d
  unfolding has
  has-remove k j d u = elim (Bool-cases (k == j)) [
    | inl same ↦ rw (same, ← (e.equal_iff k j).0 same) (ap is_some (get-remove_self k d u))
    | inr other ↦ rw other (has-remove_ne k j d other)
  ]

  pub remove-none : (k : K) (d : Dict K V) → get k d ≡ none → remove k d ≡ d
  unfolding get remove
  remove-none k [] h = refl
  remove-none k ((j, w) ∷ d) h = elim (Bool-cases (j == k)) [
    | inl same ↦ absurd (some_ne (rw same at h))
    | inr other ↦ rw other (ap (◌∷◌ (j, w)) (remove-none k d (rw other at h)))
  ]
    where
      some_ne : some w ≡ none → ⊥
      some_ne p = cc
