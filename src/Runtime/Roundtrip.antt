-- ===== src/Runtime/Roundtrip.antt =====
-- What `ManagedRuntimeConfig` hands to SmallOS constructs the same configuration again.
use small_server.Prelude.{
  ℕ, zero, suc, ◌≡◌, ◌≢◌, refl, sym, ap, subst, ◌∙◌, Option, some, inl, inr, List, [], ◌∷◌, ◌++◌,
  append_assoc, append-nil, map, Bool-cases, Result, returned, ok_inj, err_ne_ok, ok, ◌>>=◌,
}
use small_server.Prelude.Dict
use small_server.Prelude.Dict.{
  Dict, IsUnique, IsUnique-append, IsUnique-put, put-none, AllKeys, AllKeys-put,
}
use small_server.Prelude.Text.{Text, text_eq}
use small_server.Runtime.{
  Value, Section, Defaults, ConfigError, Arguments, ManagedRuntimeConfig, text, int, name, collect,
  section_values, normalized, client_defaults, post_init, plain_section, plain, to_smallos_config,
  non_negative_int, positive_int, at_least_two, only_bool, settings, negative, bool, object,
  sections, unset, not_sections, no_mapping, entry,
}

-- A dict's entries with the marks of a name: each stands once, and none is empty.
abbrev NonEmpty : Text → Type 0
NonEmpty t = t ≢ []

name-ok : (n : Text) → NonEmpty n → name (text n) ≡ ok n
name-ok [] h = absurd (h refl)
name-ok (c ∷ cs) h = refl

name-NonEmpty : (v : Value) {n : Text} → name v ≡ ok n → NonEmpty n
name-NonEmpty v {n} q e = not_empty v (subst (λ n. name v ≡ ok n) e q)
  where
    not_empty : (v : Value) → name v ≡ ok [] → ⊥
    not_empty (text []) p = cc
    not_empty (text (c ∷ cs)) p = cc
    not_empty (int n) p = cc
    not_empty (negative n) p = cc
    not_empty (bool b) p = cc
    not_empty object p = cc

-- The plain value of an entry.
module _ {V U : Type 0} (read : V → Result ConfigError U) (write : U → V) where
  abbrev Reads : Dict Text U → Type 0
  Reads [] = Unit
  Reads ((n, u) ∷ d) = NonEmpty n × (read (write u) ≡ ok u) × Reads d

  collect-written :
      (kept d : Dict Text U)
      → IsUnique (kept ++ d)
      → Reads d
      → collect read kept (map (entry write) d) ≡ ok (kept ++ d)
  unfolding collect
  collect-written kept [] u h = ap ok (sym (append-nil kept))
  collect-written kept ((n, v) ∷ d) u h =
      rw (name-ok n h.0, h.1, put-none n v kept (IsUnique-append n v kept d u))
        (collect-written (kept ++ (n, v) ∷ []) d (subst IsUnique (sym moved) u) h.2 ∙ ap ok moved)
    where
      moved : (kept ++ (n, v) ∷ []) ++ d ≡ kept ++ (n, v) ∷ d
      moved = append_assoc kept ((n, v) ∷ []) d

  Reads-put :
      (n : Text) (u : U) (d : Dict Text U)
      → NonEmpty n
      → read (write u) ≡ ok u
      → Reads d
      → Reads (Dict.put n u d)
  unfolding Dict.put
  Reads-put n u [] h r k = (h, r, tt)
  Reads-put n u ((j, v) ∷ d) h r k = elim (Bool-cases (text_eq.equal j n)) [
    | inl same ↦ rw same (k.0, r, k.2)
    | inr other ↦ rw other (k.0, k.1, Reads-put n u d h r k.2)
  ]

  collect-Reads :
      (rereads : (v : V) (u : U) → read v ≡ ok u → read (write u) ≡ ok u) (kept : Dict Text U)
      (items : List (Value × V)) {d : Dict Text U}
      → IsUnique kept
      → Reads kept
      → collect read kept items ≡ ok d
      → IsUnique d × Reads d
  unfolding collect
  collect-Reads rereads kept [] u r q = subst (λ d. IsUnique d × Reads d) (ok_inj q) (u, r)
  collect-Reads rereads kept ((k, v) ∷ items) u r q =
      let (n, named, q1) = returned (name k) q in
      let (x, good, q2) = returned (read v) q1 in
      collect-Reads rereads (Dict.put n x kept) items (IsUnique-put n x kept u)
        (Reads-put n x kept (name-NonEmpty k named) (rereads v x good) r) q2

  -- A mapping that has been read is read again from its plain values.
  collect-rereads :
      (rereads : (v : V) (u : U) → read v ≡ ok u → read (write u) ≡ ok u) (items : List (Value × V))
      {d : Dict Text U}
      → collect read [] items ≡ ok d
      → collect read [] (map (entry write) d) ≡ ok d
  collect-rereads rereads items {d} q =
      let (u, r) = collect-Reads rereads [] items tt tt q in collect-written [] d u r

non_negative_int-rereads :
    (v : Value) (n : ℕ) → non_negative_int v ≡ ok n → non_negative_int (int n) ≡ ok n
non_negative_int-rereads v n q = refl

section_values-rereads :
    (s : Section) (d : Dict Text ℕ)
    → section_values s ≡ ok d
    → section_values (plain_section d) ≡ ok d
section_values-rereads no_mapping d q = absurd (err_ne_ok q)
section_values-rereads (settings values) d q =
    collect-rereads non_negative_int int non_negative_int-rereads values q

client_defaults-rereads :
    (a : Defaults) (d : Option (Dict Text (Dict Text ℕ)))
    → client_defaults a ≡ ok d
    → client_defaults (plain d) ≡ ok d
unfolding client_defaults
client_defaults-rereads unset d q = subst (λ d. client_defaults (plain d) ≡ ok d) (ok_inj q) refl
client_defaults-rereads not_sections d q = absurd (err_ne_ok q)
client_defaults-rereads (sections items) d q =
    let (e, collected, q1) = returned (normalized items) q in
    let again =
      collect-rereads section_values plain_section section_values-rereads items collected in
    subst (λ d. client_defaults (plain d) ≡ ok d) (ok_inj q1)
      (ap (λ m. m >>= λ d. ok (some d)) again)

positive_int-rereads : (v : Value) (n : ℕ) → positive_int v ≡ ok n → positive_int (int n) ≡ ok n
positive_int-rereads (int zero) n q = absurd (err_ne_ok q)
positive_int-rereads (int (suc m)) n q = subst (λ n. positive_int (int n) ≡ ok n) (ok_inj q) refl
positive_int-rereads (negative m) n q = absurd (err_ne_ok q)
positive_int-rereads (bool b) n q = absurd (err_ne_ok q)
positive_int-rereads (text t) n q = absurd (err_ne_ok q)
positive_int-rereads object n q = absurd (err_ne_ok q)

-- The checks that a configuration passes as the arguments of the constructor.
rebuilt :
    (c : ManagedRuntimeConfig)
    → positive_int (int c.task_capacity) ≡ ok c.task_capacity
    → positive_int (int c.priority_levels) ≡ ok c.priority_levels
    → at_least_two c.priority_levels ≡ ok tt
    → client_defaults (plain c.client_defaults) ≡ ok c.client_defaults
    → post_init (to_smallos_config c) ≡ ok c
unfolding post_init
rebuilt c q_capacity q_levels q_two q_defaults = rw (q_capacity, q_levels, q_two, q_defaults) refl

-- A configuration that the constructor returns is returned again when it is constructed from the
-- plain data that `to_smallos_config` hands to SmallOS: no setting is lost or changed.
pub to_smallos_config-post_init :
    (a : Arguments) (c : ManagedRuntimeConfig)
    → post_init a ≡ ok c
    → post_init (to_smallos_config c) ≡ ok c
unfolding post_init
to_smallos_config-post_init a c q =
    let (capacity, q_capacity, q1) = returned (positive_int a.task_capacity) q in
    let (levels, q_levels, q2) = returned (positive_int a.priority_levels) q1 in
    let (_, q_two, q3) = returned (at_least_two levels) q2 in
    let (buffer, q_buffer, q4) = returned (non_negative_int a.io_buffer_length) q3 in
    let (watchers, q_watchers, q5) = returned (only_bool a.eternal_watchers) q4 in
    let (defaults, q_defaults, q6) = returned (client_defaults a.client_defaults) q5 in
    subst (λ c. post_init (to_smallos_config c) ≡ ok c) (ok_inj q6)
      (rebuilt _ (positive_int-rereads a.task_capacity capacity q_capacity)
        (positive_int-rereads a.priority_levels levels q_levels) q_two
        (client_defaults-rereads a.client_defaults defaults q_defaults))
