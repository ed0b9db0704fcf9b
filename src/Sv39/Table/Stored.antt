-- ===== src/Sv39/Table/Stored.antt =====
-- A leaf that is stored in a table of the last level: the tables stay a tree, and which walks change.

use efiks_os.Prelude.{
  ℕ, suc, ◌^◌, ◌<◌, ◌≡◌, refl, sym, ap, subst, ◌∙◌, ◌⊎◌, inl, inr, true, List, [], ◌∷◌, Option,
  some, ◌==◌, arith, Bool-cases, ==-refl, some_inj, ==→≡,
}
use efiks_os.Sv39.{is_valid, is_leaf, address_bits}
use efiks_os.Sv39.Table.{PageSize, Store, set_entry}
use efiks_os.Sv39.Table.Entries.{IsTable}
use efiks_os.Sv39.Table.Walk.{IsTree, leaf_at}
use efiks_os.Sv39.Table.Walk.{leaf_at-leaf, leaf_at-same, leaf_at-table}
use efiks_os.Sv39.Table.{size_4k, size_2m, size_1g}

-- A leaf in the place of an entry that is not valid, in a table of the last level.
module _ (s : Store) (level : ℕ → Option ℕ) (tree : IsTree s level) (t i leaf : ℕ)
    (last : level t ≡ some 0) (valid : is_valid leaf ≡ true) (ends : is_leaf leaf ≡ true)
    (small : leaf < 2 ^ 64) where
  abbrev pub stored : Store
  stored = record s { tables = set_entry s.tables t i leaf }

  stored_cases :
      (x j : ℕ)
      → ((x ≡ t) × (j ≡ i) × (stored.tables x j ≡ leaf)) ⊎ (stored.tables x j ≡ s.tables x j)
  stored_cases x j = elim (Bool-cases (x == t)) [
    | inr apart ↦ inr (rw apart refl)
    | inl same ↦ elim (Bool-cases (j == i)) [
      | inr apart ↦ inr (rw (same, apart) refl)
      | inl here ↦ inl (==→≡ x t same, ==→≡ j i here, rw (same, here) refl)
    ]
  ]

  above_same : (x j m : ℕ) → level x ≡ some (suc m) → stored.tables x j ≡ s.tables x j
  above_same x j m h = elim (stored_cases x j) [
    | inl (e, _, _) ↦ absurd (omega (arith, some_inj (sym h ∙ ap level e ∙ last)))
    | inr same ↦ same
  ]

  table_same : (x j : ℕ) → IsTable (stored.tables x j) → stored.tables x j ≡ s.tables x j
  table_same x j (v, deeper) = elim (stored_cases x j) [
    | inl (_, _, e) ↦ absurd (grind (arith, sym deeper ∙ ap is_leaf e ∙ ends))
    | inr same ↦ same
  ]

  IsTable-was : (x j : ℕ) → IsTable (stored.tables x j) → IsTable (s.tables x j)
  IsTable-was x j is = subst IsTable (table_same x j is) is

  pub stored-IsTree : IsTree stored level
  stored-IsTree = record {
    child = λ x j m h is.
        ap (λ p. level (address_bits p)) (table_same x j is)
        ∙ tree.child x j m h (IsTable-was x j is);
    bottom = λ x j h is. tree.bottom x j h (IsTable-was x j is);
    unique = λ x j x' j' m m' h h' is is' e.
        tree.unique x j x' j' m m' h h' (IsTable-was x j is) (IsTable-was x' j' is')
          (sym (ap address_bits (table_same x j is)) ∙ e ∙ ap address_bits (table_same x' j' is'));
    word = stored_word;
    fresh = tree.fresh;
    reached = tree.reached;
    aligned = tree.aligned;
  }
    where
      stored_word : (x j : ℕ) → stored.tables x j < 2 ^ 64
      stored_word x j = elim (stored_cases x j) [
        | inl (_, _, e) ↦ rw e small
        | inr same ↦ rw same (tree.word x j)
      ]

  -- The walks from a root, from which two entries lead to the table.
  module _ (root i2 l1 i1 : ℕ) (top : level root ≡ some 2) (middle : level l1 ≡ some 1)
      (is2 : IsTable (s.tables root i2)) (to1 : address_bits (s.tables root i2) ≡ l1)
      (is1 : IsTable (s.tables l1 i1)) (to0 : address_bits (s.tables l1 i1) ≡ t) where
    abbrev path : ℕ → ℕ → ℕ → List (ℕ × PageSize)
    path a b c = (a, size_1g) ∷ (b, size_2m) ∷ (c, size_4k) ∷ []

    pub stored_walk : leaf_at stored.tables root (path i2 i1 i) ≡ some (leaf, size_4k)
    stored_walk =
        let at2 = above_same root i2 1 top in
        let at1 = above_same l1 i1 0 middle in
        let at0 : stored.tables t i ≡ leaf = rw (==-refl t, ==-refl i) refl in
        leaf_at-table stored.tables root i2 size_1g ((i1, size_2m) ∷ (i, size_4k) ∷ [])
          (subst IsTable (sym at2) is2)
        ∙ ap (λ x. leaf_at stored.tables x ((i1, size_2m) ∷ (i, size_4k) ∷ []))
            (ap address_bits at2 ∙ to1)
        ∙ leaf_at-table stored.tables l1 i1 size_2m ((i, size_4k) ∷ [])
            (subst IsTable (sym at1) is1)
        ∙ ap (λ x. leaf_at stored.tables x ((i, size_4k) ∷ [])) (ap address_bits at1 ∙ to0)
        ∙ leaf_at-leaf stored.tables t i size_4k [] (ap is_valid at0 ∙ valid)
            (ap is_leaf at0 ∙ ends)
        ∙ ap (λ p. some (p, size_4k)) at0

    pub other_walk :
        (a b c : ℕ)
        → ¬ ((a ≡ i2) × (b ≡ i1) × (c ≡ i))
        → leaf_at stored.tables root (path a b c) ≡ leaf_at s.tables root (path a b c)
    other_walk a b c apart =
        leaf_at-same s.tables stored.tables root a size_1g _ (above_same root a 1 top) (λ is_a.
          let low = tree.child root a 1 top is_a in
          leaf_at-same s.tables stored.tables _ b size_2m _ (above_same _ b 0 low) (λ is_b.
            leaf_at-same s.tables stored.tables _ c size_4k _
              (from is_a low is_b (stored_cases _ c))
              (λ is_c. absurd (tree.bottom _ c (tree.child _ b 0 low is_b) is_c))))
      where
        from :
            (is_a : IsTable (s.tables root a))
            → level (address_bits (s.tables root a)) ≡ some 1
            → (is_b : IsTable (s.tables (address_bits (s.tables root a)) b))
            → let x = address_bits (s.tables (address_bits (s.tables root a)) b) in
              ((x ≡ t) × (c ≡ i) × (stored.tables x c ≡ leaf)) ⊎ (stored.tables x c ≡ s.tables x c)
              → stored.tables x c ≡ s.tables x c
        from is_a low is_b (inr same) = same
        from is_a low is_b (inl (ex, ec, _)) =
            let (e1, eb) = tree.unique _ b l1 i1 1 1 low middle is_b is1 (ex ∙ sym to0) in
            let (_, ea) = tree.unique root a root i2 2 2 top top is_a is2 (e1 ∙ sym to1) in
            absurd (apart (ea, eb, ec))
