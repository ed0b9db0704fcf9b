-- ===== src/Sv39/Table/Walk.antt =====
-- The walk of the page tables, by the entry that it ends at, and the shape that the tables keep.
use efiks_os.Prelude.{
  ℕ, suc, ◌+◌, ◌*◌, ◌%◌, ◌^◌, ◌<◌, ◌≡◌, refl, inl, inr, true, false, List, [], ◌∷◌, Option, none,
  some, if◌then◌else◌, Bool-cases,
}
use efiks_os.Mm.Frames.Laws.{frame_bit}
use efiks_os.Sv39.{is_valid, is_leaf, address_bits}
use efiks_os.Sv39.Table.{
  PageSize, Tables, Store, walk, translate_to_pte_ptr, translate, translated,
  translated_physical_address, path_of, direct_mapping_base,
}
use efiks_os.Sv39.Table.Entries.{IsTable}

-- The leaf entry that a path leads to.
unfoldable pub leaf_at : Tables → ℕ → List (ℕ × PageSize) → Option (ℕ × PageSize)
leaf_at tables table [] = none
leaf_at tables table ((index, size) ∷ rest) =
    let pte = tables table index in
    let deeper = leaf_at tables (address_bits pte) rest in
    if is_valid pte then (if is_leaf pte then some (pte, size) else deeper) else none

abbrev pub address_in : ℕ → Option (ℕ × PageSize) → Option ℕ
address_in va none = none
address_in va (some (pte, size)) = some (translated_physical_address pte size va)

walk-leaf_at :
    (tables : Tables) (table va : ℕ) (path : List (ℕ × PageSize))
    → translated tables va (walk tables table path) ≡ address_in va (leaf_at tables table path)
unfolding walk leaf_at
walk-leaf_at tables table va [] = refl
walk-leaf_at tables table va ((index, size) ∷ rest) =
    let pte = tables table index in
    elim (Bool-cases (is_valid pte)) [
      | inr invalid ↦ rw invalid refl
      | inl valid ↦ elim (Bool-cases (is_leaf pte)) [
        | inl leaf ↦ rw (valid, leaf) refl
        | inr deeper ↦ rw (valid, deeper) (walk-leaf_at tables (address_bits pte) va rest)
      ]
    ]

pub translate-leaf_at :
    (tables : Tables) (root va : ℕ)
    → translate tables root va ≡ address_in va (leaf_at tables root (path_of va))
unfolding translate translate_to_pte_ptr
translate-leaf_at tables root va = walk-leaf_at tables root va (path_of va)

-- One step of the walk, by the kind of the entry.
module _ (tables : Tables) (table index : ℕ) (size : PageSize) (rest : List (ℕ × PageSize)) where
  pub leaf_at-invalid :
      is_valid (tables table index) ≡ false → leaf_at tables table ((index, size) ∷ rest) ≡ none
  unfolding leaf_at
  leaf_at-invalid h = rw h refl

  pub leaf_at-leaf :
      is_valid (tables table index) ≡ true
      → is_leaf (tables table index) ≡ true
      → leaf_at tables table ((index, size) ∷ rest) ≡ some (tables table index, size)
  unfolding leaf_at
  leaf_at-leaf v h = rw (v, h) refl

  pub leaf_at-table :
      IsTable (tables table index)
      → leaf_at tables table ((index, size) ∷ rest)
        ≡ leaf_at tables (address_bits (tables table index)) rest
  unfolding leaf_at
  leaf_at-table (v, h) = rw (v, h) refl

-- Where two stores agree on an entry, and on what lies below it, the walks from it agree.
pub leaf_at-same :
    (tables tables' : Tables) (table index : ℕ) (size : PageSize) (rest : List (ℕ × PageSize))
    → tables' table index ≡ tables table index
    → (IsTable (tables table index)
        → leaf_at tables' (address_bits (tables table index)) rest
          ≡ leaf_at tables (address_bits (tables table index)) rest)
    → leaf_at tables' table ((index, size) ∷ rest) ≡ leaf_at tables table ((index, size) ∷ rest)
unfolding leaf_at
leaf_at-same tables tables' table index size rest same below =
    let pte = tables table index in
    elim (Bool-cases (is_valid pte)) [
      | inr invalid ↦ rw (same, invalid) refl
      | inl valid ↦ elim (Bool-cases (is_leaf pte)) [
        | inl leaf ↦ rw (same, valid, leaf) refl
        | inr deeper ↦ rw (same, valid, deeper) (below (valid, deeper))
      ]
    ]

-- Every table in use has a level, and an entry that leads to a table leads one level down; no table is
-- reached from two entries; a frame that is free is no table. All frames lie on page boundaries and are
-- reached through the direct mapping.
pub record IsTree (s : Store) (level : ℕ → Option ℕ) : Type 0 where
  pub child :
      (t i l : ℕ)
      → level t ≡ some (suc l)
      → IsTable (s.tables t i)
      → level (address_bits (s.tables t i)) ≡ some l
  pub bottom : (t i : ℕ) → level t ≡ some 0 → ¬ IsTable (s.tables t i)
  pub unique :
      (t i t' i' l l' : ℕ)
      → level t ≡ some l
      → level t' ≡ some l'
      → IsTable (s.tables t i)
      → IsTable (s.tables t' i')
      → address_bits (s.tables t i) ≡ address_bits (s.tables t' i')
      → (t ≡ t') × (i ≡ i')
  pub word : (t i : ℕ) → s.tables t i < 2 ^ 64
  pub fresh :
      (frame : ℕ)
      → frame_bit s.frames.pages frame ≡ some 0
      → level (s.frames.start_addr + frame * 4096) ≡ none
  pub reached :
      (frame b : ℕ)
      → frame_bit s.frames.pages frame ≡ some b
      → s.frames.start_addr + frame * 4096 + direct_mapping_base < 2 ^ 64
  pub aligned : s.frames.start_addr % 4096 ≡ 0
