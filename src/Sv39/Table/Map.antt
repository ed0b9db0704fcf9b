-- ===== src/Sv39/Table/Map.antt =====
-- `map_vm`: a page is mapped, and what every address translates to afterwards.

use efiks_os.Prelude.{
  ℕ, suc, ◌+◌, ◌/◌, ◌%◌, ◌^◌, ◌<◌, ◌≡◌, ◌≢◌, refl, sym, ap, subst, ◌∙◌, ◌⊎◌, inl, inr, true, false,
  List, [], ◌∷◌, Option, none, some, ok, arith, Bool-cases,
}
use efiks_os.Mm.Frames.Laws.{frame_bit}
use efiks_os.Sv39.{is_valid, is_leaf, address_bits}
use efiks_os.Sv39.Table.{PageSize, Tables, Store, set_entry}
use efiks_os.Sv39.Table.Entries.{IsTable}
use efiks_os.Sv39.Table.Walk.{IsTree, leaf_at}
use efiks_os.Sv39.Table.Walk.{leaf_at-leaf, leaf_at-table, address_in, translate-leaf_at}
use efiks_os.Sv39.Table.Descend.{Descends, get_or_create_next_table-Descends}
use efiks_os.Sv39.Table.Leaf.{
  Permits, new_leaf, map_leaf-new_leaf, new_leaf-address_bits, new_leaf_lt, new_leaf-is_valid,
  new_leaf-is_leaf,
}
use efiks_os.Sv39.Table.{
  size_4k, size_2m, size_1g, path_of, translate, put_leaf, map_vm, map_memory_with_base,
  check_mapping_alignment,
}
use efiks_os.Sv39.{vpn_2, vpn_1, vpn_0}
use efiks_os.Prelude.Bits.{bit_and-low_mask}
use efiks_os.Prelude.{bit_and}
use efiks_os.Sv39.Table.Stored.{stored, stored-IsTree, stored_walk, other_walk}

-- An entry on a path to no leaf is not a leaf.
no_leaf :
    (tables : Tables) (t i : ℕ) (size : PageSize) (rest : List (ℕ × PageSize))
    → leaf_at tables t ((i, size) ∷ rest) ≡ none
    → is_valid (tables t i) ≡ false ⊎ IsTable (tables t i)
no_leaf tables t i size rest h = elim (Bool-cases (is_valid (tables t i))) [
  | inr invalid ↦ inl invalid
  | inl valid ↦ elim (Bool-cases (is_leaf (tables t i))) [
    | inr deeper ↦ inr (valid, deeper)
    | inl leaf ↦ absurd (grind (arith, sym h ∙ leaf_at-leaf tables t i size rest valid leaf))
  ]
]

no_address : (va : ℕ) (o : Option (ℕ × PageSize)) → address_in va o ≡ none → o ≡ none
no_address va none h = refl
no_address va (some (pte, size)) h = absurd (grind (arith, h))

-- The walk that goes on in the next table ends at no leaf either.
next_none :
    (s : Store) (level : ℕ → Option ℕ) (t i l : ℕ) (s' : Store) (t' : ℕ) (level' : ℕ → Option ℕ)
    → Descends s level t i l s' t' level'
    → level t ≡ some (suc l)
    → (size : PageSize) (rest : List (ℕ × PageSize)) → leaf_at s.tables t ((i, size) ∷ rest) ≡ none
    → leaf_at s'.tables t' rest ≡ none
next_none s level t i l s' t' level' d above size rest h =
    ap (λ p. leaf_at s'.tables p rest) (sym d.target)
    ∙ sym (leaf_at-table s'.tables t i size rest d.leads)
    ∙ d.same ((i, size) ∷ rest) t (suc l) above
    ∙ h

last_invalid :
    (s : Store) (level : ℕ → Option ℕ) (tree : IsTree s level) (t i : ℕ)
    → level t ≡ some 0
    → leaf_at s.tables t ((i, size_4k) ∷ []) ≡ none
    → is_valid (s.tables t i) ≡ false
last_invalid s level tree t i last h = elim (no_leaf s.tables t i size_4k [] h) [
  | inl invalid ↦ invalid
  | inr is ↦ absurd (tree.bottom t i last is)
]

-- The page of an address, in the 39 bits that the tables translate.
abbrev pub page_of : ℕ → ℕ
page_of va = va / 4096 % 2 ^ 27

page_numbers :
    (va : ℕ)
    → (vpn_2 va ≡ page_of va / 2 ^ 18)
      × (vpn_1 va ≡ page_of va / 2 ^ 9 % 2 ^ 9)
      × (vpn_0 va ≡ page_of va % 2 ^ 9)
unfolding vpn_2 vpn_1 vpn_0
page_numbers va = (
  omega (arith, bit_and-low_mask 9 (va / 2 ^ 30)),
  omega (arith, bit_and-low_mask 9 (va / 2 ^ 21)),
  omega (arith, bit_and-low_mask 9 (va / 2 ^ 12)),
)

same_path : (va va' : ℕ) → page_of va' ≡ page_of va → path_of va' ≡ path_of va
same_path va va' h =
    let (a, b, c) = page_numbers va in
    let (a', b', c') = page_numbers va' in
    ap (λ x. (x, size_1g) ∷ (vpn_1 va', size_2m) ∷ (vpn_0 va', size_4k) ∷ []) {x = vpn_2 va'}
      {y = vpn_2 va} (omega arith)
    ∙ ap (λ x. (vpn_2 va, size_1g) ∷ (x, size_2m) ∷ (vpn_0 va', size_4k) ∷ []) {x = vpn_1 va'}
        {y = vpn_1 va} (omega arith)
    ∙ ap (λ x. (vpn_2 va, size_1g) ∷ (vpn_1 va, size_2m) ∷ (x, size_4k) ∷ []) {x = vpn_0 va'}
        {y = vpn_0 va} (omega arith)

other_path :
    (va va' : ℕ)
    → page_of va' ≢ page_of va
    → ¬ ((vpn_2 va' ≡ vpn_2 va) × (vpn_1 va' ≡ vpn_1 va) × (vpn_0 va' ≡ vpn_0 va))
other_path va va' ne (e2, e1, e0) =
    let (a, b, c) = page_numbers va in let (a', b', c') = page_numbers va' in ne (omega arith)

checks-aligned :
    (va pa : ℕ)
    → va % 4096 ≡ 0
    → pa % 4096 ≡ 0
    → check_mapping_alignment va (some pa) size_4k ≡ true
unfolding check_mapping_alignment
checks-aligned va pa h h' = rw (bit_and-low_mask 12 va, bit_and-low_mask 12 pa, h, h') refl

-- What mapping the page of `va` at `pa` leaves: the tables form a tree, which the earlier tables are
-- in; every address of the page translates into the frame, and every other address as before.
abbrev pub Maps : Store → (ℕ → Option ℕ) → (root va pa : ℕ) → Store → (ℕ → Option ℕ) → Type 0
Maps s level root va pa s' level' =
    IsTree s' level'
    × ((x m : ℕ) → level x ≡ some m → level' x ≡ some m)
    × ((va' : ℕ) → page_of va' ≡ page_of va → translate s'.tables root va' ≡ some (pa + va' % 4096))
    × ((va' : ℕ)
        → page_of va' ≢ page_of va
        → translate s'.tables root va' ≡ translate s.tables root va')

module _ (s : Store) (level : ℕ → Option ℕ) (root va pa flags : ℕ) (top : level root ≡ some 2)
    (pa_aligned : pa % 4096 ≡ 0) (fits : pa < 2 ^ 56) (small : flags < 2 ^ 10)
    (permits : Permits flags) where
  -- The last step, with both tables on the way there.
  put_leaf-Maps :
      (s1 s2 : Store) (lv1 lv2 : ℕ → Option ℕ) (t1 t2 : ℕ)
      → Descends s level root (vpn_2 va) 1 s1 t1 lv1
      → Descends s1 lv1 t1 (vpn_1 va) 0 s2 t2 lv2
      → is_valid (s2.tables t2 (vpn_0 va)) ≡ false
      → (s' : Store) × (put_leaf s2 t2 (vpn_0 va) (some pa) flags ≡ ok s')
        × Maps s level root va pa s' lv2
  unfolding put_leaf
  put_leaf-Maps s1 s2 lv1 lv2 t1 t2 d1 d2 invalid =
      let old = s2.tables t2 (vpn_0 va) in
      let word = d2.tree.word t2 (vpn_0 va) in
      let leaf = new_leaf old pa flags word invalid pa_aligned fits small in
      let valid = new_leaf-is_valid old pa flags word invalid pa_aligned fits small in
      let ends = new_leaf-is_leaf old pa flags word invalid pa_aligned fits small permits in
      let bound = new_leaf_lt old pa flags word invalid pa_aligned fits small in
      let top2 = d2.extends root 2 (d1.extends root 2 top) in
      let kept = d2.kept root (vpn_2 va) 2 (d1.extends root 2 top) d1.leads in
      let is2 = subst IsTable (sym kept) d1.leads in
      let to1 = ap address_bits kept ∙ d1.target in
      (
        stored s2 lv2 d2.tree t2 (vpn_0 va) leaf d2.below valid ends bound,
        rw (map_leaf-new_leaf old pa flags word invalid pa_aligned fits small) refl,
        (
          stored-IsTree s2 lv2 d2.tree t2 (vpn_0 va) leaf d2.below valid ends bound,
          (λ x m h. d2.extends x m (d1.extends x m h)),
          (λ va' page.
              translate-leaf_at _ root va'
              ∙ ap (λ p. address_in va' (leaf_at (set_entry s2.tables t2 (vpn_0 va) leaf) root p))
                  (same_path va va' page)
              ∙ ap (address_in va') (
                  stored_walk s2 lv2 d2.tree t2 (vpn_0 va) leaf d2.below valid ends bound root
                    (vpn_2 va) t1 (vpn_1 va) top2 (d2.extends t1 1 d1.below) is2 to1 d2.leads
                    d2.target)
              ∙ ap (λ x. some (x + bit_and va' 4095))
                  (new_leaf-address_bits old pa flags word invalid pa_aligned fits small)
              ∙ ap (λ x. some (pa + x)) (bit_and-low_mask 12 va')),
          (λ va' page.
              translate-leaf_at _ root va'
              ∙ ap (address_in va') (
                  other_walk s2 lv2 d2.tree t2 (vpn_0 va) leaf d2.below valid ends bound root
                    (vpn_2 va) t1 (vpn_1 va) top2 (d2.extends t1 1 d1.below) is2 to1 d2.leads
                    d2.target (vpn_2 va') (vpn_1 va') (vpn_0 va') (other_path va va' page)
                  ∙ d2.same (path_of va') root 2 (d1.extends root 2 top)
                  ∙ d1.same (path_of va') root 2 top)
              ∙ sym (translate-leaf_at s.tables root va')),
        ),
      )

-- `map_vm` on an address that is not mapped, with two free frames, maps its page: the call returns, the
-- tables are a tree as before, every address of the page translates to the frame at its offset, and every
-- other address translates as before.
pub map_vm-Maps :
    (s : Store) (level : ℕ → Option ℕ) (root va pa flags f g : ℕ)
    → IsTree s level
    → level root ≡ some 2
    → va % 4096 ≡ 0
    → pa % 4096 ≡ 0
    → pa < 2 ^ 56
    → flags < 2 ^ 10
    → Permits flags
    → translate s.tables root va ≡ none
    → frame_bit s.frames.pages f ≡ some 0
    → frame_bit s.frames.pages g ≡ some 0
    → f ≢ g
    → (s' : Store) × (level' : ℕ → Option ℕ) × (map_vm s root va pa flags ≡ ok s')
      × Maps s level root va pa s' level'
unfolding map_vm map_memory_with_base
map_vm-Maps s level root va pa flags f g tree top va_aligned pa_aligned fits small permits unmapped
      hf hg ne =
    let none2 = no_address va _ (sym (translate-leaf_at s.tables root va) ∙ unmapped) in
    let (s1, t1, lv1, e1, d1) =
      get_or_create_next_table-Descends s level tree root (vpn_2 va) 1 top f hf
        (no_leaf s.tables root (vpn_2 va) size_1g _ none2) in
    let none1 =
      next_none s level root (vpn_2 va) 1 s1 t1 lv1 d1 top size_1g
        ((vpn_1 va, size_2m) ∷ (vpn_0 va, size_4k) ∷ []) none2 in
    let (h, hh) = d1.left_over f g hf hg ne in
    let (s2, t2, lv2, e2, d2) =
      get_or_create_next_table-Descends s1 lv1 d1.tree t1 (vpn_1 va) 0 d1.below h hh
        (no_leaf s1.tables t1 (vpn_1 va) size_2m _ none1) in
    let none0 =
      next_none s1 lv1 t1 (vpn_1 va) 0 s2 t2 lv2 d2 d1.below size_2m ((vpn_0 va, size_4k) ∷ [])
        none1 in
    let invalid = last_invalid s2 lv2 d2.tree t2 (vpn_0 va) d2.below none0 in
    let (s', e, maps) =
      put_leaf-Maps s level root va pa flags top pa_aligned fits small permits s1 s2 lv1 lv2 t1 t2
        d1 d2 invalid in
    (s', lv2, rw (checks-aligned va pa va_aligned pa_aligned, e1, e2) e, maps)
