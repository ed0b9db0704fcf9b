-- ===== src/VsfsTool/Image/Marks.antt =====
-- The nodes are visited, and the bits of their inodes and blocks are set.
use efiks_os.Prelude.{
  ℕ, zero, suc, ◌+◌, ◌-◌, ◌*◌, ◌/◌, ◌%◌, ◌^◌, ◌<◌, ◌≤◌, ◌≡◌, refl, sym, ap, subst, ◌∙◌, inl, inr,
  bit_or, Bool, true, false, ◌||◌, List, [], ◌∷◌, ◌++◌, length, length-set, get_elem?_lt, set, ok,
  ◌==◌, if◌then◌else◌, arith, Bool-cases, le→ltb, ==→≡, ==→≢, All, ≢→==, ==-refl,
}
use efiks_os.Prelude.Bits.{bit, bit-bit_or, bit-pow, bit_lt}
use efiks_os.Vsfs.Bitmap.Laws.{bit_at, bit_at-set}
use efiks_os.VsfsTool.{
  FsNode, FsNodeKind, FsNodes, fs_node, fs_directory, fs_file, no_nodes, more_nodes,
  data_block_start,
}
use efiks_os.VsfsTool.Image.{
  set_bit, visit_nodes, visit_kind, visit_children, mark_inode, mark_block, mark_blocks, mark_data,
}
use efiks_os.VsfsTool.Allocate.Laws.{
  inums, inums_below, inums_of, blocks_of, blocks_below, blocks_in, indirect_of,
}

-- The number is among those of the list, counted from `base`.
abbrev pub has : (base : ℕ) → List ℕ → ℕ → Bool
has base [] k = false
has base (x ∷ xs) k = x == base + k || has base xs k

-- The bits of the list are set besides those that were, and no more.
abbrev pub Marks : (base : ℕ) → List ℕ → (old new : List ℕ) → Type 0
Marks base xs old new =
    (length new ≡ length old)
    × ((k : ℕ) → k < length old * 8 → bit_at new k ≡ (if has base xs k then ok 1 else bit_at old k))

Marks-none : (base : ℕ) (old : List ℕ) → Marks base [] old old
Marks-none base old = (refl, (λ k h. refl))

has-append :
    (base : ℕ) (xs ys : List ℕ) (k : ℕ) → has base (xs ++ ys) k ≡ (has base xs k || has base ys k)
has-append base [] ys k = refl
has-append base (x ∷ xs) ys k = elim (Bool-cases (x == base + k)) [
  | inl e ↦ rw e refl
  | inr e ↦ rw e (has-append base xs ys k)
]

-- The second list may be marked first.
Marks-append :
    (base : ℕ) (xs ys a b c : List ℕ)
    → Marks base ys a b
    → Marks base xs b c
    → Marks base (xs ++ ys) a c
Marks-append base xs ys a b c (len, bits) (len', bits') = (
  len' ∙ len,
  (λ k h. bits' k (omega (arith, len)) ∙ elim (Bool-cases (has base xs k)) [
    | inl e ↦ rw (e, has-append base xs ys k, e) refl
    | inr e ↦ rw (e, has-append base xs ys k, e) (bits k h)
  ]),
)

Marks-same :
    (base : ℕ) (xs ys a b : List ℕ)
    → ((k : ℕ) → has base xs k ≡ has base ys k)
    → Marks base xs a b
    → Marks base ys a b
Marks-same base xs ys a b same (len, bits) =
    (len, (λ k h. bits k h ∙ ap (λ t. if t then ok 1 else bit_at a k) (same k)))

set_digit : (byte i j : ℕ) → bit (bit_or byte (2 ^ i)) j ≡ (if i == j then 1 else bit byte j)
set_digit byte i j = elim (Bool-cases (i == j)) [
  | inl e ↦
      let one : bit (2 ^ i) j ≡ 1 = bit-pow i j ∙ ap (λ t. if t then 1 else 0) e in
      rw e (omega (arith, bit-bit_or byte (2 ^ i) j, one, bit_lt byte j))
  | inr e ↦
      let none_set : bit (2 ^ i) j ≡ 0 = bit-pow i j ∙ ap (λ t. if t then 1 else 0) e in
      rw e (omega (arith, bit-bit_or byte (2 ^ i) j, none_set))
]

marked :
    (old : List ℕ) (base x k : ℕ)
    → base ≤ x
    → (if x - base == k then ok 1 else bit_at old k)
      ≡ (if has base (x ∷ []) k then ok 1 else bit_at old k)
marked old base x k h = elim (Bool-cases (x - base == k)) [
  | inl e ↦
      let same : x ≡ base + k = omega (arith, ==→≡ (x - base) k e) in
      rw (e, same, ==-refl (base + k)) refl
  | inr e ↦ rw (e, ≢→== x (base + k) (λ same. ==→≢ (x - base) k e (omega (arith, same)))) refl
]

set_bit-Marks :
    (base x : ℕ) (old : List ℕ)
    → base ≤ x
    → x - base < length old * 8
    → (new : List ℕ) × (set_bit old (x - base) ≡ ok new) × Marks base (x ∷ []) old new
unfolding set_bit
set_bit-Marks base x old h small =
    let n = x - base in
    let (byte, at) = get_elem?_lt old (n / 8) (omega arith) in
    let word = bit_or byte (2 ^ (n % 8)) in
    (
      set old (n / 8) word,
      rw (set_bit, at) refl,
      (
        length-set old (n / 8) word,
        (λ k hk.
            bit_at-set old n byte word 1 k at (λ j hj. set_digit byte (n % 8) j)
            ∙ marked old base x k h),
      ),
    )

-- Every number of the list has its bit in bitmaps of that many bytes.
abbrev pub Fit : (base len : ℕ) → List ℕ → Type 0
Fit base len xs = All (λ x. (base ≤ x) × (x - base < len * 8)) xs

All-append : (P : ℕ → Type 0) (xs ys : List ℕ) → All P (xs ++ ys) → All P xs × All P ys
All-append P [] ys h = (tt, h)
All-append P (x ∷ xs) ys (p, h) = let (a, b) = All-append P xs ys h in ((p, a), b)

Marks-then :
    (base : ℕ) (xs ys a b c : List ℕ)
    → Marks base xs a b
    → Marks base ys b c
    → Marks base (xs ++ ys) a c
Marks-then base xs ys a b c first second =
    Marks-same base (ys ++ xs) (xs ++ ys) a c
      (λ k.
        has-append base ys xs k
        ∙ either (has base ys k) (has base xs k)
        ∙ sym (has-append base xs ys k))
      (Marks-append base ys xs a b c first second)
  where
    either : (p q : Bool) → (p || q) ≡ (q || p)
    either true true = refl
    either true false = refl
    either false true = refl
    either false false = refl

mark_block-Marks :
    (x : ℕ) (old : List ℕ)
    → Fit data_block_start (length old) (x ∷ [])
    → (new : List ℕ) × (mark_block x old ≡ ok new) × Marks data_block_start (x ∷ []) old new
unfolding mark_block
mark_block-Marks x old ((from, small), _) =
    let (new, e, marks) = set_bit-Marks data_block_start x old from small in
    (new, rw (le→ltb x data_block_start from) e, marks)

mark_blocks-Marks :
    (xs old : List ℕ)
    → Fit data_block_start (length old) xs
    → (new : List ℕ) × (mark_blocks xs old ≡ ok new) × Marks data_block_start xs old new
unfolding mark_blocks
mark_blocks-Marks [] old fit = (old, refl, Marks-none data_block_start old)
mark_blocks-Marks (x ∷ xs) old (here, fit) =
    let (mid, e, marks) = mark_block-Marks x old (here, tt) in
    let (new, e', marks') =
      mark_blocks-Marks xs mid (subst (λ n. Fit data_block_start n xs) (sym marks.0) fit) in
    (new, rw e e', Marks-then data_block_start (x ∷ []) xs old mid new marks marks')

mark_indirect-Marks :
    (indirect : ℕ) (old : List ℕ)
    → Fit data_block_start (length old) (indirect_of indirect)
    → (new : List ℕ) × ((if indirect == 0 then ok old else mark_block indirect old) ≡ ok new)
      × Marks data_block_start (indirect_of indirect) old new
mark_indirect-Marks zero old fit = (old, refl, Marks-none data_block_start old)
mark_indirect-Marks (suc n) old fit =
    let (new, e, marks) = mark_block-Marks (suc n) old fit in
    (new, rw (≢→== (suc n) 0 (λ z. omega arith)) e, marks)

mark_data-Marks :
    (inum : ℕ) (blocks : List ℕ) (indirect : ℕ) (name : List ℕ) (kind : FsNodeKind) (old : List ℕ)
    → Fit data_block_start (length old) (blocks ++ indirect_of indirect)
    → (new : List ℕ) × (mark_data (fs_node inum blocks indirect name kind) old ≡ ok new)
      × Marks data_block_start (blocks ++ indirect_of indirect) old new
unfolding mark_data
mark_data-Marks inum blocks indirect name kind old fit =
    let (fit1, fit2) = All-append _ blocks (indirect_of indirect) fit in
    let (mid, e, marks) = mark_blocks-Marks blocks old fit1 in
    let (new, e', marks') =
      mark_indirect-Marks indirect mid
        (subst (λ n. Fit data_block_start n (indirect_of indirect)) (sym marks.0) fit2) in
    (
      new,
      rw e e',
      Marks-then data_block_start blocks (indirect_of indirect) old mid new marks marks',
    )

mutual
  unfolding visit_nodes inums mark_inode

  pub visit_inodes-Marks :
      (node : FsNode) (old : List ℕ)
      → Fit 0 (length old) (inums node)
      → (new : List ℕ) × (visit_nodes mark_inode node old ≡ ok new) × Marks 0 (inums node) old new
  visit_inodes-Marks (fs_node inum blocks indirect name kind) old ((from, small), fit) =
      let (mid, e, marks) = set_bit-Marks 0 inum old from small in
      let (new, e', marks') =
        visit_inodes_below-Marks kind mid
          (subst (λ n. Fit 0 n (inums_below kind)) (sym marks.0) fit) in
      let e0 = ap (set_bit old) {x = inum} {y = inum - 0} (omega arith) ∙ e in
      (new, rw e0 e', Marks-then 0 (inum ∷ []) (inums_below kind) old mid new marks marks')

  visit_inodes_below-Marks :
      (kind : FsNodeKind) (old : List ℕ)
      → Fit 0 (length old) (inums_below kind)
      → (new : List ℕ) × (visit_kind mark_inode kind old ≡ ok new)
        × Marks 0 (inums_below kind) old new
  visit_inodes_below-Marks (fs_file bytes) old fit = (old, refl, Marks-none 0 old)
  visit_inodes_below-Marks (fs_directory children) old fit = visit_inodes_in-Marks children old fit

  visit_inodes_in-Marks :
      (nodes : FsNodes) (old : List ℕ)
      → Fit 0 (length old) (inums_of nodes)
      → (new : List ℕ) × (visit_children mark_inode nodes old ≡ ok new)
        × Marks 0 (inums_of nodes) old new
  visit_inodes_in-Marks no_nodes old fit = (old, refl, Marks-none 0 old)
  visit_inodes_in-Marks (more_nodes node rest) old fit =
      let (fit1, fit2) = All-append _ (inums node) (inums_of rest) fit in
      let (mid, e, marks) = visit_inodes-Marks node old fit1 in
      let (new, e', marks') =
        visit_inodes_in-Marks rest mid (subst (λ n. Fit 0 n (inums_of rest)) (sym marks.0) fit2) in
      (new, rw e e', Marks-then 0 (inums node) (inums_of rest) old mid new marks marks')

mutual
  unfolding visit_nodes blocks_of

  pub visit_data-Marks :
      (node : FsNode) (old : List ℕ)
      → Fit data_block_start (length old) (blocks_of node)
      → (new : List ℕ) × (visit_nodes mark_data node old ≡ ok new)
        × Marks data_block_start (blocks_of node) old new
  visit_data-Marks (fs_node inum blocks indirect name kind) old fit =
      let own = blocks ++ indirect_of indirect in
      let (fit1, fit2) = All-append _ (blocks_below kind) own fit in
      let (mid, e, marks) = mark_data-Marks inum blocks indirect name kind old fit2 in
      let (new, e', marks') =
        visit_data_below-Marks kind mid
          (subst (λ n. Fit data_block_start n (blocks_below kind)) (sym marks.0) fit1) in
      (new, rw e e', Marks-append data_block_start (blocks_below kind) own old mid new marks marks')

  visit_data_below-Marks :
      (kind : FsNodeKind) (old : List ℕ)
      → Fit data_block_start (length old) (blocks_below kind)
      → (new : List ℕ) × (visit_kind mark_data kind old ≡ ok new)
        × Marks data_block_start (blocks_below kind) old new
  visit_data_below-Marks (fs_file bytes) old fit = (old, refl, Marks-none data_block_start old)
  visit_data_below-Marks (fs_directory children) old fit = visit_data_in-Marks children old fit

  visit_data_in-Marks :
      (nodes : FsNodes) (old : List ℕ)
      → Fit data_block_start (length old) (blocks_in nodes)
      → (new : List ℕ) × (visit_children mark_data nodes old ≡ ok new)
        × Marks data_block_start (blocks_in nodes) old new
  visit_data_in-Marks no_nodes old fit = (old, refl, Marks-none data_block_start old)
  visit_data_in-Marks (more_nodes node rest) old fit =
      let (fit1, fit2) = All-append _ (blocks_of node) (blocks_in rest) fit in
      let (mid, e, marks) = visit_data-Marks node old fit1 in
      let (new, e', marks') =
        visit_data_in-Marks rest mid
          (subst (λ n. Fit data_block_start n (blocks_in rest)) (sym marks.0) fit2) in
      (
        new,
        rw e e',
        Marks-then data_block_start (blocks_of node) (blocks_in rest) old mid new marks marks',
      )
