-- ===== src/VsfsTool/Image/Bitmaps.antt =====
-- The bitmaps of the image: which bits are set.
use efiks_os.Prelude.{
  ℕ, zero, suc, ◌+◌, ◌-◌, ◌*◌, ◌/◌, ◌%◌, ◌<◌, ◌≤◌, ◌≡◌, ◌≢◌, refl, sym, ap, subst, ◌∙◌, ◌⊎◌, inl,
  inr, true, false, List, length, length-replicate, get_elem?, get_elem?_lt, replicate, some,
  Result, ok, ltb, leb, ◌==◌, if◌then◌else◌, arith, Bool-cases, ltb→le, ltb→lt, leb→le, leb→lt,
  some_inj, ==→≢, ≢→==,
}
use efiks_os.Prelude.Bits.{bit, bit-zero}
use efiks_os.Vfs.Device.{VfsError}
use efiks_os.Vsfs.Bitmap.Laws.{bit_at, bit_at-byte}
use efiks_os.Vsfs.Layout.{block_size}
use efiks_os.VsfsTool.{FsNode, data_block_start, root_ino, LayoutNode}
use efiks_os.VsfsTool.Image.{inode_bitmap, data_bitmap, empty_bitmap}
use efiks_os.VsfsTool.Allocate.{range, allocate_layout}
use efiks_os.VsfsTool.Allocate.Laws.{inums, blocks_of, allocate_layout-LaysOut}
use efiks_os.VsfsTool.Image.Marks.{has, Marks, Fit, visit_inodes-Marks, visit_data-Marks}

range-Fit : (base d n len : ℕ) → base ≤ d → d + n ≤ base + len * 8 → Fit base len (range d n)
range-Fit base d zero len h le = tt
range-Fit base d (suc n) len h le =
    ((h, omega arith), range-Fit base (suc d) n len (omega arith) (omega arith))

has-range : (base d n k : ℕ) → d ≤ base + k → base + k < d + n → has base (range d n) k ≡ true
has-range base d zero k low high = absurd (omega arith)
has-range base d (suc n) k low high = elim (Bool-cases (d == base + k)) [
  | inl e ↦ rw e refl
  | inr e ↦
      let ne = ==→≢ d (base + k) e in
      rw e (has-range base (suc d) n k (omega (arith, below d (base + k) ne low)) (omega arith))
]
  where
    below : (a b : ℕ) → a ≢ b → a ≤ b → a < b
    below a b ne le = ground arith

has-out : (base d n k : ℕ) → (base + k < d) ⊎ (d + n ≤ base + k) → has base (range d n) k ≡ false
has-out base d zero k out = refl
has-out base d (suc n) k out =
    rw (≢→== d (base + k) (λ e. differ out e)) (has-out base (suc d) n k (next out))
  where
    differ : (base + k < d) ⊎ (d + suc n ≤ base + k) → d ≢ base + k
    differ (inl h) e = omega arith
    differ (inr h) e = omega arith

    next : (base + k < d) ⊎ (d + suc n ≤ base + k) → (base + k < suc d) ⊎ (suc d + n ≤ base + k)
    next (inl h) = inl (omega arith)
    next (inr h) = inr (omega arith)

has-between :
    (base d n k : ℕ)
    → has base (range d n) k ≡ (if leb d (base + k) then ltb (base + k) (d + n) else false)
has-between base d n k = elim (Bool-cases (leb d (base + k))) [
  | inr low ↦ rw low (has-out base d n k (inl (leb→lt d (base + k) low)))
  | inl low ↦ elim (Bool-cases (ltb (base + k) (d + n))) [
    | inl high ↦
        rw (low, high)
          (has-range base d n k (leb→le d (base + k) low) (ltb→lt (base + k) (d + n) high))
    | inr high ↦ rw (low, high) (has-out base d n k (inr (ltb→le (base + k) (d + n) high)))
  ]
]

bit_at-empty : (n k : ℕ) → k < n * 8 → bit_at (replicate n 0) k ≡ ok 0
bit_at-empty n k h =
    let (byte, at) =
      get_elem?_lt (replicate n 0) (k / 8) (omega (arith, length-replicate {A = ℕ} n 0)) in
    bit_at-byte (replicate n 0) k byte at
    ∙ ap (λ x. ok (bit x (k % 8))) (zeros n (k / 8) at)
    ∙ ap ok (bit-zero (k % 8))
  where
    zeros : (n i : ℕ) {b : ℕ} → get_elem? (replicate n 0) i ≡ some b → b ≡ 0
    zeros zero i h = absurd (grind (arith, h))
    zeros (suc n) zero h = sym (some_inj h)
    zeros (suc n) (suc i) h = zeros n i h

-- Bits `from` up to `till` are set, and no others of the 32768.
abbrev pub SetBetween : List ℕ → (from till : ℕ) → Type 0
SetBetween bitmap from till =
    (length bitmap ≡ block_size)
    × ((k : ℕ)
        → k < block_size * 8
        → bit_at bitmap k ≡ ok (if leb from k then (if ltb k till then 1 else 0) else 0))

from_base :
    (base d e k : ℕ)
    → base ≤ d
    → base ≤ e
    → (old : Result VfsError ℕ) → old ≡ ok 0
    → (if if leb d (base + k) then ltb (base + k) e else false then ok 1 else old)
      ≡ ok (if leb (d - base) k then (if ltb k (e - base) then 1 else 0) else 0)
from_base base d e k h h' old none_set =
    let low : leb d (base + k) ≡ leb (d - base) k = ground arith in
    let high : ltb (base + k) e ≡ ltb k (e - base) = ground arith in
    rw (low, high)
      (elim (Bool-cases (leb (d - base) k)) [
        | inr a ↦ rw a none_set
        | inl a ↦ elim (Bool-cases (ltb k (e - base))) [
          | inl b ↦ rw (a, b) refl
          | inr b ↦ rw (a, b) none_set
        ]
      ])

Marks-SetBetween :
    (base d n from till : ℕ) (xs new : List ℕ)
    → base ≤ d
    → d - base ≡ from
    → d + n - base ≡ till
    → xs ≡ range d n
    → Marks base xs empty_bitmap new
    → SetBetween new from till
Marks-SetBetween base d n from till xs new h at_from at_till e (len, bits) = (
  len ∙ length-replicate {A = ℕ} block_size 0,
  (λ k hk.
      bits k (omega (arith, length-replicate {A = ℕ} block_size 0))
      ∙ ap (λ t. if t then ok 1 else bit_at empty_bitmap k)
          (ap (λ ys. has base ys k) e ∙ has-between base d n k)
      ∙ from_base base d (d + n) k h (omega arith) _ (bit_at-empty block_size k hk)
      ∙ (λ i. ok (if leb (at_from i) k then (if ltb k (at_till i) then 1 else 0) else 0))),
)

-- The bitmaps of a tree that `allocate_layout` returns can be made; they have set exactly the bits of
-- the inodes 1 up to the last and, counted from block 8, of the blocks in use.
pub bitmaps-SetBetween :
    (layout : LayoutNode) (fs : FsNode)
    → allocate_layout layout ≡ ok fs
    → (n m : ℕ) × (inodes blocks : List ℕ) × (inums fs ≡ range root_ino n)
      × (blocks_of fs ≡ range data_block_start m)
      × (inode_bitmap fs ≡ ok inodes)
      × (data_bitmap fs ≡ ok blocks)
      × SetBetween inodes 1 (1 + n)
      × SetBetween blocks 0 m
unfolding inode_bitmap data_bitmap
bitmaps-SetBetween layout fs h =
    let (i', d', ((n, is, i_at, i_le), (m, bs, d_at, d_le), _, _)) =
      allocate_layout-LaysOut layout fs h in
    let whole = length-replicate {A = ℕ} block_size 0 in
    let fit_i : Fit 0 (length empty_bitmap) (inums fs) =
      subst (Fit 0 (length empty_bitmap)) (sym is)
        (range-Fit 0 root_ino n (length empty_bitmap) (omega arith) (omega (arith, whole))) in
    let fit_d : Fit data_block_start (length empty_bitmap) (blocks_of fs) =
      subst (Fit data_block_start (length empty_bitmap)) (sym bs) (
        range-Fit data_block_start data_block_start m (length empty_bitmap) (omega arith)
          (omega (arith, whole))) in
    let (inodes, e, marks) = visit_inodes-Marks fs empty_bitmap fit_i in
    let (blocks, e', marks') = visit_data-Marks fs empty_bitmap fit_d in
    (
      n,
      m,
      inodes,
      blocks,
      is,
      bs,
      e,
      e',
      Marks-SetBetween 0 root_ino n 1 (1 + n) (inums fs) inodes (omega arith) (omega arith)
          (omega arith) is marks,
      Marks-SetBetween data_block_start data_block_start m 0 m (blocks_of fs) blocks (omega arith)
          (omega arith) (omega arith) bs marks',
    )
