-- ===== src/Vsfs/Bitmap/Laws.antt =====
-- `allocate_bitmap_bit` and `free_bitmap_bit` against the bits that the sectors of a bitmap hold.
use native.Mathlib.Decide.{dec_lt, ℕ_discrete}
use efiks_os.Prelude.{
  ℕ, zero, suc, ◌+◌, ◌-◌, ◌*◌, ◌/◌, ◌%◌, ◌^◌, ◌≤◌, ◌<◌, min, bit_and, List, Option, none, some,
  get_elem?, set, length, Result, ok, err, panic, ◌>>=◌, ◌==◌, or_panic, if◌then◌else◌, ◌≡◌, refl,
  sym, ◌∙◌, ap, arith, le→ltb, Bool-cases, Option-cases, Result-cases, inl, inr, get_elem?-set_self,
  get_elem?-set_ne, length-set, lt_of_get_elem?, le_of_get_elem?, ◌⊎◌,
}
use efiks_os.Prelude.Bits.{bit, bit_clear, bit_set, bit-bit_or-pow}
use efiks_os.Vfs.Device.{BlockDevice, VfsError, fs, IsReliable}
use efiks_os.Vsfs.Layout.{sectors_per_block}
use efiks_os.Vsfs.Bitmap.{
  bits_per_sector, find_clear, find_in_sectors, sectors_for, allocate_bitmap_bit,
}

-- Bit `i` of a sector's bytes.
unfoldable pub bit_at : List ℕ → ℕ → Result VfsError ℕ
bit_at buf i = or_panic (get_elem? buf (i / 8)) >>= λ byte. ok (bit byte (i % 8))

-- What `find_clear` may return: the first clear bit, with the bytes in which it alone is changed.
abbrev Found : List ℕ → ℕ → ℕ → Result VfsError (Option (ℕ × List ℕ)) → Type 0
Found buf from count (ok none) = (j : ℕ) → from ≤ j → j < from + count → bit_at buf j ≡ ok 1
Found buf from count (ok (some (i, marked))) =
    (from ≤ i)
    × (i < from + count)
    × (bit_at buf i ≡ ok 0)
    × ((j : ℕ) → from ≤ j → j < i → bit_at buf j ≡ ok 1)
    × (length marked ≡ length buf)
    × ((j : ℕ) → bit_at marked j ≡ (if i == j then ok 1 else bit_at buf j))
Found buf from count (err e) = ⊥
Found buf from count panic = (0 < count) × (length buf * 8 < from + count)

-- Setting the bit at `i` of the byte there.
pub bit_at-set :
    (buf : List ℕ) (i byte new v j : ℕ)
    → get_elem? buf (i / 8) ≡ some byte
    → ((k : ℕ) → k < 8 → bit new k ≡ (if i % 8 == k then v else bit byte k))
    → bit_at (set buf (i / 8) new) j ≡ (if i == j then ok v else bit_at buf j)
unfolding bit_at
bit_at-set buf i byte new v j at digits = elim (ℕ_discrete (i / 8) (j / 8)) [
  | yes same ↦
      let self = get_elem?-set_self buf (i / 8) new (lt_of_get_elem? buf (i / 8) at) in
      rw
        (ap (get_elem? (set buf (i / 8) new)) (sym same) ∙ self, ap (get_elem? buf) (sym same) ∙ at)
        (ground (arith, digits (j % 8) (omega arith)))
  | no ne ↦ rw (get_elem?-set_ne buf (i / 8) (j / 8) new ne) (ground arith)
]

pub bit_at-byte :
    (buf : List ℕ) (i byte : ℕ)
    → get_elem? buf (i / 8) ≡ some byte
    → bit_at buf i ≡ ok (bit byte (i % 8))
unfolding bit_at
bit_at-byte buf i byte at = rw at refl

-- A set bit before the bits that were searched.
Found-skip :
    (buf : List ℕ) (from count : ℕ) (res : Result VfsError (Option (ℕ × List ℕ)))
    → bit_at buf from ≡ ok 1
    → Found buf (suc from) count res
    → Found buf from (suc count) res
Found-skip buf from count (ok none) one t = λ j lo hi. elim (ℕ_discrete from j) [
  | yes e ↦ ap (bit_at buf) (sym e) ∙ one
  | no ne ↦ t j (omega arith) (omega arith)
]
Found-skip buf from count (ok (some (i, marked))) one (lo, hi, clear, ones, len, rest) = (
  omega arith,
  omega arith,
  clear,
  (λ j l h. elim (ℕ_discrete from j) [
    | yes e ↦ ap (bit_at buf) (sym e) ∙ one
    | no ne ↦ ones j (omega arith) h
  ]),
  len,
  rest,
)
Found-skip buf from count (err e) one t = t
Found-skip buf from count panic one t = (omega arith, omega arith)

find_clear-Found :
    (buf : List ℕ) (from count : ℕ) → Found buf from count (find_clear buf from count)
unfolding find_clear
find_clear-Found buf from zero = λ j lo hi. absurd (omega arith)
find_clear-Found buf from (suc count) = elim (Option-cases (get_elem? buf (from / 8))) [
  | inl at ↦ rw (at, find_clear) (omega arith, omega (arith, le_of_get_elem? buf (from / 8) at))
  | inr (byte, at) ↦ elim (Bool-cases (bit_and byte (2 ^ (from % 8)) == 0)) [
    | inl clear ↦
        rw (at, clear, find_clear)
          (
            omega arith,
            omega arith,
            bit_at-byte buf from byte at ∙ ap ok (bit_clear byte (from % 8) clear),
            (λ j lo hi. absurd (omega arith)),
            length-set buf (from / 8) _,
            (λ j. bit_at-set buf from byte _ 1 j at (λ k h. bit-bit_or-pow byte (from % 8) k)),
          )
    | inr occupied ↦
        rw (at, occupied, find_clear)
          (Found-skip buf from count _
            (bit_at-byte buf from byte at ∙ ap ok (bit_set byte (from % 8) occupied))
            (find_clear-Found buf (suc from) count))
  ]
]

module _ (device : BlockDevice) where
  open device use {Disk, read_sector, write_sector}

  -- Bit `i` of the bitmap that begins at `bitmap_block`.
  unfoldable pub bitmap_bit : Disk → ℕ → ℕ → Result VfsError ℕ
  bitmap_bit d bitmap_block i =
      read_sector (bitmap_block * sectors_per_block + i / bits_per_sector) d >>= λ buf.
      bit_at buf (i % bits_per_sector)

  -- From `d` to `d'`, bit `i` of the bitmap is given the value `v`, and no other bit is changed.
  abbrev pub Changes : Disk → ℕ → ℕ → ℕ → Disk → Type 0
  Changes d bitmap_block i v d' =
      (j : ℕ)
      → bitmap_bit d' bitmap_block j ≡ (if i == j then ok v else bitmap_bit d bitmap_block j)

  -- A sector that is written with one bit changed.
  pub write-Changes :
      (rel : IsReliable device) (d : Disk) (bitmap_block so i v : ℕ) (buf marked : List ℕ)
      → i / bits_per_sector ≡ so
      → read_sector (bitmap_block * sectors_per_block + so) d ≡ ok buf
      → length marked ≡ length buf
      → ((j : ℕ)
          → j < bits_per_sector
          → bit_at marked j ≡ (if i % bits_per_sector == j then ok v else bit_at buf j))
      → (write_sector (bitmap_block * sectors_per_block + so) marked d).1 ≡ ok tt
      → Changes d bitmap_block i v (write_sector (bitmap_block * sectors_per_block + so) marked d).0
  unfolding bitmap_bit
  write-Changes rel d bitmap_block so i v buf marked place loaded len bits done j =
      elim (ℕ_discrete (j / bits_per_sector) so) [
        | yes same ↦
            let sector = bitmap_block * sectors_per_block + so in
            let full = rel.read_length sector d loaded in
            rw (same, rel.read_back sector marked d (len ∙ full) done, loaded)
              (bits (j % bits_per_sector) (omega arith) ∙ ground arith)
        | no ne ↦
            rw
              (rel.read_other (bitmap_block * sectors_per_block + so)
                (bitmap_block * sectors_per_block + j / bits_per_sector) marked d (omega arith))
              (ground arith)
      ]

  -- The bits of one sector.
  pub bitmap_bit-sector :
      (d : Disk) (bitmap_block sector_offset j : ℕ) (buf : List ℕ)
      → read_sector (bitmap_block * sectors_per_block + sector_offset) d ≡ ok buf
      → j / bits_per_sector ≡ sector_offset
      → bitmap_bit d bitmap_block j ≡ bit_at buf (j % bits_per_sector)
  unfolding bitmap_bit
  bitmap_bit-sector d bitmap_block sector_offset j buf loaded same = rw (same, loaded) refl

  -- An error of the device, in the state `d`.
  abbrev pub DeviceError : Disk → VfsError → Type 0
  DeviceError d e =
      ((s : ℕ) × (read_sector s d ≡ err e))
      ⊎ ((s : ℕ) × (bytes : List ℕ) × ((write_sector s bytes d).1 ≡ err e))

  module _ (d : Disk) (bitmap_block start_bit end_bit : ℕ) where
    -- The bits from `lo` on are searched: the first clear one is taken; without one, nothing is
    -- written.
    abbrev pub Allocates : (lo : ℕ) → Disk × Result VfsError ℕ → Type 0
    Allocates lo (d', ok i) =
        (lo ≤ i)
        × (start_bit ≤ i)
        × (i < end_bit)
        × (bitmap_bit d bitmap_block i ≡ ok 0)
        × ((j : ℕ) → lo ≤ j → start_bit ≤ j → j < i → bitmap_bit d bitmap_block j ≡ ok 1)
        × Changes d bitmap_block i 1 d'
    Allocates lo (d', err e) =
        DeviceError d e
        ⊎ ((e ≡ fs)
            × (d' ≡ d)
            × ((j : ℕ) → lo ≤ j → start_bit ≤ j → j < end_bit → bitmap_bit d bitmap_block j ≡ ok 1))
    Allocates lo (d', panic) = ⊥

    -- All bits of the sector `sector_offset` that were searched are set.
    Allocates-next :
        (sector_offset : ℕ) (res : Disk × Result VfsError ℕ)
        → ((j : ℕ)
            → j / bits_per_sector ≡ sector_offset
            → start_bit ≤ j
            → j < end_bit
            → bitmap_bit d bitmap_block j ≡ ok 1)
        → Allocates (suc sector_offset * bits_per_sector) res
        → Allocates (sector_offset * bits_per_sector) res
    Allocates-next so (d', ok i) ones (lo, st, hi, clear, before, changes) = (
      omega arith,
      st,
      hi,
      clear,
      (λ j l s h. elim (dec_lt j (suc so * bits_per_sector)) [
        | yes here ↦ ones j (omega arith) s (omega arith)
        | no there ↦ before j (omega arith) s h
      ]),
      changes,
    )
    Allocates-next so (d', err e) ones (inl device_error) = inl device_error
    Allocates-next so (d', err e) ones (inr (is_fs, same, full)) = inr (
      is_fs,
      same,
      (λ j l s h. elim (dec_lt j (suc so * bits_per_sector)) [
        | yes here ↦ ones j (omega arith) s h
        | no there ↦ full j (omega arith) s h
      ]),
    )
    Allocates-next so (d', panic) ones t = t

    module _ (rel : IsReliable device) where
      find_in_sectors-Allocates :
          (sector_offset count : ℕ)
          → end_bit ≤ (sector_offset + count) * bits_per_sector
          → Allocates
              (sector_offset * bits_per_sector)
              (find_in_sectors device bitmap_block start_bit end_bit sector_offset count d)
      unfolding find_in_sectors
      find_in_sectors-Allocates so zero covers = inr (refl, refl, (λ j l s h. absurd (omega arith)))
      find_in_sectors-Allocates so (suc count) covers =
          let sector = bitmap_block * sectors_per_block + so in
          let from = start_bit - so * bits_per_sector in
          let to = min (end_bit - so * bits_per_sector) bits_per_sector in
          elim (Result-cases (read_sector sector d)) [
            | inr (inr p) ↦ absurd (rel.read_returns sector d p)
            | inr (inl (e, p)) ↦ rw (p, find_in_sectors) (inl (inl (sector, p)))
            | inl (buf, p) ↦
                let full = rel.read_length sector d p in
                let found = find_clear-Found buf from (to - from) in
                elim (Result-cases (find_clear buf from (to - from))) [
                  | inr (inr q) ↦ absurd (omega (arith, rw q at found))
                  | inr (inl (e, q)) ↦ absurd (rw q at found)
                  | inl (none, q) ↦
                      rw (p, q, find_in_sectors)
                        (Allocates-next so _
                          (λ j same s h.
                            bitmap_bit-sector d bitmap_block so j buf p same
                            ∙ (rw q at found) (j % bits_per_sector) (omega arith) (omega arith))
                          (find_in_sectors-Allocates (suc so) count (omega arith)))
                  | inl (some (i, marked), q) ↦
                      let (lo, hi, clear, ones, len, rest) = rw q at found in
                      elim (Result-cases (write_sector sector marked d).1) [
                        | inr (inr w) ↦ absurd (rel.write_returns sector marked d w)
                        | inr (inl (e, w)) ↦
                            rw (p, q, w, find_in_sectors) (inl (inr (sector, marked, w)))
                        | inl (tt, w) ↦
                            rw (p, q, w, find_in_sectors)
                              (
                                omega arith,
                                omega arith,
                                omega arith,
                                bitmap_bit-sector d bitmap_block so (so * bits_per_sector + i) buf p
                                      (omega arith)
                                    ∙ ap (bit_at buf)
                                        {x = (so * bits_per_sector + i) % bits_per_sector} {y = i}
                                        (omega arith)
                                    ∙ clear,
                                (λ j l s h.
                                    bitmap_bit-sector d bitmap_block so j buf p (omega arith)
                                    ∙ ones (j % bits_per_sector) (omega arith) (omega arith)),
                                write-Changes rel d bitmap_block so (so * bits_per_sector + i) 1 buf
                                    marked (omega arith) p len (λ j h. rest j ∙ ground arith) w,
                              )
                      ]
                ]
          ]

      -- `allocate_bitmap_bit` on a bitmap that fits its block, on a reliable device.
      -- Where it succeeds with `i`, that is the first clear bit from `start_bit` on and below
      -- `end_bit`, it is set and no other bit of the bitmap is changed. Where it fails, either the
      -- device failed, or every bit of the range is set and the disk is as before. It does not panic.
      pub allocate_bitmap_bit-Allocates :
          end_bit ≤ sectors_per_block * bits_per_sector
          → Allocates 0 (allocate_bitmap_bit device bitmap_block start_bit end_bit d)
      unfolding allocate_bitmap_bit
      allocate_bitmap_bit-Allocates fits =
          rw (le→ltb sectors_per_block (sectors_for device end_bit) (omega arith)) (
            from_start _ (
              find_in_sectors-Allocates (start_bit / bits_per_sector)
                (sectors_for device end_bit - start_bit / bits_per_sector) (omega arith)))
        where
          from_start :
              (res : Disk × Result VfsError ℕ)
              → Allocates (start_bit / bits_per_sector * bits_per_sector) res
              → Allocates 0 res
          from_start (d', ok i) (lo, st, hi, clear, before, changes) =
              (omega arith, st, hi, clear, (λ j l s h. before j (omega arith) s h), changes)
          from_start (d', err e) (inl device_error) = inl device_error
          from_start (d', err e) (inr (is_fs, same, full)) =
              inr (is_fs, same, (λ j l s h. full j (omega arith) s h))
          from_start (d', panic) t = t
