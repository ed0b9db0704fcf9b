-- ===== src/Vsfs/Bitmap/Free.antt =====
-- `free_bitmap_bit`, and freeing after allocating.
use native.Mathlib.Decide.{ℕ_discrete}
use efiks_os.Prelude.{
  ℕ, ◌+◌, ◌*◌, ◌/◌, ◌%◌, ◌^◌, ◌≤◌, bit_and, List, get_elem?, set, Result, ok, err, panic, leb, ◌==◌,
  ◌≡◌, refl, sym, ◌∙◌, ap, arith, tests, Bool-cases, Option-cases, Result-cases, inl, inr,
  length-set, le_of_get_elem?, ◌⊎◌, ==-refl, ≢→==,
}
use efiks_os.Prelude.Bits.{bit, bit_not, bit_clear, bit_set, bit-clear_pow}
use efiks_os.Vfs.Device.{BlockDevice, VfsError, fs, IsReliable}
use efiks_os.Vsfs.Layout.{sectors_per_block}
use efiks_os.Vsfs.Bitmap.{bits_per_sector, allocate_bitmap_bit, free_bitmap_bit}
use efiks_os.Vsfs.Bitmap.Laws.{
  bit_at-set, bit_at-byte, bitmap_bit, Changes, DeviceError, write-Changes, bitmap_bit-sector,
  allocate_bitmap_bit-Allocates,
}

module _ (device : BlockDevice) where
  open device use {Disk, read_sector, write_sector}

  abbrev pub Frees : Disk → ℕ → ℕ → Disk × Result VfsError (Unit {0}) → Type 0
  Frees d bitmap_block i (d', ok _) =
      (bitmap_bit device d bitmap_block i ≡ ok 1) × Changes device d bitmap_block i 0 d'
  Frees d bitmap_block i (d', err e) =
      DeviceError device d e
      ⊎ ((e ≡ fs)
          × (d' ≡ d)
          × ((bitmap_bit device d bitmap_block i ≡ ok 0)
              ⊎ (sectors_per_block * bits_per_sector ≤ i)))
  Frees d bitmap_block i (d', panic) = ⊥

  written-Frees :
      (rel : IsReliable device) (d : Disk) (bitmap_block i s : ℕ) (marked : List ℕ)
      (res : Disk × Result VfsError (Unit {0}))
      → write_sector s marked d ≡ res
      → bitmap_bit device d bitmap_block i ≡ ok 1
      → ((write_sector s marked d).1 ≡ ok tt
          → Changes device d bitmap_block i 0 (write_sector s marked d).0)
      → Frees d bitmap_block i res
  written-Frees rel d bitmap_block i s marked (d', ok tt) e one changes =
      (one, rw (ap (λ x. x.0) e) at (changes (ap (λ x. x.1) e)))
  written-Frees rel d bitmap_block i s marked (d', err k) e one changes =
      inl (inr (s, marked, ap (λ x. x.1) e))
  written-Frees rel d bitmap_block i s marked (d', panic) e one changes =
      rel.write_returns s marked d (ap (λ x. x.1) e)

  module _ (rel : IsReliable device) (d : Disk) (bitmap_block i : ℕ) where
    -- On a reliable device `free_bitmap_bit` clears a bit that is set and changes no other; a bit that is clear or that lies
    -- outside the bitmap's block is refused with the disk as before, and any other error is the
    -- device's. It does not panic.
    pub free_bitmap_bit-Frees : Frees d bitmap_block i (free_bitmap_bit device bitmap_block i d)
    unfolding free_bitmap_bit
    free_bitmap_bit-Frees =
        let so = i / bits_per_sector in
        let sector = bitmap_block * sectors_per_block + so in
        let byte_idx = i % bits_per_sector / 8 in
        elim (Bool-cases (leb sectors_per_block so)) [
          | inl outside ↦ rw outside (inr (refl, refl, inr (omega tests)))
          | inr inside ↦ elim (Result-cases (read_sector sector d)) [
            | inr (inr p) ↦ absurd (rel.read_returns sector d p)
            | inr (inl (e, p)) ↦ rw (inside, p, free_bitmap_bit) (inl (inl (sector, p)))
            | inl (buf, p) ↦ elim (Option-cases (get_elem? buf byte_idx)) [
              | inl q ↦
                  absurd (omega (arith, le_of_get_elem? buf byte_idx q, rel.read_length sector d p))
              | inr (byte, q) ↦
                  let here =
                    bitmap_bit-sector device d bitmap_block so i buf p refl
                    ∙ bit_at-byte buf (i % bits_per_sector) byte q in
                  let digit =
                    ap (bit byte) {x = i % bits_per_sector % 8} {y = i % 8} (omega arith) in
                  elim (Bool-cases (bit_and byte (2 ^ (i % 8)) == 0)) [
                    | inl clear ↦
                        rw (inside, p, q, clear, free_bitmap_bit)
                          (inr
                            (refl, refl, inl (here ∙ ap ok (digit ∙ bit_clear byte (i % 8) clear))))
                    | inr occupied ↦
                        let new = bit_and byte (bit_not 8 (2 ^ (i % 8))) in
                        rw (inside, p, q, occupied, free_bitmap_bit)
                          (written-Frees rel d bitmap_block i sector (set buf byte_idx new) _ refl
                            (here ∙ ap ok (digit ∙ bit_set byte (i % 8) occupied))
                            (write-Changes device rel d bitmap_block so i 0 buf
                              (set buf byte_idx new) refl p (length-set buf byte_idx new)
                              (λ j h. bit_at-set buf (i % bits_per_sector) byte new 0 j q (λ k hk.
                                bit-clear_pow 8 byte (i % 8) k (omega arith) hk ∙ ground arith))))
                  ]
            ]
          ]
        ]

  -- On a reliable device and a bitmap that fits its block: a bit that was allocated and then freed,
  -- both with success, leaves every bit of the bitmap as it was.
  pub free-allocate :
      (rel : IsReliable device) (d d₁ d₂ : Disk) (bitmap_block start_bit end_bit i : ℕ)
      → end_bit ≤ sectors_per_block * bits_per_sector
      → allocate_bitmap_bit device bitmap_block start_bit end_bit d ≡ (d₁, ok i)
      → free_bitmap_bit device bitmap_block i d₁ ≡ (d₂, ok tt)
      → (j : ℕ) → bitmap_bit device d₂ bitmap_block j ≡ bitmap_bit device d bitmap_block j
  free-allocate rel d d₁ d₂ bitmap_block start_bit end_bit i fits allocated freed j =
      let (lo, st, hi, clear, ones, taken) =
        rw allocated at
          (allocate_bitmap_bit-Allocates device d bitmap_block start_bit end_bit rel fits) in
      let (one, given) = rw freed at (free_bitmap_bit-Frees rel d₁ bitmap_block i) in
      elim (ℕ_discrete i j) [
        | yes e ↦ given j ∙ rw (e, ==-refl j) (sym (rw e at clear))
        | no ne ↦ given j ∙ rw (≢→== i j ne) (taken j ∙ rw (≢→== i j ne) refl)
      ]
