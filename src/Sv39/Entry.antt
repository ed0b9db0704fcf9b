-- ===== src/Sv39/Entry.antt =====
-- The physical address in a page table entry.
use efiks_os.Prelude.{
  ℕ, ◌+◌, ◌-◌, ◌*◌, ◌/◌, ◌%◌, ◌^◌, ◌<◌, ◌≡◌, ap, ◌∙◌, bit_and, bit_or, arith, some, none, leb,
  if◌then◌else◌,
}
use efiks_os.Prelude.Bits.{
  bit_not, bit_and_fields, bit_or_fields, bit_and-low_mask, bit_and-high_mask, bit_and-zero,
  bit_or-zero, bit_or-zero_left,
}
use efiks_os.Sv39.{mask_ppn, address_bits, physical_address, set_physical_address}

module _ (pte addr : ℕ) (word : pte < 2 ^ 64) (fits : addr < 2 ^ 56) where
  abbrev high : ℕ
  high = pte / 2 ^ 54

  abbrev flags : ℕ
  flags = pte % 2 ^ 10

  abbrev frame : ℕ
  frame = addr / 2 ^ 12

  cleared : bit_and pte (bit_not 64 mask_ppn) ≡ high * 2 ^ 44 * 2 ^ 10 + flags
  cleared =
      ap (λ x. bit_and x (bit_not 64 mask_ppn)) {x = pte} {y = pte / 2 ^ 10 * 2 ^ 10 + flags}
        (omega arith)
      ∙ bit_and_fields 10 (pte / 2 ^ 10) flags ((2 ^ 10 - 1) * 2 ^ 44) (2 ^ 10 - 1) (omega arith)
          (omega arith)
      ∙ omega
          (arith, bit_and-high_mask 10 44 (pte / 2 ^ 10) (omega arith), bit_and-low_mask 10 flags)

  moved : bit_and (frame * 2 ^ 10 % 2 ^ 64) mask_ppn ≡ frame * 2 ^ 10
  moved =
      ap (λ x. bit_and x mask_ppn) {x = frame * 2 ^ 10 % 2 ^ 64} {y = frame * 2 ^ 10} (omega arith)
      ∙ bit_and-high_mask 44 10 (frame * 2 ^ 10) (omega arith)
      ∙ omega arith

  plus_zero : (x : ℕ) → x ≡ x + 0
  plus_zero x = omega arith

  high_and_frame : bit_or (high * 2 ^ 44) frame ≡ high * 2 ^ 44 + frame
  high_and_frame =
      ap (λ x. bit_or x frame) (plus_zero (high * 2 ^ 44))
      ∙ ap (bit_or (high * 2 ^ 44 + 0)) {x = frame} {y = 0 * 2 ^ 44 + frame} (omega arith)
      ∙ bit_or_fields 44 high 0 0 frame (omega arith) (omega arith)
      ∙ omega (arith, bit_or-zero high, bit_or-zero_left frame)

  joined : set_physical_address pte addr ≡ (high * 2 ^ 44 + frame) * 2 ^ 10 + flags
  unfolding set_physical_address
  joined =
      ap (λ x. bit_or x (bit_and (frame * 2 ^ 10 % 2 ^ 64) mask_ppn)) cleared
      ∙ ap (bit_or (high * 2 ^ 44 * 2 ^ 10 + flags)) (moved ∙ plus_zero (frame * 2 ^ 10))
      ∙ bit_or_fields 10 (high * 2 ^ 44) flags frame 0 (omega arith) (omega arith)
      ∙ omega (arith, high_and_frame, bit_or-zero flags)

  taken_out : bit_and ((high * 2 ^ 44 + frame) * 2 ^ 10 + flags) mask_ppn ≡ frame * 2 ^ 10
  taken_out =
      ap (bit_and ((high * 2 ^ 44 + frame) * 2 ^ 10 + flags)) (plus_zero mask_ppn)
      ∙ bit_and_fields 10 (high * 2 ^ 44 + frame) flags (2 ^ 44 - 1) 0 (omega arith) (omega arith)
      ∙ omega (arith, bit_and-low_mask 44 (high * 2 ^ 44 + frame), bit_and-zero flags)

  pub address_bits-set_physical_address :
      addr % 2 ^ 12 ≡ 0
      → (address_bits (set_physical_address pte addr) ≡ addr)
        × (set_physical_address pte addr % 2 ^ 10 ≡ pte % 2 ^ 10)
        × (set_physical_address pte addr / 2 ^ 54 ≡ pte / 2 ^ 54)
  unfolding address_bits
  address_bits-set_physical_address aligned = (
    ap (λ x. bit_and x mask_ppn * 2 ^ 2 % 2 ^ 64) joined ∙ omega (arith, taken_out),
    omega (arith, joined),
    omega (arith, joined),
  )

  -- An entry that is a word, and an address of 56 bits at the start of a page that is put into it: the
  -- entry gives the address back where it is a physical address, and fails the assertion where it is
  -- larger; it keeps its ten flag bits and its ten highest bits.
  pub physical_address-set_physical_address :
      addr % 2 ^ 12 ≡ 0
      → (physical_address (set_physical_address pte addr)
          ≡ (if leb addr (2 ^ 55 - 1) then some addr else none))
        × (set_physical_address pte addr % 2 ^ 10 ≡ pte % 2 ^ 10)
        × (set_physical_address pte addr / 2 ^ 54 ≡ pte / 2 ^ 54)
  unfolding physical_address
  physical_address-set_physical_address aligned =
      let (same, low, high_bits) = address_bits-set_physical_address aligned in
      (ap (λ a. if leb a (2 ^ 55 - 1) then some a else none) same, low, high_bits)
