-- ===== src/Sv39/Table/Entries.antt =====
-- The entries that the page tables get: entries that lead to a table, and leaves.

use efiks_os.Prelude.{
  ℕ, ◌+◌, ◌-◌, ◌*◌, ◌/◌, ◌%◌, ◌^◌, ◌<◌, ◌≡◌, refl, ap, ◌∙◌, bit_and, bit_or, true, false, arith,
}
use efiks_os.Prelude.Bits.{
  bit_and_fields, bit_or_fields, bit_and-zero, bit_or-zero, bit_and-one, bit_and-low_mask,
  bit_or-lt,
}
use efiks_os.Sv39.{mask_ppn, is_valid, is_leaf, set_flags, address_bits}
use efiks_os.Sv39.Entry.{address_bits-set_physical_address}
use efiks_os.Sv39.Table.{table_entry}

-- An entry that leads to another table.
abbrev pub IsTable : ℕ → Type 0
IsTable pte = (is_valid pte ≡ true) × (is_leaf pte ≡ false)

-- A mask of the ten lowest bits reads only those.
low_bits : (x m : ℕ) → m < 2 ^ 10 → bit_and x m ≡ bit_and (x % 2 ^ 10) m
low_bits x m h =
    ap (λ y. bit_and y m) {x = x} {y = x / 2 ^ 10 * 2 ^ 10 + x % 2 ^ 10} (omega arith)
    ∙ ap (bit_and (x / 2 ^ 10 * 2 ^ 10 + x % 2 ^ 10)) {x = m} {y = 0 * 2 ^ 10 + m} (omega arith)
    ∙ bit_and_fields 10 (x / 2 ^ 10) (x % 2 ^ 10) 0 m (omega arith) h
    ∙ omega (arith, bit_and-zero (x / 2 ^ 10))

-- The flags of an entry do not show in its physical address.
set_flags-fields :
    (pte flags : ℕ)
    → flags < 2 ^ 10
    → set_flags pte flags ≡ pte / 2 ^ 10 * 2 ^ 10 + bit_or (pte % 2 ^ 10) flags
unfolding set_flags
set_flags-fields pte flags h =
    ap (λ y. bit_or y flags) {x = pte} {y = pte / 2 ^ 10 * 2 ^ 10 + pte % 2 ^ 10} (omega arith)
    ∙ ap (bit_or (pte / 2 ^ 10 * 2 ^ 10 + pte % 2 ^ 10)) {x = flags} {y = 0 * 2 ^ 10 + flags}
        (omega arith)
    ∙ bit_or_fields 10 (pte / 2 ^ 10) (pte % 2 ^ 10) 0 flags (omega arith) h
    ∙ omega (arith, bit_or-zero (pte / 2 ^ 10))

address_bits-high : (pte : ℕ) → address_bits pte ≡ pte / 2 ^ 10 % 2 ^ 44 * 2 ^ 12 % 2 ^ 64
unfolding address_bits
address_bits-high pte =
    ap (λ y. bit_and y mask_ppn * 2 ^ 2 % 2 ^ 64) {x = pte}
      {y = pte / 2 ^ 10 * 2 ^ 10 + pte % 2 ^ 10} (omega arith)
    ∙ ap (λ y. bit_and (pte / 2 ^ 10 * 2 ^ 10 + pte % 2 ^ 10) y * 2 ^ 2 % 2 ^ 64) {x = mask_ppn}
        {y = mask_ppn + 0} (omega arith)
    ∙ omega (
      arith,
      bit_and_fields 10 (pte / 2 ^ 10) (pte % 2 ^ 10) (2 ^ 44 - 1) 0 (omega arith) (omega arith),
      bit_and-low_mask 44 (pte / 2 ^ 10),
      bit_and-zero (pte % 2 ^ 10),
    )

pub set_flags-address_bits :
    (pte flags : ℕ) → flags < 2 ^ 10 → address_bits (set_flags pte flags) ≡ address_bits pte
set_flags-address_bits pte flags h = omega (
  arith,
  address_bits-high pte,
  address_bits-high (set_flags pte flags),
  set_flags-fields pte flags h,
  bit_or-lt 10 (pte % 2 ^ 10) flags (omega arith) h,
)

pub set_flags_lt : (pte flags : ℕ) → flags < 2 ^ 10 → pte < 2 ^ 64 → set_flags pte flags < 2 ^ 64
set_flags_lt pte flags h word =
    omega (arith, set_flags-fields pte flags h, bit_or-lt 10 (pte % 2 ^ 10) flags (omega arith) h)

pub is_valid-odd : (pte : ℕ) → pte % 2 ≡ 1 → is_valid pte ≡ true
unfolding is_valid
is_valid-odd pte h = ground (arith, bit_and-one pte)

-- The entry of a new table.
module _ (pa : ℕ) (aligned : pa % 2 ^ 12 ≡ 0) (fits : pa < 2 ^ 56) where
  entry_fields :
      (address_bits (table_entry pa) ≡ pa)
      × (table_entry pa % 2 ^ 10 ≡ 1)
      × (table_entry pa / 2 ^ 54 ≡ 0)
  unfolding table_entry set_flags
  entry_fields = address_bits-set_physical_address 1 pa (omega arith) fits aligned

  pub table_entry-address_bits : address_bits (table_entry pa) ≡ pa
  table_entry-address_bits = entry_fields.0

  pub table_entry_lt : table_entry pa < 2 ^ 64
  table_entry_lt = let f = entry_fields in omega arith

  pub table_entry-IsTable : IsTable (table_entry pa)
  unfolding is_leaf
  table_entry-IsTable =
      let (address, low, high) = entry_fields in
      let valid = is_valid-odd (table_entry pa) (omega arith) in
      let none_set : bit_and (table_entry pa) 14 ≡ 0 =
        low_bits (table_entry pa) 14 (omega arith) ∙ ap (λ y. bit_and y 14) low in
      (valid, rw (valid, none_set) refl)
