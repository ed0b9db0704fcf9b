-- ===== src/Sv39/Table/Leaf.antt =====
-- The leaf entry that `map_leaf` makes out of an entry that is not valid.
use efiks_os.Prelude.{
  ℕ, ◌/◌, ◌%◌, ◌^◌, ◌<◌, ◌≡◌, ◌≢◌, refl, sym, ap, ◌∙◌, ◌⊎◌, inl, inr, bit_and, bit_or, true, false,
  arith, ≢→==, some, ok,
}
use efiks_os.Prelude.Bits.{bit, bit-bit_and, bit-bit_or, bit_lt, bit_or-lt, bit-zero}
use efiks_os.Sv39.{is_valid, is_leaf, set_flags, address_bits, set_physical_address}
use efiks_os.Sv39.Entry.{address_bits-set_physical_address}
use efiks_os.Sv39.Table.{map_leaf, leaf_flags}
use efiks_os.Sv39.Table.Entries.{is_valid-odd, set_flags-address_bits, set_flags_lt}

-- At least one of R, W and X.
abbrev pub Permits : ℕ → Type 0
Permits flags = (bit flags 1 ≡ 1) ⊎ (bit flags 2 ≡ 1) ⊎ (bit flags 3 ≡ 1)

some_bit-ne : (x k : ℕ) → bit 14 k ≡ 1 → bit x k ≡ 1 → bit_and x 14 ≢ 0
some_bit-ne x k mask set e =
    omega (arith, sym (bit-bit_and x 14 k) ∙ ap (λ y. bit y k) e ∙ bit-zero k, mask, set)

bit-set_flags :
    (pte flags k : ℕ) → bit flags k ≡ 1 → bit (set_flags pte (bit_or flags leaf_flags)) k ≡ 1
unfolding set_flags
bit-set_flags pte flags k set = omega (
  arith,
  bit-bit_or pte (bit_or flags leaf_flags) k,
  bit-bit_or flags leaf_flags k,
  bit_lt pte k,
  bit_lt leaf_flags k,
  set,
)

Permits-ne :
    (pte flags : ℕ) → Permits flags → bit_and (set_flags pte (bit_or flags leaf_flags)) 14 ≢ 0
unfolding bit
Permits-ne pte flags permits =
    let y = set_flags pte (bit_or flags leaf_flags) in
    elim permits [
      | inl r ↦ some_bit-ne y 1 refl (bit-set_flags pte flags 1 r)
      | inr (inl w) ↦ some_bit-ne y 2 refl (bit-set_flags pte flags 2 w)
      | inr (inr x) ↦ some_bit-ne y 3 refl (bit-set_flags pte flags 3 x)
    ]

low_digit : (x f : ℕ) → bit_or x (bit_or f 193) % 2 ≡ 1
unfolding bit
low_digit x f = omega (arith, bit-bit_or x (bit_or f 193) 0, bit-bit_or f 193 0)

module _ (old pa flags : ℕ) (word : old < 2 ^ 64) (invalid : is_valid old ≡ false)
    (aligned : pa % 2 ^ 12 ≡ 0) (fits : pa < 2 ^ 56) (small : flags < 2 ^ 10) where
  unfoldable pub new_leaf : ℕ
  new_leaf = set_flags (set_physical_address old pa) (bit_or flags leaf_flags)

  pub map_leaf-new_leaf : map_leaf old (some pa) flags ≡ ok new_leaf
  unfolding map_leaf new_leaf
  map_leaf-new_leaf = rw invalid refl

  all_flags : bit_or flags leaf_flags < 2 ^ 10
  all_flags = bit_or-lt 10 flags leaf_flags small (omega arith)

  moved :
      (address_bits (set_physical_address old pa) ≡ pa)
      × (set_physical_address old pa % 2 ^ 10 ≡ old % 2 ^ 10)
      × (set_physical_address old pa / 2 ^ 54 ≡ old / 2 ^ 54)
  moved = address_bits-set_physical_address old pa word fits aligned

  pub new_leaf-address_bits : address_bits new_leaf ≡ pa
  unfolding new_leaf
  new_leaf-address_bits =
      set_flags-address_bits (set_physical_address old pa) (bit_or flags leaf_flags) all_flags
      ∙ moved.0

  pub new_leaf_lt : new_leaf < 2 ^ 64
  unfolding new_leaf
  new_leaf_lt =
      set_flags_lt (set_physical_address old pa) (bit_or flags leaf_flags) all_flags
        (omega (arith, moved.2))

  pub new_leaf-is_valid : is_valid new_leaf ≡ true
  unfolding new_leaf set_flags
  new_leaf-is_valid =
      is_valid-odd (bit_or (set_physical_address old pa) (bit_or flags leaf_flags))
        (low_digit (set_physical_address old pa) flags)

  pub new_leaf-is_leaf : Permits flags → is_leaf new_leaf ≡ true
  unfolding new_leaf is_leaf
  new_leaf-is_leaf permits =
      rw (new_leaf-is_valid, ≢→== _ 0 (Permits-ne (set_physical_address old pa) flags permits)) refl
