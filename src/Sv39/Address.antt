-- ===== src/Sv39/Address.antt =====
-- Virtual addresses: which are accepted, and what their page numbers say.
use efiks_os.Prelude.{
  ℕ, ◌+◌, ◌-◌, ◌*◌, ◌/◌, ◌%◌, ◌^◌, ◌<◌, ◌≤◌, ◌≡◌, refl, Bool, true, false, ◌&&◌, ◌||◌, Option, none,
  some, ◌==◌, arith, inl, inr, ◌⊎◌, Bool-cases,
}
use efiks_os.Prelude.Bits.{bit_and-one, bit_and-low_mask}
use efiks_os.Sv39.{virtual_from_raw, vpn_2, vpn_1, vpn_0}

-- The addresses of the lower and of the upper half.
abbrev pub Accepts : ℕ → Option ℕ → Type 0
Accepts addr (some a) = (a ≡ addr) × ((addr < 2 ^ 38) ⊎ (2 ^ 64 - 2 ^ 38 ≤ addr))
Accepts addr none = (2 ^ 38 ≤ addr) × (addr < 2 ^ 64 - 2 ^ 38)

abbrev accepted : ℕ → Bool
accepted addr =
    addr / 2 ^ 38 % 2 == 0 && addr / 2 ^ 39 == 0
    || addr / 2 ^ 38 % 2 == 1 && addr / 2 ^ 39 == 2 ^ 25 - 1

accepted-half :
    (addr : ℕ) → addr < 2 ^ 64 → accepted addr ≡ true → (addr < 2 ^ 38) ⊎ (2 ^ 64 - 2 ^ 38 ≤ addr)
accepted-half addr h inside = ground arith

accepted-neither :
    (addr : ℕ) → addr < 2 ^ 64 → accepted addr ≡ false → (2 ^ 38 ≤ addr) × (addr < 2 ^ 64 - 2 ^ 38)
accepted-neither addr h outside = (ground arith, ground arith)

-- `VirtualAddress::from_raw` accepts a 64-bit number exactly where it lies in the lower or the upper
-- 256 GiB of the address space, and keeps it as it is.
pub virtual_from_raw-Accepts : (addr : ℕ) → addr < 2 ^ 64 → Accepts addr (virtual_from_raw addr)
unfolding virtual_from_raw
virtual_from_raw-Accepts addr h =
    rw (bit_and-one (addr / 2 ^ 38)) (elim (Bool-cases (accepted addr)) [
      | inl inside ↦ rw inside (refl, accepted-half addr h inside)
      | inr outside ↦ rw outside (accepted-neither addr h outside)
    ])

-- The three page numbers of an address and the offset in its page make up its lower 39 bits.
vpn-split :
    (addr : ℕ)
    → vpn_2 addr * 2 ^ 30 + vpn_1 addr * 2 ^ 21 + vpn_0 addr * 2 ^ 12 + addr % 2 ^ 12
      ≡ addr % 2 ^ 39
unfolding vpn_2 vpn_1 vpn_0
vpn-split addr = omega (
  arith,
  bit_and-low_mask 9 (addr / 2 ^ 30),
  bit_and-low_mask 9 (addr / 2 ^ 21),
  bit_and-low_mask 9 (addr / 2 ^ 12),
)
