-- ===== src/Sv39.antt =====
-- kernel/src/arch/riscv/mmu/sv39: virtual and physical addresses, and the entries of page tables. A
-- word is a number below `2 ^ 64`; `>> k` is a division by `2 ^ k`.
pub mod Address
pub mod Entry
pub mod Table
mod Tests
use efiks_os.Prelude.{
  ℕ, ◌+◌, ◌-◌, ◌*◌, ◌/◌, ◌%◌, ◌^◌, bit_and, bit_or, Bool, ◌&&◌, ◌||◌, not, Option, none, some, ltb,
  leb, ◌==◌, if◌then◌else◌,
}
use efiks_os.Prelude.Bits.{bit_not}

-- `VirtualAddress::from_raw`: bits 39 to 63 repeat bit 38.
unfoldable pub virtual_from_raw : ℕ → Option ℕ
virtual_from_raw addr =
    let sign = bit_and (addr / 2 ^ 38) 1 in
    let upper = addr / 2 ^ 39 in
    if sign == 0 && upper == 0 || sign == 1 && upper == 2 ^ 25 - 1 then some addr else none

abbrev pub vpn_mask : ℕ
vpn_mask = 511

unfoldable pub vpn_2 : ℕ → ℕ
vpn_2 addr = bit_and (addr / 2 ^ 30) vpn_mask

unfoldable pub vpn_1 : ℕ → ℕ
vpn_1 addr = bit_and (addr / 2 ^ 21) vpn_mask

unfoldable pub vpn_0 : ℕ → ℕ
vpn_0 addr = bit_and (addr / 2 ^ 12) vpn_mask

-- `PhysicalAddress::MAX`
abbrev pub physical_max : ℕ
physical_max = 2 ^ 55 - 1

unfoldable pub physical_from_raw : ℕ → Option ℕ
physical_from_raw addr = if ltb physical_max addr then none else some addr

unfoldable pub is_4k_page_aligned : ℕ → Bool
is_4k_page_aligned addr = bit_and addr 4095 == 0

unfoldable pub to_identical_va : ℕ → Option ℕ
unfolding virtual_from_raw
to_identical_va addr = virtual_from_raw addr

-- `PteFlags`
abbrev pub flag_v : ℕ
flag_v = 1

abbrev pub flag_r : ℕ
flag_r = 2

abbrev pub flag_w : ℕ
flag_w = 4

abbrev pub flag_x : ℕ
flag_x = 8

abbrev pub flag_u : ℕ
flag_u = 16

abbrev pub flag_rwx : ℕ
flag_rwx = 14

-- `MASK_PPN`
abbrev pub mask_ppn : ℕ
mask_ppn = (2 ^ 44 - 1) * 2 ^ 10

unfoldable pub is_valid : ℕ → Bool
is_valid pte = bit_and pte flag_v == 1

unfoldable pub is_leaf : ℕ → Bool
unfolding is_valid
is_leaf pte = is_valid pte && not (bit_and pte flag_rwx == 0)

unfoldable pub is_writable : ℕ → Bool
is_writable pte = not (bit_and pte flag_w == 0)

unfoldable pub is_user : ℕ → Bool
is_user pte = not (bit_and pte flag_u == 0)

unfoldable pub set_flags : ℕ → ℕ → ℕ
set_flags pte flags = bit_or pte flags

unfoldable pub unset_flags : ℕ → ℕ → ℕ
unset_flags pte flags = bit_and pte (bit_not 64 flags)

-- The bits that `physical_address` reads. The tables make entries of physical addresses only, which pass
-- its assertion, and read the bits.
unfoldable pub address_bits : ℕ → ℕ
address_bits pte = bit_and pte mask_ppn * 2 ^ 2 % 2 ^ 64

-- `physical_address`, none where the debug assertion of `from_raw_unchecked` fails.
unfoldable pub physical_address : ℕ → Option ℕ
unfolding address_bits
physical_address pte = if leb (address_bits pte) physical_max then some (address_bits pte) else none

unfoldable pub set_physical_address : ℕ → ℕ → ℕ
set_physical_address pte addr =
    bit_or (bit_and pte (bit_not 64 mask_ppn)) (bit_and (addr / 2 ^ 12 * 2 ^ 10 % 2 ^ 64) mask_ppn)
