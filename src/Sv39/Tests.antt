-- ===== src/Sv39/Tests.antt =====
-- An address of the kernel's half, and an entry that gets a new address.
use efiks_os.Prelude.{ℕ, ◌/◌, ◌%◌, ◌^◌, ◌≡◌, refl, some, arith}
use efiks_os.Sv39.{virtual_from_raw, physical_address, set_physical_address}
use efiks_os.Sv39.Address.{Accepts, virtual_from_raw-Accepts}
use efiks_os.Sv39.Entry.{physical_address-set_physical_address}

abbrev kernel_image : ℕ
kernel_image = 18446744071562067968

virtual_from_raw-Accepts_example : Accepts kernel_image (virtual_from_raw kernel_image)
virtual_from_raw-Accepts_example = virtual_from_raw-Accepts kernel_image (omega arith)

physical_address-set_physical_address_example :
    (physical_address (set_physical_address 1039 2147483648) ≡ some 2147483648)
    × (set_physical_address 1039 2147483648 % 2 ^ 10 ≡ 1039 % 2 ^ 10)
    × (set_physical_address 1039 2147483648 / 2 ^ 54 ≡ 1039 / 2 ^ 54)
physical_address-set_physical_address_example =
    physical_address-set_physical_address 1039 2147483648 (omega arith) (omega arith) refl
