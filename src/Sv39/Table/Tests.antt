-- ===== src/Sv39/Table/Tests.antt =====
-- An empty root table, in which the first page of user space is mapped.
use efiks_os.Prelude.{ℕ, ◌+◌, ◌*◌, ◌≡◌, refl, inl, [], ◌∷◌, Option, ok, ◌==◌, if◌then◌else◌, arith}
use efiks_os.Mm.Frames.Laws.{frame_bit}
use efiks_os.Sv39.{is_valid}
use efiks_os.Sv39.Table.{Store, Tables, walk, translate_to_pte_ptr, translate, map_vm}
use efiks_os.Sv39.Table.Map.{Maps, map_vm-Maps}
use efiks_os.Prelude.Bits.{bit}
use efiks_os.Sv39.Table.Sample.{base_of_ram, empty_store, root_only, empty-IsTree}

map_vm-Maps_example :
    (s' : Store) × (level' : ℕ → Option ℕ) × (map_vm empty_store base_of_ram 4096 2147549184 30
      ≡ ok s')
    × Maps empty_store root_only base_of_ram 4096 2147549184 s' level'
unfolding translate translate_to_pte_ptr walk is_valid frame_bit bit
map_vm-Maps_example =
    map_vm-Maps empty_store root_only base_of_ram 4096 2147549184 30 1 2 empty-IsTree refl refl refl
      (omega arith) (omega arith) (inl refl) refl refl refl (omega arith)

-- A page that is shared by two processes, at the address 4096.
abbrev shared_page : ℕ
shared_page = 2147495936

abbrev shared_entry : ℕ
shared_entry = 524291 * 1024 + 19

abbrev shared_tables : Tables
shared_tables t i =
    if t == base_of_ram
    then (if i == 0 then 524289 * 1024 + 1 else 0)
    else (if t == base_of_ram + 4096
        then (if i == 0 then 524290 * 1024 + 1 else 0)
        else (if t == base_of_ram + 8192 then (if i == 1 then shared_entry else 0) else 0))

abbrev shared_store : Store
shared_store = record {
  tables = shared_tables;
  frames = record { start_addr = base_of_ram; pages = 15 ∷ [] };
  counts = (shared_page, 2) ∷ [];
  contents = λ f i. f;
}
