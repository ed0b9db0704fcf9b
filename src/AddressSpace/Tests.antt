-- ===== src/AddressSpace/Tests.antt =====
-- A fault in a region without a page, in an empty address space, and one in a region outside the halves of
-- the address space.
use efiks_os.Prelude.{◌+◌, ◌^◌, panic, ◌≡◌, refl, inl, [], ◌∷◌, ok, arith}
use efiks_os.Prelude.Bits.{bit}
use efiks_os.Mm.Frames.Laws.{frame_bit}
use efiks_os.Mm.Regions.{
  allocate, align_down, page_size, fault_action, flags_at, flags_from, search_start,
}
use efiks_os.Sv39.{is_valid}
use efiks_os.Sv39.Table.{translate, translate_to_pte_ptr, walk}
use efiks_os.Sv39.Table.Sample.{base_of_ram, empty_store, root_only, empty-IsTree}
use efiks_os.AddressSpace.{AddressSpace, handle_page_fault}
use efiks_os.AddressSpace.Fault.{Faults, handle_page_fault-Faults, handle_page_fault-panics}

abbrev one_region : AddressSpace
one_region = record {
  store = empty_store;
  root_pt = base_of_ram;
  regions = record { start = 8192; end = 16384; flags = 22 } ∷ [];
  kernel_stack = record { guard = 0; bottom = 0; top = 0 };
}

-- A region above the lower 256 GiB of the address space.
abbrev far_region : AddressSpace
far_region = record one_region {
  regions = record { start = 2 ^ 40; end = 2 ^ 40 + 4096; flags = 22 } ∷ [];
}

handle_page_fault-panics_example : handle_page_fault far_region (2 ^ 40) 4 ≡ panic
unfolding align_down fault_action flags_at flags_from search_start
handle_page_fault-panics_example =
    handle_page_fault-panics far_region (2 ^ 40) 4 (allocate 22) (omega arith) (omega arith) refl

handle_page_fault-Faults_example :
    (mm' : AddressSpace) × (handle_page_fault one_region 12345 4 ≡ ok mm')
    × Faults one_region root_only (align_down 12345 page_size) mm'
unfolding translate translate_to_pte_ptr walk is_valid frame_bit bit align_down fault_action
    flags_at flags_from search_start
handle_page_fault-Faults_example =
    handle_page_fault-Faults one_region root_only 12345 4 22 1 2 3 empty-IsTree refl (omega arith)
      (inl (omega arith)) refl (omega arith) (inl refl) refl refl refl refl (omega arith)
      (omega arith) (omega arith)
