-- ===== src/AddressSpace.antt =====
-- kernel/src/mm/mod.rs and kernel/src/mm/mappings.rs: the address space of a task over its page tables,
-- regions and reference counts. The flush of the TLB is left out.
pub mod Fault
mod Tests
use efiks_os.Prelude.{
  ℕ, zero, suc, ◌+◌, ◌-◌, ◌*◌, ◌/◌, ◌%◌, ◌^◌, Bool, true, false, List, [], ◌∷◌, Option, none, some,
  Result, ok, err, panic, ◌>>=◌, or_panic, ltb, leb, ◌==◌, if◌then◌else◌, ok_or,
}
use efiks_os.Mm.Error.{Error, overflow, unmapped}
use efiks_os.Mm.Frames.{free}
use efiks_os.Mm.Pages.{add, remove}
use efiks_os.Mm.Regions.{
  VmRegion, FaultAction, copy_on_write, allocate, fault_action, insert_mapping, page_size, page_end,
  align_down, user_rw,
}
use efiks_os.Sv39.{flag_w, virtual_from_raw}
use efiks_os.Sv39.Table.{
  Store, alloc_frame, map_vm, remap_vm, translate, traverse_free, direct_mapping_base,
  in_direct_mapping,
}
use efiks_os.Sv39.Table

pub record KernelStackRegion : Type 0 where
  pub guard : ℕ
  pub bottom : ℕ
  pub top : ℕ

-- `MemoryManager` with the memory that it works on.
pub record AddressSpace : Type 0 where
  pub store : Store
  pub root_pt : ℕ
  pub regions : List VmRegion
  pub kernel_stack : KernelStackRegion

abbrev pub phys_to_virt : ℕ → ℕ
phys_to_virt phys = phys + direct_mapping_base

abbrev pub virt_to_phys : ℕ → ℕ
virt_to_phys virt = virt - direct_mapping_base

abbrev pub zero_frame : Store → (pa : ℕ) → Store
zero_frame s pa = record s { contents = λ f i. if f == pa then 0 else s.contents f i }

-- `alloc_frame().unwrap()` and `zero_frame`
unfoldable pub fresh_frame : Store → Result Error (Store × ℕ)
unfolding alloc_frame
fresh_frame s = alloc_frame s.frames >>= λ (frames, pa).
    if in_direct_mapping pa then ok (zero_frame (record s { frames = frames }) pa, pa) else panic

-- The conversion of a `VirtAddr` to the address of the architecture, whose debug assertion is on.
unfoldable pub to_virtual : ℕ → Result Error ℕ
to_virtual va = or_panic (virtual_from_raw va)

-- `translate` of the memory manager
unfoldable pub translate_page : AddressSpace → (va : ℕ) → Result Error (Option ℕ)
unfolding to_virtual
translate_page mm va = to_virtual va >>= λ va'. ok (translate mm.store.tables mm.root_pt va')

-- A fresh frame is mapped at the address and counted.
unfoldable pub map_fresh : Store → (root va flags : ℕ) → Result Error (Store × ℕ)
unfolding fresh_frame to_virtual
map_fresh s root va flags = fresh_frame s >>= λ (s₁, pa). to_virtual va >>= λ va'.
    map_vm s₁ root va' pa flags >>= λ s₂. ok (record s₂ { counts = add s₂.counts pa }, pa)

-- `map_allocate_page`; the page is counted after it was entered among the regions.
unfoldable pub map_allocate_page : AddressSpace → (va flags : ℕ) → Result Error (AddressSpace × ℕ)
unfolding map_fresh
map_allocate_page mm va flags = map_fresh mm.store mm.root_pt va flags >>= λ (store, pa).
    page_end va >>= λ end.
    insert_mapping mm.regions (record { start = va; end = end; flags = flags }) >>= λ regions.
    ok (record mm { store = store; regions = regions }, pa)

unfoldable pub resolve_fault : AddressSpace → (addr : ℕ) → FaultAction → Result Error AddressSpace
unfolding map_fresh
resolve_fault mm addr copy_on_write =
    Table.copy_on_write mm.store mm.root_pt addr >>= λ store. ok (record mm { store = store })
resolve_fault mm addr (allocate flags) =
    map_fresh mm.store mm.root_pt addr flags >>= λ (store, pa). ok (record mm { store = store })

abbrev is_present : Option ℕ → Bool
is_present none = false
is_present (some pa) = true

-- The regions are asked first, then the tables.
unfoldable pub handle_page_fault :
    AddressSpace → (addr access_flags : ℕ) → Result Error AddressSpace
unfolding resolve_fault translate_page
handle_page_fault mm addr access_flags =
    let page = align_down addr page_size in
    fault_action mm.regions false flag_w addr access_flags >>= λ _.
    translate_page mm page >>= λ found.
    fault_action mm.regions (is_present found) flag_w addr access_flags >>= λ action.
    resolve_fault mm page action

unfoldable pub remap_page : AddressSpace → (va flags : ℕ) → Result Error AddressSpace
unfolding to_virtual
remap_page mm va flags = to_virtual va >>= λ va'.
    remap_vm mm.store mm.root_pt va' flags >>= λ store. ok (record mm { store = store })

unfoldable pub translate_to_kernel : AddressSpace → (va : ℕ) → Result Error ℕ
unfolding translate_page
translate_to_kernel mm va = translate_page mm va >>= λ found.
    ok_or found unmapped >>= λ pa. if in_direct_mapping pa then ok (phys_to_virt pa) else panic

-- The loop of `create_user_stack`, and the last page.
unfoldable pub map_stack_pages :
    (count : ℕ) → AddressSpace → (va : ℕ) → Result Error (AddressSpace × ℕ)
unfolding map_allocate_page
map_stack_pages zero mm va = ok (mm, va)
map_stack_pages (suc count) mm va = page_end va >>= λ va'.
    map_allocate_page mm va' user_rw >>= λ (mm', _). map_stack_pages count mm' va'

unfoldable pub create_user_stack : AddressSpace → Result Error (AddressSpace × ℕ)
unfolding map_stack_pages
create_user_stack mm = map_stack_pages 8 mm 1073676288 >>= λ (mm', va).
    let sp = va + (page_size - 96) in if ltb sp (2 ^ 64) then ok (mm', sp) else err overflow

abbrev pub kernel_stack_pages : ℕ
kernel_stack_pages = 16

unfoldable pub skip_frames : (count : ℕ) → Store → Result Error Store
unfolding alloc_frame
skip_frames zero s = ok s
skip_frames (suc count) s =
    alloc_frame s.frames >>= λ (frames, _). skip_frames count (record s { frames = frames })

-- `create_kernel_stack`, with the physical address of its top
unfoldable pub create_kernel_stack : AddressSpace → Result Error (AddressSpace × ℕ)
unfolding skip_frames
create_kernel_stack mm = alloc_frame mm.store.frames >>= λ (frames₁, guard_frame).
    alloc_frame frames₁ >>= λ (frames₂, start).
    skip_frames (kernel_stack_pages - 1) (record mm.store { frames = frames₂ }) >>= λ store.
    let size = kernel_stack_pages * page_size in
    let bottom = phys_to_virt start in
    if leb (2 ^ 64) bottom
    then panic
    else if leb (2 ^ 64) (bottom + size)
    then err overflow
    else ok (
      record mm {
        store = store;
        kernel_stack = record { guard = guard_frame; bottom = bottom; top = bottom + size };
      },
      start + size,
    )

freed : Store → (pa : ℕ) → Result Error ℕ → Result Error Store
freed s pa (ok zero) = free s.frames pa >>= λ frames. ok (record s { frames = frames })
freed s pa (ok (suc n)) = ok s
freed s pa (err e) = panic
freed s pa panic = panic

free_page : Store → Option ℕ → Result Error Store
unfolding freed
free_page s none = ok s
free_page s (some pa) =
    let (counts, left) = remove s.counts pa in freed (record s { counts = counts }) pa left

-- The loop of `free` over the regions; the kernel's mappings stay.
unfoldable pub free_regions : Store → (root : ℕ) → List VmRegion → Result Error Store
unfolding free_page to_virtual
free_regions s root [] = ok s
free_regions s root (r ∷ regions) =
    (if ltb direct_mapping_base r.start
      then ok s
      else (to_virtual r.start >>= λ start. free_page s (translate s.tables root start)))
    >>= λ s'. free_regions s' root regions

-- The loop of `free_kernel_stack`, of which `count` pages are left.
unfoldable pub free_stack_pages : (count : ℕ) → Store → (va : ℕ) → Result Error Store
free_stack_pages zero s va = ok s
free_stack_pages (suc count) s va = free s.frames (virt_to_phys va) >>= λ frames.
    if ltb (va + page_size) (2 ^ 64)
    then free_stack_pages count (record s { frames = frames }) (va + page_size)
    else panic

unfoldable pub free_kernel_stack : Store → (root : ℕ) → KernelStackRegion → Result Error Store
unfolding free_stack_pages
free_kernel_stack s root stack =
    if stack.guard == 0
    then (if root == 0 then ok s else panic)
    else (free s.frames stack.guard >>= λ frames.
        free_stack_pages ((stack.top - stack.bottom + (page_size - 1)) / page_size)
          (record s { frames = frames }) stack.bottom)

-- `free`
unfoldable pub free_all : AddressSpace → Result Error Store
unfolding free_regions free_kernel_stack
free_all mm = free_regions mm.store mm.root_pt mm.regions >>= λ s.
    free_kernel_stack s mm.root_pt mm.kernel_stack >>= λ s'.
    traverse_free 3 s'.tables s'.frames mm.root_pt >>= λ frames. ok (record s' { frames = frames })
