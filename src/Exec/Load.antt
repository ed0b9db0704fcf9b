-- ===== src/Exec/Load.antt =====
-- `load_executable`: the pages of the segments and their contents. The memory manager is an interface;
-- the pages that are mapped so far are an association list.
use efiks_os.Prelude.{
  ℕ, zero, suc, ◌+◌, ◌-◌, ◌/◌, ◌^◌, min, max, bit_or, List, [], ◌∷◌, Option, none, some, Result, ok,
  err, panic, ◌>>=◌, or_panic, ltb, leb, ◌==◌, if◌then◌else◌,
}
use efiks_os.Vfs.File.{VNode, File}
use efiks_os.Mm.Error.{Error, overflow}
use efiks_os.Mm.Regions.{align_up, align_down, page_size}
use efiks_os.Exec.Headers.{
  ElfCrate, ProgramHeader, convert_elf_flag_to_pte, elf_error, size_overflow,
  invalid_program_header, load_from_file, read_bytes,
}

-- What the loader uses of the memory manager; `write_frame` stores bytes from a physical address on.
pub record MemoryOps : Type 1 where
  pub Manager : Type 0
  pub map_allocate_page : Manager → (va flags : ℕ) → Result Error Manager
  pub remap_page : Manager → (va flags : ℕ) → Result Error Manager
  pub translate : Manager → (va : ℕ) → Option ℕ
  pub write_frame : Manager → (pa : ℕ) → List ℕ → Manager
  pub set_initial_brk : Manager → (brk : ℕ) → Manager

-- `mapped_pages`
abbrev pub Pages : Type 0
Pages = List (ℕ × ℕ)

unfoldable pub page_flags : Pages → (va : ℕ) → Option ℕ
page_flags [] va = none
page_flags ((page, flags) ∷ pages) va = if page == va then some flags else page_flags pages va

unfoldable pub set_page_flags : Pages → (va flags : ℕ) → Pages
set_page_flags [] va flags = (va, flags) ∷ []
set_page_flags ((page, old) ∷ pages) va flags =
    if page == va then (page, flags) ∷ pages else (page, old) ∷ set_page_flags pages va flags

-- `VirtAddr::offset_by`, forward
abbrev pub offset_by : (addr amount : ℕ) → Option ℕ
offset_by addr amount = if ltb (addr + amount) (2 ^ 64) then some (addr + amount) else none

-- `VirtAddr::offset_by` of a `usize` that is cast to `isize`
abbrev pub offset_by_cast : (addr amount : ℕ) → Option ℕ
offset_by_cast addr amount =
    if ltb amount (2 ^ 63)
    then offset_by addr amount
    else (if ltb addr (2 ^ 64 - amount) then none else some (addr - (2 ^ 64 - amount)))

abbrev ok_or_error : {A : Type 0} → Option A → Error → Result Error A
ok_or_error none e = err e
ok_or_error (some a) e = ok a

module _ (ops : MemoryOps) where
  open ops use {Manager, map_allocate_page, remap_page, translate, write_frame, set_initial_brk}

  load_page : Manager → Pages → (va flags : ℕ) → Result Error (Manager × Pages)
  unfolding page_flags set_page_flags
  load_page mm pages va flags = elim (page_flags pages va) [
    | none ↦ map_allocate_page mm va flags >>= λ mm'. ok (mm', set_page_flags pages va flags)
    | some old ↦ remap_page mm va (bit_or old flags) >>= λ mm'.
        ok (mm', set_page_flags pages va (bit_or old flags))
  ]

  -- The loop over the pages of a segment, of which `count` are left.
  unfoldable pub load_pages :
      (count : ℕ) → Manager → Pages → (va flags : ℕ) → Result Error (Manager × Pages)
  unfolding load_page
  load_pages zero mm pages va flags = ok (mm, pages)
  load_pages (suc count) mm pages va flags = load_page mm pages va flags >>= λ (mm', pages').
      ok_or_error (offset_by va page_size) overflow >>= λ va'. load_pages count mm' pages' va' flags

  module _ (vnode : VNode) (crate : ElfCrate) where
    -- The loop that copies a segment; every round copies a byte or more, so that `p_filesz` is enough
    -- fuel.
    unfoldable pub copy_segment :
        (fuel : ℕ) → File vnode → ProgramHeader → Manager → (copied : ℕ) → Result Error Manager
    copy_segment zero f ph mm copied = ok mm
    copy_segment (suc fuel) f ph mm copied =
        let copy_vaddr = ph.p_vaddr + copied in
        let page_va = align_down copy_vaddr page_size in
        let page_offset = copy_vaddr - page_va in
        let copy_len = min (page_size - page_offset) (ph.p_filesz - copied) in
        if leb ph.p_filesz copied
        then ok mm
        else (if leb (2 ^ 64) copy_vaddr
            then err (elf_error size_overflow)
            else (or_panic (translate mm page_va) >>= λ page_pa.
                read_bytes vnode crate f (ph.p_offset + copied) copy_len >>= λ bytes.
                copy_segment fuel f ph (write_frame mm (page_pa + page_offset) bytes)
                  (copied + copy_len)))

    -- One segment, with the end of the segments so far. `align_up` overflows in the last page.
    unfoldable pub load_segment :
        File vnode
        → (file_sz : ℕ) → ProgramHeader
        → Manager × Pages × ℕ
        → Result Error (Manager × Pages × ℕ)
    unfolding load_pages copy_segment
    load_segment f file_sz ph (mm, pages, last) =
        if leb (2 ^ 64) (ph.p_offset + ph.p_filesz)
        then err (elf_error size_overflow)
        else (if ltb file_sz (ph.p_offset + ph.p_filesz)
            then err (elf_error invalid_program_header)
            else (ok_or_error (offset_by_cast ph.p_vaddr ph.p_memsz) overflow >>= λ vaddr_end.
                let first = align_down ph.p_vaddr page_size in
                let aligned_end = align_up vaddr_end page_size in
                if leb (2 ^ 64) (vaddr_end + page_size)
                then panic
                else (load_pages ((aligned_end - first) / page_size) mm pages first
                      (convert_elf_flag_to_pte ph.p_flags)
                    >>= λ (mm', pages'). copy_segment ph.p_filesz f ph mm' 0 >>= λ mm''.
                        ok (mm'', pages', max last aligned_end))))

    unfoldable pub load_segments :
        File vnode
        → (file_sz : ℕ) → List ProgramHeader
        → Manager × Pages × ℕ
        → Result Error (Manager × Pages × ℕ)
    unfolding load_segment
    load_segments f file_sz [] state = ok state
    load_segments f file_sz (ph ∷ headers) state =
        (if ph.p_type == ElfCrate.pt_load crate then load_segment f file_sz ph state else ok state)
        >>= λ state'. load_segments f file_sz headers state'

    -- `load_executable` of an opened file: the memory and the entry point.
    unfoldable pub load_executable : File vnode → Manager → Result Error (Manager × ℕ)
    unfolding load_segments
    load_executable f mm = load_from_file vnode crate f >>= λ (header, headers).
        load_segments f (VNode.sz vnode (File.inode f)) headers (mm, [], 0) >>= λ (mm', _, last).
        ok (set_initial_brk mm' last, header.e_entry)
