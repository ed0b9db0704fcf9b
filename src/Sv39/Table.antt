-- ===== src/Sv39/Table.antt =====
-- kernel/src/arch/riscv/mmu/sv39/page_table.rs: the page tables. Memory is seen as the tables, by the
-- physical address and the index, and as the bytes of the other frames; a table is reached at its
-- physical address plus a base, which the model leaves out. The debug assertions are on, but for that of
-- `physical_address`, which an entry passes that was made of a physical address.
pub mod Entries
pub mod Walk
pub mod Create
pub mod Descend
pub mod Leaf
pub mod Stored
pub mod Map
pub mod CopyOnWrite
pub mod Sample
mod Tests
use efiks_os.Prelude.{
  ℕ, zero, suc, ◌+◌, ◌-◌, ◌*◌, ◌^◌, bit_and, bit_or, Bool, true, false, ◌&&◌, not, List, [], ◌∷◌,
  Option, none, some, Result, ok, err, panic, ◌>>=◌, or_panic, ltb, ◌==◌, if◌then◌else◌,
}
use efiks_os.Mm.Error.{Error}
use efiks_os.Mm.Frames.{FrameAllocator, alloc, free}
use efiks_os.Mm.Pages.{PageMetadataTable, add, remove}
use efiks_os.Sv39.{
  virtual_from_raw, vpn_2, vpn_1, vpn_0, flag_v, flag_w, is_valid, is_leaf, is_user, is_writable,
  set_flags, unset_flags, address_bits, set_physical_address,
}

pub data PageSize : Type 0 where
  size_4k size_2m size_1g : PageSize

abbrev pub page_bytes : PageSize → ℕ
page_bytes size_4k = 4096
page_bytes size_2m = 2097152
page_bytes size_1g = 1073741824

-- The entries by the address of the table and the index.
abbrev pub Tables : Type 0
Tables = ℕ → ℕ → ℕ

pub record Store : Type 0 where
  pub tables : Tables
  pub frames : FrameAllocator
  pub counts : PageMetadataTable
  pub contents : ℕ → ℕ → ℕ

abbrev pub set_entry : Tables → ℕ → ℕ → ℕ → Tables
set_entry tables table index pte t i =
    if t == table then (if i == index then pte else tables t i) else tables t i

-- `*ptr = PageTable::empty()`
abbrev pub clear_table : Tables → ℕ → Tables
clear_table tables table t i = if t == table then 0 else tables t i

-- The loop of `translate_to_pte_ptr`: where the leaf entry is, and the size of its page.
unfoldable pub walk : Tables → (table : ℕ) → List (ℕ × PageSize) → Option (ℕ × ℕ × PageSize)
walk tables table [] = none
walk tables table ((index, size) ∷ rest) =
    let pte = tables table index in
    let deeper = walk tables (address_bits pte) rest in
    if is_valid pte then (if is_leaf pte then some (table, index, size) else deeper) else none

abbrev pub path_of : ℕ → List (ℕ × PageSize)
path_of va = (vpn_2 va, size_1g) ∷ (vpn_1 va, size_2m) ∷ (vpn_0 va, size_4k) ∷ []

unfoldable pub translate_to_pte_ptr : Tables → ℕ → ℕ → Option (ℕ × ℕ × PageSize)
unfolding walk
translate_to_pte_ptr tables root va = walk tables root (path_of va)

abbrev pub translated_physical_address : ℕ → PageSize → ℕ → ℕ
translated_physical_address pte size va = address_bits pte + bit_and va (page_bytes size - 1)

abbrev pub translated : Tables → ℕ → Option (ℕ × ℕ × PageSize) → Option ℕ
translated tables va none = none
translated tables va (some (table, index, size)) =
    some (translated_physical_address (tables table index) size va)

unfoldable pub translate : Tables → ℕ → ℕ → Option ℕ
unfolding translate_to_pte_ptr
translate tables root va = translated tables va (translate_to_pte_ptr tables root va)

-- `V | A | D`
abbrev pub leaf_flags : ℕ
leaf_flags = 193

leaf_entry : ℕ → Option ℕ → Result Error ℕ
leaf_entry pte none = panic
leaf_entry pte (some pa) = ok (set_physical_address pte pa)

-- `map_leaf`: the new entry.
unfoldable pub map_leaf : ℕ → Option ℕ → ℕ → Result Error ℕ
unfolding leaf_entry
map_leaf pte pa flags =
    if is_valid pte && not (is_leaf pte)
    then panic
    else ((if is_valid pte then ok pte else leaf_entry pte pa) >>= λ pte'.
        ok (set_flags pte' (bit_or flags leaf_flags)))

-- `alloc_frame().unwrap()`
abbrev pub unwrap_frame : FrameAllocator × Result Error ℕ → Result Error (FrameAllocator × ℕ)
unwrap_frame (frames, ok pa) = ok (frames, pa)
unwrap_frame (frames, err e) = panic
unwrap_frame (frames, panic) = panic

unfoldable pub alloc_frame : FrameAllocator → Result Error (FrameAllocator × ℕ)
alloc_frame a = unwrap_frame (alloc a)

-- `PageTableEntry::new_valid().set_physical_address(pa)`
unfoldable pub table_entry : ℕ → ℕ
table_entry pa = set_physical_address (set_flags 0 flag_v) pa

-- `get_or_create_next_table`, with the address of the table. `base` is where tables are reached.
unfoldable pub get_or_create_next_table :
    (base : ℕ) → Store → (table index : ℕ) → Result Error (Store × ℕ)
unfolding alloc_frame table_entry
get_or_create_next_table base s table index =
    let pte = s.tables table index in
    if is_valid pte
    then (if is_leaf pte then panic else ok (s, address_bits pte))
    else (alloc_frame s.frames >>= λ (frames, pa). or_panic (virtual_from_raw (pa + base)) >>= λ va.
        ok (
          record s {
            tables = set_entry (clear_table s.tables pa) table index (table_entry pa);
            frames = frames;
          },
          pa,
        ))

abbrev is_multiple : ℕ → ℕ → Bool
is_multiple addr size = bit_and addr (size - 1) == 0

abbrev is_aligned_pa : Option ℕ → PageSize → Bool
is_aligned_pa none size = true
is_aligned_pa (some pa) size = is_multiple pa (page_bytes size)

unfoldable pub check_mapping_alignment : ℕ → Option ℕ → PageSize → Bool
check_mapping_alignment va pa size = is_multiple va (page_bytes size) && is_aligned_pa pa size

-- `map_leaf` on the entry in its place.
unfoldable pub put_leaf : Store → (table index : ℕ) → Option ℕ → ℕ → Result Error Store
unfolding map_leaf
put_leaf s table index pa flags = map_leaf (s.tables table index) pa flags >>= λ pte.
    ok (record s { tables = set_entry s.tables table index pte })

unfoldable pub map_memory_with_base :
    (base : ℕ) → Store → (root va : ℕ) → Option ℕ → (flags : ℕ) → PageSize → Result Error Store
unfolding get_or_create_next_table put_leaf check_mapping_alignment
map_memory_with_base base s root va pa flags size =
    if check_mapping_alignment va pa size
    then elim size [
      | size_1g ↦ put_leaf s root (vpn_2 va) pa flags
      | size_2m ↦ get_or_create_next_table base s root (vpn_2 va) >>= λ (s₁, l1).
          put_leaf s₁ l1 (vpn_1 va) pa flags
      | size_4k ↦ get_or_create_next_table base s root (vpn_2 va) >>= λ (s₁, l1).
          get_or_create_next_table base s₁ l1 (vpn_1 va) >>= λ (s₂, l0).
          put_leaf s₂ l0 (vpn_0 va) pa flags
    ]
    else panic

-- `KERNEL_DIRECT_MAPPING_BASE`
abbrev pub direct_mapping_base : ℕ
direct_mapping_base = 18446743893320925184

unfoldable pub map_vm : Store → (root va pa flags : ℕ) → Result Error Store
unfolding map_memory_with_base
map_vm s root va pa flags =
    map_memory_with_base direct_mapping_base s root va (some pa) flags size_4k

unfoldable pub map_vm_1g : Store → (root va pa flags : ℕ) → Result Error Store
unfolding map_memory_with_base
map_vm_1g s root va pa flags =
    map_memory_with_base direct_mapping_base s root va (some pa) flags size_1g

-- `remap_memory_with_base`
unfoldable pub remap_vm : Store → (root va flags : ℕ) → Result Error Store
unfolding put_leaf
remap_vm s root va flags =
    let l2 = s.tables root (vpn_2 va) in
    let l1_table = address_bits l2 in
    let l1 = s.tables l1_table (vpn_1 va) in
    let l0_table = address_bits l1 in
    let l0 = s.tables l0_table (vpn_0 va) in
    if not (is_valid l2)
    then panic
    else (if is_leaf l2
        then put_leaf s root (vpn_2 va) none flags
        else (if not (is_valid l1)
            then panic
            else (if is_leaf l1
                then put_leaf s l1_table (vpn_1 va) none flags
                else (if is_valid l0 && is_leaf l0
                    then put_leaf s l0_table (vpn_0 va) none flags
                    else panic))))

-- Whether `phys_to_virt` of the address does not overflow.
abbrev pub in_direct_mapping : ℕ → Bool
in_direct_mapping pa = ltb (pa + direct_mapping_base) (2 ^ 64)

-- `copy_nonoverlapping` of a frame.
abbrev pub copy_frame : (ℕ → ℕ → ℕ) → (from to : ℕ) → ℕ → ℕ → ℕ
copy_frame contents from to f i = if f == to then contents from i else contents f i

-- The count of the old page goes down, and with its last reference the page is free.
pub drop_old : Store → (old : ℕ) → PageMetadataTable × Result Error ℕ → Result Error Store
drop_old s old (counts, ok zero) =
    free s.frames old >>= λ frames. ok (record s { frames = frames; counts = counts })
drop_old s old (counts, ok (suc n)) = ok (record s { counts = counts })
drop_old s old (counts, err e) = panic
drop_old s old (counts, panic) = panic

-- `copy_on_write` at the entry that was found.
unfoldable pub copy_entry : Store → (table index : ℕ) → Result Error Store
unfolding drop_old alloc_frame
copy_entry s table index = alloc_frame s.frames >>= λ (frames, new_pa).
    let pte = s.tables table index in
    let old_pa = address_bits pte in
    let entry = set_flags (set_physical_address pte new_pa) flag_w in
    if in_direct_mapping old_pa && in_direct_mapping new_pa
    then drop_old
        (record s {
          tables = set_entry s.tables table index entry;
          frames = frames;
          contents = copy_frame s.contents old_pa new_pa;
        })
        old_pa (remove (add s.counts new_pa) old_pa)
    else panic

unfoldable pub copy_on_write : Store → (root addr : ℕ) → Result Error Store
unfolding translate_to_pte_ptr copy_entry
copy_on_write s root addr = elim (translate_to_pte_ptr s.tables root addr) [
  | some (table, index, size_4k) ↦ copy_entry s table index
  | _ ↦ panic
]

-- The loop of `fork` over the entries from `index` on; `call` forks a child table.
unfoldable pub fork_entries :
    (call : Store → ℕ → Result Error (Store × ℕ))
    → (count index : ℕ) → (root copy : ℕ) → Store
    → Result Error Store
fork_entries call zero index root copy s = ok s
fork_entries call (suc count) index root copy s =
    let pte = s.tables root index in
    (if not (is_valid pte)
      then ok s
      else (if is_leaf pte
          then (if not (is_user pte)
              then ok s
              else (let s₁ = record s { counts = add s.counts (address_bits pte) } in
                  if is_writable pte
                  then ok (record s₁ {
                    tables =
                        set_entry (set_entry s.tables root index (unset_flags pte flag_w)) copy
                          index (unset_flags (s.tables copy index) flag_w);
                  })
                  else ok s₁))
          else (call s (address_bits pte) >>= λ (s₁, pa). ok (record s₁ {
            tables =
                set_entry s₁.tables copy index (set_physical_address (s₁.tables copy index) pa);
          }))))
    >>= λ s'. fork_entries call count (suc index) root copy s'

-- `fork`, on the levels of tables below and with the root itself.
unfoldable pub fork : (levels : ℕ) → Store → (root : ℕ) → Result Error (Store × ℕ)
unfolding fork_entries alloc_frame
fork zero s root = panic
fork (suc levels) s root = alloc_frame s.frames >>= λ (frames, copy).
    let copied : Tables = λ t i. if t == copy then s.tables root i else s.tables t i in
    fork_entries (fork levels) 512 0 root copy (record s { tables = copied; frames = frames })
    >>= λ s'. ok (s', copy)

-- The loop of `traverse_free`, and `traverse_free`; only the frames change.
unfoldable pub free_entries :
    (call : FrameAllocator → ℕ → Result Error FrameAllocator)
    → Tables
    → (count index root : ℕ) → FrameAllocator
    → Result Error FrameAllocator
free_entries call tables zero index root a = ok a
free_entries call tables (suc count) index root a =
    let pte = tables root index in
    (if is_valid pte && not (is_leaf pte) then call a (address_bits pte) else ok a) >>= λ a'.
    free_entries call tables count (suc index) root a'

unfoldable pub traverse_free :
    (levels : ℕ) → Tables → FrameAllocator → (root : ℕ) → Result Error FrameAllocator
unfolding free_entries
traverse_free zero tables a root = panic
traverse_free (suc levels) tables a root =
    free_entries (traverse_free levels tables) tables 512 0 root a >>= λ a'. free a' root
