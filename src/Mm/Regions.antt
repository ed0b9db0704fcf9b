-- ===== src/Mm/Regions.antt =====
-- kernel/src/mm/mod.rs: the sorted regions of a `MemoryManager`, and what `brk`, `map_page` and the
-- page-fault handler do with them. kernel/src/helper.rs: alignment.
pub mod Lookup
pub mod Insert
use efiks_os.Prelude.{
  ℕ, zero, suc, ◌+◌, ◌-◌, ◌*◌, ◌/◌, ◌^◌, bit_and, bit_or, Bool, true, false, List, [], ◌∷◌, Option,
  none, some, get_elem?, Result, ok, err, panic, ◌>>=◌, ltb, leb, ◌==◌, if◌then◌else◌,
}
use efiks_os.Prelude.Bits.{bit_not}
use efiks_os.Mm.Error.{Error, unmapped, overflow}

abbrev pub page_size : ℕ
page_size = 4096

unfoldable pub align_up : ℕ → ℕ → ℕ
align_up addr align = bit_and (addr + align - 1) (bit_not 64 (align - 1))

unfoldable pub align_down : ℕ → ℕ → ℕ
align_down addr align = bit_and addr (bit_not 64 (align - 1))

pub record VmRegion : Type 0 where
  pub start : ℕ
  pub end : ℕ
  pub flags : ℕ

abbrev pub shift : Bool × ℕ → Bool × ℕ
shift (found, i) = (found, suc i)

-- `binary_search_by_key` on the start: whether a region starts at the address, and the index where it
-- is or would be. On a sorted list that is the number of regions that start below the address.
unfoldable pub search_start : List VmRegion → ℕ → Bool × ℕ
search_start [] addr = (false, 0)
search_start (r ∷ regions) addr =
    let rest = shift (search_start regions addr) in
    if ltb r.start addr then rest else (r.start == addr, 0)

abbrev pub insert_at {ℓ} : {A : Type ℓ} → ℕ → A → List A → List A
insert_at zero x xs = x ∷ xs
insert_at (suc i) x [] = x ∷ []
insert_at (suc i) x (y ∷ ys) = y ∷ insert_at i x ys

-- The flags of the region that a search leads to.
unfoldable pub flags_from : List VmRegion → ℕ → Bool × ℕ → Result Error ℕ
flags_from regions addr (true, i) = elim (get_elem? regions i) [
  | none ↦ panic
  | some r ↦ ok r.flags
]
flags_from regions addr (false, zero) = err unmapped
flags_from regions addr (false, suc i) = elim (get_elem? regions i) [
  | none ↦ panic
  | some r ↦ if ltb addr r.end then ok r.flags else err unmapped
]

-- The look-up of `handle_page_fault`, which makes it at an address that is aligned down.
unfoldable pub flags_at : List VmRegion → ℕ → Result Error ℕ
unfolding flags_from search_start
flags_at regions addr = flags_from regions addr (search_start regions addr)

-- What a page fault comes to, by the state of the page table.
pub data FaultAction : Type 0 where
  copy_on_write : FaultAction
  allocate : (flags : ℕ) → FaultAction

-- `handle_page_fault` up to the change of the page table: the region must allow the access; a page
-- that is present is copied on a write and is an error on any other access.
unfoldable pub fault_action :
    List VmRegion → (present : Bool) → (write_flag addr access_flags : ℕ) → Result Error FaultAction
unfolding flags_at align_down
fault_action regions present write_flag addr access_flags =
    flags_at regions (align_down addr page_size) >>= λ flags.
    if bit_and flags access_flags == access_flags
    then (if present
        then (if bit_and access_flags write_flag == write_flag
            then ok copy_on_write
            else err unmapped)
        else ok (allocate flags))
    else err unmapped

abbrev page_region : ℕ → ℕ → VmRegion
page_region addr flags = record { start = addr; end = addr + page_size; flags = flags }

-- `offset_by(PAGE_SIZE)`
abbrev pub page_end : ℕ → Result Error ℕ
page_end addr = if ltb (addr + page_size) (2 ^ 64) then ok (addr + page_size) else err overflow

unfoldable pub map_from : List VmRegion → ℕ → ℕ → Bool × ℕ → Result Error (Bool × List VmRegion)
map_from regions addr flags (true, i) = ok (false, regions)
map_from regions addr flags (false, zero) =
    page_end addr >>= λ _. ok (true, insert_at 0 (page_region addr flags) regions)
map_from regions addr flags (false, suc i) = elim (get_elem? regions i) [
  | none ↦ panic
  | some r ↦
      if ltb addr r.end
      then ok (false, regions)
      else (page_end addr >>= λ _. ok (true, insert_at (suc i) (page_region addr flags) regions))
]

unfoldable pub map_page_if_not_exist : List VmRegion → ℕ → ℕ → Result Error (Bool × List VmRegion)
unfolding map_from search_start
map_page_if_not_exist regions addr flags = map_from regions addr flags (search_start regions addr)

insert_from : List VmRegion → VmRegion → Bool × ℕ → Result Error (List VmRegion)
insert_from regions r (true, i) = panic
insert_from regions r (false, i) = ok (insert_at i r regions)

-- `insert_mapping`, which panics where a region starts at the same address.
unfoldable pub insert_mapping : List VmRegion → VmRegion → Result Error (List VmRegion)
unfolding insert_from search_start
insert_mapping regions r = insert_from regions r (search_start regions r.start)

pub record MemoryManager : Type 0 where
  pub regions : List VmRegion
  pub start_brk : ℕ
  pub brk : ℕ

-- The loop of `brk`, over `count` pages from `addr` on. Pages that were entered stay where it fails.
unfoldable pub map_pages :
    (count : ℕ) → List VmRegion → (addr flags : ℕ) → List VmRegion × Result Error (Unit {0})
unfolding map_page_if_not_exist
map_pages zero regions addr flags = (regions, ok tt)
map_pages (suc count) regions addr flags = elim (map_page_if_not_exist regions addr flags) [
  | err e ↦ (regions, err e)
  | panic ↦ (regions, panic)
  | ok (added, regions') ↦ elim (page_end addr) [
    | err e ↦ (regions', err e)
    | panic ↦ (regions', panic)
    | ok next ↦ map_pages count regions' next flags
  ]
]

abbrev pub user_rw : ℕ
user_rw = 22

grown_brk :
    MemoryManager → ℕ → List VmRegion × Result Error (Unit {0}) → MemoryManager × Result Error ℕ
grown_brk mm new_brk (regions, ok _) = (record mm { regions = regions; brk = new_brk }, ok new_brk)
grown_brk mm new_brk (regions, err e) = (record mm { regions = regions }, err e)
grown_brk mm new_brk (regions, panic) = (record mm { regions = regions }, panic)

-- `brk`
unfoldable pub set_brk : MemoryManager → ℕ → MemoryManager × Result Error ℕ
unfolding map_pages align_up grown_brk
set_brk mm new_brk =
    if leb new_brk mm.start_brk
    then (mm, ok mm.brk)
    else (if ltb new_brk mm.brk
        then (record mm { brk = new_brk }, ok new_brk)
        else (if ltb mm.brk new_brk
            then (let addr = align_up mm.brk page_size in
                grown_brk mm new_brk (
                  map_pages ((align_up new_brk page_size - addr) / page_size) mm.regions addr
                    user_rw))
            else (mm, ok mm.brk)))
