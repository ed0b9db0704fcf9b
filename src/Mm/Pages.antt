-- ===== src/Mm/Pages.antt =====
-- kernel/src/mm/page.rs: the reference counts of physical pages. The map is an association list.
pub mod Laws
use efiks_os.Prelude.{
  ℕ, zero, suc, ◌+◌, ◌-◌, ◌%◌, ◌^◌, Bool, true, false, List, [], ◌∷◌, Option, none, some, Result,
  ok, err, panic, ◌==◌, if◌then◌else◌,
}
use efiks_os.Mm.Error.{Error, not_found}

abbrev pub PageMetadataTable : Type 0
PageMetadataTable = List (ℕ × ℕ)

unfoldable pub refcount : PageMetadataTable → ℕ → Option ℕ
refcount [] addr = none
refcount ((a, count) ∷ table) addr = if a == addr then some count else refcount table addr

set_count : PageMetadataTable → ℕ → ℕ → PageMetadataTable
set_count [] addr count = (addr, count) ∷ []
set_count ((a, old) ∷ table) addr count =
    if a == addr then (a, count) ∷ table else (a, old) ∷ set_count table addr count

erase : PageMetadataTable → ℕ → PageMetadataTable
erase [] addr = []
erase ((a, count) ∷ table) addr =
    if a == addr then erase table addr else (a, count) ∷ erase table addr

-- `fetch_add` on a `u16` wraps.
unfoldable pub add : PageMetadataTable → ℕ → PageMetadataTable
unfolding refcount set_count
add table addr = elim (refcount table addr) [
  | none ↦ set_count table addr 1
  | some count ↦ set_count table addr ((count + 1) % 2 ^ 16)
]

-- `fetch_sub(1) - 1` panics where the count was zero.
unfoldable pub remove : PageMetadataTable → ℕ → PageMetadataTable × Result Error ℕ
unfolding refcount set_count erase
remove table addr = elim (refcount table addr) [
  | none ↦ (table, err not_found)
  | some zero ↦ (set_count table addr (2 ^ 16 - 1), panic)
  | some (suc zero) ↦ (erase table addr, ok 0)
  | some (suc (suc n)) ↦ (set_count table addr (suc n), ok (suc n))
]
