-- ===== src/Mm/Tests.antt =====
-- Frames, reference counts and regions at concrete values.
use efiks_os.Prelude.{ℕ, ◌+◌, ◌≡◌, refl, List, [], ◌∷◌, some, ok, panic, arith, ◌==◌, if◌then◌else◌}
use efiks_os.Mm.Frames.{FrameAllocator, alloc, free}
use efiks_os.Mm.Frames.Laws.{AllocatesFrame, frame_bit, alloc-AllocatesFrame, free-alloc}
use efiks_os.Mm.Pages.{PageMetadataTable, refcount, add, remove}
use efiks_os.Mm.Pages.Laws.{refs, IsPositive, Removes, refs-add, remove-Removes, refcount-wraps}
use efiks_os.Mm.Regions.{VmRegion, flags_at, map_page_if_not_exist}
use efiks_os.Mm.Regions.Insert.{Maps, map_page_if_not_exist-Maps}
use efiks_os.Mm.Regions.Lookup.{IsDisjoint, LooksUp, flags_at-LooksUp}

abbrev two_words : FrameAllocator
two_words = record { start_addr = 8192; pages = 3 ∷ 0 ∷ [] }

alloc-AllocatesFrame_example : AllocatesFrame two_words (alloc two_words)
alloc-AllocatesFrame_example = alloc-AllocatesFrame two_words

abbrev third_taken : FrameAllocator
third_taken = record { start_addr = 8192; pages = 7 ∷ 0 ∷ [] }

third_taken_lem : alloc two_words ≡ (third_taken, ok 16384)
unfolding alloc
third_taken_lem = refl

free-alloc_example :
    (a : FrameAllocator) × (free third_taken 16384 ≡ ok a)
    × (a.start_addr ≡ 8192)
    × ((j : ℕ) → frame_bit a.pages j ≡ frame_bit (3 ∷ 0 ∷ []) j)
free-alloc_example = free-alloc two_words third_taken 16384 third_taken_lem

abbrev one_page : PageMetadataTable
one_page = (4096, 2) ∷ []

one_page-IsPositive : IsPositive one_page
unfolding refcount
one_page-IsPositive b = ground arith

refs-add_example :
    IsPositive (add one_page 4096)
    × ((b : ℕ)
        → refs (add one_page 4096) b ≡ (if 4096 == b then refs one_page b + 1 else refs one_page b))
unfolding refs refcount
refs-add_example = refs-add one_page 4096 one_page-IsPositive (omega arith)

remove-Removes_example : Removes one_page 4096 (remove one_page 4096)
remove-Removes_example = remove-Removes one_page 4096 one_page-IsPositive

abbrev worn : PageMetadataTable
worn = (4096, 65535) ∷ []

refcount-wraps_example :
    (refcount (add worn 4096) 4096 ≡ some 0) × ((remove (add worn 4096) 4096).1 ≡ panic)
unfolding refcount
refcount-wraps_example = refcount-wraps worn 4096 refl

abbrev two_regions : List VmRegion
two_regions =
    record { start = 4096; end = 8192; flags = 18 }
    ∷ record { start = 12288; end = 20480; flags = 22 }
    ∷ []

two_regions-IsDisjoint : IsDisjoint two_regions
two_regions-IsDisjoint =
    (omega arith, refl, refl, (omega arith, tt), (omega arith, refl, refl, tt, tt))

flags_at-LooksUp_example : LooksUp two_regions 16384 (flags_at two_regions 16384)
flags_at-LooksUp_example = flags_at-LooksUp two_regions 16384 two_regions-IsDisjoint

map_page_if_not_exist-Maps_example :
    Maps two_regions 8192 22 (map_page_if_not_exist two_regions 8192 22)
map_page_if_not_exist-Maps_example =
    map_page_if_not_exist-Maps two_regions 8192 22 two_regions-IsDisjoint refl
