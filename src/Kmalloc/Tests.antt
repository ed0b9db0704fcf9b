-- ===== src/Kmalloc/Tests.antt =====
-- A heap of one page, with an allocation from it.
use efiks_os.Prelude.{ℕ, ◌+◌, ◌^◌, ◌<◌, ◌≤◌, ◌≡◌, refl, true, none, some, ok, arith}
use efiks_os.Kmalloc.{
  Heap, Header, Allocator, align_up, put_header, take_block, alloc_from, alloc, dealloc, new,
}
use efiks_os.Kmalloc.Align.{Aligned, align_up-Aligned}
use efiks_os.Kmalloc.Chain.{Tiles, last}
use efiks_os.Kmalloc.Laws.{Allocates, Starts, alloc-Allocates, new-Starts, dealloc-alloc}

abbrev no_headers : Heap
no_headers = record { headers = λ p. none; words = λ p. 0 }

abbrev whole : Header
whole = record { sz = 4096; free = true; next = none }

abbrev page : Heap
page = put_header no_headers 4096 whole

abbrev allocator : Allocator
allocator = record { start_addr = 4096; end_addr = 8192; head = 4096 }

page-Tiles : Tiles page 8192 4096
page-Tiles = last {node = whole} refl refl (omega arith) refl

alloc-Allocates_example : Allocates page 8192 4096 100 (2 ^ 4) (alloc allocator page 100 (2 ^ 4))
alloc-Allocates_example =
    alloc-Allocates allocator page 100 4 refl page-Tiles (omega arith) (omega arith)

new-Starts_example : Starts no_headers 4096 8192 (new 4096 8192 no_headers)
new-Starts_example = new-Starts 4096 8192 no_headers

align_up-Aligned_example : Aligned 4097 (2 ^ 4) (align_up 4097 (2 ^ 4))
align_up-Aligned_example = align_up-Aligned 4097 4 (omega arith) (omega arith)

abbrev used : Heap
used = take_block page 4096 whole 100 16

used_lem : alloc allocator page 100 (2 ^ 4) ≡ ok (4144, used)
unfolding alloc alloc_from align_up
used_lem = refl

dealloc-alloc_example :
    Tiles (dealloc used 4144) 8192 4096
    × ((block : ℕ) × (node : Header) × ((dealloc used 4144).headers block ≡ some node)
        × (node.free ≡ true)
        × (block < 4144)
        × (4144 + 100 ≤ block + node.sz))
dealloc-alloc_example =
    dealloc-alloc allocator page used 100 4 4144 refl (omega arith) page-Tiles (omega arith)
      (omega arith) used_lem
