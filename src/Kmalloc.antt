-- ===== src/Kmalloc.antt =====
-- kmalloc/src/lib.rs and kmalloc/src/linked_list_allocator.rs: the kernel heap. Memory is seen as
-- the headers and the back offsets that the allocator itself writes, by address.
mod Tests
pub mod Align
pub mod Chain
pub mod Laws
use efiks_os.Prelude.{
  ℕ, zero, suc, ◌+◌, ◌-◌, ◌^◌, bit_and, Bool, true, false, ◌&&◌, ◌||◌, Option, none, some, Result,
  ok, err, panic, ltb, leb, ◌==◌, if◌then◌else◌,
}
use efiks_os.Prelude.Bits.{bit_not}

-- `(addr + align - 1) & !(align - 1)` on `usize`
unfoldable pub align_up : ℕ → ℕ → ℕ
align_up addr align = bit_and (addr + align - 1) (bit_not 64 (align - 1))

pub record Header : Type 0 where
  pub sz : ℕ
  pub free : Bool
  pub next : Option ℕ

-- `size_of` and `align_of` of the header on the 64-bit target: a size, a flag, and an optional raw
-- pointer, which has a tag word.
abbrev pub header_size : ℕ
header_size = 32

abbrev pub header_align : ℕ
header_align = 8

abbrev pub usize_size : ℕ
usize_size = 8

pub record Heap : Type 0 where
  pub headers : ℕ → Option Header
  pub words : ℕ → ℕ

pub record Allocator : Type 0 where
  pub start_addr : ℕ
  pub end_addr : ℕ
  pub head : ℕ

abbrev pub put_header : Heap → ℕ → Header → Heap
put_header h at new = record h { headers = λ p. if at == p then some new else h.headers p }

abbrev pub put_word : Heap → ℕ → ℕ → Heap
put_word h at w = record h { words = λ p. if at == p then w else h.words p }

pub data Failure : Type 0 where
  invalid out_of_memory : Failure

-- `new`: `checked_add`, the null check of `NonNull::new`, and the first header.
unfoldable pub new : ℕ → ℕ → Heap → Result Failure (Allocator × Heap)
new start_addr end_addr h =
    if leb (2 ^ 64) (start_addr + header_size)
      || ltb end_addr (start_addr + header_size)
      || start_addr == 0
    then err invalid
    else ok (
      record { start_addr = start_addr; end_addr = end_addr; head = start_addr },
      put_header h start_addr (record { sz = end_addr - start_addr; free = true; next = none }),
    )

abbrev pub data_start : ℕ → ℕ → ℕ
data_start header_start align = align_up (header_start + header_size + usize_size) align

abbrev pub alloc_size : ℕ → ℕ → ℕ → ℕ
alloc_size header_start size align =
    align_up (data_start header_start align - header_start + size) header_align

-- The smallest remainder that becomes a block of its own.
abbrev pub least_block : ℕ
least_block = align_up (header_size + usize_size + 1) header_align

-- The block at `at`, with header `node`, is given out: split, or consumed whole.
unfoldable pub take_block : Heap → ℕ → Header → ℕ → ℕ → Heap
unfolding align_up
take_block h at node size align =
    let start = data_start at align in
    let taken = alloc_size at size align in
    let remaining = node.sz - taken in
    let marked = put_word h (start - usize_size) (start - at) in
    if leb least_block remaining
    then (put_header
        (put_header marked (at + taken) (record { sz = remaining; free = true; next = node.next }))
        at (record { sz = taken; free = false; next = some (at + taken) }))
    else put_header marked at (record node { free = false })

-- The loop of `alloc` from the node at `at`.
unfoldable pub alloc_from : (fuel : ℕ) → Heap → (at size align : ℕ) → Result Failure (ℕ × Heap)
unfolding take_block
alloc_from zero h at size align = panic
alloc_from (suc fuel) h at size align = elim (h.headers at) [
  | none ↦ panic
  | some node ↦ elim (node.free && leb (alloc_size at size align) node.sz) [
    | true ↦ ok (data_start at align, take_block h at node size align)
    | false ↦ elim node.next [
      | none ↦ err out_of_memory
      | some next ↦ alloc_from fuel h next size align
    ]
  ]
]

-- Each node takes at least one byte, so the size of the heap is enough fuel.
unfoldable pub alloc : Allocator → Heap → (size align : ℕ) → Result Failure (ℕ × Heap)
unfolding alloc_from
alloc a h size align = alloc_from (a.end_addr - a.start_addr) h a.head size align

mark_free : Heap → ℕ → Option Header → Heap
mark_free h at none = h
mark_free h at (some node) = put_header h at (record node { free = true })

-- `dealloc`. A word at address zero, or a header there, ends it.
unfoldable pub dealloc : Heap → ℕ → Heap
unfolding mark_free
dealloc h ptr =
    let header = ptr - h.words (ptr - usize_size) in
    if ptr - usize_size == 0 || header == 0 then h else mark_free h header (h.headers header)
