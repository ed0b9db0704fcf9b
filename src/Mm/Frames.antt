-- ===== src/Mm/Frames.antt =====
-- kernel/src/mm/frame_allocator.rs: `FrameAllocator`, a bit for each 4 KiB frame in words of 64 bits.
pub mod Laws
use efiks_os.Prelude.{
  ℕ, zero, suc, ◌+◌, ◌-◌, ◌*◌, ◌/◌, ◌%◌, ◌^◌, bit_and, bit_or, Bool, true, false, List, [], ◌∷◌,
  Option, none, some, get_elem?, set, Result, ok, err, panic, ltb, ◌==◌, if◌then◌else◌,
}
use efiks_os.Prelude.Bits.{shr, bit_not}
use efiks_os.Mm.Error.{Error, oom}

pub record FrameAllocator : Type 0 where
  pub start_addr : ℕ
  pub pages : List ℕ

-- The inner loop of `alloc`: the first clear bit of a word from bit `i` on, `count` bits to look at.
unfoldable pub clear_bit : ℕ → (i count : ℕ) → Option ℕ
unfolding shr
clear_bit word i zero = none
clear_bit word i (suc count) = elim (bit_and (shr word i) 1 == 0) [
  | true ↦ some i
  | false ↦ clear_bit word (suc i) count
]

-- The outer loop: the frame number of the first clear bit, with the words in which it is set.
unfoldable pub clear_frame : List ℕ → Option (ℕ × List ℕ)
unfolding clear_bit
clear_frame [] = none
clear_frame (word ∷ words) = elim (clear_bit word 0 64) [
  | some i ↦ some (i, bit_or word (2 ^ i) ∷ words)
  | none ↦ elim (clear_frame words) [
    | none ↦ none
    | some (frame, rest) ↦ some (64 + frame, word ∷ rest)
  ]
]

-- The address of the frame, which is past the end of the address space where it overflows.
unfoldable pub alloc : FrameAllocator → FrameAllocator × Result Error ℕ
unfolding clear_frame
alloc a = elim (clear_frame a.pages) [
  | none ↦ (a, err oom)
  | some (frame, pages) ↦ (
    record a { pages = pages },
    (let addr = a.start_addr + frame * 4096 in if ltb addr (2 ^ 64) then ok addr else panic),
  )
]

-- `free`. An address below the first frame underflows, one past the last is out of bounds.
unfoldable pub free : FrameAllocator → ℕ → Result Error FrameAllocator
free a ptr =
    let x = (ptr - a.start_addr) / 4096 in
    if ltb ptr a.start_addr then panic else elim (get_elem? a.pages (x / 64)) [
      | none ↦ panic
      | some word ↦
          ok (record a { pages = set a.pages (x / 64) (bit_and word (bit_not 64 (2 ^ (x % 64)))) })
    ]
