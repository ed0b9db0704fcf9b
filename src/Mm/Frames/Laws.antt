-- ===== src/Mm/Frames/Laws.antt =====
-- The frame allocator against the set of its frames in use.
use native.Mathlib.Decide.{ℕ_discrete, dec_lt}
use efiks_os.Prelude.{
  ℕ, zero, suc, ◌+◌, ◌-◌, ◌*◌, ◌/◌, ◌%◌, ◌^◌, ◌≤◌, ◌<◌, ◌≡◌, refl, sym, ◌∙◌, ap, bit_and, bit_or,
  List, [], ◌∷◌, Option, none, some, get_elem?, get_elem?-set_self, get_elem?-set_ne, set, length,
  Result, ok, err, panic, ◌==◌, if◌then◌else◌, ltb, ltb→lt, ltb→le, arith, Bool-cases, Option-cases,
  inl, inr, ==→≡, ==→≢, le→ltb, ==-refl, ≢→==, lt_of_get_elem?,
}
use efiks_os.Prelude.Bits.{shr, bit, bit_not, bit_and-one, bit-bit_or-pow, bit-clear_pow, bit_lt}
use efiks_os.Mm.Error.{Error, oom}
use efiks_os.Mm.Frames.{FrameAllocator, clear_bit, clear_frame, alloc, free}

abbrev word_bit : Option ℕ → ℕ → Option ℕ
word_bit none i = none
word_bit (some word) i = some (bit word i)

-- Bit `frame` of the words; a frame past the last has none.
unfoldable pub frame_bit : List ℕ → ℕ → Option ℕ
frame_bit pages frame = word_bit (get_elem? pages (frame / 64)) (frame % 64)

abbrev FindsBit : ℕ → (from count : ℕ) → Option ℕ → Type 0
FindsBit word from count none = (j : ℕ) → from ≤ j → j < from + count → bit word j ≡ 1
FindsBit word from count (some i) =
    (from ≤ i)
    × (i < from + count)
    × (bit word i ≡ 0)
    × ((j : ℕ) → from ≤ j → j < i → bit word j ≡ 1)

low_bit : (word i : ℕ) → bit_and (shr word i) 1 ≡ bit word i
unfolding bit
low_bit word i = bit_and-one (shr word i)

FindsBit-skip :
    (word from count : ℕ) (found : Option ℕ)
    → bit word from ≡ 1
    → FindsBit word (suc from) count found
    → FindsBit word from (suc count) found
FindsBit-skip word from count none one t = λ j lo hi. elim (ℕ_discrete from j) [
  | yes e ↦ ap (bit word) (sym e) ∙ one
  | no ne ↦ t j (omega arith) (omega arith)
]
FindsBit-skip word from count (some i) one (lo, hi, clear, ones) = (
  omega arith,
  omega arith,
  clear,
  (λ j l h. elim (ℕ_discrete from j) [
    | yes e ↦ ap (bit word) (sym e) ∙ one
    | no ne ↦ ones j (omega arith) h
  ]),
)

clear_bit-FindsBit : (word from count : ℕ) → FindsBit word from count (clear_bit word from count)
unfolding clear_bit
clear_bit-FindsBit word from zero = λ j lo hi. absurd (omega arith)
clear_bit-FindsBit word from (suc count) = elim (Bool-cases (bit_and (shr word from) 1 == 0)) [
  | inl clear ↦
      rw (clear, clear_bit)
        (
          omega arith,
          omega arith,
          sym (low_bit word from) ∙ ==→≡ _ 0 clear,
          (λ j lo hi. absurd (omega arith)),
        )
  | inr taken ↦
      rw (taken, clear_bit)
        (FindsBit-skip word from count _
          (omega (arith, bit_lt word from, low_bit word from, ==→≢ _ 0 taken))
          (clear_bit-FindsBit word (suc from) count))
]

abbrev FindsFrame : List ℕ → Option (ℕ × List ℕ) → Type 0
FindsFrame pages none = (j : ℕ) → j < 64 * length pages → frame_bit pages j ≡ some 1
FindsFrame pages (some (frame, pages')) =
    (frame_bit pages frame ≡ some 0)
    × ((j : ℕ) → j < frame → frame_bit pages j ≡ some 1)
    × ((j : ℕ) → frame_bit pages' j ≡ (if frame == j then some 1 else frame_bit pages j))

-- The frames of the first word, and of the words behind it.
frame_bit-here :
    (word : ℕ) (words : List ℕ) (j : ℕ) → j < 64 → frame_bit (word ∷ words) j ≡ some (bit word j)
unfolding frame_bit
frame_bit-here word words j h =
    let first : j / 64 ≡ 0 = omega arith in
    rw (first, frame_bit) (ap (λ i. some (bit word i)) {x = j % 64} {y = j} (omega arith))

frame_bit-later :
    (word : ℕ) (words : List ℕ) (j : ℕ)
    → 64 ≤ j
    → frame_bit (word ∷ words) j ≡ frame_bit words (j - 64)
unfolding frame_bit
frame_bit-later word words j h =
    let next : j / 64 ≡ suc ((j - 64) / 64) = omega arith in
    let same : j % 64 ≡ (j - 64) % 64 = omega arith in
    rw (next, frame_bit) (ap (word_bit (get_elem? words ((j - 64) / 64))) same)

FindsFrame-here :
    (word : ℕ) (words : List ℕ) (i : ℕ)
    → FindsBit word 0 64 (some i)
    → FindsFrame (word ∷ words) (some (i, bit_or word (2 ^ i) ∷ words))
FindsFrame-here word words i (lo, hi, clear, ones) = (
  frame_bit-here word words i (omega arith) ∙ ap some clear,
  (λ j h. frame_bit-here word words j (omega arith) ∙ ap some (ones j (omega arith) h)),
  (λ j. elim (dec_lt j 64) [
    | yes lt ↦
        frame_bit-here (bit_or word (2 ^ i)) words j lt
        ∙ ap some (bit-bit_or-pow word i j)
        ∙ ground (arith, frame_bit-here word words j lt)
    | no ge ↦
        frame_bit-later (bit_or word (2 ^ i)) words j (omega arith)
        ∙ sym (frame_bit-later word words j (omega arith))
        ∙ ground arith
  ]),
)

FindsFrame-later :
    (word : ℕ) (words : List ℕ) (found : Option (ℕ × List ℕ))
    → ((j : ℕ) → j < 64 → bit word j ≡ 1)
    → FindsFrame words found
    → FindsFrame
        (word ∷ words)
        (elim found [ none ↦ none | some (frame, rest) ↦ some (64 + frame, word ∷ rest) ])
FindsFrame-later word words none full t = λ j h. elim (dec_lt j 64) [
  | yes lt ↦ frame_bit-here word words j lt ∙ ap some (full j lt)
  | no ge ↦ frame_bit-later word words j (omega arith) ∙ t (j - 64) (omega arith)
]
FindsFrame-later word words (some (frame, rest)) full (clear, ones, changed) = (
  frame_bit-later word words (64 + frame) (omega arith)
      ∙ ap (frame_bit words) {x = 64 + frame - 64} {y = frame} (omega arith)
      ∙ clear,
  (λ j h. elim (dec_lt j 64) [
    | yes lt ↦ frame_bit-here word words j lt ∙ ap some (full j lt)
    | no ge ↦ frame_bit-later word words j (omega arith) ∙ ones (j - 64) (omega arith)
  ]),
  (λ j. elim (dec_lt j 64) [
    | yes lt ↦ frame_bit-here word rest j lt ∙ sym (frame_bit-here word words j lt) ∙ ground arith
    | no ge ↦
        frame_bit-later word rest j (omega arith)
        ∙ changed (j - 64)
        ∙ ground (arith, frame_bit-later word words j (omega arith))
  ]),
)

clear_frame-FindsFrame : (pages : List ℕ) → FindsFrame pages (clear_frame pages)
unfolding clear_frame
clear_frame-FindsFrame [] = λ j h. absurd (omega arith)
clear_frame-FindsFrame (word ∷ words) =
    let finds = clear_bit-FindsBit word 0 64 in
    elim (Option-cases (clear_bit word 0 64)) [
      | inr (i, e) ↦ rw (e, clear_frame) (FindsFrame-here word words i (rw e at finds))
      | inl e ↦
          rw (e, clear_frame)
            (FindsFrame-later word words (clear_frame words)
              (λ j h. (rw e at finds) j (omega arith) (omega arith)) (clear_frame-FindsFrame words))
    ]

-- The outcome of an allocation.
abbrev pub AllocatesFrame : FrameAllocator → FrameAllocator × Result Error ℕ → Type 0
AllocatesFrame a (a', ok addr) =
    (frame : ℕ) × (addr ≡ a.start_addr + frame * 4096)
    × (a'.start_addr ≡ a.start_addr)
    × (frame_bit a.pages frame ≡ some 0)
    × ((j : ℕ) → j < frame → frame_bit a.pages j ≡ some 1)
    × ((j : ℕ) → frame_bit a'.pages j ≡ (if frame == j then some 1 else frame_bit a.pages j))
    × (addr < 2 ^ 64)
AllocatesFrame a (a', err e) =
    (e ≡ oom) × (a' ≡ a) × ((j : ℕ) → j < 64 * length a.pages → frame_bit a.pages j ≡ some 1)
AllocatesFrame a (a', panic) =
    (frame : ℕ) × (2 ^ 64 ≤ a.start_addr + frame * 4096)
    × (frame_bit a.pages frame ≡ some 0)
    × ((j : ℕ) → j < frame → frame_bit a.pages j ≡ some 1)

-- `alloc` gives the address of the first frame that is not in use, which is in use afterwards while
-- every other frame is as before; it reports that memory ran out exactly with all frames in use, and
-- then changes nothing; it panics exactly where the first free frame lies past the end of the address
-- space.
pub alloc-AllocatesFrame : (a : FrameAllocator) → AllocatesFrame a (alloc a)
unfolding alloc
alloc-AllocatesFrame a =
    let finds = clear_frame-FindsFrame a.pages in
    elim (Option-cases (clear_frame a.pages)) [
      | inl e ↦ rw (e, alloc) (refl, refl, rw e at finds)
      | inr ((frame, pages), e) ↦
          let (clear, ones, changed) = rw e at finds in
          elim (Bool-cases (ltb (a.start_addr + frame * 4096) (2 ^ 64))) [
            | inl fits ↦
                rw (e, fits, alloc)
                  (
                    frame,
                    refl,
                    refl,
                    clear,
                    ones,
                    changed,
                    ltb→lt (a.start_addr + frame * 4096) (2 ^ 64) fits,
                  )
            | inr past ↦
                rw (e, past, alloc)
                  (frame, ltb→le (a.start_addr + frame * 4096) (2 ^ 64) past, clear, ones)
          ]
    ]

frame_bit-word :
    (pages : List ℕ) (j word : ℕ)
    → get_elem? pages (j / 64) ≡ some word
    → frame_bit pages j ≡ some (bit word (j % 64))
unfolding frame_bit
frame_bit-word pages j word at = rw (at, frame_bit) refl

frame_bit-set :
    (pages : List ℕ) (frame word new v j : ℕ)
    → get_elem? pages (frame / 64) ≡ some word
    → ((k : ℕ) → k < 64 → bit new k ≡ (if frame % 64 == k then v else bit word k))
    → frame_bit (set pages (frame / 64) new) j ≡ (if frame == j then some v else frame_bit pages j)
unfolding frame_bit
frame_bit-set pages frame word new v j at digits = elim (ℕ_discrete (frame / 64) (j / 64)) [
  | yes same ↦
      let self =
        get_elem?-set_self pages (frame / 64) new (lt_of_get_elem? pages (frame / 64) at) in
      frame_bit-word (set pages (frame / 64) new) j new
        (ap (get_elem? (set pages (frame / 64) new)) (sym same) ∙ self)
      ∙ ap some (digits (j % 64) (omega arith))
      ∙ ground (arith, frame_bit-word pages j word (ap (get_elem? pages) (sym same) ∙ at))
  | no ne ↦
      let other = get_elem?-set_ne pages (frame / 64) (j / 64) new ne in
      ap (λ w. word_bit w (j % 64)) other ∙ ground arith
]

-- Freeing a frame that the words have.
pub free_lem :
    (a : FrameAllocator) (frame v : ℕ)
    → frame_bit a.pages frame ≡ some v
    → (a' : FrameAllocator) × (free a (a.start_addr + frame * 4096) ≡ ok a')
      × (a'.start_addr ≡ a.start_addr)
      × ((j : ℕ) → frame_bit a'.pages j ≡ (if frame == j then some 0 else frame_bit a.pages j))
unfolding free
free_lem a frame v has = elim (Option-cases (get_elem? a.pages (frame / 64))) [
  | inl missing ↦ absurd (unfold frame_bit in (let e = rw (missing, frame_bit) at has in cc))
  | inr (word, at) ↦
      let new = bit_and word (bit_not 64 (2 ^ (frame % 64))) in
      let number : (a.start_addr + frame * 4096 - a.start_addr) / 4096 ≡ frame = omega arith in
      (
        record a { pages = set a.pages (frame / 64) new },
        rw
            (
              le→ltb (a.start_addr + frame * 4096) a.start_addr (omega arith),
              ap (λ n. get_elem? a.pages (n / 64)) number ∙ at,
              free,
            )
            (ap
              (λ n. ok (record a {
                pages = set a.pages (n / 64) (bit_and word (bit_not 64 (2 ^ (n % 64))));
              }))
              number),
        refl,
        (λ j.
            frame_bit-set a.pages frame word new 0 j at
              (λ k h. bit-clear_pow 64 word (frame % 64) k (omega arith) h)),
      )
]

-- A frame that was allocated can be freed: the call returns, and every frame is then as it was before
-- the allocation.
pub free-alloc :
    (a a' : FrameAllocator) (addr : ℕ)
    → alloc a ≡ (a', ok addr)
    → (a'' : FrameAllocator) × (free a' addr ≡ ok a'')
      × (a''.start_addr ≡ a.start_addr)
      × ((j : ℕ) → frame_bit a''.pages j ≡ frame_bit a.pages j)
free-alloc a a' addr e =
    let (frame, at, start, clear, ones, taken, _) = rw e at (alloc-AllocatesFrame a) in
    let held : frame_bit a'.pages frame ≡ some 1 = taken frame ∙ rw (==-refl frame) refl in
    let (a'', returns, start', freed) = free_lem a' frame 1 held in
    (
      a'',
      ap (free a') (at ∙ ap (λ s. s + frame * 4096) (sym start)) ∙ returns,
      start' ∙ start,
      (λ j. elim (ℕ_discrete frame j) [
        | yes same ↦ freed j ∙ rw (same, ==-refl j) (sym (rw same at clear))
        | no ne ↦ freed j ∙ rw (≢→== frame j ne) (taken j ∙ rw (≢→== frame j ne) refl)
      ]),
    )
