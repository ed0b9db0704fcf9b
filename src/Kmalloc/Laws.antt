-- ===== src/Kmalloc/Laws.antt =====
-- `alloc` and `dealloc` of kmalloc/src/linked_list_allocator.rs on a heap whose headers tile it.
use efiks_os.Prelude.{
  ℕ, zero, suc, ◌+◌, ◌-◌, ◌%◌, ◌^◌, ◌≤◌, ◌<◌, ◌≡◌, ◌≢◌, refl, sym, subst, ◌∙◌, ap, true, false,
  ◌&&◌, ◌||◌, none, some, Result, ok, err, panic, arith, tests, ==-refl, ≢→==, ◌==◌, ltb, leb, ◌⊎◌,
  inl, inr, Bool-cases, some_inj,
}
use efiks_os.Kmalloc.{
  Heap, Header, Allocator, Failure, out_of_memory, header_size, header_align, usize_size,
  put_header, put_word, data_start, alloc_size, least_block, take_block, alloc_from, alloc, dealloc,
  new,
}
use efiks_os.Kmalloc.Align.{Aligned, align_up-Aligned}
use efiks_os.Kmalloc.Chain.{
  Tiles, last, more, Block, here, later, Rest, Tiles-lt, Tiles-put, Tiles-put_word, Tiles-of_Rest,
  Tiles-mark,
}

-- The block at `block` is given out for `ptr`: it was free, is in use, holds `size` bytes at `ptr`
-- behind its header and the back offset, and the back offset leads from `ptr` to it.
pub record Given (h h' : Heap) (end at size align ptr : ℕ) : Type 0 where
  pub block : ℕ
  pub before : Header
  pub after : Header
  pub was : h.headers block ≡ some before
  pub was_free : before.free ≡ true
  pub is : h'.headers block ≡ some after
  pub in_use : after.free ≡ false
  pub from : at ≤ block
  pub behind_header : block + header_size + usize_size ≤ ptr
  pub inside : ptr + size ≤ block + after.sz
  pub below_end : block + after.sz ≤ end
  pub aligned : ptr % align ≡ 0
  pub back_offset : h'.words (ptr - usize_size) ≡ ptr - block
  pub others : (p : ℕ) → p ≢ block → p ≢ block + after.sz → h'.headers p ≡ h.headers p
  pub tiles : Tiles h' end at

abbrev pub Allocates : Heap → (end at size align : ℕ) → Result Failure (ℕ × Heap) → Type 0
Allocates h end at size align (ok (ptr, h')) = Given h h' end at size align ptr
Allocates h end at size align (err e) =
    (e ≡ out_of_memory)
    × ((block : ℕ) (node : Header)
        → Block h at block node
        → node.free ≡ true
        → node.sz < alloc_size block size align)
Allocates h end at size align panic = ⊥

-- No sum overflows `usize`.
module _ (size k : ℕ) (alignment : k < 64) (end : ℕ) (room : end + size + 2 ^ k + 64 ≤ 2 ^ 64) where
  start-Aligned :
      (at : ℕ) → at ≤ end → Aligned (at + header_size + usize_size) (2 ^ k) (data_start at (2 ^ k))
  start-Aligned at h = align_up-Aligned (at + header_size + usize_size) k alignment (omega arith)

  taken-Aligned :
      (at : ℕ)
      → at ≤ end
      → Aligned (data_start at (2 ^ k) - at + size) header_align (alloc_size at size (2 ^ k))
  taken-Aligned at h =
      let a = start-Aligned at h in
      align_up-Aligned (data_start at (2 ^ k) - at + size) 3 (omega arith)
        (omega (arith, a.lower, a.upper))

  least-ge : header_size ≤ least_block
  least-ge = omega (arith, (align_up-Aligned 41 3 (omega arith) (omega arith)).lower)

  module _ (h : Heap) (at : ℕ) (node : Header) (was : h.headers at ≡ some node)
      (was_free : node.free ≡ true) (large : header_size ≤ node.sz)
      (fits : alloc_size at size (2 ^ k) ≤ node.sz) (rest : Rest h end at node)
      (below : at + node.sz ≤ end) where
    abbrev start : ℕ
    start = data_start at (2 ^ k)

    abbrev taken : ℕ
    taken = alloc_size at size (2 ^ k)

    abbrev marked : Heap
    marked = put_word h (start - usize_size) (start - at)

    start_a : Aligned (at + header_size + usize_size) (2 ^ k) start
    start_a = start-Aligned at (omega arith)

    taken_a : Aligned (start - at + size) header_align taken
    taken_a = taken-Aligned at (omega arith)

    abbrev rest_header : Header
    rest_header = record { sz = node.sz - taken; free = true; next = node.next }

    abbrev used_header : Header
    used_header = record { sz = taken; free = false; next = some (at + taken) }

    abbrev split : Heap
    split = put_header (put_header marked (at + taken) rest_header) at used_header

    taken_positive : 40 ≤ taken
    taken_positive = omega (arith, start_a.lower, taken_a.lower)

    rest_split : header_size ≤ node.sz - taken → Tiles split end (at + taken)
    rest_split big =
        Tiles-of_Rest {node = rest_header}
          (rw (≢→== at (at + taken) (omega (arith, taken_positive)), ==-refl (at + taken)) refl) big
          (pieces rest)
      where
        pieces : Rest h end at node → Rest split end (at + taken) rest_header
        pieces (inl (n, t)) = inl (n, omega arith)
        pieces (inr (n, t)) = inr (
          n ∙ ap some (omega arith),
          subst (Tiles split end) {x = at + node.sz} {y = at + taken + (node.sz - taken)}
              (omega arith)
              (Tiles-put at used_header (omega (arith, taken_positive))
                (Tiles-put (at + taken) rest_header (omega arith) (Tiles-put_word _ _ t))),
        )

    split-Given : header_size ≤ node.sz - taken → Given h split end at size (2 ^ k) start
    split-Given big = record {
      block = at;
      before = node;
      after = used_header;
      was = was;
      was_free = was_free;
      is = rw (==-refl at) refl;
      in_use = refl;
      from = omega arith;
      behind_header = start_a.lower;
      inside = omega (arith, start_a.lower, taken_a.lower);
      below_end = omega arith;
      aligned = start_a.multiple;
      back_offset = rw (==-refl (start - usize_size)) refl;
      others =
          λ p ne ne'. rw (≢→== at p (λ e. ne (sym e)), ≢→== (at + taken) p (λ e. ne' (sym e))) refl;
      tiles =
          more {node = used_header} (rw (==-refl at) refl) refl (omega (arith, taken_positive))
            (rest_split big);
    }

    abbrev whole : Heap
    whole = put_header marked at (record node { free = false })

    whole-Given : Given h whole end at size (2 ^ k) start
    whole-Given = record {
      block = at;
      before = node;
      after = record node { free = false };
      was = was;
      was_free = was_free;
      is = rw (==-refl at) refl;
      in_use = refl;
      from = omega arith;
      behind_header = start_a.lower;
      inside = omega (arith, start_a.lower, taken_a.lower);
      below_end = below;
      aligned = start_a.multiple;
      back_offset = rw (==-refl (start - usize_size)) refl;
      others = λ p ne ne'. rw (≢→== at p (λ e. ne (sym e))) refl;
      tiles =
          Tiles-of_Rest {node = record node { free = false }} (rw (==-refl at) refl) large
            (pieces rest);
    }
      where
        pieces : Rest h end at node → Rest whole end at (record node { free = false })
        pieces (inl t) = inl t
        pieces (inr (n, t)) = inr (n, Tiles-put at _ (omega arith) (Tiles-put_word _ _ t))

    take_block-Given : Given h (take_block h at node size (2 ^ k)) end at size (2 ^ k) start
    unfolding take_block
    take_block-Given = elim (Bool-cases (leb least_block (node.sz - taken))) [
      | inl big ↦ rw big (split-Given (omega (tests, least-ge)))
      | inr small ↦ rw small whole-Given
    ]

  -- A node that is passed over: the result for the rest of the list serves from it on.
  Allocates-skip :
      (h : Heap) (at : ℕ) (node : Header) (res : Result Failure (ℕ × Heap))
      → h.headers at ≡ some node
      → node.next ≡ some (at + node.sz)
      → header_size ≤ node.sz
      → (node.free ≡ true → node.sz < alloc_size at size (2 ^ k))
      → Allocates h end (at + node.sz) size (2 ^ k) res
      → Allocates h end at size (2 ^ k) res
  Allocates-skip h at node (ok (ptr, h')) e n s unfit t = record {
    block = t.block;
    before = t.before;
    after = t.after;
    was = t.was;
    was_free = t.was_free;
    is = t.is;
    in_use = t.in_use;
    from = omega (arith, t.from);
    behind_header = t.behind_header;
    inside = t.inside;
    below_end = t.below_end;
    aligned = t.aligned;
    back_offset = t.back_offset;
    others = t.others;
    tiles =
        more {node = node} (t.others at (omega (arith, t.from)) (omega (arith, t.from)) ∙ e) n s
          t.tiles;
  }
  Allocates-skip h at node (err x) e n s unfit t = (t.0, full)
    where
      full :
          (block : ℕ) (found : Header)
          → Block h at block found
          → found.free ≡ true
          → found.sz < alloc_size block size (2 ^ k)
      full block found (here e') f =
          let same : found ≡ node = some_inj (sym e' ∙ e) in
          rw (ap (λ m. m.sz) same) (unfit (sym (ap (λ m. m.free) same) ∙ f))
      full block found (later {node = node'} e' n' s' b) f =
          let same : node' ≡ node = some_inj (sym e' ∙ e) in
          t.1 block found (rw (ap (λ m. m.sz) same) at b) f
  Allocates-skip h at node panic e n s unfit t = t

  alloc_from-Allocates :
      (fuel : ℕ) (h : Heap) (at : ℕ)
      → Tiles h end at
      → end ≤ at + fuel
      → Allocates h end at size (2 ^ k) (alloc_from fuel h at size (2 ^ k))
  unfolding alloc_from
  alloc_from-Allocates zero h at t enough = absurd (omega (arith, Tiles-lt t))
  alloc_from-Allocates (suc fuel) h at (last {node} e n s t) enough =
      elim (Bool-cases (node.free && leb (alloc_size at size (2 ^ k)) node.sz)) [
        | inl fits ↦
            rw (e, fits, alloc_from)
              (take_block-Given h at node e (ground arith) s (ground arith) (inl (n, t))
                (omega arith))
        | inr unfit ↦ rw (e, unfit, n, alloc_from) (refl, alone unfit)
      ]
    where
      alone :
          (node.free && leb (alloc_size at size (2 ^ k)) node.sz) ≡ false
          → (block : ℕ) (found : Header) → Block h at block found
          → found.free ≡ true
          → found.sz < alloc_size block size (2 ^ k)
      alone unfit block found (here e') f =
          let same : found ≡ node = some_inj (sym e' ∙ e) in
          let free : node.free ≡ true = sym (ap (λ m. m.free) same) ∙ f in
          rw (ap (λ m. m.sz) same) (ground arith)
      alone unfit block found (later {node = node'} e' n' s' b) f =
          let same : node' ≡ node = some_inj (sym e' ∙ e) in
          let none_some : none ≡ some (at + node'.sz) = sym n ∙ sym (ap (λ m. m.next) same) ∙ n' in
          cc
  alloc_from-Allocates (suc fuel) h at (more {node} e n s t) enough =
      elim (Bool-cases (node.free && leb (alloc_size at size (2 ^ k)) node.sz)) [
        | inl fits ↦
            rw (e, fits, alloc_from)
              (take_block-Given h at node e (ground arith) s (ground arith) (inr (n, t))
                (omega (arith, Tiles-lt t)))
        | inr unfit ↦
            rw (e, unfit, n, alloc_from)
              (Allocates-skip h at node _ e n s (λ f. ground arith)
                (alloc_from-Allocates fuel h (at + node.sz) t (omega arith)))
      ]

-- A heap whose headers tile it, and a request that keeps within `usize`.
-- Where `alloc` returns a pointer, it is aligned, lies with its `size` bytes behind the header and the
-- back offset of a block that was free and is in use now, within the heap; the headers still tile the
-- heap, and none but that block's and the one split off from it has changed. Where it reports that
-- memory ran out, no free block was large enough. It always returns: the loop ends.
pub alloc-Allocates :
    (a : Allocator) (h : Heap) (size k : ℕ)
    → a.head ≡ a.start_addr
    → Tiles h a.end_addr a.start_addr
    → k < 64
    → a.end_addr + size + 2 ^ k + 64 ≤ 2 ^ 64
    → Allocates h a.end_addr a.start_addr size (2 ^ k) (alloc a h size (2 ^ k))
unfolding alloc
alloc-Allocates a h size k first tiles alignment room = rw first (
    alloc_from-Allocates size k alignment a.end_addr room (a.end_addr - a.start_addr) h a.start_addr
      tiles (omega arith))

abbrev pub Starts : Heap → ℕ → ℕ → Result Failure (Allocator × Heap) → Type 0
Starts h start_addr end_addr (ok (a, h')) =
    (a.head ≡ a.start_addr)
    × (a.start_addr ≡ start_addr)
    × (a.end_addr ≡ end_addr)
    × Tiles h' end_addr start_addr
    × (h'.headers start_addr
        ≡ some (record { sz = end_addr - start_addr; free = true; next = none }))
    × ((p : ℕ) → p ≢ start_addr → h'.headers p ≡ h.headers p)
Starts h start_addr end_addr (err e) =
    (start_addr ≡ 0) ⊎ (end_addr < start_addr + header_size) ⊎ (2 ^ 64 ≤ start_addr + header_size)
Starts h start_addr end_addr panic = ⊥

-- `new` makes one block of the whole range, which is free and the last, and changes no other header; it
-- refuses a range at address zero, one that is too
-- small for a header, and one whose first header would pass the end of the address space, and no other.
pub new-Starts :
    (start_addr end_addr : ℕ) (h : Heap) → Starts h start_addr end_addr (new start_addr end_addr h)
unfolding new
new-Starts start_addr end_addr h =
    elim (Bool-cases (
      leb (2 ^ 64) (start_addr + header_size)
      || ltb end_addr (start_addr + header_size)
      || start_addr == 0)) [
        | inl refused ↦ rw refused (ground arith)
        | inr accepted ↦ rw accepted (
          refl,
          refl,
          refl,
          last {node = record { sz = end_addr - start_addr; free = true; next = none }}
              (rw (==-refl start_addr) refl) refl (ground arith) (ground arith),
          rw (==-refl start_addr) refl,
          (λ p ne. rw (≢→== start_addr p (λ e. ne (sym e))) refl),
        )
      ]

dealloc-Given :
    {h h' : Heap} {end at size align ptr : ℕ}
    → 0 < at
    → (g : Given h h' end at size align ptr)
    → dealloc h' ptr ≡ put_header h' g.block (record g.after { free = true })
unfolding dealloc
dealloc-Given {h'} {ptr} positive g =
    let found : ptr - (ptr - g.block) ≡ g.block = omega (arith, g.behind_header) in
    rw
      (
        g.back_offset,
        found,
        ≢→== (ptr - usize_size) 0 (omega (arith, g.behind_header, g.from)),
        ≢→== g.block 0 (omega (arith, g.from)),
        g.is,
      )
      refl

-- In a heap whose headers tile it, above address zero, for a request that keeps within `usize`:
-- a block that was allocated and then freed is free again, at its place in a heap that its headers
-- still tile.
pub dealloc-alloc :
    (a : Allocator) (h h' : Heap) (size k ptr : ℕ)
    → a.head ≡ a.start_addr
    → 0 < a.start_addr
    → Tiles h a.end_addr a.start_addr
    → k < 64
    → a.end_addr + size + 2 ^ k + 64 ≤ 2 ^ 64
    → alloc a h size (2 ^ k) ≡ ok (ptr, h')
    → Tiles (dealloc h' ptr) a.end_addr a.start_addr
      × ((block : ℕ) × (node : Header) × ((dealloc h' ptr).headers block ≡ some node)
          × (node.free ≡ true)
          × (block < ptr)
          × (ptr + size ≤ block + node.sz))
dealloc-alloc a h h' size k ptr first positive tiles alignment room e =
    let g = rw e at (alloc-Allocates a h size k first tiles alignment room) in
    rw (dealloc-Given positive g) (
      Tiles-mark g.block g.after g.is g.tiles,
      (
        g.block,
        record g.after { free = true },
        rw (==-refl g.block) refl,
        refl,
        omega (arith, g.behind_header),
        g.inside,
      ),
    )
