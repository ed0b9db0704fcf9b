-- ===== src/Kmalloc/Chain.antt =====
-- The list of headers of kmalloc/src/linked_list_allocator.rs as it lies in memory: blocks that tile
-- the heap, each header leading to the next.
use native.Mathlib.Decide.{ℕ_discrete}
use efiks_os.Prelude.{
  ℕ, ◌+◌, ◌≤◌, ◌<◌, ◌≡◌, refl, sym, subst, ◌∙◌, ap, none, some, arith, ==-refl, ≢→==, true, ◌⊎◌,
  inl, inr, some_inj,
}
use efiks_os.Kmalloc.{Heap, Header, header_size, put_header, put_word}

-- From `at` up to `end` the headers of `h` tile the memory.
pub data Tiles (h : Heap) (end : ℕ) : ℕ → Type 0 where
  last :
      {at : ℕ} {node : Header}
      → h.headers at ≡ some node
      → node.next ≡ none
      → header_size ≤ node.sz
      → at + node.sz ≡ end
      → Tiles h end at
  more :
      {at : ℕ} {node : Header}
      → h.headers at ≡ some node
      → node.next ≡ some (at + node.sz)
      → header_size ≤ node.sz
      → Tiles h end (at + node.sz)
      → Tiles h end at

-- A block of the tiling.
pub data Block (h : Heap) : ℕ → ℕ → Header → Type 0 where
  here : {at : ℕ} {node : Header} → h.headers at ≡ some node → Block h at at node
  later :
      {at block : ℕ} {node found : Header}
      → h.headers at ≡ some node
      → node.next ≡ some (at + node.sz)
      → header_size ≤ node.sz
      → Block h (at + node.sz) block found
      → Block h at block found

Block-ge : {h : Heap} {at block : ℕ} {node : Header} → Block h at block node → at ≤ block
Block-ge (here e) = omega arith
Block-ge (later e n s b) = omega (arith, Block-ge b)

pub Tiles-lt : {h : Heap} {end at : ℕ} → Tiles h end at → at + header_size ≤ end
Tiles-lt (last e n s t) = omega arith
Tiles-lt (more e n s t) = omega (arith, Tiles-lt t)

-- A header below the tiled part may be written.
pub Tiles-put :
    {h : Heap} {end at : ℕ} (p : ℕ) (new : Header)
    → p < at
    → Tiles h end at
    → Tiles (put_header h p new) end at
Tiles-put {at} p new lt (last {node} e n s t) =
    last {node = node} (rw (≢→== p at (omega arith)) e) n s t
Tiles-put {at} p new lt (more {node} e n s t) =
    more {node = node} (rw (≢→== p at (omega arith)) e) n s (Tiles-put p new (omega arith) t)

-- Back offsets are no headers.
pub Tiles-put_word :
    {h : Heap} {end at : ℕ} (p w : ℕ) → Tiles h end at → Tiles (put_word h p w) end at
Tiles-put_word p w (last e n s t) = last e n s t
Tiles-put_word p w (more e n s t) = more e n s (Tiles-put_word p w t)

-- What follows the block at `at` with header `node`.
abbrev pub Rest : Heap → ℕ → ℕ → Header → Type 0
Rest h end at node =
    ((node.next ≡ none) × (at + node.sz ≡ end))
    ⊎ ((node.next ≡ some (at + node.sz)) × Tiles h end (at + node.sz))

pub Tiles-of_Rest :
    {h : Heap} {end at : ℕ} {node : Header}
    → h.headers at ≡ some node
    → header_size ≤ node.sz
    → Rest h end at node
    → Tiles h end at
Tiles-of_Rest e s (inl (n, t)) = last e n s t
Tiles-of_Rest e s (inr (n, t)) = more e n s t

-- A header may be marked free: what it says of sizes and links stays.
pub Tiles-mark :
    {h : Heap} {end at : ℕ} (p : ℕ) (old : Header)
    → h.headers p ≡ some old
    → Tiles h end at
    → Tiles (put_header h p (record old { free = true })) end at
Tiles-mark {h} {end} {at} p old was (last {node} e n s t) = elim (ℕ_discrete p at) [
  | yes same ↦
      let is : old ≡ node = some_inj (sym was ∙ ap h.headers same ∙ e) in
      last {node = record old { free = true }} (rw (same, ==-refl at) refl)
        (ap (λ m. m.next) is ∙ n) (rw (ap (λ m. m.sz) is) s) (rw (ap (λ m. m.sz) is) t)
  | no ne ↦ last {node = node} (rw (≢→== p at ne) e) n s t
]
Tiles-mark {h} {end} {at} p old was (more {node} e n s t) =
    let rest = Tiles-mark p old was t in
    elim (ℕ_discrete p at) [
      | yes same ↦
          let is : old ≡ node = some_inj (sym was ∙ ap h.headers same ∙ e) in
          more {node = record old { free = true }} (rw (same, ==-refl at) refl)
            (ap (λ m. m.next) is ∙ n ∙ ap (λ m. some (at + m.sz)) (sym is))
            (rw (ap (λ m. m.sz) is) s)
            (subst (Tiles (put_header h p (record old { free = true })) end)
              (ap (λ m. at + m.sz) (sym is)) rest)
      | no ne ↦ more {node = node} (rw (≢→== p at ne) e) n s rest
    ]
