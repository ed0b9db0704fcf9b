-- ===== src/Sv39/Table/CopyOnWrite.antt =====
-- `copy_on_write`: the page gets a frame of its own.

use efiks_os.Prelude.{ℕ, ◌+◌, ◌-◌, ◌*◌, ◌≡◌, ◌≢◌, true, ◌&&◌, some, ◌==◌, if◌then◌else◌}
use efiks_os.Mm.Error.{Error}
use efiks_os.Mm.Frames.Laws.{frame_bit}
use efiks_os.Mm.Pages.{PageMetadataTable}
use efiks_os.Mm.Pages.Laws.{refs}
use efiks_os.Sv39.{is_writable, address_bits}
use efiks_os.Sv39.Table.{Store}

-- The old page loses a reference, and is free without any.
abbrev pub Drops : Store → (old k : ℕ) → PageMetadataTable → Store → Type 0
Drops s old k counts s' =
    (s'.tables ≡ s.tables)
    × (s'.contents ≡ s.contents)
    × ((b : ℕ) → refs s'.counts b ≡ (if old == b then refs counts old - 1 else refs counts b))
    × ((j : ℕ)
        → frame_bit s'.frames.pages j
          ≡ (if k == j && refs counts old == 1 then some 0 else frame_bit s.frames.pages j))

-- The entry leads to the frame `g`, which was free, and permits writing; it holds what the old page
-- holds. The old page has one reference less, and its frame is free when it had no other.
abbrev pub Copies : Store → (t i k g : ℕ) → Store → Type 0
Copies s t i k g s' =
    let new = s.frames.start_addr + g * 4096 in
    let old = address_bits (s.tables t i) in
    (frame_bit s.frames.pages g ≡ some 0)
    × (address_bits (s'.tables t i) ≡ new)
    × (is_writable (s'.tables t i) ≡ true)
    × ((x j : ℕ) → ¬ ((x ≡ t) × (j ≡ i)) → s'.tables x j ≡ s.tables x j)
    × ((j : ℕ) → s'.contents new j ≡ s.contents old j)
    × ((p j : ℕ) → p ≢ new → s'.contents p j ≡ s.contents p j)
    × ((b : ℕ)
        → refs s'.counts b ≡ (
            if old == b
            then refs s.counts b - 1
            else (if new == b then refs s.counts b + 1 else refs s.counts b)))
    × ((j : ℕ)
        → frame_bit s'.frames.pages j ≡ (
            if k == j && refs s.counts old == 1
            then some 0
            else (if g == j then some 1 else frame_bit s.frames.pages j)))
