-- ===== src/AddressSpace/Fault.antt =====
-- `handle_page_fault` on a page that is not present, and at an address between the halves of the address
-- space.
use native.Mathlib.Decide.{ℕ_discrete}
use efiks_os.Prelude.{
  ℕ, ◌+◌, ◌-◌, ◌*◌, ◌/◌, ◌^◌, ◌<◌, ◌≡◌, ◌≢◌, refl, sym, ap, subst, ◌∙◌, bit_and, false, Option,
  none, some, ok, panic, arith, lt→ltb, ◌≤◌, ◌⊎◌, inl, inr,
}
use efiks_os.Mm.Frames.{FrameAllocator}
use efiks_os.Mm.Frames.Laws.{frame_bit, AllocatesFrame}
use efiks_os.Mm.Pages.{PageMetadataTable, add}
use efiks_os.Prelude.Bits.{bit_not, bit_and-high_mask}
use efiks_os.Mm.Regions.{FaultAction, allocate, fault_action, align_down, page_size}
use efiks_os.Sv39.{flag_w, virtual_from_raw}
use efiks_os.Sv39.Address.{Accepts, virtual_from_raw-Accepts}
use efiks_os.Sv39.Table.{Store, translate, direct_mapping_base}
use efiks_os.Sv39.Table.Walk.{IsTree}
use efiks_os.Sv39.Table.Leaf.{Permits}
use efiks_os.Sv39.Table.Create.{alloc_frame-Takes, still_free, stays}
use efiks_os.Sv39.Table.Map.{Maps, map_vm-Maps}
use efiks_os.AddressSpace.{
  AddressSpace, zero_frame, fresh_frame, map_fresh, resolve_fault, handle_page_fault,
  translate_page, to_virtual,
}

module _ (s : Store) (level : ℕ → Option ℕ) (tree : IsTree s level) (frames' : FrameAllocator)
    (pa : ℕ) (found : AllocatesFrame s.frames (frames', ok pa)) where
  abbrev taken : Store
  taken = zero_frame (record s { frames = frames' }) pa

  taken_reached :
      (frame b : ℕ)
      → frame_bit frames'.pages frame ≡ some b
      → frames'.start_addr + frame * 4096 + direct_mapping_base < 2 ^ 64
  taken_reached frame b h = elim (ℕ_discrete found.0 frame) [
    | yes same ↦ rw found.2 (tree.reached frame 0 (rw same at found.3))
    | no ne ↦ rw found.2 (tree.reached frame b (sym (stays s.frames frames' pa found frame ne) ∙ h))
  ]

  taken-IsTree : IsTree taken level
  taken-IsTree = record {
    child = tree.child;
    bottom = tree.bottom;
    unique = tree.unique;
    word = tree.word;
    fresh =
        λ frame h. rw found.2 (tree.fresh frame (still_free s.frames frames' pa found frame h).0);
    reached = taken_reached;
    aligned = rw found.2 tree.aligned;
  }

  -- Of three free frames two are left.
  two_left :
      (f g h : ℕ)
      → frame_bit s.frames.pages f ≡ some 0
      → frame_bit s.frames.pages g ≡ some 0
      → frame_bit s.frames.pages h ≡ some 0
      → f ≢ g
      → f ≢ h
      → g ≢ h
      → (x y : ℕ) × (frame_bit frames'.pages x ≡ some 0)
        × (frame_bit frames'.pages y ≡ some 0)
        × (x ≢ y)
  two_left f g h hf hg hh fg fh gh = elim (ℕ_discrete found.0 f) [
    | yes e ↦ (g, h, left g hg (λ x. fg (sym e ∙ x)), left h hh (λ x. fh (sym e ∙ x)), gh)
    | no nf ↦ elim (ℕ_discrete found.0 g) [
      | yes e ↦ (f, h, left f hf nf, left h hh (λ x. gh (sym e ∙ x)), fh)
      | no ng ↦ (f, g, left f hf nf, left g hg ng, fg)
    ]
  ]
    where
      left :
          (x : ℕ)
          → frame_bit s.frames.pages x ≡ some 0
          → found.0 ≢ x
          → frame_bit frames'.pages x ≡ some 0
      left x hx ne = stays s.frames frames' pa found x ne ∙ hx

-- The page of an address of a word.
align_down-page : (addr : ℕ) → addr < 2 ^ 64 → align_down addr page_size ≡ addr / 4096 * 4096
unfolding align_down
align_down-page addr h =
    ap (bit_and addr) {x = bit_not 64 (page_size - 1)} {y = (2 ^ 52 - 1) * 2 ^ 12} (omega arith)
    ∙ bit_and-high_mask 52 12 addr (omega arith)

-- An address in the lower or the upper half.
abbrev pub IsCanonical : ℕ → Type 0
IsCanonical addr = (addr < 2 ^ 38) ⊎ (2 ^ 64 - 2 ^ 38 ≤ addr)

virtual_from_raw-IsCanonical :
    (addr : ℕ) → addr < 2 ^ 64 → IsCanonical addr → virtual_from_raw addr ≡ some addr
virtual_from_raw-IsCanonical addr word half =
    from (virtual_from_raw addr) (virtual_from_raw-Accepts addr word) half
  where
    from : (r : Option ℕ) → Accepts addr r → IsCanonical addr → r ≡ some addr
    from (some a) (same, _) half = ap some same
    from none (low, high) (inl below) = absurd (omega arith)
    from none (low, high) (inr above) = absurd (omega arith)

page-IsCanonical : (addr : ℕ) → IsCanonical addr → IsCanonical (addr / 4096 * 4096)
page-IsCanonical addr (inl below) = inl (omega arith)
page-IsCanonical addr (inr above) = inr (omega arith)

counted-IsTree :
    (s : Store) (level : ℕ → Option ℕ) (counts : PageMetadataTable)
    → IsTree s level
    → IsTree (record s { counts = counts }) level
counted-IsTree s level counts tree = record {
  child = tree.child;
  bottom = tree.bottom;
  unique = tree.unique;
  word = tree.word;
  fresh = tree.fresh;
  reached = tree.reached;
  aligned = tree.aligned;
}

-- What a fault leaves: the page is mapped to a frame that was free, and the regions are as before.
abbrev pub Faults : AddressSpace → (ℕ → Option ℕ) → (page : ℕ) → AddressSpace → Type 0
Faults mm level page mm' =
    (frame : ℕ) × (level' : ℕ → Option ℕ) × (frame_bit mm.store.frames.pages frame ≡ some 0)
    × Maps mm.store level mm.root_pt page (mm.store.frames.start_addr + frame * 4096) mm'.store
        level'
    × (mm'.regions ≡ mm.regions)

-- `handle_page_fault` on an access that the region of the page allows, at an address in the lower or the
-- upper half of the address space, where the page is not mapped and three frames are free: the call returns, the page is mapped to a frame that was free, the tables are a
-- tree as before, every other address translates as before, and the regions are untouched.
pub handle_page_fault-Faults :
    (mm : AddressSpace) (level : ℕ → Option ℕ) (addr access_flags flags f g h : ℕ)
    → IsTree mm.store level
    → level mm.root_pt ≡ some 2
    → addr < 2 ^ 64
    → IsCanonical addr
    → fault_action mm.regions false flag_w addr access_flags ≡ ok (allocate flags)
    → flags < 2 ^ 10
    → Permits flags
    → translate mm.store.tables mm.root_pt (align_down addr page_size) ≡ none
    → frame_bit mm.store.frames.pages f ≡ some 0
    → frame_bit mm.store.frames.pages g ≡ some 0
    → frame_bit mm.store.frames.pages h ≡ some 0
    → f ≢ g
    → f ≢ h
    → g ≢ h
    → (mm' : AddressSpace) × (handle_page_fault mm addr access_flags ≡ ok mm')
      × Faults mm level (align_down addr page_size) mm'
unfolding handle_page_fault resolve_fault map_fresh fresh_frame translate_page to_virtual
handle_page_fault-Faults mm level addr access_flags flags f g h tree top word half action small
      permits absent hf hg hh fg fh gh =
    let s = mm.store in
    let page = align_down addr page_size in
    let on_page = align_down-page addr word in
    let is_virtual : virtual_from_raw page ≡ some page =
      virtual_from_raw-IsCanonical page (omega arith)
        (subst IsCanonical (sym on_page) (page-IsCanonical addr half)) in
    let ((frames', pa), (takes, found)) =
      alloc_frame-Takes s.frames f hf (λ j b h'. omega (arith, tree.reached j b h')) in
    let (x, y, hx, hy, xy) = two_left s level tree frames' pa found f g h hf hg hh fg fh gh in
    let near = tree.reached found.0 0 found.3 in
    let (s', level', e, (tree', extends, same, other)) =
      map_vm-Maps (taken s level tree frames' pa found) level mm.root_pt page pa flags x y
        (taken-IsTree s level tree frames' pa found) top (omega arith)
        (omega (arith, found.1, tree.aligned)) (omega (arith, found.1)) small permits absent hx hy
        xy in
    let counted : Store = record s' { counts = add s'.counts pa } in
    let maps : Maps s level mm.root_pt page pa counted level' =
      (counted-IsTree s' level' (add s'.counts pa) tree', extends, same, other) in
    (
      record mm { store = counted },
      rw
          (
            action,
            is_virtual,
            absent,
            action,
            takes,
            lt→ltb (pa + direct_mapping_base) (2 ^ 64) (omega (arith, near, found.1)),
            is_virtual,
            e,
          )
          refl,
      (
        found.0,
        level',
        found.3,
        subst (λ p. Maps s level mm.root_pt page p counted level') found.1 maps,
        refl,
      ),
    )

virtual_from_raw-none :
    (addr : ℕ) → 2 ^ 38 ≤ addr → addr < 2 ^ 64 - 2 ^ 38 → virtual_from_raw addr ≡ none
virtual_from_raw-none addr low high =
    from (virtual_from_raw addr) (virtual_from_raw-Accepts addr (omega arith))
  where
    from : (r : Option ℕ) → Accepts addr r → r ≡ none
    from none outside = refl
    from (some a) (same, inl below) = absurd (omega arith)
    from (some a) (same, inr above) = absurd (omega arith)

-- `handle_page_fault` on an access that the region of the page allows, at an address between the lower and
-- the upper half of the address space: the kernel panics, whatever the page tables hold.
pub handle_page_fault-panics :
    (mm : AddressSpace) (addr access_flags : ℕ) (action : FaultAction)
    → 2 ^ 38 ≤ addr
    → addr < 2 ^ 64 - 2 ^ 38
    → fault_action mm.regions false flag_w addr access_flags ≡ ok action
    → handle_page_fault mm addr access_flags ≡ panic
unfolding handle_page_fault translate_page to_virtual
handle_page_fault-panics mm addr access_flags action low high allowed =
    let on_page = align_down-page addr (omega arith) in
    let outside : virtual_from_raw (align_down addr page_size) ≡ none =
      virtual_from_raw-none (align_down addr page_size) (omega (arith, on_page))
        (omega (arith, on_page)) in
    rw (allowed, outside) refl
