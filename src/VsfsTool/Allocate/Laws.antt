-- ===== src/VsfsTool/Allocate/Laws.antt =====
-- What `allocate_layout` gives to the nodes.
use efiks_os.Prelude.{
  ℕ, zero, suc, ◌+◌, ◌-◌, ◌*◌, ◌%◌, ◌^◌, ◌<◌, ◌≤◌, ◌≡◌, refl, sym, ap, ◌∙◌, List, [], ◌∷◌, ◌++◌,
  length, ok, ◌>>=◌, ltb, leb, if◌then◌else◌, arith, Bool-cases, inl, inr, get_or, subst,
  append-nil, ltb→le, leb→lt, bind_ok, ok_inj,
}
use efiks_os.Vsfs.Layout.{direct_block_count, dirent_size}
use efiks_os.VsfsTool.{
  LayoutNode, LayoutKind, LayoutNodes, layout_node, layout_directory, layout_file, no_layouts,
  more_layouts, FsNode, FsNodeKind, FsNodes, fs_node, fs_directory, fs_file, no_nodes, more_nodes,
  max_data_blocks, nblocks, ninodes, root_ino, data_block_start,
}
use efiks_os.VsfsTool.Allocate.{
  range, blocks_needed, first_block, allocate_blocks, allocate_node_blocks, allocate_kind,
  allocate_children, allocate_node, count_nodes, allocate_layout,
}

-- The block of the list of further blocks; zero is none.
abbrev pub indirect_of : ℕ → List ℕ
indirect_of zero = []
indirect_of (suc n) = suc n ∷ []

unfoldable mutual
  -- The inodes, a directory's before those of its children.
  pub inums : FsNode → List ℕ
  inums (fs_node inum blocks indirect name kind) = inum ∷ inums_below kind

  pub inums_below : FsNodeKind → List ℕ
  inums_below (fs_directory children) = inums_of children
  inums_below (fs_file bytes) = []

  pub inums_of : FsNodes → List ℕ
  inums_of no_nodes = []
  inums_of (more_nodes node rest) = inums node ++ inums_of rest

unfoldable mutual
  -- The blocks in use, a directory's after those of its children.
  pub blocks_of : FsNode → List ℕ
  blocks_of (fs_node inum blocks indirect name kind) =
      blocks_below kind ++ (blocks ++ indirect_of indirect)

  pub blocks_below : FsNodeKind → List ℕ
  blocks_below (fs_directory children) = blocks_in children
  blocks_below (fs_file bytes) = []

  pub blocks_in : FsNodes → List ℕ
  blocks_in no_nodes = []
  blocks_in (more_nodes node rest) = blocks_of node ++ blocks_in rest

unfoldable mutual
  -- The node without what was allocated.
  pub layout_of : FsNode → LayoutNode
  layout_of (fs_node inum blocks indirect name kind) = layout_node name (kind_of kind)

  pub kind_of : FsNodeKind → LayoutKind
  kind_of (fs_directory children) = layout_directory (layouts_of children)
  kind_of (fs_file bytes) = layout_file bytes

  pub layouts_of : FsNodes → LayoutNodes
  layouts_of no_nodes = no_layouts
  layouts_of (more_nodes node rest) = more_layouts (layout_of node) (layouts_of rest)

-- The blocks hold so many bytes, and there is an indirect block exactly past the direct ones.
abbrev pub Holds : List ℕ → (indirect bytes : ℕ) → Type 0
Holds blocks indirect bytes =
    (length blocks ≡ blocks_needed bytes)
    × (length blocks ≤ max_data_blocks)
    × (length (indirect_of indirect) ≡ (if ltb direct_block_count (length blocks) then 1 else 0))

unfoldable mutual
  pub IsSized : FsNode → Type 0
  IsSized (fs_node inum blocks indirect name (fs_directory children)) =
      Holds blocks indirect ((2 + count_nodes children) * dirent_size) × AreSized children
  IsSized (fs_node inum blocks indirect name (fs_file bytes)) = Holds blocks indirect (length bytes)

  pub AreSized : FsNodes → Type 0
  AreSized no_nodes = Unit
  AreSized (more_nodes node rest) = IsSized node × AreSized rest

range-append : (d a b : ℕ) → range d a ++ range (d + a) b ≡ range d (a + b)
range-append d zero b =
    ap (λ x. range x b) {x = d + 0} {y = d} (omega arith)
    ∙ ap (range d) {x = b} {y = 0 + b} (omega arith)
range-append d (suc a) b =
    ap (λ xs. d ∷ xs)
      (ap (λ x. range (suc d) a ++ range x b) {x = d + suc a} {y = suc d + a} (omega arith)
        ∙ range-append (suc d) a b)
    ∙ ap (range d) {x = suc (a + b)} {y = suc a + b} (omega arith)

length-range : (d n : ℕ) → length (range d n) ≡ n
length-range d zero = refl
length-range d (suc n) = ap suc (length-range (suc d) n)

-- The numbers from `d` to `d'`.
abbrev pub Counts : List ℕ → (d d' bound : ℕ) → Type 0
Counts xs d d' bound = (n : ℕ) × (xs ≡ range d n) × (d' ≡ d + n) × (d' ≤ bound)

Counts-append :
    (xs ys : List ℕ) (d e f bound : ℕ)
    → Counts xs d e bound
    → Counts ys e f bound
    → Counts (xs ++ ys) d f bound
Counts-append xs ys d e f bound (n, xe, ee, _) (m, ye, fe, le) =
    (n + m, cong_append xe (ye ∙ ap (λ x. range x m) ee) ∙ range-append d n m, omega arith, le)
  where
    cong_append : {ks ls ms ns : List ℕ} → ks ≡ ls → ms ≡ ns → ks ++ ms ≡ ls ++ ns
    cong_append p q = λ i. p i ++ q i

Counts-none : (d bound : ℕ) → d ≤ bound → Counts [] d d bound
Counts-none d bound h = (0, refl, omega arith, h)

allocate_blocks-Counts :
    (count next : ℕ) (r : List ℕ × ℕ)
    → count < 2 ^ 32
    → allocate_blocks count next ≡ ok r
    → Counts (r.0) next (r.1) nblocks × (length (r.0) ≡ count)
unfolding allocate_blocks
allocate_blocks-Counts count next r small h =
    elim (Bool-cases (leb (2 ^ 32) (next + count % 2 ^ 32))) [
      | inl over ↦ absurd (grind (arith, rw over at h))
      | inr fits ↦ elim (Bool-cases (ltb nblocks (next + count % 2 ^ 32))) [
        | inl full ↦ absurd (grind (arith, rw (fits, full) at h))
        | inr room ↦
            (let e = sym (ok_inj (rw (fits, room) at h)) in
              let count' : next + count % 2 ^ 32 - next ≡ count = omega arith in
              let blocks = ap (λ (x : List ℕ × ℕ). x.0) e ∙ ap (range next) count' in
              (
                (
                  count,
                  blocks,
                  ap (λ (x : List ℕ × ℕ). x.1) e ∙ omega arith,
                  omega (arith, ltb→le nblocks _ room, ap (λ (x : List ℕ × ℕ). x.1) e),
                ),
                ap length blocks ∙ length-range next count,
              ))
      ]
    ]

indirect_of-pos : (n : ℕ) → 1 ≤ n → indirect_of n ≡ n ∷ []
indirect_of-pos zero h = absurd (omega arith)
indirect_of-pos (suc n) h = refl

first_block-only :
    (r : List ℕ × ℕ) (x : ℕ × ℕ)
    → length (r.0) ≡ 1
    → first_block r ≡ ok x
    → (r.0 ≡ x.0 ∷ []) × (r.1 ≡ x.1)
first_block-only ([], next) x one h = absurd (omega (arith, one))
first_block-only (b ∷ [], next) x one h =
    let e = ok_inj h in (ap (λ (y : ℕ × ℕ). y.0 ∷ []) e, ap (λ (y : ℕ × ℕ). y.1) e)
first_block-only (b ∷ c ∷ bs, next) x one h = absurd (omega (arith, one))

-- The blocks of one node.
abbrev pub GetsBlocks : (count next : ℕ) → List ℕ × ℕ × ℕ → Type 0
GetsBlocks count next (blocks, indirect, next') =
    Counts (blocks ++ indirect_of indirect) next next' nblocks
    × (length blocks ≡ count)
    × (count ≤ max_data_blocks)
    × (length (indirect_of indirect) ≡ (if ltb direct_block_count (length blocks) then 1 else 0))

one_block :
    (next : ℕ) (x : ℕ × ℕ)
    → 1 ≤ next
    → (allocate_blocks 1 next >>= first_block) ≡ ok x
    → Counts (indirect_of (x.0)) next (x.1) nblocks × (length (indirect_of (x.0)) ≡ 1)
one_block next x pos h =
    let (r, e, e') = bind_ok (allocate_blocks 1 next) first_block x h in
    let ((n, blocks, at, le), one) = allocate_blocks-Counts 1 next r (omega arith) e in
    let (only, after) = first_block-only r x one e' in
    let n_one : n ≡ 1 = omega (arith, sym (length-range next n) ∙ sym (ap length blocks) ∙ one) in
    let first : x.0 ≡ next = ap (λ l. get_or l 0 0) (sym only ∙ blocks ∙ ap (range next) n_one) in
    let listed = indirect_of-pos (x.0) (omega arith) in
    ((n, listed ∙ sym only ∙ blocks, sym after ∙ at, omega arith), ap length listed)

allocate_node_blocks-GetsBlocks :
    (count next : ℕ) (r : List ℕ × ℕ × ℕ)
    → 1 ≤ next
    → allocate_node_blocks count next ≡ ok r
    → GetsBlocks count next r
unfolding allocate_node_blocks
allocate_node_blocks-GetsBlocks count next r pos h = elim (Bool-cases (ltb max_data_blocks count)) [
  | inl large ↦ absurd (grind (arith, rw large at h))
  | inr small ↦
      let le = ltb→le max_data_blocks count small in
      let ((blocks, next'), e, e') = bind_ok (allocate_blocks count next) _ r (rw small at h) in
      let (counts, size) = allocate_blocks-Counts count next (blocks, next') (omega arith) e in
      elim (Bool-cases (ltb direct_block_count count)) [
        | inr direct ↦ subst (GetsBlocks count next) (ok_inj (rw direct at e')) (
          subst (λ xs. Counts xs next next' nblocks) (sym (append-nil blocks)) counts,
          size,
          le,
          rw (size, direct) refl,
        )
        | inl more ↦
            let (x, f, f') =
              bind_ok (allocate_blocks 1 next' >>= first_block) _ r (rw more at e') in
            let (counts', one) = one_block next' x (omega (arith, counts.2)) f in
            subst (GetsBlocks count next) (ok_inj f') (
              Counts-append blocks (indirect_of (x.0)) next next' (x.1) nblocks counts counts',
              size,
              le,
              one ∙ sym (rw (size, more) refl),
            )
      ]
]

-- What a node gets from the counters `i` and `d`.
abbrev pub LaysOut : LayoutNode → (i d : ℕ) → FsNode × ℕ × ℕ → Type 0
LaysOut node i d (fs, i', d') =
    Counts (inums fs) i i' ninodes
    × Counts (blocks_of fs) d d' nblocks
    × (layout_of fs ≡ node)
    × IsSized fs

abbrev LaysOutAll : LayoutNodes → (i d : ℕ) → FsNodes × ℕ × ℕ → Type 0
LaysOutAll nodes i d (fs, i', d') =
    Counts (inums_of fs) i i' ninodes
    × Counts (blocks_in fs) d d' nblocks
    × (layouts_of fs ≡ nodes)
    × AreSized fs

Counts-first :
    (xs : List ℕ) (i i' bound : ℕ) → Counts xs (suc i) i' bound → Counts (i ∷ xs) i i' bound
Counts-first xs i i' bound (n, e, at, le) = (suc n, ap (λ ys. i ∷ ys) e, omega arith, le)

mutual
  unfolding allocate_node inums blocks_of layout_of IsSized

  allocate_node-LaysOut :
      (node : LayoutNode) (i d : ℕ) (r : FsNode × ℕ × ℕ)
      → 1 ≤ d
      → d ≤ nblocks
      → allocate_node node i d ≡ ok r
      → LaysOut node i d r
  allocate_node-LaysOut (layout_node name kind) i d r pos le h = elim (Bool-cases (leb ninodes i)) [
    | inl full ↦ absurd (grind (arith, rw full at h))
    | inr room ↦ allocate_kind-LaysOut kind i name d r pos le (leb→lt ninodes i room) (rw room at h)
  ]

  allocate_kind-LaysOut :
      (kind : LayoutKind) (i : ℕ) (name : List ℕ) (d : ℕ) (r : FsNode × ℕ × ℕ)
      → 1 ≤ d
      → d ≤ nblocks
      → i < ninodes
      → allocate_kind kind i name (suc i) d ≡ ok r
      → LaysOut (layout_node name kind) i d r
  allocate_kind-LaysOut (layout_file bytes) i name d r pos le room h =
      let ((blocks, indirect, d'), e, e') =
        bind_ok (allocate_node_blocks (blocks_needed (length bytes)) d) _ r h in
      let (counts, size, small, more) =
        allocate_node_blocks-GetsBlocks _ d (blocks, indirect, d') pos e in
      subst (LaysOut (layout_node name (layout_file bytes)) i d) (ok_inj e') (
        Counts-first [] i (suc i) ninodes (Counts-none (suc i) ninodes (omega arith)),
        counts,
        refl,
        (size, omega arith, more),
      )
  allocate_kind-LaysOut (layout_directory children) i name d r pos le room h =
      let ((nodes, i', d'), e, e') = bind_ok (allocate_children children (suc i) d) _ r h in
      let (below, blocks_below', same, sized) =
        allocate_children-LaysOut children (suc i) d (nodes, i', d') pos le (omega arith) e in
      let ((blocks, indirect, d''), f, f') =
        bind_ok (allocate_node_blocks (blocks_needed ((2 + count_nodes nodes) * dirent_size)) d') _
          r e' in
      let (counts, size, small, more) =
        allocate_node_blocks-GetsBlocks _ d' (blocks, indirect, d'')
          (omega (arith, blocks_below'.2)) f in
      subst (LaysOut (layout_node name (layout_directory children)) i d) (ok_inj f') (
        Counts-first (inums_of nodes) i i' ninodes below,
        Counts-append (blocks_in nodes) (blocks ++ indirect_of indirect) d d' d'' nblocks
            blocks_below' counts,
        ap (λ x. layout_node name (layout_directory x)) same,
        ((size, omega arith, more), sized),
      )

  allocate_children-LaysOut :
      (children : LayoutNodes) (i d : ℕ) (r : FsNodes × ℕ × ℕ)
      → 1 ≤ d
      → d ≤ nblocks
      → i ≤ ninodes
      → allocate_children children i d ≡ ok r
      → LaysOutAll children i d r
  allocate_children-LaysOut no_layouts i d r pos le room h =
      subst (LaysOutAll no_layouts i d) (ok_inj h)
        (Counts-none i ninodes room, Counts-none d nblocks le, refl, tt)
  allocate_children-LaysOut (more_layouts child rest) i d r pos le room h =
      let ((node, i', d'), e, e') = bind_ok (allocate_node child i d) _ r h in
      let (one, blocks, same, sized) = allocate_node-LaysOut child i d (node, i', d') pos le e in
      let ((nodes, i'', d''), f, f') = bind_ok (allocate_children rest i' d') _ r e' in
      let (others, blocks', same', sized') =
        allocate_children-LaysOut rest i' d' (nodes, i'', d'') (omega (arith, blocks.2)) (blocks.3)
          (one.3) f in
      subst (LaysOutAll (more_layouts child rest) i d) (ok_inj f') (
        Counts-append (inums node) (inums_of nodes) i i' i'' ninodes one others,
        Counts-append (blocks_of node) (blocks_in nodes) d d' d'' nblocks blocks blocks',
        (λ j. more_layouts (same j) (same' j)),
        (sized, sized'),
      )

pub allocate_layout-LaysOut :
    (layout : LayoutNode) (fs : FsNode)
    → allocate_layout layout ≡ ok fs
    → (i' d' : ℕ) × LaysOut layout root_ino data_block_start (fs, i', d')
unfolding allocate_layout
allocate_layout-LaysOut layout fs h =
    let ((node, i', d'), e, e') = bind_ok (allocate_node layout root_ino data_block_start) _ fs h in
    let lays =
      allocate_node-LaysOut layout root_ino data_block_start (node, i', d') (omega arith)
        (omega arith) e in
    (i', d', subst (λ x. LaysOut layout root_ino data_block_start (x, i', d')) (ok_inj e') lays)
