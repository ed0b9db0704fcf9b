-- ===== src/Sv39/Table/Create.antt =====
-- The table that `get_or_create_next_table` adds to tables that form a tree.
use native.Mathlib.Decide.{ℕ_discrete}
use efiks_os.Prelude.{
  ℕ, zero, suc, ◌+◌, ◌*◌, ◌/◌, ◌%◌, ◌^◌, ◌<◌, ◌≡◌, ◌≢◌, refl, sym, ap, subst, ◌∙◌, ◌⊎◌, inl, inr,
  false, List, [], ◌∷◌, Option, none, some, Result, ok, err, panic, get_elem?, length, ◌==◌,
  if◌then◌else◌, arith, Bool-cases, Option-cases, ==-refl, ≢→==, lt_of_get_elem?, some_inj, ==→≡,
}
use efiks_os.Mm.Error.{Error}
use efiks_os.Mm.Frames.{FrameAllocator, alloc}
use efiks_os.Mm.Frames.Laws.{frame_bit, AllocatesFrame, alloc-AllocatesFrame}
use efiks_os.Sv39.{is_valid, address_bits}
use efiks_os.Sv39.Table.{
  PageSize, Store, alloc_frame, unwrap_frame, table_entry, direct_mapping_base, set_entry,
  clear_table,
}
use efiks_os.Sv39.Table.Entries.{
  IsTable, table_entry-address_bits, table_entry_lt, table_entry-IsTable,
}
use efiks_os.Sv39.Table.Walk.{IsTree, leaf_at, leaf_at-invalid, leaf_at-same, leaf_at-table}

-- A free frame is found, and then marked.
abbrev pub Takes : FrameAllocator → FrameAllocator × ℕ → Type 0
Takes a (a', pa) = (alloc_frame a ≡ ok (a', pa)) × AllocatesFrame a (a', ok pa)

pub frame_bit_lt : (pages : List ℕ) (f b : ℕ) → frame_bit pages f ≡ some b → f < 64 * length pages
unfolding frame_bit
frame_bit_lt pages f b h = elim (Option-cases (get_elem? pages (f / 64))) [
  | inl e ↦ absurd (grind (arith, sym (rw e at h)))
  | inr (word, e) ↦ omega (arith, lt_of_get_elem? pages (f / 64) e)
]

pub alloc_frame-Takes :
    (a : FrameAllocator) (f : ℕ)
    → frame_bit a.pages f ≡ some 0
    → ((j b : ℕ) → frame_bit a.pages j ≡ some b → a.start_addr + j * 4096 < 2 ^ 64)
    → (r : FrameAllocator × ℕ) × Takes a r
unfolding alloc_frame
alloc_frame-Takes a f free fits = from (alloc a) refl (alloc-AllocatesFrame a)
  where
    from :
        (r : FrameAllocator × Result Error ℕ)
        → alloc a ≡ r
        → AllocatesFrame a r
        → (r : FrameAllocator × ℕ) × Takes a r
    from (a', ok pa) e found = ((a', pa), (ap unwrap_frame e, found))
    from (a', err e) eq (is, same, full) =
        absurd (omega (arith, some_inj (sym (full f (frame_bit_lt a.pages f 0 free)) ∙ free)))
    from (a', panic) e (frame, past, clear, _) = absurd (omega (arith, fits frame 0 clear))

-- The other frames, after one was taken.
module _ (a a' : FrameAllocator) (pa : ℕ) (found : AllocatesFrame a (a', ok pa)) where
  pub stays : (frame : ℕ) → found.0 ≢ frame → frame_bit a'.pages frame ≡ frame_bit a.pages frame
  stays frame ne = rw (≢→== found.0 frame ne) at (found.5 frame)

  -- A frame that is free now was free, and is not the one that was taken.
  pub still_free :
      (frame : ℕ)
      → frame_bit a'.pages frame ≡ some 0
      → (frame_bit a.pages frame ≡ some 0) × (found.0 ≢ frame)
  still_free frame h = elim (ℕ_discrete found.0 frame) [
    | yes same ↦
        absurd (omega (arith, some_inj ((sym (rw (same, ==-refl frame) at (found.5 frame))) ∙ h)))
    | no ne ↦ (sym (stays frame ne) ∙ h, ne)
  ]

module _ (s : Store) (level : ℕ → Option ℕ) (tree : IsTree s level) (t i l : ℕ)
    (above : level t ≡ some (suc l)) (invalid : is_valid (s.tables t i) ≡ false)
    (frames' : FrameAllocator) (pa : ℕ) (found : AllocatesFrame s.frames (frames', ok pa)) where
  abbrev pub level' : ℕ → Option ℕ
  level' x = if x == pa then some l else level x

  abbrev pub created : Store
  created = record s {
    tables = set_entry (clear_table s.tables pa) t i (table_entry pa);
    frames = frames';
  }

  frame_aligned : pa % 2 ^ 12 ≡ 0
  frame_aligned = omega (arith, found.1, tree.aligned)

  pub in_reach : pa + direct_mapping_base < 2 ^ 64
  in_reach = omega (arith, found.1, tree.reached found.0 0 found.3)

  no_level : level pa ≡ none
  no_level = ap level found.1 ∙ tree.fresh found.0 found.3

  old-ne : (x m : ℕ) → level x ≡ some m → x ≢ pa
  old-ne x m h e = grind (arith, sym no_level ∙ ap level (sym e) ∙ h)

  pub extends : (x m : ℕ) → level x ≡ some m → level' x ≡ some m
  extends x m h = rw (≢→== x pa (old-ne x m h)) h

  level_cases : (x m : ℕ) → level' x ≡ some m → ((x ≡ pa) × (m ≡ l)) ⊎ (level x ≡ some m)
  level_cases x m h = elim (Bool-cases (x == pa)) [
    | inl new ↦ inl (==→≡ x pa new, sym (some_inj (rw new at h)))
    | inr old ↦ inr (rw old at h)
  ]

  entry_self : created.tables t i ≡ table_entry pa
  entry_self = rw (==-refl t, ==-refl i) refl

  entry_new : (j : ℕ) → created.tables pa j ≡ 0
  entry_new j = rw (≢→== pa t (λ e. old-ne t (suc l) above (sym e)), ==-refl pa) refl

  entry_cases :
      (x j m : ℕ) → level x ≡ some m → ((x ≡ t) × (j ≡ i)) ⊎ (created.tables x j ≡ s.tables x j)
  entry_cases x j m h =
      let old = ≢→== x pa (old-ne x m h) in
      elim (Bool-cases (x == t)) [
        | inr apart ↦ inr (rw (apart, old) refl)
        | inl same ↦ elim (Bool-cases (j == i)) [
          | inl here ↦ inl (==→≡ x t same, ==→≡ j i here)
          | inr apart ↦ inr (rw (same, apart, old) refl)
        ]
      ]

  new-not-IsTable : (j : ℕ) → ¬ IsTable (created.tables pa j)
  unfolding is_valid
  new-not-IsTable j (valid, deeper) = grind (arith, sym valid ∙ ap is_valid (entry_new j))

  old_target-ne :
      (x j m : ℕ) → level x ≡ some m → IsTable (s.tables x j) → address_bits (s.tables x j) ≢ pa
  old_target-ne x j zero h is = absurd (tree.bottom x j h is)
  old_target-ne x j (suc m) h is = old-ne _ m (tree.child x j m h is)

  pub new_target : address_bits (created.tables t i) ≡ pa
  new_target =
      ap address_bits entry_self
      ∙ table_entry-address_bits pa frame_aligned (omega (arith, in_reach))

  pub new-IsTable : IsTable (created.tables t i)
  new-IsTable =
      subst IsTable (sym entry_self)
        (table_entry-IsTable pa frame_aligned (omega (arith, in_reach)))

  here_target : (x j : ℕ) → x ≡ t → j ≡ i → address_bits (created.tables x j) ≡ pa
  here_target x j ex ej =
      ap (λ y. address_bits (created.tables y j)) ex
      ∙ ap (λ k. address_bits (created.tables t k)) ej
      ∙ new_target

  child' :
      (x j m : ℕ)
      → level' x ≡ some (suc m)
      → IsTable (created.tables x j)
      → level' (address_bits (created.tables x j)) ≡ some m
  child' x j m h is = elim (level_cases x (suc m) h) [
    | inl (e, is_l) ↦ absurd (new-not-IsTable j (subst (λ y. IsTable (created.tables y j)) e is))
    | inr old ↦ elim (entry_cases x j (suc m) old) [
      | inl (ex, ej) ↦
          ap level' (here_target x j ex ej)
          ∙ rw (==-refl pa)
              (ap some (omega (arith, some_inj (sym above ∙ ap level (sym ex) ∙ old))))
      | inr same ↦
          extends _ m
            (ap (λ p. level (address_bits p)) same ∙ tree.child x j m old (subst IsTable same is))
    ]
  ]

  bottom' : (x j : ℕ) → level' x ≡ some 0 → ¬ IsTable (created.tables x j)
  bottom' x j h is = elim (level_cases x 0 h) [
    | inl (e, is_l) ↦ new-not-IsTable j (subst (λ y. IsTable (created.tables y j)) e is)
    | inr old ↦ elim (entry_cases x j 0 old) [
      | inl (ex, ej) ↦ omega (arith, some_inj (sym above ∙ ap level (sym ex) ∙ old))
      | inr same ↦ tree.bottom x j old (subst IsTable same is)
    ]
  ]

  below_level :
      (x j m : ℕ)
      → level x ≡ some m
      → IsTable (s.tables x j)
      → (m' : ℕ) × (level (address_bits (s.tables x j)) ≡ some m')
  below_level x j zero h is = absurd (tree.bottom x j h is)
  below_level x j (suc m) h is = (m, tree.child x j m h is)

  unique' :
      (x j x' j' m m' : ℕ)
      → level' x ≡ some m
      → level' x' ≡ some m'
      → IsTable (created.tables x j)
      → IsTable (created.tables x' j')
      → address_bits (created.tables x j) ≡ address_bits (created.tables x' j')
      → (x ≡ x') × (j ≡ j')
  unique' x j x' j' m m' h h' is is' e = elim (level_cases x m h) [
    | inl (new, _) ↦ absurd (new-not-IsTable j (subst (λ y. IsTable (created.tables y j)) new is))
    | inr old ↦ elim (level_cases x' m' h') [
      | inl (new, _) ↦
          absurd (new-not-IsTable j' (subst (λ y. IsTable (created.tables y j')) new is'))
      | inr old' ↦ elim (entry_cases x j m old) [
        | inl (ex, ej) ↦ elim (entry_cases x' j' m' old') [
          | inl (ex', ej') ↦ (ex ∙ sym ex', ej ∙ sym ej')
          | inr same ↦ absurd (
              old_target-ne x' j' m' old' (subst IsTable same is')
                (sym (ap address_bits same) ∙ sym e ∙ here_target x j ex ej))
        ]
        | inr same ↦ elim (entry_cases x' j' m' old') [
          | inl (ex, ej) ↦ absurd (
              old_target-ne x j m old (subst IsTable same is)
                (sym (ap address_bits same) ∙ e ∙ here_target x' j' ex ej))
          | inr same' ↦
              tree.unique x j x' j' m m' old old' (subst IsTable same is) (subst IsTable same' is')
                (sym (ap address_bits same) ∙ e ∙ ap address_bits same')
        ]
      ]
    ]
  ]

  cleared_word : (x j : ℕ) → clear_table s.tables pa x j < 2 ^ 64
  cleared_word x j = elim (Bool-cases (x == pa)) [
    | inl c ↦ rw c (omega arith)
    | inr c ↦ rw c (tree.word x j)
  ]

  word' : (x j : ℕ) → created.tables x j < 2 ^ 64
  word' x j =
      let new = table_entry_lt pa frame_aligned (omega (arith, in_reach)) in
      let cleared = cleared_word x j in
      elim (Bool-cases (x == t)) [
        | inr a ↦ rw a cleared
        | inl a ↦ elim (Bool-cases (j == i)) [ inl b ↦ rw (a, b) new | inr b ↦ rw (a, b) cleared ]
      ]

  fresh' :
      (frame : ℕ)
      → frame_bit frames'.pages frame ≡ some 0
      → level' (frames'.start_addr + frame * 4096) ≡ none
  fresh' frame h =
      let (free, ne) = still_free s.frames frames' pa found frame h in
      let apart : s.frames.start_addr + frame * 4096 ≢ pa = λ e. ne (omega (arith, found.1, e)) in
      rw (found.2, ≢→== _ pa apart) (tree.fresh frame free)

  reached' :
      (frame b : ℕ)
      → frame_bit frames'.pages frame ≡ some b
      → frames'.start_addr + frame * 4096 + direct_mapping_base < 2 ^ 64
  reached' frame b h = elim (ℕ_discrete found.0 frame) [
    | yes same ↦ rw found.2 (tree.reached frame 0 (rw same at found.3))
    | no ne ↦ rw found.2 (tree.reached frame b (sym (stays s.frames frames' pa found frame ne) ∙ h))
  ]

  pub created-IsTree : IsTree created level'
  created-IsTree = record {
    child = child';
    bottom = bottom';
    unique = unique';
    word = word';
    fresh = fresh';
    reached = reached';
    aligned = rw found.2 tree.aligned;
  }

  new_walk : (path : List (ℕ × PageSize)) → leaf_at created.tables pa path ≡ none
  unfolding leaf_at is_valid
  new_walk [] = refl
  new_walk ((j, size) ∷ rest) =
      leaf_at-invalid created.tables pa j size rest (ap is_valid (entry_new j))

  pub same_walks :
      (path : List (ℕ × PageSize)) (x m : ℕ)
      → level x ≡ some m
      → leaf_at created.tables x path ≡ leaf_at s.tables x path
  unfolding leaf_at
  same_walks [] x m h = refl
  same_walks ((j, size) ∷ rest) x m h = elim (entry_cases x j m h) [
    | inr same ↦
        leaf_at-same s.tables created.tables x j size rest same
          (λ is. let (m', h') = below_level x j m h is in same_walks rest _ m' h')
    | inl (ex, ej) ↦
        rw (ex, ej)
          (leaf_at-table created.tables t i size rest new-IsTable
            ∙ ap (λ p. leaf_at created.tables p rest) new_target
            ∙ new_walk rest
            ∙ sym (leaf_at-invalid s.tables t i size rest invalid))
  ]

  pub kept_entries :
      (x j m : ℕ) → level x ≡ some m → IsTable (s.tables x j) → created.tables x j ≡ s.tables x j
  kept_entries x j m h (valid, deeper) = elim (entry_cases x j m h) [
    | inl (ex, ej) ↦ absurd (
        grind (
          arith,
          sym valid
              ∙ ap (λ y. is_valid (s.tables y j)) ex
              ∙ ap (λ k. is_valid (s.tables t k)) ej
              ∙ invalid,
        ))
    | inr same ↦ same
  ]

  pub one_free :
      (f g : ℕ)
      → frame_bit s.frames.pages f ≡ some 0
      → frame_bit s.frames.pages g ≡ some 0
      → f ≢ g
      → (h : ℕ) × (frame_bit frames'.pages h ≡ some 0)
  one_free f g hf hg ne = elim (ℕ_discrete found.0 f) [
    | no apart ↦ (f, stays s.frames frames' pa found f apart ∙ hf)
    | yes same ↦ (g, stays s.frames frames' pa found g (λ e. ne (sym same ∙ e)) ∙ hg)
  ]
