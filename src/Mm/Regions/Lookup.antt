-- ===== src/Mm/Regions/Lookup.antt =====
-- The look-up of a region on sorted, disjoint regions.
use efiks_os.Prelude.{
  ℕ, zero, suc, ◌%◌, ◌<◌, ◌≤◌, ◌≡◌, refl, Bool, true, false, List, [], ◌∷◌, Result, ok, err, panic,
  ltb, ◌==◌, arith, Bool-cases, inl, inr, ◌⊎◌,
}
use efiks_os.Mm.Error.{Error, unmapped}
use efiks_os.Mm.Regions.{VmRegion, page_size, shift, search_start, flags_from, flags_at}

-- No region begins below `bound`.
abbrev pub From : ℕ → List VmRegion → Type 0
From bound [] = Unit
From bound (r ∷ regions) = (bound ≤ r.start) × From bound regions

-- Sorted, disjoint, not empty, and made of whole pages.
abbrev pub IsDisjoint : List VmRegion → Type 0
IsDisjoint [] = Unit
IsDisjoint (r ∷ regions) =
    (r.start < r.end)
    × (r.start % page_size ≡ 0)
    × (r.end % page_size ≡ 0)
    × From r.end regions
    × IsDisjoint regions

-- Some region holds the address, with these flags.
abbrev pub Covers : List VmRegion → ℕ → ℕ → Type 0
Covers [] addr flags = ⊥
Covers (r ∷ regions) addr flags =
    (r.start ≤ addr) × (addr < r.end) × (r.flags ≡ flags) ⊎ Covers regions addr flags

pub not-Covers-below :
    (regions : List VmRegion) (bound addr flags : ℕ)
    → From bound regions
    → addr < bound
    → ¬ Covers regions addr flags
not-Covers-below [] bound addr flags rest h = λ c. c
not-Covers-below (r ∷ regions) bound addr flags (here, rest) h = elim [
  | inl (lo, hi, e) ↦ omega arith
  | inr c ↦ not-Covers-below regions bound addr flags rest h c
]

abbrev pub LooksUp : List VmRegion → ℕ → Result Error ℕ → Type 0
LooksUp regions addr (ok flags) = Covers regions addr flags
LooksUp regions addr (err e) = (e ≡ unmapped) × ((flags : ℕ) → ¬ Covers regions addr flags)
LooksUp regions addr panic = ⊥

-- Below the first region.
LooksUp-first :
    (r : VmRegion) (regions : List VmRegion) (addr : ℕ)
    → IsDisjoint (r ∷ regions)
    → addr ≤ r.start
    → LooksUp (r ∷ regions) addr (flags_from (r ∷ regions) addr (r.start == addr, 0))
LooksUp-first r regions addr d le = elim (Bool-cases (r.start == addr)) [
  | inl here ↦ rw here (unfold flags_from in inl (ground arith, ground arith, refl))
  | inr apart ↦ rw apart (
      unfold flags_from in
      (
        refl,
        (λ flags. elim [
          | inl (lo, hi, e) ↦ ground arith
          | inr c ↦ not-Covers-below regions r.end addr flags d.3 (omega arith) c
        ]),
      ))
]

search_start-first :
    (r : VmRegion) (regions : List VmRegion) (addr : ℕ)
    → ltb r.start addr ≡ false
    → (r.start == addr) ≡ false
    → search_start (r ∷ regions) addr ≡ (false, 0)
unfolding search_start
search_start-first r regions addr above apart = rw (above, apart) refl

-- A region above the bound starts at or below the address, unless the search stops at once.
pub search_start-cases :
    (regions : List VmRegion) (bound addr : ℕ)
    → From bound regions
    → (search_start regions addr ≡ (false, 0)) ⊎ (bound ≤ addr)
unfolding search_start
search_start-cases [] bound addr from = inl refl
search_start-cases (r ∷ regions) bound addr (here, rest) = elim (Bool-cases (ltb r.start addr)) [
  | inl below ↦ inr (ground arith)
  | inr above ↦ elim (Bool-cases (r.start == addr)) [
    | inl same ↦ inr (ground arith)
    | inr apart ↦ inl (search_start-first r regions addr above apart)
  ]
]

LooksUp-more :
    (r : VmRegion) (regions : List VmRegion) (addr : ℕ) (result : Result Error ℕ)
    → r.end ≤ addr
    → LooksUp regions addr result
    → LooksUp (r ∷ regions) addr result
LooksUp-more r regions addr (ok flags) le c = inr c
LooksUp-more r regions addr (err e) le (same, none_cover) =
    (same, λ flags. elim [ inl (lo, hi, eq) ↦ omega arith | inr c ↦ none_cover flags c ])
LooksUp-more r regions addr panic le c = c

-- The region before the place that the search found is the first one.
LooksUp-inside :
    (r : VmRegion) (regions : List VmRegion) (addr : ℕ)
    → r.start < addr
    → LooksUp regions addr (flags_from regions addr (false, 0))
    → LooksUp (r ∷ regions) addr (flags_from (r ∷ regions) addr (false, 1))
LooksUp-inside r regions addr lt l = elim (Bool-cases (ltb addr r.end)) [
  | inl inside ↦ unfold flags_from in (rw inside (inl (omega arith, ground arith, refl)))
  | inr outside ↦
      (unfold flags_from in
        (rw outside
          (LooksUp-more r regions addr (err unmapped) (ground arith) (unfold flags_from in l))))
]

LooksUp-shift :
    (r : VmRegion) (regions : List VmRegion) (addr : ℕ) (at : Bool × ℕ)
    → r.start < addr
    → (at ≡ (false, 0)) ⊎ (r.end ≤ addr)
    → LooksUp regions addr (flags_from regions addr at)
    → LooksUp (r ∷ regions) addr (flags_from (r ∷ regions) addr (shift at))
LooksUp-shift r regions addr (true, i) lt (inl e) l = grind arith
LooksUp-shift r regions addr (true, i) lt (inr le) l =
    LooksUp-more r regions addr (flags_from (r ∷ regions) addr (true, suc i)) le
      (unfold flags_from in l)
LooksUp-shift r regions addr (false, zero) lt _ l = LooksUp-inside r regions addr lt l
LooksUp-shift r regions addr (false, suc i) lt (inl e) l = grind arith
LooksUp-shift r regions addr (false, suc i) lt (inr le) l =
    LooksUp-more r regions addr (flags_from (r ∷ regions) addr (false, suc (suc i))) le
      (unfold flags_from in l)

-- On sorted, disjoint regions, at any address: the look-up of the page-fault handler gives the flags
-- of a region that holds the address, and `unmapped` exactly when no region holds it; it never leaves
-- the list of regions.
pub flags_at-LooksUp :
    (regions : List VmRegion) (addr : ℕ)
    → IsDisjoint regions
    → LooksUp regions addr (flags_at regions addr)
unfolding flags_at
flags_at-LooksUp [] addr d = unfold search_start flags_from in (refl, λ flags c. c)
flags_at-LooksUp (r ∷ regions) addr d = elim (Bool-cases (ltb r.start addr)) [
  | inl below ↦
      (unfold search_start in
        (rw below (
          LooksUp-shift r regions addr (search_start regions addr) (ground arith)
            (search_start-cases regions r.end addr d.3) (flags_at-LooksUp regions addr d.4))))
  | inr above ↦ (unfold search_start in (rw above (LooksUp-first r regions addr d (ground arith))))
]
