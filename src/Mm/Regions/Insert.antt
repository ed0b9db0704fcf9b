-- ===== src/Mm/Regions/Insert.antt =====
-- Entering a page into sorted, disjoint regions.
use efiks_os.Prelude.{
  ℕ, zero, suc, ◌+◌, ◌%◌, ◌^◌, ◌<◌, ◌≤◌, lt→ltb, ltb→lt, ltb→le, ==→≢, ◌≡◌, refl, ap, Bool, true,
  false, List, [], ◌∷◌, Result, ok, err, panic, ltb, ◌==◌, arith, tests, Bool-cases, inl, inr,
}
use efiks_os.Mm.Error.{Error, overflow}
use efiks_os.Mm.Regions.{VmRegion, page_size, shift, search_start, map_from, map_page_if_not_exist}
use efiks_os.Mm.Regions.Lookup.{From, IsDisjoint, Covers, not-Covers-below, search_start-cases}

-- What was covered stays so, by the same flags.
abbrev pub Keeps : List VmRegion → List VmRegion → Type 0
Keeps regions regions' = (a flags : ℕ) → Covers regions a flags → Covers regions' a flags

abbrev pub Maps : List VmRegion → (addr flags : ℕ) → Result Error (Bool × List VmRegion) → Type 0
Maps regions addr flags (ok (true, regions')) =
    IsDisjoint regions'
    × Keeps regions regions'
    × Covers regions' addr flags
    × ((f : ℕ) → ¬ Covers regions addr f)
    × ((bound : ℕ) → bound ≤ addr → From bound regions → From bound regions')
Maps regions addr flags (ok (false, regions')) =
    (regions' ≡ regions) × ((f : ℕ) × Covers regions addr f)
Maps regions addr flags (err e) = (e ≡ overflow) × (2 ^ 64 ≤ addr + page_size)
Maps regions addr flags panic = ⊥

From-weaken : (a b : ℕ) (regions : List VmRegion) → a ≤ b → From b regions → From a regions
From-weaken a b [] le from = tt
From-weaken a b (r ∷ regions) le (here, rest) = (omega arith, From-weaken a b regions le rest)

abbrev prepend :
    VmRegion → Result Error (Bool × List VmRegion) → Result Error (Bool × List VmRegion)
prepend r (ok (added, regions)) = ok (added, r ∷ regions)
prepend r (err e) = err e
prepend r panic = panic

-- Behind the first region the rest of the list decides.
map_from-shift :
    (r : VmRegion) (regions : List VmRegion) (addr flags : ℕ) (at : Bool × ℕ)
    → r.end ≤ addr
    → map_from (r ∷ regions) addr flags (shift at) ≡ prepend r (map_from regions addr flags at)
unfolding map_from
map_from-shift r regions addr flags (true, i) le = refl
map_from-shift r regions addr flags (false, zero) le = ground arith
map_from-shift r regions addr flags (false, suc i) le = ground arith

Maps-prepend :
    (r : VmRegion) (regions : List VmRegion) (addr flags : ℕ)
    (result : Result Error (Bool × List VmRegion))
    → IsDisjoint (r ∷ regions)
    → r.end ≤ addr
    → Maps regions addr flags result
    → Maps (r ∷ regions) addr flags (prepend r result)
Maps-prepend r regions addr flags (ok (true, regions')) d le (disjoint, keeps, covers, free, from) =
    (
      (d.0, d.1, d.2, from r.end le d.3, disjoint),
      (λ a f. elim [ inl here ↦ inl here | inr c ↦ inr (keeps a f c) ]),
      inr covers,
      (λ f. elim [ inl (lo, hi, e) ↦ omega arith | inr c ↦ free f c ]),
      (λ bound low (here, rest). (here, from bound low rest)),
    )
Maps-prepend r regions addr flags (ok (false, regions')) d le (same, held) =
    (ap (λ l. r ∷ l) same, (held.0, inr held.1))
Maps-prepend r regions addr flags (err e) d le failed = failed
Maps-prepend r regions addr flags panic d le failed = failed

-- Below all regions.
first-Maps :
    (regions : List VmRegion) (bound addr flags : ℕ)
    → IsDisjoint regions
    → From bound regions
    → addr + page_size ≤ bound
    → addr % page_size ≡ 0
    → Maps regions addr flags (map_from regions addr flags (false, 0))
unfolding map_from
first-Maps regions bound addr flags d from low aligned =
    elim (Bool-cases (ltb (addr + page_size) (2 ^ 64))) [
      | inl room ↦ rw room (
        (
          omega arith,
          aligned,
          omega arith,
          From-weaken (addr + page_size) bound regions low from,
          d,
        ),
        (λ a f c. inr c),
        inl (omega arith, omega arith, refl),
        (λ f. not-Covers-below regions bound addr f from (omega arith)),
        (λ b le was. (le, was)),
      )
      | inr past ↦ rw past (refl, ground arith)
    ]

inside-Maps :
    (r : VmRegion) (regions : List VmRegion) (addr flags : ℕ)
    → r.start < addr
    → addr < r.end
    → search_start regions addr ≡ (false, 0)
    → Maps
        (r ∷ regions)
        addr
        flags
        (map_from (r ∷ regions) addr flags (shift (search_start regions addr)))
unfolding map_from
inside-Maps r regions addr flags lo hi e =
    rw (e, lt→ltb addr r.end hi) (refl, (r.flags, inl (omega arith, hi, refl)))

after-Maps :
    (r : VmRegion) (regions : List VmRegion) (addr flags : ℕ)
    → IsDisjoint (r ∷ regions)
    → r.start < addr
    → Maps regions addr flags (map_from regions addr flags (search_start regions addr))
    → Maps
        (r ∷ regions)
        addr
        flags
        (map_from (r ∷ regions) addr flags (shift (search_start regions addr)))
after-Maps r regions addr flags d lo rest = elim (Bool-cases (ltb addr r.end)) [
  | inl within ↦ elim (search_start-cases regions r.end addr d.3) [
    | inl e ↦ inside-Maps r regions addr flags lo (ltb→lt addr r.end within) e
    | inr le ↦ absurd (omega (tests, within))
  ]
  | inr past ↦
      rw (map_from-shift r regions addr flags (search_start regions addr) (ltb→le addr r.end past))
        (Maps-prepend r regions addr flags _ d (ltb→le addr r.end past) rest)
]

-- On sorted, disjoint regions and an address at the start of a page: `map_page_if_not_exist` enters a
-- region of one page with these flags exactly where no region holds the address, leaves the regions
-- alone where one does, and fails only where the page would pass the end of the address space. The
-- regions stay sorted and disjoint, and whatever a region held keeps its flags.
pub map_page_if_not_exist-Maps :
    (regions : List VmRegion) (addr flags : ℕ)
    → IsDisjoint regions
    → addr % page_size ≡ 0
    → Maps regions addr flags (map_page_if_not_exist regions addr flags)
unfolding map_page_if_not_exist
map_page_if_not_exist-Maps [] addr flags d aligned =
    (unfold search_start in first-Maps [] (addr + page_size) addr flags tt tt (omega arith) aligned)
map_page_if_not_exist-Maps (r ∷ regions) addr flags d aligned =
    elim (Bool-cases (ltb r.start addr)) [
      | inl below ↦
          (unfold search_start in
            (rw below (
              after-Maps r regions addr flags d (ltb→lt r.start addr below)
                (map_page_if_not_exist-Maps regions addr flags d.4 aligned))))
      | inr above ↦ elim (Bool-cases (r.start == addr)) [
        | inl same ↦
            (unfold search_start map_from in
              (rw (above, same) (refl, (r.flags, inl (ground arith, ground arith, refl)))))
        | inr apart ↦
            (unfold search_start in
              (rw (above, apart)
                (first-Maps (r ∷ regions) r.start addr flags d
                  (omega arith, From-weaken r.start r.end regions (omega arith) d.3)
                  (omega (tests, above, ==→≢ r.start addr apart, d.1, aligned)) aligned)))
      ]
    ]
