-- ===== src/Mm/Pages/Laws.antt =====
-- Reference counts of pages as a function from addresses to the number of references.
use efiks_os.Prelude.{
  ℕ, zero, suc, ◌+◌, ◌<◌, ◌%◌, ◌^◌, ◌≡◌, ◌≢◌, refl, ◌∙◌, [], ◌∷◌, Option, none, some, Result, ok,
  err, panic, ◌==◌, if◌then◌else◌, arith, Option-cases, inl, inr, ==-refl,
}
use efiks_os.Mm.Error.{Error, not_found}
use efiks_os.Mm.Pages.{PageMetadataTable, refcount, set_count, erase, add, remove}

-- A page without an entry has no references.
abbrev pub refs : PageMetadataTable → ℕ → ℕ
refs table addr = elim (refcount table addr) [ none ↦ 0 | some count ↦ count ]

refcount-set_count :
    (table : PageMetadataTable) (addr count b : ℕ)
    → refcount (set_count table addr count) b ≡ (if addr == b then some count else refcount table b)
unfolding refcount set_count
refcount-set_count [] addr count b = refl
refcount-set_count ((a, old) ∷ table) addr count b =
    ground (arith, refcount-set_count table addr count b)

refcount-erase :
    (table : PageMetadataTable) (addr b : ℕ)
    → refcount (erase table addr) b ≡ (if addr == b then none else refcount table b)
unfolding refcount erase
refcount-erase [] addr b = ground arith
refcount-erase ((a, old) ∷ table) addr b = ground (arith, refcount-erase table addr b)

-- No entry has count zero.
abbrev pub IsPositive : PageMetadataTable → Type 0
IsPositive table = (b : ℕ) → refcount table b ≢ some 0

-- With no entry at zero: adding a reference counts one more for that page and leaves the others; no entry becomes zero, as
-- long as the page has fewer than 65535 references.
pub refs-add :
    (table : PageMetadataTable) (addr : ℕ)
    → IsPositive table
    → refs table addr < 65535
    → IsPositive (add table addr)
      × ((b : ℕ) → refs (add table addr) b ≡ (if addr == b then refs table b + 1 else refs table b))
unfolding add
refs-add table addr positive few = elim (Option-cases (refcount table addr)) [
  | inl e ↦
      rw (e, add)
        (
          (λ b. ground (arith, refcount-set_count table addr 1 b, positive b)),
          (λ b. ground (arith, refcount-set_count table addr 1 b, e)),
        )
  | inr (count, e) ↦
      let next = (count + 1) % 2 ^ 16 in
      rw (e, add)
        (
          (λ b. ground (arith, refcount-set_count table addr next b, positive b, e)),
          (λ b. ground (arith, refcount-set_count table addr next b, e)),
        )
]

abbrev pub Removes : PageMetadataTable → ℕ → PageMetadataTable × Result Error ℕ → Type 0
Removes table addr (table', ok n) =
    (refs table addr ≡ n + 1)
    × IsPositive table'
    × ((b : ℕ) → refs table' b ≡ (if addr == b then n else refs table b))
Removes table addr (table', err e) = (e ≡ not_found) × (refs table addr ≡ 0) × (table' ≡ table)
Removes table addr (table', panic) = ⊥

-- Removing a reference counts one less for that page, leaves the others, and returns what is left; a
-- page without references is reported as not found. With no entry at zero it does not panic.
pub remove-Removes :
    (table : PageMetadataTable) (addr : ℕ)
    → IsPositive table
    → Removes table addr (remove table addr)
unfolding remove
remove-Removes table addr positive = by_count (refcount table addr) refl
  where
    by_count :
        (found : Option ℕ) → refcount table addr ≡ found → Removes table addr (remove table addr)
    by_count none e = rw (e, remove) (refl, ground (arith, e), refl)
    by_count (some zero) e = absurd (positive addr e)
    by_count (some (suc zero)) e =
        rw (e, remove)
          (
            ground (arith, e),
            (λ b. ground (arith, refcount-erase table addr b, positive b)),
            (λ b. ground (arith, refcount-erase table addr b, e)),
          )
    by_count (some (suc (suc n))) e =
        rw (e, remove)
          (
            ground (arith, e),
            (λ b. ground (arith, refcount-set_count table addr (suc n) b, positive b)),
            (λ b. ground (arith, refcount-set_count table addr (suc n) b, e)),
          )

-- The 65536th reference to a page wraps its count to zero, and the next removal panics.
pub refcount-wraps :
    (table : PageMetadataTable) (addr : ℕ)
    → refcount table addr ≡ some 65535
    → (refcount (add table addr) addr ≡ some 0) × ((remove (add table addr) addr).1 ≡ panic)
unfolding add remove
refcount-wraps table addr e =
    let zero_count = refcount-set_count table addr 0 addr ∙ rw (==-refl addr) refl in
    (rw (e, add) zero_count, rw (e, add) (rw (zero_count, remove) refl))
