-- ===== src/Task/Sched/Sleep.antt =====
-- What the wake-up of the sleeping tasks guarantees.
use efiks_os.Prelude.{
  ℕ, ◌<◌, ◌≤◌, ◌≡◌, sym, ◌∙◌, ap, subst, Bool, true, false, List, [], ◌∷◌, ltb, leb, arith,
  Bool-cases, inl, inr, ◌⊎◌,
}
use efiks_os.Task.Sched.{wake_up, push}
use efiks_os.Task.Sched.Laws.{Queued, contradiction}

abbrev pub Entry : Type 0
Entry = ℕ × ℕ

abbrev pub Listed : Entry → List Entry → Type 0
Listed e [] = ⊥
Listed e (f ∷ entries) = (e ≡ f) ⊎ Listed e entries

abbrev pub NotBefore : ℕ → List Entry → Type 0
NotBefore now [] = Unit
NotBefore now ((until, pid) ∷ entries) = (now ≤ until) × NotBefore now entries

-- In the order of the wake-up times.
abbrev pub IsSorted : List Entry → Type 0
IsSorted [] = Unit
IsSorted ((until, pid) ∷ entries) = NotBefore until entries × IsSorted entries

abbrev pub Wakes : ℕ → (ℕ → Bool) → List Entry → List ℕ × List Entry → Type 0
Wakes now exists_task entries (woken, left) =
    ((until pid : ℕ)
      → Listed (until, pid) entries
      → (until ≤ now → exists_task pid ≡ true → Queued pid woken)
        × (now < until → Listed (until, pid) left))
    × ((pid : ℕ)
        → Queued pid woken
        → (until : ℕ) × Listed (until, pid) entries × (until ≤ now) × (exists_task pid ≡ true))
    × ((until pid : ℕ) → Listed (until, pid) left → Listed (until, pid) entries × (now < until))

Listed-NotBefore :
    (now until pid : ℕ) (entries : List Entry)
    → NotBefore now entries
    → Listed (until, pid) entries
    → now ≤ until
Listed-NotBefore now until pid [] sorted = λ h. absurd h
Listed-NotBefore now until pid (f ∷ entries) (le, rest) = elim [
  | inl e ↦ subst (λ g. now ≤ g.0) (sym e) le
  | inr h ↦ Listed-NotBefore now until pid entries rest h
]

push-NotBefore :
    (now until pid : ℕ) (entries : List Entry)
    → now ≤ until
    → NotBefore now entries
    → NotBefore now (push until pid entries)
push-NotBefore now until pid [] le rest = (le, tt)
push-NotBefore now until pid ((u, p) ∷ entries) le (here, rest) = elim (Bool-cases (ltb until u)) [
  | inl before ↦ rw before (le, (here, rest))
  | inr after ↦ rw after (here, push-NotBefore now until pid entries le rest)
]

NotBefore-weaken :
    (a b : ℕ) (entries : List Entry) → a ≤ b → NotBefore b entries → NotBefore a entries
NotBefore-weaken a b [] le rest = tt
NotBefore-weaken a b (e ∷ entries) le (here, rest) =
    (omega arith, NotBefore-weaken a b entries le rest)

-- Putting a task to sleep keeps the entries in the order of their wake-up times.
push-IsSorted :
    (until pid : ℕ) (entries : List Entry) → IsSorted entries → IsSorted (push until pid entries)
push-IsSorted until pid [] sorted = (tt, tt)
push-IsSorted until pid ((u, p) ∷ entries) (low, rest) = elim (Bool-cases (ltb until u)) [
  | inl before ↦
      rw before ((ground arith, NotBefore-weaken until u entries (ground arith) low), (low, rest))
  | inr after ↦
      rw after (
        push-NotBefore u until pid entries (ground arith) low,
        push-IsSorted until pid entries rest,
      )
]

Wakes-woken :
    (now : ℕ) (exists_task : ℕ → Bool) (u p : ℕ) (entries left : List Entry) (woken : List ℕ)
    → u ≤ now
    → exists_task p ≡ true
    → Wakes now exists_task entries (woken, left)
    → Wakes now exists_task ((u, p) ∷ entries) (p ∷ woken, left)
Wakes-woken now exists_task u p entries left woken due alive (all, only, stay) = (
  (λ until pid. elim [
    | inl e ↦ (
      (λ le is. inl (ap (λ (g : Entry). g.1) e)),
      (λ lt. absurd (omega (arith, ap (λ (g : Entry). g.0) e))),
    )
    | inr h ↦ ((λ le is. inr ((all until pid h).0 le is)), (all until pid h).1)
  ]),
  (λ pid. elim [
    | inl e ↦ (u, inl (ap (λ q. (u, q)) e), due, ap exists_task e ∙ alive)
    | inr h ↦ let (until, listed, le, is) = only pid h in (until, inr listed, le, is)
  ]),
  (λ until pid h. let (listed, lt) = stay until pid h in (inr listed, lt)),
)

Wakes-gone :
    (now : ℕ) (exists_task : ℕ → Bool) (u p : ℕ) (entries left : List Entry) (woken : List ℕ)
    → u ≤ now
    → exists_task p ≡ false
    → Wakes now exists_task entries (woken, left)
    → Wakes now exists_task ((u, p) ∷ entries) (woken, left)
Wakes-gone now exists_task u p entries left woken due gone (all, only, stay) = (
  (λ until pid. elim [
    | inl e ↦ (
      (λ le is.
          absurd (
            contradiction (exists_task p) (sym (ap (λ (g : Entry). exists_task g.1) e) ∙ is) gone)),
      (λ lt. absurd (omega (arith, ap (λ (g : Entry). g.0) e))),
    )
    | inr h ↦ all until pid h
  ]),
  (λ pid h. let (until, listed, le, is) = only pid h in (until, inr listed, le, is)),
  (λ until pid h. let (listed, lt) = stay until pid h in (inr listed, lt)),
)

Wakes-later :
    (now : ℕ) (exists_task : ℕ → Bool) (u p : ℕ) (entries : List Entry)
    → now < u
    → NotBefore u entries
    → Wakes now exists_task ((u, p) ∷ entries) ([], (u, p) ∷ entries)
Wakes-later now exists_task u p entries later low = (
  (λ until pid listed. (
    (λ le is. absurd (
        let low' = Listed-NotBefore u until pid ((u, p) ∷ entries) (NotBefore-refl, low) listed in
        omega arith)),
    (λ lt. listed),
  )),
  (λ pid h. absurd h),
  (λ until pid listed. (
    listed,
    (let low' = Listed-NotBefore u until pid ((u, p) ∷ entries) (NotBefore-refl, low) listed in
        omega arith),
  )),
)
  where
    NotBefore-refl : u ≤ u
    NotBefore-refl = omega arith

-- On entries in the order of their wake-up times, at any time: every task that is due and still exists is
-- woken, a task is woken only where it has an entry that is due, and the entries that stay are exactly
-- those that are not due.
pub wake_up-Wakes :
    (now : ℕ) (exists_task : ℕ → Bool) (entries : List Entry)
    → IsSorted entries
    → Wakes now exists_task entries (wake_up now exists_task entries)
unfolding wake_up
wake_up-Wakes now exists_task [] sorted =
    ((λ until pid h. absurd h), (λ pid h. absurd h), (λ until pid h. absurd h))
wake_up-Wakes now exists_task ((u, p) ∷ entries) (low, rest) =
    let result = wake_up-Wakes now exists_task entries rest in
    let (woken, left) = wake_up now exists_task entries in
    elim (Bool-cases (leb u now)) [
      | inl due ↦ elim (Bool-cases (exists_task p)) [
        | inl alive ↦
            rw (due, alive)
              (Wakes-woken now exists_task u p entries left woken (ground arith) alive result)
        | inr gone ↦
            rw (due, gone)
              (Wakes-gone now exists_task u p entries left woken (ground arith) gone result)
      ]
      | inr later ↦ rw later (Wakes-later now exists_task u p entries (ground arith) low)
    ]
