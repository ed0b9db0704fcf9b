-- ===== src/Task/Life/Wakeup.antt =====
-- A task that waits, and its children that exit on other harts: the steps of both in any order.
use efiks_os.Prelude.{
  ℕ, ◌≡◌, ◌≢◌, refl, sym, ap, subst, ◌∙◌, inl, inr, Bool, true, false, ◌&&◌, ◌||◌, List, [], ◌∷◌,
  ◌++◌, Option, none, some, Option-cases, Bool-cases, Result, ok, err, panic, ◌==◌, arith, some_inj,
  ==→≡, ==-refl, ≢→==,
}
use efiks_os.Mm.Error.{Error}
use efiks_os.Task.Sched.{set_state, ready}
use efiks_os.Task.Life.{
  System, is_zombie, is_exited, exists_task, find_zombie, children_of, parent_of, reap_zombie_child,
  wait_begin, wait_check, skip_child, wait_resume, exit_mark, on_task_exit, set_waiting, reap_found,
  checked, notified,
}

-- Where the task that waits is: outside of `wait`, before the lock, switched away from after it, and past
-- the panic of `expect`.
pub data Pc : Type 0 where
  outside checking asleep panicked : Pc

-- `done c`: the exit of `c` has passed `on_task_exit`.
pub record Run : Type 0 where
  pub pc : Pc
  pub done : ℕ → Bool
  pub sys : System

abbrev pub after_check : Run → Option (ℕ × ℕ) × System → Run
after_check r (some child, sys) = record r { pc = outside; sys = sys }
after_check r (none, sys) = record r { pc = asleep; sys = sys }

abbrev pub after_resume : Run → Result Error (ℕ × ℕ) × System → Run
after_resume r (ok child, sys) = record r { pc = outside; sys = sys }
after_resume r (err e, sys) = record r { pc = outside; sys = sys }
after_resume r (panic, sys) = record r { pc = panicked; sys = sys }

-- One step of `p`, which waits, or of a task `c` that exits.
pub data Step (p : ℕ) : Run → Run → Type 0 where
  begins :
      (r : Run)
      → r.pc ≡ outside
      → (wait_begin r.sys p).0 ≡ ok tt
      → Step p r (record r { pc = checking; sys = (wait_begin r.sys p).1 })
  checks : (r : Run) → r.pc ≡ checking → Step p r (after_check r (wait_check r.sys p))
  resumes :
      (r : Run)
      → r.pc ≡ asleep
      → r.sys.waiting p ≡ false
      → Step p r (after_resume r (wait_resume r.sys p))
  marks :
      (r : Run) (c code : ℕ) (sys : System)
      → c ≢ p
      → r.done c ≡ false
      → exit_mark r.sys c code ≡ some sys
      → Step p r (record r { sys = sys })
  notifies :
      (r : Run) (c : ℕ)
      → parent_of (r.sys.tasks c) ≡ some p
      → exists_task r.sys p ≡ true
      → r.done c ≡ false
      → Step p r (record r { done = set_waiting r.done c true; sys = on_task_exit r.sys c })

pub data Reaches (p : ℕ) : Run → Run → Type 0 where
  here : (r : Run) → Reaches p r r
  then_step : (r s t : Run) → Reaches p r s → Step p s t → Reaches p r t

abbrev pub is_among : List ℕ → ℕ → Bool
is_among [] c = false
is_among (d ∷ ds) c = d == c || is_among ds c

-- `c` is a child of `p` that is in the table and is a zombie.
abbrev pub IsZombieChild : System → (p c : ℕ) → Type 0
IsZombieChild sys p c =
    (is_among (children_of (sys.tasks p)) c ≡ true)
    × (exists_task sys c ≡ true)
    × (parent_of (sys.tasks c) ≡ some p)
    × (is_zombie (sys.states c) ≡ true)

-- While the task sleeps among the waiting ones, no zombie child has told it yet: each still will.
abbrev pub IsAwaited : ℕ → Run → Type 0
IsAwaited p r =
    r.pc ≡ asleep → r.sys.waiting p ≡ true → (c : ℕ) → IsZombieChild r.sys p c → r.done c ≡ false

find_zombie-none :
    (sys : System) (children : List ℕ) (c : ℕ)
    → find_zombie sys children ≡ none
    → is_among children c ≡ true
    → exists_task sys c ≡ true
    → is_zombie (sys.states c) ≡ true
    → ⊥
unfolding find_zombie
find_zombie-none sys [] c h among there dead = grind (arith, among)
find_zombie-none sys (d ∷ ds) c h among there dead =
    elim (Bool-cases (exists_task sys d && is_zombie (sys.states d))) [
      | inl found ↦ grind (arith, rw found at h)
      | inr not_found ↦ elim (Bool-cases (d == c)) [
        | inl same ↦
            let e = ==→≡ d c same in
            grind (
              arith,
              sym not_found
                  ∙ both (exists_task sys d) (is_zombie (sys.states d))
                      (ap (exists_task sys) e ∙ there)
                      (ap (λ x. is_zombie (sys.states x)) e ∙ dead),
            )
        | inr apart ↦
            find_zombie-none sys ds c (skipped d (find_zombie sys ds) (rw not_found at h))
              (rw apart at among) there dead
      ]
    ]
  where
    both : (a b : Bool) → a ≡ true → b ≡ true → (a && b) ≡ true
    both true b ha hb = hb
    both false b ha hb = ha

    skipped : (d : ℕ) (o : Option (ℕ × List ℕ)) → skip_child d o ≡ none → o ≡ none
    skipped d none h = refl
    skipped d (some (x, xs)) h = absurd (grind (arith, h))

abbrev is_asleep : Pc → Bool
is_asleep asleep = true
is_asleep _ = false

outside-ne : ◌≡◌ {A = Pc} outside asleep → ⊥
outside-ne e = grind (arith, ap is_asleep e)

checking-ne : ◌≡◌ {A = Pc} checking asleep → ⊥
checking-ne e = grind (arith, ap is_asleep e)

checks-IsAwaited : (p : ℕ) (r : Run) → IsAwaited p (after_check r (wait_check r.sys p))
unfolding wait_check checked reap_zombie_child reap_found
checks-IsAwaited p r = elim (Option-cases (find_zombie r.sys (children_of (r.sys.tasks p)))) [
  | inr ((c, rest), found) ↦ rw found (λ sleeps. absurd (outside-ne sleeps))
  | inl none_found ↦ rw none_found (λ sleeps waits c (among, there, child, dead).
      absurd (find_zombie-none r.sys (children_of (r.sys.tasks p)) c none_found among there dead))
]

marks-IsAwaited :
    (p : ℕ) (r : Run) (c code : ℕ) (sys : System)
    → c ≢ p
    → r.done c ≡ false
    → exit_mark r.sys c code ≡ some sys
    → IsAwaited p r
    → IsAwaited p (record r { sys = sys })
unfolding exit_mark set_state
marks-IsAwaited p r c code sys ne not_done h awaited =
    elim (Bool-cases (is_exited (r.sys.states c))) [
      | inl gone ↦ absurd (grind (arith, rw gone at h))
      | inr alive ↦
          subst (λ s. IsAwaited p (record r { sys = s })) (some_inj (rw alive at h))
            (λ sleeps waits d (among, there, child, dead). elim (Bool-cases (c == d)) [
              | inl same ↦ ap r.done (sym (==→≡ c d same)) ∙ not_done
              | inr apart ↦ awaited sleeps waits d (
                rw (≢→== c p ne) at among,
                rw (apart, exists_task) at there,
                rw apart at child,
                rw apart at dead,
              )
            ])
    ]

notifies-IsAwaited :
    (p : ℕ) (r : Run) (c : ℕ)
    → parent_of (r.sys.tasks c) ≡ some p
    → exists_task r.sys p ≡ true
    → IsAwaited p (record r { done = set_waiting r.done c true; sys = on_task_exit r.sys c })
unfolding on_task_exit notified
notifies-IsAwaited p r c child there = elim (Bool-cases (r.sys.waiting p)) [
  | inl waits ↦
      rw (child, there, waits, on_task_exit)
        (λ sleeps still. absurd (grind (arith, rw (==-refl p) at still)))
  | inr not_waiting ↦
      rw (child, there, not_waiting, on_task_exit)
        (λ sleeps still. absurd (grind (arith, sym still ∙ not_waiting)))
]

resumed-ne : (r : Run) (x : Result Error (ℕ × ℕ) × System) → (after_resume r x).pc ≡ asleep → ⊥
resumed-ne r (ok child, sys) e = grind (arith, ap is_asleep e)
resumed-ne r (err f, sys) e = grind (arith, ap is_asleep e)
resumed-ne r (panic, sys) e = grind (arith, ap is_asleep e)

-- Each step keeps it.
Step-IsAwaited : (p : ℕ) (r s : Run) → Step p r s → IsAwaited p r → IsAwaited p s
Step-IsAwaited p r s (begins _ at_start ok_) awaited = λ sleeps. absurd (checking-ne sleeps)
Step-IsAwaited p r s (checks _ at_check) awaited = checks-IsAwaited p r
Step-IsAwaited p r s (resumes _ at_sleep woken) awaited =
    λ sleeps. absurd (resumed-ne r (wait_resume r.sys p) sleeps)
Step-IsAwaited p r s (marks _ c code sys ne not_done e) awaited =
    marks-IsAwaited p r c code sys ne not_done e awaited
Step-IsAwaited p r s (notifies _ c child there not_done) awaited =
    notifies-IsAwaited p r c child there

Reaches-IsAwaited : (p : ℕ) (r s : Run) → Reaches p r s → r.pc ≡ outside → IsAwaited p s
Reaches-IsAwaited p r s (here _) start = λ sleeps. absurd (outside-ne (sym start ∙ sleeps))
Reaches-IsAwaited p r s (then_step _ q _ before step) start =
    Step-IsAwaited p q s step (Reaches-IsAwaited p r q before start)

-- No wake-up is lost. In every order of the steps of a task that waits and of tasks that exit on other
-- harts: while the task sleeps among the waiting ones, each of its children that has become a zombie has
-- yet to tell it, and when it does the task is ready and in a run queue.
pub zombie_child-Wakes :
    (p c : ℕ) (r s : Run)
    → r.pc ≡ outside
    → Reaches p r s
    → s.pc ≡ asleep
    → s.sys.waiting p ≡ true
    → exists_task s.sys p ≡ true
    → IsZombieChild s.sys p c
    → (t : Run) × Step p s t
      × (t.sys ≡ on_task_exit s.sys c)
      × (t.sys.states p ≡ ready)
      × (t.sys.enqueued ≡ s.sys.enqueued ++ (p ∷ []))
unfolding on_task_exit notified set_state
zombie_child-Wakes p c r s start reaches sleeps waits there zombie_child =
    let (among, known, child, dead) = zombie_child in
    let not_done = Reaches-IsAwaited p r s reaches start sleeps waits c zombie_child in
    (
      record s { done = set_waiting s.done c true; sys = on_task_exit s.sys c },
      notifies s c child there not_done,
      refl,
      rw (child, there, waits, ==-refl p, on_task_exit) refl,
      rw (child, there, waits, on_task_exit) refl,
    )
