-- ===== src/Task/Sched/Laws.antt =====
-- What `schedule` guarantees.
use native.Mathlib.Decide.{ℕ_discrete}
use efiks_os.Prelude.{
  ℕ, ◌≡◌, ◌≢◌, refl, sym, ◌∙◌, ap, subst, Bool, true, false, ◌||◌, List, [], ◌∷◌, ◌++◌, Option,
  none, some, ◌==◌, arith, Bool-cases, ==-refl, ≢→==, inl, inr, ◌⊎◌,
}
use efiks_os.Task.Sched.{
  TaskState, running, ready, is_ready, is_running, States, set_state, Core, pop_ready, put_back,
  schedule_from, schedule,
}

abbrev pub Queued : ℕ → List ℕ → Type 0
Queued pid [] = ⊥
Queued pid (q ∷ queue) = (pid ≡ q) ⊎ Queued pid queue

Queued-left :
    (pid other : ℕ) (queue : List ℕ) → Queued pid queue → Queued pid (queue ++ (other ∷ []))
Queued-left pid other [] = λ h. absurd h
Queued-left pid other (q ∷ queue) = elim [
  | inl e ↦ inl e
  | inr h ↦ inr (Queued-left pid other queue h)
]

Queued-last : (pid : ℕ) (queue : List ℕ) → Queued pid (queue ++ (pid ∷ []))
Queued-last pid [] = inl refl
Queued-last pid (q ∷ queue) = inr (Queued-last pid queue)

pub contradiction : (b : Bool) → b ≡ true → b ≡ false → ⊥
contradiction b t f = grind (arith, sym t ∙ f)

or_left : (a b : Bool) → (a || b) ≡ true → b ≡ false → a ≡ true
or_left true b is f = refl
or_left false b is f = absurd (contradiction b is f)

or_right : (a b : Bool) → b ≡ true → (a || b) ≡ true
or_right true b is = refl
or_right false b is = is

abbrev Pops : States → List ℕ → Option ℕ × List ℕ → Type 0
Pops states queue (none, rest) = (pid : ℕ) → Queued pid queue → is_ready (states pid) ≡ false
Pops states queue (some p, rest) =
    (pid : ℕ) → Queued pid queue → is_ready (states pid) ≡ true → (pid ≡ p) ⊎ Queued pid rest

Pops-stale :
    (states : States) (q : ℕ) (queue : List ℕ) (result : Option ℕ × List ℕ)
    → is_ready (states q) ≡ false
    → Pops states queue result
    → Pops states (q ∷ queue) result
Pops-stale states q queue (none, rest) stale pops =
    λ pid. elim [ inl e ↦ ap (λ p. is_ready (states p)) e ∙ stale | inr h ↦ pops pid h ]
Pops-stale states q queue (some p, rest) stale pops = λ pid. elim [
  | inl e ↦ λ is.
      absurd
        (contradiction (is_ready (states q)) (sym (ap (λ p. is_ready (states p)) e) ∙ is) stale)
  | inr h ↦ pops pid h
]

pop_ready-Pops : (states : States) (queue : List ℕ) → Pops states queue (pop_ready states queue)
unfolding pop_ready
pop_ready-Pops states [] = λ pid h. absurd h
pop_ready-Pops states (q ∷ queue) = elim (Bool-cases (is_ready (states q))) [
  | inl fresh ↦ rw fresh (λ pid h is. h)
  | inr stale ↦
      rw stale
        (Pops-stale states q queue (pop_ready states queue) stale (pop_ready-Pops states queue))
]

-- The tasks that may run: those that are ready in the queue, and the current one unless it is the idle
-- task or gave up the core.
abbrev pub Runnable : States → Core → ℕ → Type 0
Runnable states core pid =
    (Queued pid core.runqueue × (is_ready (states pid) ≡ true))
    ⊎ ((pid ≡ core.current_task)
        × (pid ≢ core.idle_task)
        × ((is_ready (states pid) || is_running (states pid)) ≡ true))

-- The task has the core and runs, or waits for it, ready in the run queue.
abbrev pub Kept : ℕ → States × Core → Type 0
Kept pid (states, core) =
    ((pid ≡ core.current_task) × (is_running (states pid) ≡ true))
    ⊎ (Queued pid core.runqueue × (is_ready (states pid) ≡ true))

put_back-queue :
    (states : States) (core : Core) (queue : List ℕ) (pid : ℕ)
    → Queued pid queue
    → Queued pid (put_back states core queue).1
unfolding put_back
put_back-queue states core queue pid h = elim (Bool-cases (core.current_task == core.idle_task)) [
  | inl on_idle ↦ rw on_idle h
  | inr apart ↦ elim (Bool-cases (is_running (states core.current_task))) [
    | inl runs ↦ rw (apart, runs) (Queued-left pid core.current_task queue h)
    | inr stops ↦ elim (Bool-cases (is_ready (states core.current_task))) [
      | inl waits ↦ rw (apart, stops, waits) (Queued-left pid core.current_task queue h)
      | inr other ↦ rw (apart, stops, other) h
    ]
  ]
]

put_back-current :
    (states : States) (core : Core) (queue : List ℕ)
    → core.current_task ≢ core.idle_task
    → (is_ready (states core.current_task) || is_running (states core.current_task)) ≡ true
    → Queued core.current_task (put_back states core queue).1
unfolding put_back
put_back-current states core queue ne is =
    elim (Bool-cases (is_running (states core.current_task))) [
      | inl runs ↦
          rw (≢→== core.current_task core.idle_task ne, runs) (Queued-last core.current_task queue)
      | inr stops ↦
          rw
            (
              ≢→== core.current_task core.idle_task ne,
              stops,
              or_left (is_ready (states core.current_task)) (is_running (states core.current_task))
                  is stops,
            )
            (Queued-last core.current_task queue)
    ]

set_state-other :
    (states : States) (pid q : ℕ) (state : TaskState)
    → q ≢ pid
    → set_state states pid state q ≡ states q
unfolding set_state
set_state-other states pid q state ne = rw (≢→== pid q (λ e. ne (sym e))) refl

put_back-set :
    (states : States) (core : Core) (queue : List ℕ) (p : ℕ)
    → p ≢ core.current_task
    → (put_back states core queue).0 p ≡ states p
unfolding put_back
put_back-set states core queue p ne = elim (Bool-cases (core.current_task == core.idle_task)) [
  | inl on_idle ↦ rw on_idle refl
  | inr apart ↦ elim (Bool-cases (is_running (states core.current_task))) [
    | inl runs ↦ rw (apart, runs) (set_state-other states core.current_task p ready ne)
    | inr stops ↦ elim (Bool-cases (is_ready (states core.current_task))) [
      | inl waits ↦ rw (apart, stops, waits) refl
      | inr other ↦ rw (apart, stops, other) refl
    ]
  ]
]

set_state_self :
    (states : States) (pid : ℕ) (state : TaskState) → set_state states pid state pid ≡ state
unfolding set_state
set_state_self states pid state = rw (==-refl pid) refl

-- Putting the current task back leaves what is ready in the queue so.
put_back-ready :
    (states : States) (core : Core) (queue : List ℕ) (pid : ℕ)
    → is_ready (states pid) ≡ true
    → is_ready ((put_back states core queue).0 pid) ≡ true
unfolding put_back set_state
put_back-ready states core queue pid is = elim (Bool-cases (core.current_task == core.idle_task)) [
  | inl on_idle ↦ rw on_idle is
  | inr apart ↦ elim (Bool-cases (is_running (states core.current_task))) [
    | inl runs ↦ elim (Bool-cases (core.current_task == pid)) [
      | inl same ↦ rw (apart, runs, same) refl
      | inr other ↦ rw (apart, runs, other) is
    ]
    | inr stops ↦ elim (Bool-cases (is_ready (states core.current_task))) [
      | inl waits ↦ rw (apart, stops, waits) is
      | inr other ↦ rw (apart, stops, other) is
    ]
  ]
]

-- The current task, put back, is ready.
put_back-current_ready :
    (states : States) (core : Core) (queue : List ℕ)
    → core.current_task ≢ core.idle_task
    → (is_ready (states core.current_task) || is_running (states core.current_task)) ≡ true
    → is_ready ((put_back states core queue).0 core.current_task) ≡ true
unfolding put_back set_state
put_back-current_ready states core queue ne is =
    elim (Bool-cases (is_running (states core.current_task))) [
      | inl runs ↦
          rw (≢→== core.current_task core.idle_task ne, runs, ==-refl core.current_task) refl
      | inr stops ↦
          let waits =
            or_left (is_ready (states core.current_task)) (is_running (states core.current_task)) is
              stops in
          rw (≢→== core.current_task core.idle_task ne, stops, waits) waits
    ]

-- On the idle task nothing is put back.
put_back-idle :
    (states : States) (core : Core) (queue : List ℕ)
    → core.current_task ≡ core.idle_task
    → put_back states core queue ≡ (states, queue)
unfolding put_back
put_back-idle states core queue same = rw (same, ==-refl core.idle_task) refl

-- What is left after a switch to `p`.
abbrev Switched : States → Core → (p : ℕ) → List ℕ → States × Core
Switched states core p queue =
    let (states', queue') = put_back (set_state states p running) core queue in
    (states', record core { runqueue = queue'; current_task = p })

Kept-picked :
    (states : States) (core : Core) (p : ℕ) (queue : List ℕ) → Kept p (Switched states core p queue)
Kept-picked states core p queue =
    let states' = set_state states p running in
    let runs : is_running (states' p) ≡ true = ap is_running (set_state_self states p running) in
    elim (ℕ_discrete p core.current_task) [
      | no ne ↦ inl (refl, ap is_running (put_back-set states' core queue p ne) ∙ runs)
      | yes same ↦ elim (ℕ_discrete core.current_task core.idle_task) [
        | yes on_idle ↦
            inl
              (refl, ap (λ r. is_running (r.0 p)) (put_back-idle states' core queue on_idle) ∙ runs)
        | no apart ↦
            let may_run =
              or_right (is_ready (states' core.current_task))
                (is_running (states' core.current_task))
                (ap (λ q. is_running (states' q)) (sym same) ∙ runs) in
            inr (
              subst (λ q. Queued q (put_back states' core queue).1) (sym same)
                  (put_back-current states' core queue apart may_run),
              subst (λ q. is_ready ((put_back states' core queue).0 q) ≡ true) (sym same)
                  (put_back-current_ready states' core queue apart may_run),
            )
      ]
    ]

Kept-switched :
    (states : States) (core : Core) (pid p : ℕ) (queue : List ℕ)
    → Pops states core.runqueue (some p, queue)
    → Runnable states core pid
    → pid ≢ p
    → Kept pid (Switched states core p queue)
Kept-switched states core pid p queue pops run ne = elim run [
  | inl (queued, is) ↦ elim (pops pid queued is) [
    | inl e ↦ absurd (ne e)
    | inr h ↦ inr (
      put_back-queue (set_state states p running) core queue pid h,
      put_back-ready (set_state states p running) core queue pid
          (ap is_ready (set_state-other states p pid running ne) ∙ is),
    )
  ]
  | inr (e, apart, is) ↦
      let states' = set_state states p running in
      let may_run =
        subst (λ state. (is_ready state || is_running state) ≡ true)
          (ap states e
            ∙ sym (set_state-other states p core.current_task running (λ same. ne (e ∙ same))))
          is in
      let apart' : core.current_task ≢ core.idle_task = λ same. apart (e ∙ same) in
      inr (
        subst (λ q. Queued q (put_back states' core queue).1) (sym e)
            (put_back-current states' core queue apart' may_run),
        subst (λ q. is_ready ((put_back states' core queue).0 q) ≡ true) (sym e)
            (put_back-current_ready states' core queue apart' may_run),
      )
]

schedule_from-Kept :
    (now : ℕ) (states : States) (core : Core) (pid : ℕ) (result : Option ℕ × List ℕ)
    → Pops states core.runqueue result
    → Runnable states core pid
    → Kept pid (schedule_from now states core result)
unfolding schedule_from
schedule_from-Kept now states core pid (some p, queue) pops run = elim (ℕ_discrete pid p) [
  | yes same ↦
      subst (λ q. Kept q (Switched states core p queue)) (sym same)
        (Kept-picked states core p queue)
  | no apart ↦ Kept-switched states core pid p queue pops run apart
]
schedule_from-Kept now states core pid (none, queue) pops run = elim run [
  | inl (queued, is) ↦ absurd (contradiction (is_ready (states pid)) is (pops pid queued))
  | inr (e, apart, is) ↦
      rw (subst (λ q. (is_ready (states q) || is_running (states q)) ≡ true) e is) (
        inl (
          e,
          ap (λ q. is_running (set_state states core.current_task running q)) e
              ∙ ap is_running (set_state_self states core.current_task running),
        ))
]

-- With any states and any run queue: a task that may run is the current task after `schedule` and has
-- the state running, or it is in the run queue after it and has the state ready. No runnable task is lost.
pub schedule-Kept :
    (now : ℕ) (states : States) (core : Core) (pid : ℕ)
    → Runnable states core pid
    → Kept pid (schedule now states core)
unfolding schedule
schedule-Kept now states core pid run =
    schedule_from-Kept now states core pid (pop_ready states core.runqueue)
      (pop_ready-Pops states core.runqueue) run

schedule_from-running :
    (now : ℕ) (states : States) (core : Core) (result : Option ℕ × List ℕ)
    → (schedule_from now states core result).1.current_task ≢ core.current_task
    → (schedule_from now states core result).0 (schedule_from now states core result).1.current_task
      ≡ running
unfolding schedule_from
schedule_from-running now states core (some p, queue) = λ ne.
    put_back-set (set_state states p running) core queue p ne ∙ set_state_self states p running
schedule_from-running now states core (none, queue) =
    elim (Bool-cases
      (is_ready (states core.current_task) || is_running (states core.current_task))) [
        | inl is ↦ rw is (λ ne. absurd (ne refl))
        | inr stops ↦ rw stops (λ ne. set_state_self states core.idle_task running)
      ]

-- Where `schedule` changes the current task, the new one has the state `running`.
schedule-running :
    (now : ℕ) (states : States) (core : Core)
    → (schedule now states core).1.current_task ≢ core.current_task
    → (schedule now states core).0 (schedule now states core).1.current_task ≡ running
unfolding schedule
schedule-running now states core =
    schedule_from-running now states core (pop_ready states core.runqueue)
