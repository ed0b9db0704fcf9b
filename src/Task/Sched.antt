-- ===== src/Task/Sched.antt =====
-- kernel/src/sched: the run queue and the sleeping tasks of one core. A task is its pid; the states of
-- the tasks are a function. The binary heap of sleeping tasks is a list in the order of the wake-up times.
pub mod Laws
pub mod Sleep
use efiks_os.Prelude.{
  ℕ, zero, suc, ◌+◌, ◌-◌, ◌*◌, ◌/◌, ◌^◌, Bool, true, false, ◌&&◌, ◌||◌, not, List, [], ◌∷◌, ◌++◌,
  Option, none, some, ltb, leb, ◌==◌, if◌then◌else◌, map,
}

pub data TaskState : Type 0 where
  sleeping : TaskState
  running : TaskState
  ready : TaskState
  blocked : TaskState
  zombie : TaskState
  exited : TaskState

abbrev pub is_ready : TaskState → Bool
is_ready ready = true
is_ready _ = false

abbrev pub is_running : TaskState → Bool
is_running running = true
is_running _ = false

abbrev pub States : Type 0
States = ℕ → TaskState

unfoldable pub set_state : States → ℕ → TaskState → States
set_state states pid state q = if pid == q then state else states q

-- A core: `runqueue`, `sleeping_tasks` as pairs of the wake-up time and the task,
-- `last_entrance_time`, `current_task` and `idle_task`.
pub record Core : Type 0 where
  pub runqueue : List ℕ
  pub sleeping_tasks : List (ℕ × ℕ)
  pub last_entrance_time : ℕ
  pub current_task : ℕ
  pub idle_task : ℕ

-- The loop of `schedule`: tasks that are not ready are thrown away.
unfoldable pub pop_ready : States → List ℕ → Option ℕ × List ℕ
pop_ready states [] = (none, [])
pop_ready states (pid ∷ queue) =
    let rest = pop_ready states queue in if is_ready (states pid) then (some pid, queue) else rest

-- What `schedule` does with the task that runs so far, which the idle task is exempt from.
unfoldable pub put_back : States → Core → List ℕ → States × List ℕ
unfolding set_state
put_back states core queue =
    let pid = core.current_task in
    if pid == core.idle_task
    then (states, queue)
    else (if is_running (states pid)
        then (set_state states pid ready, queue ++ (pid ∷ []))
        else (if is_ready (states pid) then (states, queue ++ (pid ∷ [])) else (states, queue)))

unfoldable pub schedule_from : (now : ℕ) → States → Core → Option ℕ × List ℕ → States × Core
unfolding set_state put_back
schedule_from now states core (some pid, queue) =
    let (states', queue') = put_back (set_state states pid running) core queue in
    (states', record core { runqueue = queue'; last_entrance_time = now; current_task = pid })
schedule_from now states core (none, queue) =
    if is_ready (states core.current_task) || is_running (states core.current_task)
    then (set_state states core.current_task running, record core { runqueue = queue })
    else (
      set_state states core.idle_task running,
      record core { runqueue = queue; last_entrance_time = now; current_task = core.idle_task },
    )

unfoldable pub schedule : (now : ℕ) → States → Core → States × Core
unfolding pop_ready schedule_from
schedule now states core = schedule_from now states core (pop_ready states core.runqueue)

-- `SleepingTasks::push`
abbrev pub push : ℕ → ℕ → List (ℕ × ℕ) → List (ℕ × ℕ)
push until pid [] = (until, pid) ∷ []
push until pid ((u, p) ∷ rest) =
    if ltb until u then (until, pid) ∷ (u, p) ∷ rest else (u, p) ∷ push until pid rest

-- `with_tasks_to_wake_up`: the tasks that are due and still exist, and the entries that stay.
unfoldable pub wake_up : (now : ℕ) → (exists_task : ℕ → Bool) → List (ℕ × ℕ) → List ℕ × List (ℕ × ℕ)
wake_up now exists_task [] = ([], [])
wake_up now exists_task ((until, pid) ∷ rest) =
    let (woken, left) = wake_up now exists_task rest in
    if leb until now
    then (if exists_task pid then (pid ∷ woken, left) else (woken, left))
    else ([], (until, pid) ∷ rest)

-- The index of the core that the next new task goes to.
unfoldable pub next_hart : (core_count last : ℕ) → ℕ
next_hart core_count last = if leb core_count (last + 1) then 0 else last + 1

abbrev all_ready : States → List ℕ → States
all_ready states [] = states
all_ready states (pid ∷ pids) = all_ready (set_state states pid ready) pids

unfoldable is_empty : List ℕ → Bool
is_empty [] = true
is_empty (_ ∷ _) = false

-- `on_timer_interrupt`, with the ticks of a time slice; the timer itself is a device. The clock is read
-- on entry, and by `schedule`.
unfoldable pub on_timer_interrupt :
    (now later slice : ℕ) → (exists_task : ℕ → Bool) → States → Core → States × Core
unfolding schedule wake_up set_state is_empty
on_timer_interrupt now later slice exists_task states core =
    let (woken, left) = wake_up now exists_task core.sleeping_tasks in
    let states' = all_ready states woken in
    let core' = record core { runqueue = core.runqueue ++ woken; sleeping_tasks = left } in
    let on_idle = core.current_task == core.idle_task in
    if (not on_idle && ltb slice (now - core.last_entrance_time))
      || not (is_empty woken)
      || (on_idle && not (is_empty (core.runqueue ++ woken)))
    then schedule later states' core'
    else (states', core')

-- `sleep_current_task`: a wake-up time that does not fit is 0.
unfoldable pub wake_up_at : (now ticks : ℕ) → ℕ
wake_up_at now ticks = if ltb (now + ticks) (2 ^ 64) then now + ticks else 0

unfoldable pub sleep_current_task : (now later ticks : ℕ) → States → Core → States × Core
unfolding schedule set_state wake_up_at
sleep_current_task now later ticks states core =
    schedule later (set_state states core.current_task sleeping) (record core {
      sleeping_tasks = push (wake_up_at now ticks) core.current_task core.sleeping_tasks;
    })

-- `GlobalScheduler`: the hart that got the last new task, and the tasks that wait for interrupts.
pub record GlobalScheduler : Type 0 where
  pub last_rq_hart_idx : ℕ
  pub irq_wait_queue : List (ℕ × List ℕ)

-- `enqueue_new_task`, with the run queues of all harts.
unfoldable pub push_at : List (List ℕ) → (idx pid : ℕ) → List (List ℕ)
push_at [] idx pid = []
push_at (queue ∷ queues) zero pid = (queue ++ (pid ∷ [])) ∷ queues
push_at (queue ∷ queues) (suc idx) pid = queue ∷ push_at queues idx pid

unfoldable pub enqueue_new_task :
    (core_count : ℕ) → GlobalScheduler → List (List ℕ) → (pid : ℕ) → GlobalScheduler × List (List ℕ)
unfolding next_hart push_at
enqueue_new_task core_count global queues pid =
    let idx = next_hart core_count global.last_rq_hart_idx in
    (record global { last_rq_hart_idx = idx }, push_at queues idx pid)

-- The queue of an interrupt: the task that waits longest, and the rest.
unfoldable pub pop_waiting : (irq : ℕ) → List (ℕ × List ℕ) → Option ℕ × List (ℕ × List ℕ)
pop_waiting irq [] = (none, [])
pop_waiting irq ((i, []) ∷ queues) =
    let (found, rest) = pop_waiting irq queues in
    if i == irq then (none, (i, []) ∷ queues) else (found, (i, []) ∷ rest)
pop_waiting irq ((i, pid ∷ pids) ∷ queues) =
    let (found, rest) = pop_waiting irq queues in
    if i == irq then (some pid, (i, pids) ∷ queues) else (found, (i, pid ∷ pids) ∷ rest)

unfoldable pub push_waiting : (irq pid : ℕ) → List (ℕ × List ℕ) → List (ℕ × List ℕ)
push_waiting irq pid [] = (irq, pid ∷ []) ∷ []
push_waiting irq pid ((i, pids) ∷ queues) =
    if i == irq then (i, pids ++ (pid ∷ [])) ∷ queues else (i, pids) ∷ push_waiting irq pid queues

wake_waiting :
    (core_count : ℕ)
    → (exists_task : ℕ → Bool) → States
    → GlobalScheduler
    → List (List ℕ)
    → Option ℕ × List (ℕ × List ℕ)
    → States × GlobalScheduler × List (List ℕ)
unfolding enqueue_new_task set_state
wake_waiting core_count exists_task states global queues (none, waiting) = (states, global, queues)
wake_waiting core_count exists_task states global queues (some pid, waiting) =
    let left = record global { irq_wait_queue = waiting } in
    if exists_task pid
    then (let (global', queues') = enqueue_new_task core_count left queues pid in
        (set_state states pid ready, global', queues'))
    else (states, left, queues)

-- `on_external_irq`; a task that is gone is dropped from the queue.
unfoldable pub on_external_irq :
    (core_count : ℕ)
    → (exists_task : ℕ → Bool) → (irq : ℕ) → States
    → GlobalScheduler
    → List (List ℕ)
    → States × GlobalScheduler × List (List ℕ)
unfolding pop_waiting wake_waiting
on_external_irq core_count exists_task irq states global queues =
    wake_waiting core_count exists_task states global queues (pop_waiting irq global.irq_wait_queue)

-- `block_on_external_irq`
unfoldable pub block_on_external_irq :
    (later irq : ℕ) → States → Core → GlobalScheduler → States × Core × GlobalScheduler
unfolding schedule set_state push_waiting
block_on_external_irq later irq states core global =
    let (states', core') = schedule later (set_state states core.current_task blocked) core in
    (
      states',
      core',
      record global { irq_wait_queue = push_waiting irq core.current_task global.irq_wait_queue },
    )
