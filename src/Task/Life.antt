-- ===== src/Task/Life.antt =====
-- kernel/src/task/task.rs and kernel/src/sched/sched.rs: how a task exits and how its parent waits for it.
-- What runs without another hart in between is one function: `wait` has three of them, around the lock of
-- the scheduler and the switch to another task, and `exit` has two. The exits of the functions into
-- `schedule`, and the open files, are left out.
pub mod Wakeup
mod Tests
use efiks_os.Prelude.{
  ℕ, zero, suc, ◌+◌, ◌*◌, ◌^◌, Bool, true, false, ◌&&◌, List, [], ◌∷◌, ◌++◌, Option, none, some,
  Result, ok, err, panic, ◌==◌, if◌then◌else◌,
}
use efiks_os.Mm.Error.{Error, errno}
use efiks_os.Vfs.File.{echild}
use efiks_os.Task.Sched.{TaskState, States, set_state, running, ready, blocked, zombie, exited}

-- `TaskRuntime`, without the time to wake up at
pub record TaskInfo : Type 0 where
  pub parent : Option ℕ
  pub children : List ℕ
  pub exit_code : ℕ

-- The states, the table of tasks by their pids, `waiting_tasks`, the tasks that were put into run queues,
-- and the `cleanup_queue` of the reaper.
pub record System : Type 0 where
  pub states : States
  pub tasks : ℕ → Option TaskInfo
  pub waiting : ℕ → Bool
  pub enqueued : List ℕ
  pub cleanup_queue : List ℕ

abbrev pub is_zombie : TaskState → Bool
is_zombie zombie = true
is_zombie _ = false

abbrev pub set_task : (ℕ → Option TaskInfo) → ℕ → Option TaskInfo → ℕ → Option TaskInfo
set_task tasks pid info q = if pid == q then info else tasks q

abbrev pub set_waiting : (ℕ → Bool) → ℕ → Bool → ℕ → Bool
set_waiting waiting pid b q = if pid == q then b else waiting q

abbrev pub exists_task : System → ℕ → Bool
exists_task sys pid = elim (sys.tasks pid) [ none ↦ false | some info ↦ true ]

abbrev pub skip_child : ℕ → Option (ℕ × List ℕ) → Option (ℕ × List ℕ)
skip_child c none = none
skip_child c (some (found, rest)) = some (found, c ∷ rest)

-- The first child that is a zombie, and the others.
unfoldable pub find_zombie : System → List ℕ → Option (ℕ × List ℕ)
find_zombie sys [] = none
find_zombie sys (c ∷ children) =
    let later = skip_child c (find_zombie sys children) in
    if exists_task sys c && is_zombie (sys.states c) then some (c, children) else later

abbrev pub children_of : Option TaskInfo → List ℕ
children_of none = []
children_of (some info) = info.children

abbrev with_children : Option TaskInfo → List ℕ → Option TaskInfo
with_children none children = none
with_children (some info) children = some (record info { children = children })

abbrev exit_code_of : Option TaskInfo → ℕ
exit_code_of none = 0
exit_code_of (some info) = info.exit_code

reap_found : System → ℕ → Option (ℕ × List ℕ) → Option (ℕ × ℕ) × System
reap_found sys pid none = (none, sys)
reap_found sys pid (some (c, rest)) = (
  some (c, exit_code_of (sys.tasks c)),
  record sys {
    states = set_state sys.states c exited;
    tasks = set_task sys.tasks pid (with_children (sys.tasks pid) rest);
    cleanup_queue = sys.cleanup_queue ++ (c ∷ []);
  },
)

unfoldable pub reap_zombie_child : System → ℕ → Option (ℕ × ℕ) × System
unfolding reap_found find_zombie set_state
reap_zombie_child sys pid = reap_found sys pid (find_zombie sys (children_of (sys.tasks pid)))

-- `wait`, up to the lock.
unfoldable pub wait_begin : System → ℕ → Result Error (Unit {0}) × System
unfolding set_state
wait_begin sys pid = elim (children_of (sys.tasks pid)) [
  | [] ↦ (err (errno echild), sys)
  | _ ∷ _ ↦ (ok tt, record sys { states = set_state sys.states pid blocked })
]

-- What `block_on_wait` and `wait` make of the attempt to reap under the lock: without a child the task
-- stays blocked and is among the waiting ones.
checked : ℕ → Option (ℕ × ℕ) × System → Option (ℕ × ℕ) × System
unfolding set_state
checked pid (some r, sys) = (some r, record sys { states = set_state sys.states pid running })
checked pid (none, sys) = (none, record sys { waiting = set_waiting sys.waiting pid true })

unfoldable pub wait_check : System → ℕ → Option (ℕ × ℕ) × System
unfolding reap_zombie_child checked
wait_check sys pid = checked pid (reap_zombie_child sys pid)

-- `wait` after the task was switched to again: `expect` panics without a child.
expected : Option (ℕ × ℕ) × System → Result Error (ℕ × ℕ) × System
expected (some r, sys) = (ok r, sys)
expected (none, sys) = (panic, sys)

unfoldable pub wait_resume : System → ℕ → Result Error (ℕ × ℕ) × System
unfolding reap_zombie_child expected
wait_resume sys pid = expected (reap_zombie_child sys pid)

abbrev exited_info : ℕ → Option TaskInfo → Option TaskInfo
exited_info code none = none
exited_info code (some info) = some (record info { exit_code = code; children = [] })

abbrev pub is_exited : TaskState → Bool
is_exited exited = true
is_exited _ = false

-- `exit`, up to `on_task_exit`; a task that is exited returns at once.
unfoldable pub exit_mark : System → (pid code : ℕ) → Option System
unfolding set_state
exit_mark sys pid code =
    if is_exited (sys.states pid)
    then none
    else some (record sys {
      states = set_state sys.states pid zombie;
      tasks = set_task sys.tasks pid (exited_info code (sys.tasks pid));
    })

-- The parent as `get_task` knows it.
abbrev known_parent : System → Option ℕ → Option ℕ
known_parent sys none = none
known_parent sys (some p) = if exists_task sys p then some p else none

abbrev pub parent_of : Option TaskInfo → Option ℕ
parent_of none = none
parent_of (some info) = info.parent

notified : System → ℕ → Option ℕ → System
unfolding set_state
notified sys pid none = record sys { cleanup_queue = sys.cleanup_queue ++ (pid ∷ []) }
notified sys pid (some p) =
    if sys.waiting p
    then record sys {
      waiting = set_waiting sys.waiting p false;
      states = set_state sys.states p ready;
      enqueued = sys.enqueued ++ (p ∷ []);
    }
    else sys

unfoldable pub on_task_exit : System → (pid : ℕ) → System
unfolding notified
on_task_exit sys pid = notified sys pid (known_parent sys (parent_of (sys.tasks pid)))

-- `cleanup`; the memory is freed by the memory manager.
unfoldable pub cleanup : System → (pid : ℕ) → System
unfolding set_state
cleanup sys pid = record sys {
  states = set_state sys.states pid exited;
  tasks = set_task sys.tasks pid none;
}

abbrev with_child : ℕ → Option TaskInfo → Option TaskInfo
with_child pid none = none
with_child pid (some info) = some (record info { children = info.children ++ (pid ∷ []) })

abbrev pub new_info : Option ℕ → TaskInfo
new_info parent = record { parent = parent; children = []; exit_code = 255 }

-- What `fork` and `spawn` do to the tasks once the memory of the new task is there: the parent gets the
-- child, which is ready and is put into a run queue.
unfoldable pub add_child : System → (parent : Option ℕ) → (pid : ℕ) → System
unfolding set_state
add_child sys parent pid = record sys {
  states = set_state sys.states pid ready;
  tasks = set_task (listed parent) pid (some (new_info parent));
  enqueued = sys.enqueued ++ (pid ∷ []);
}
  where
    listed : Option ℕ → ℕ → Option TaskInfo
    listed none = sys.tasks
    listed (some p) = set_task sys.tasks p (with_child pid (sys.tasks p))
