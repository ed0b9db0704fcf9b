-- ===== src/Task/Life/Tests.antt =====
-- A parent with two children. Its wait sleeps until a child that has exited tells it; and a child that is
-- reaped before it has told its parent wakes a later wait, which finds no child and panics.
use efiks_os.Prelude.{
  ℕ, ◌≡◌, refl, true, false, [], ◌∷◌, ◌++◌, Option, none, some, ◌==◌, if◌then◌else◌, arith,
}
use efiks_os.Task.Sched.{running, ready, set_state}
use efiks_os.Task.Life.{
  System, TaskInfo, on_task_exit, wait_begin, wait_check, wait_resume, exit_mark, reap_zombie_child,
  find_zombie, reap_found, checked, notified, expected, set_waiting,
}
use efiks_os.Task.Life.Wakeup.{
  Run, Step, Reaches, here, then_step, begins, checks, resumes, marks, notifies, outside, checking,
  panicked, after_check, after_resume, zombie_child-Wakes,
}

abbrev family : ℕ → Option TaskInfo
family pid =
    if pid == 1
    then some (record { parent = none; children = 2 ∷ 3 ∷ []; exit_code = 255 })
    else (if pid == 2
        then some (record { parent = some 1; children = []; exit_code = 255 })
        else (if pid == 3
            then some (record { parent = some 1; children = []; exit_code = 255 })
            else none))

abbrev start : Run
start = record {
  pc = outside;
  done = λ c. false;
  sys = record {
    states = λ pid. running;
    tasks = family;
    waiting = λ pid. false;
    enqueued = [];
    cleanup_queue = [];
  };
}

abbrev begun : Run → Run
begun r = record r { pc = checking; sys = (wait_begin r.sys 1).1 }

abbrev check : Run → Run
check r = after_check r (wait_check r.sys 1)

abbrev system_or : System → Option System → System
system_or sys none = sys
system_or sys (some sys') = sys'

abbrev mark : ℕ → Run → Run
mark c r = record r { sys = system_or r.sys (exit_mark r.sys c 7) }

abbrev tell : ℕ → Run → Run
tell c r = record r { done = set_waiting r.done c true; sys = on_task_exit r.sys c }

abbrev resume : Run → Run
resume r = after_resume r (wait_resume r.sys 1)

two_ne_one : ¬ (◌≡◌ {A = ℕ} 2 1)
two_ne_one e = omega (arith, e)

abbrev sleeping_run : Run
sleeping_run = mark 2 (check (begun start))

sleeping_run-Reaches : Reaches 1 start sleeping_run
unfolding wait_begin wait_check checked reap_zombie_child reap_found find_zombie exit_mark set_state
sleeping_run-Reaches =
    then_step start (check (begun start)) sleeping_run
      (then_step start (begun start) (check (begun start))
        (then_step start start (begun start) (here start) (begins start refl refl))
        (checks (begun start) refl))
      (marks (check (begun start)) 2 7 sleeping_run.sys two_ne_one refl refl)

zombie_child-Wakes_example :
    (t : Run) × Step 1 sleeping_run t
    × (t.sys ≡ on_task_exit sleeping_run.sys 2)
    × (t.sys.states 1 ≡ ready)
    × (t.sys.enqueued ≡ sleeping_run.sys.enqueued ++ (1 ∷ []))
unfolding wait_begin wait_check checked reap_zombie_child reap_found find_zombie exit_mark set_state
zombie_child-Wakes_example =
    zombie_child-Wakes 1 2 start sleeping_run refl sleeping_run-Reaches refl refl refl
      (refl, refl, refl, refl)

-- The first child is a zombie when the parent looks, and is reaped; the parent waits again and sleeps;
-- then the first child tells it.
abbrev reaped_run : Run
reaped_run = check (begun (mark 2 start))

abbrev woken_run : Run
woken_run = tell 2 (check (begun reaped_run))

woken_run_panics : Reaches 1 start (resume woken_run) × ((resume woken_run).pc ≡ panicked)
unfolding wait_begin wait_check wait_resume checked expected reap_zombie_child reap_found
    find_zombie exit_mark on_task_exit notified set_state
woken_run_panics = (
  then_step start woken_run (resume woken_run)
      (then_step start (check (begun reaped_run)) woken_run
        (then_step start (begun reaped_run) (check (begun reaped_run))
          (then_step start reaped_run (begun reaped_run)
            (then_step start (begun (mark 2 start)) reaped_run
              (then_step start (mark 2 start) (begun (mark 2 start))
                (then_step start start (mark 2 start) (here start)
                  (marks start 2 7 (mark 2 start).sys two_ne_one refl refl))
                (begins (mark 2 start) refl refl))
              (checks (begun (mark 2 start)) refl))
            (begins reaped_run refl refl))
          (checks (begun reaped_run) refl))
        (notifies (check (begun reaped_run)) 2 refl refl refl))
      (resumes woken_run refl refl),
  refl,
)
