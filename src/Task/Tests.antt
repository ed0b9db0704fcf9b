-- ===== src/Task/Tests.antt =====
-- The scheduler and the file table at concrete values.
use efiks_os.Prelude.{
  ℕ, ◌≡◌, ◌≢◌, refl, Bool, true, List, [], ◌∷◌, Option, none, some, inr, arith, ◌==◌, if◌then◌else◌,
}
use efiks_os.Task.FileTable.{add_file, get_file, close_file, Adds, add_file-Adds, close_file-Closes}
use efiks_os.Task.Sched.{States, Core, running, ready, schedule, wake_up}
use efiks_os.Task.Sched.Laws.{Kept, schedule-Kept}
use efiks_os.Task.Sched.Sleep.{Entry, IsSorted, Wakes, wake_up-Wakes}

abbrev one_runs : States
one_runs pid = if pid == 1 then running else ready

abbrev core : Core
core = record {
  runqueue = 2 ∷ 3 ∷ [];
  sleeping_tasks = [];
  last_entrance_time = 0;
  current_task = 1;
  idle_task = 0;
}

schedule-Kept_example : Kept 1 (schedule 10 one_runs core)
schedule-Kept_example = schedule-Kept 10 one_runs core 1 (inr (refl, omega arith, refl))

core-switches : (schedule 10 one_runs core).1.current_task ≢ 1
unfolding schedule
core-switches = λ (e : 2 ≡ 1). omega arith

abbrev asleep : List Entry
asleep = (5, 1) ∷ (20, 2) ∷ []

asleep-IsSorted : IsSorted asleep
asleep-IsSorted = ((omega arith, tt), (tt, tt))

abbrev all_exist : ℕ → Bool
all_exist pid = true

wake_up-Wakes_example : Wakes 10 all_exist asleep (wake_up 10 all_exist asleep)
wake_up-Wakes_example = wake_up-Wakes 10 all_exist asleep asleep-IsSorted

abbrev files : List (Option ℕ)
files = some 4 ∷ none ∷ some 6 ∷ []

add_file-Adds_example : Adds files 9 (add_file files 9)
add_file-Adds_example = add_file-Adds files 9

close_file-Closes_example :
    ((close_file files 2).1 ≡ get_file files 2)
    × (get_file (close_file files 2).0 2 ≡ none)
    × ((j : ℕ) → j ≢ 2 → get_file (close_file files 2).0 j ≡ get_file files j)
close_file-Closes_example = close_file-Closes files 2
