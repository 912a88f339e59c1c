-- ===== src/Tests/Tasks.antt =====
-- Workers that steal from each other, and a graph of two tasks.
use mathlib.Core.List.{Perm}
use tordex.Prelude.{ℕ, ◌≡◌, refl, subst, false, some, List, [], ◌∷◌, nat_eq, In, arith}
use tordex.Prelude.Map.{get, insert, contains_key}
use tordex.Prelude.Outcome.{returned, Returns}
use tordex.Algorithms.WorkStealing.{WorkStealingScheduler, total_pending}
use tordex.Algorithms.WorkStealing.Progress.{run_worker, waiting, run_worker-all}
use tordex.Algorithms.TaskGraph.{
  Task, TaskGraph, new_graph, add_task, add_dependency, link, creates_cycle, search, cycle_fuel,
  weight, targets, ensure, add_edge, push_all, ready_tasks,
}
use tordex.Algorithms.TaskGraph.Trail.{Trail}
use tordex.Algorithms.TaskGraph.Acyclic.{
  Call, adds, depends, Adds, add_dependency-Adds, build_graph, step, Sound, build_graph-Sound,
}
use tordex.Algorithms.TaskGraph.Progress.{ready_tasks-In}

abbrev workers : WorkStealingScheduler ℕ
workers = record { queues = (1 ∷ []) ∷ (2 ∷ 3 ∷ []) ∷ [] ∷ []; steal_attempts = 0; successes = 0 }

-- The third worker has nothing of its own.
run_worker-all_example :
    let r = run_worker (total_pending workers) workers 2 in
    Perm r.0 (waiting workers.queues) × (total_pending r.1 ≡ 0)
run_worker-all_example = run_worker-all workers 2 (omega arith)

abbrev calls : List (Call ℕ)
calls = adds "fetch" 1 ∷ adds "parse" 2 ∷ depends 1 0 ∷ depends 0 1 ∷ []

build_graph-Sound_example : Returns Sound (build_graph new_graph calls)
build_graph-Sound_example = build_graph-Sound calls

abbrev fetching : Task ℕ
fetching = record { id = 0; name = "fetch"; cost = 1; completed = false }

abbrev parsing : Task ℕ
parsing = record { id = 1; name = "parse"; cost = 2; completed = false }

abbrev two_tasks : TaskGraph ℕ
two_tasks = record {
  tasks = (0, fetching) ∷ (1, parsing) ∷ [];
  dependencies = (0, []) ∷ (1, 0 ∷ []) ∷ [];
  dependents = (0, 1 ∷ []) ∷ (1, []) ∷ [];
  next_id = 2;
}

-- The second dependency is refused.
two_tasks_built : build_graph new_graph calls ≡ returned two_tasks
unfolding build_graph step new_graph add_task add_dependency link creates_cycle search cycle_fuel
    weight targets ensure add_edge push_all get insert contains_key
two_tasks_built = refl

two_tasks-Sound : Sound two_tasks
two_tasks-Sound = subst (Returns Sound) two_tasks_built (build_graph-Sound calls)

add_dependency-Adds_example : Returns (Adds two_tasks 0 1) (add_dependency two_tasks 0 1)
add_dependency-Adds_example = add_dependency-Adds two_tasks 0 1 two_tasks-Sound.acyclic

parse_known : get two_tasks.tasks 1 ≡ some parsing
unfolding get
parse_known = refl

ready_tasks-In_example : (r : ℕ) × In r (ready_tasks two_tasks) × Trail two_tasks.dependents r 1
ready_tasks-In_example = ready_tasks-In two_tasks two_tasks-Sound 1 parsing parse_known refl
