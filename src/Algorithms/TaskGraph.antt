-- ===== src/Algorithms/TaskGraph.antt =====
-- TaskGraph of crates/algorithms/src/scheduling.rs: tasks and the dependencies between them. `F`
-- stands for the floating point costs. A vector that is used as a stack is a list with its end first.
pub mod Trail
pub mod Search
pub mod Acyclic
pub mod Ready
pub mod Progress
use tordex.Prelude.{
  ℕ, zero, suc, ◌+◌, ◌%◌, ◌^◌, String, Bool, true, false, not, ◌&&◌, ◌||◌, Option, some, none, List,
  [], ◌∷◌, ◌++◌, nat_eq, ◌==◌, length, or_default, if◌then◌else◌, Result, ok, err,
}
use tordex.Prelude.Map.{Map, get, contains_key, insert}
use tordex.Prelude.Outcome.{Outcome, returned, exhausted, ◌>>=◌}

pub record Task (F : Type 0) : Type 0 where
  pub id : ℕ
  pub name : String
  pub cost : F
  pub completed : Bool

abbrev pub Edges : Type 0
Edges = Map ℕ (List ℕ)

pub record TaskGraph (F : Type 0) : Type 0 where
  pub tasks : Map ℕ (Task F)
  pub dependencies : Edges
  pub dependents : Edges
  pub next_id : ℕ

-- The edges that leave a node.
unfoldable pub targets : Edges → ℕ → List ℕ
targets m node = or_default (get m node)

-- `entry(id).or_default()`
unfoldable pub ensure : Edges → ℕ → Edges
unfolding targets
ensure m id = insert m id (targets m id)

-- `entry(from).or_default().push(to)`
unfoldable pub add_edge : Edges → ℕ → ℕ → Edges
unfolding targets
add_edge m from to = insert m from (targets m from ++ to ∷ [])

-- `for &dep in deps { stack.push(dep) }`
unfoldable pub push_all : List ℕ → List ℕ → List ℕ
push_all [] stack = stack
push_all (dep ∷ deps) stack = push_all deps (dep ∷ stack)

abbrev pub Visited : Type 0
Visited = Map ℕ (Unit {0})

-- `while let Some(node) = stack.pop()`
unfoldable pub search : Edges → ℕ → ℕ → Visited → List ℕ → Outcome Bool
unfolding targets push_all
search m to zero visited stack = exhausted
search m to (suc fuel) visited [] = returned false
search m to (suc fuel) visited (node ∷ stack) =
    let skip = search m to fuel visited stack in
    let visit = search m to fuel (insert visited node tt) (push_all (targets m node) stack) in
    if node == to then returned true else if contains_key visited node then skip else visit

-- The edges that leave the nodes not yet visited.
unfoldable pub weight : Edges → Visited → ℕ
weight [] visited = 0
weight ((k, ts) ∷ m) visited = (if contains_key visited k then 0 else length ts) + weight m visited

-- Each edge is followed once at most.
unfoldable pub cycle_fuel : Edges → ℕ
unfolding weight
cycle_fuel m = weight m [] + 2

unfoldable pub creates_cycle : Edges → ℕ → ℕ → Outcome Bool
unfolding search cycle_fuel
creates_cycle dependents from to = search dependents to (cycle_fuel dependents) [] (from ∷ [])

module _ {F : Type 0} where
  unfoldable pub new_graph : TaskGraph F
  new_graph = record { tasks = []; dependencies = []; dependents = []; next_id = 0 }

  unfoldable pub add_task : TaskGraph F → String → F → ℕ × TaskGraph F
  add_task g name cost =
      let id = g.next_id in
      (
        id,
        record {
          tasks =
              insert g.tasks id (record { id = id; name = name; cost = cost; completed = false });
          dependencies = ensure g.dependencies id;
          dependents = ensure g.dependents id;
          next_id = (id + 1) % 2 ^ 64;
        },
      )

  -- The two pushes at the end of `add_dependency`.
  unfoldable pub link : TaskGraph F → ℕ → ℕ → TaskGraph F
  link g task depends_on = record g {
    dependencies = add_edge g.dependencies task depends_on;
    dependents = add_edge g.dependents depends_on task;
  }

  unfoldable pub add_dependency :
      TaskGraph F → ℕ → ℕ → Outcome (Result (Unit {0}) String × TaskGraph F)
  add_dependency g task depends_on =
      if not (contains_key g.tasks task) || not (contains_key g.tasks depends_on)
      then returned (err "task not found", g)
      else (do
        cycle ← creates_cycle g.dependents task depends_on
        returned (
            if cycle
            then (err "dependency would create a cycle", g)
            else (ok tt, link g task depends_on)))

  -- `if let Some(t) = self.tasks.get_mut(&task)`
  pub mark_found : TaskGraph F → ℕ → Option (Task F) → TaskGraph F
  mark_found g task none = g
  mark_found g task (some t) = record g {
    tasks = insert g.tasks task (record t { completed = true });
  }

  pub mark_completed : TaskGraph F → ℕ → TaskGraph F
  unfolding mark_found
  mark_completed g task = mark_found g task (get g.tasks task)

  pub is_completed : TaskGraph F → ℕ → Bool
  is_completed g task = elim (get g.tasks task) [ none ↦ true | some t ↦ t.completed ]

  -- `deps.iter().all(|d| self.is_completed(*d))`
  pub all_completed : TaskGraph F → List ℕ → Bool
  unfolding is_completed
  all_completed g [] = true
  all_completed g (d ∷ ds) = is_completed g d && all_completed g ds

  pub is_ready : TaskGraph F → ℕ → Task F → Bool
  unfolding all_completed
  is_ready g id task =
      not task.completed
      && elim (get g.dependencies id) [ none ↦ true | some deps ↦ all_completed g deps ]

  pub ready_from : TaskGraph F → Map ℕ (Task F) → List ℕ
  unfolding is_ready
  ready_from g [] = []
  ready_from g ((id, task) ∷ m) = if is_ready g id task then id ∷ ready_from g m else ready_from g m

  pub ready_tasks : TaskGraph F → List ℕ
  unfolding ready_from
  ready_tasks g = ready_from g g.tasks

  pub task_count : TaskGraph F → ℕ
  task_count g = length g.tasks
