-- ===== src/Algorithms/TaskGraph/Acyclic.antt =====
-- The dependencies that crates/algorithms/src/scheduling.rs accepts and refuses.
use tordex.Prelude.{
  ℕ, ◌≡◌, refl, ◌⊎◌, inl, inr, ◌↔◌, String, Bool, true, false, List, [], ◌∷◌, nat_eq, In,
  if◌then◌else◌, Bool-cases, Option, some, none, Result, ok, err,
}
use tordex.Prelude.Map.{get, contains_key, Distinct, insert-Distinct}
use tordex.Prelude.Outcome.{Outcome, returned, Returns, Returns-bind, ◌>>=◌}
use tordex.Algorithms.TaskGraph.{
  Task, TaskGraph, targets, new_graph, add_task, add_dependency, mark_completed, mark_found, link,
}
use tordex.Algorithms.TaskGraph.Trail.{
  Acyclic, add_edge-Acyclic, Acyclic-add_edge, edge_cases, old_edge, new_edge, targets-ensure,
  ensure-Acyclic,
}
use tordex.Algorithms.TaskGraph.Search.{Leads, creates_cycle-Leads}

-- A call that changes the graph.
pub data Call (F : Type 0) : Type 0 where
  adds : String → F → Call F
  depends : ℕ → ℕ → Call F
  marks : ℕ → Call F

module _ {F : Type 0} where
  abbrev Known : TaskGraph F → ℕ → ℕ → Bool → Type 0
  Known g task depends_on b =
      (contains_key g.tasks task ≡ b) × (contains_key g.tasks depends_on ≡ b)

  -- The three ways in which a call of `add_dependency` ends.
  pub data Adds (g : TaskGraph F) (task depends_on : ℕ) (r : Result (Unit {0}) String × TaskGraph F)
      : Type 0 where
    unknown :
        (contains_key g.tasks task ≡ false) ⊎ (contains_key g.tasks depends_on ≡ false)
        → r ≡ (err "task not found", g)
        → Adds g task depends_on r
    cyclic :
        contains_key g.tasks task ≡ true
        → contains_key g.tasks depends_on ≡ true
        → (Acyclic (link g task depends_on).dependents → ⊥)
        → r ≡ (err "dependency would create a cycle", g)
        → Adds g task depends_on r
    added :
        contains_key g.tasks task ≡ true
        → contains_key g.tasks depends_on ≡ true
        → Acyclic (link g task depends_on).dependents
        → r ≡ (ok tt, link g task depends_on)
        → Adds g task depends_on r

  judged-Adds :
      (g : TaskGraph F) (task depends_on : ℕ)
      → Acyclic g.dependents
      → contains_key g.tasks task ≡ true
      → contains_key g.tasks depends_on ≡ true
      → (cycle : Bool) → Leads g.dependents task depends_on cycle
      → Adds g task depends_on (
          if cycle
          then (err "dependency would create a cycle", g)
          else (ok tt, link g task depends_on))
  unfolding link
  judged-Adds g task depends_on acyclic k l true p =
      cyclic k l (Acyclic-add_edge g.dependents depends_on task p) refl
  judged-Adds g task depends_on acyclic k l false apart =
      added k l (add_edge-Acyclic g.dependents depends_on task acyclic apart) refl

  -- On a graph without cycles `add_dependency` returns. It refuses a task that does not exist; of
  -- two that exist it refuses the dependency exactly if the graph with it would have a cycle, and
  -- leaves the graph as it was; otherwise the edge is added.
  pub add_dependency-Adds :
      (g : TaskGraph F) (task depends_on : ℕ)
      → Acyclic g.dependents
      → Returns (Adds g task depends_on) (add_dependency g task depends_on)
  unfolding add_dependency
  add_dependency-Adds g task depends_on acyclic = elim (Bool-cases (contains_key g.tasks task)) [
    | inr missing ↦ rw missing (unknown (inl missing) refl)
    | inl known ↦ elim (Bool-cases (contains_key g.tasks depends_on)) [
      | inr missing ↦ rw (known, missing) (unknown (inr missing) refl)
      | inl too ↦
          rw (known, too)
            (Returns-bind (Leads g.dependents task depends_on) _ _ _
              (creates_cycle-Leads g.dependents task depends_on)
              (judged-Adds g task depends_on acyclic known too))
    ]
  ]

  unfoldable pub step : TaskGraph F → Call F → Outcome (TaskGraph F)
  step g (adds name cost) = returned (add_task g name cost).1
  step g (depends task depends_on) = do r ← add_dependency g task depends_on; returned r.1
  step g (marks task) = returned (mark_completed g task)

  unfoldable pub build_graph : TaskGraph F → List (Call F) → Outcome (TaskGraph F)
  unfolding step
  build_graph g [] = returned g
  build_graph g (c ∷ cs) = do g' ← step g c; build_graph g' cs

  -- No cycle, the two maps say the same, and a task has one entry.
  pub record Sound (g : TaskGraph F) : Type 0 where
    pub acyclic : Acyclic g.dependents
    pub mirrored : (a b : ℕ) → In b (targets g.dependencies a) ↔ In a (targets g.dependents b)
    pub distinct : Distinct g.tasks

  mirrored_edge :
      (g : TaskGraph F) (task depends_on a b : ℕ)
      → Sound g
      → In b (targets (link g task depends_on).dependencies a)
        ↔ In a (targets (link g task depends_on).dependents b)
  unfolding link
  mirrored_edge g task depends_on a b s = (
    λ i. elim (edge_cases g.dependencies task depends_on a b i) [
      | inl old ↦ old_edge g.dependents depends_on task b a ((s.mirrored a b).0 old)
      | inr (e, f) ↦ rw (e, f) (new_edge g.dependents depends_on task)
    ],
    λ i. elim (edge_cases g.dependents depends_on task b a i) [
      | inl old ↦ old_edge g.dependencies task depends_on a b ((s.mirrored a b).1 old)
      | inr (e, f) ↦ rw (e, f) (new_edge g.dependencies task depends_on)
    ],
  )

  Adds-Sound :
      (g : TaskGraph F) (task depends_on : ℕ) (r : Result (Unit {0}) String × TaskGraph F)
      → Sound g
      → Adds g task depends_on r
      → Sound r.1
  unfolding link
  Adds-Sound g task depends_on r s (unknown missing e) = rw e s
  Adds-Sound g task depends_on r s (cyclic k l bad e) = rw e s
  Adds-Sound g task depends_on r s (added k l good e) = rw e (record {
    acyclic = good;
    mirrored = λ a b. mirrored_edge g task depends_on a b s;
    distinct = s.distinct;
  })

  mark_found-Sound :
      (g : TaskGraph F) (task : ℕ) (o : Option (Task F)) → Sound g → Sound (mark_found g task o)
  unfolding mark_found
  mark_found-Sound g task none s = s
  mark_found-Sound g task (some t) s = record {
    acyclic = s.acyclic;
    mirrored = s.mirrored;
    distinct = insert-Distinct g.tasks task _ s.distinct;
  }

  add_task-Sound :
      (g : TaskGraph F) (name : String) (cost : F) → Sound g → Sound (add_task g name cost).1
  unfolding add_task
  add_task-Sound g name cost s = record {
    acyclic = ensure-Acyclic g.dependents g.next_id s.acyclic;
    mirrored = λ a b.
        rw (targets-ensure g.dependencies g.next_id a, targets-ensure g.dependents g.next_id b)
          (s.mirrored a b);
    distinct = insert-Distinct g.tasks g.next_id _ s.distinct;
  }

  step-Sound : (g : TaskGraph F) (c : Call F) → Sound g → Returns Sound (step g c)
  unfolding step mark_completed
  step-Sound g (adds name cost) s = add_task-Sound g name cost s
  step-Sound g (depends task depends_on) s =
      Returns-bind (Adds g task depends_on) Sound _ _
        (add_dependency-Adds g task depends_on s.acyclic)
        (λ r a. Adds-Sound g task depends_on r s a)
  step-Sound g (marks task) s = mark_found-Sound g task (get g.tasks task) s

  build_graph-Sound_from :
      (g : TaskGraph F) (cs : List (Call F)) → Sound g → Returns Sound (build_graph g cs)
  unfolding build_graph
  build_graph-Sound_from g [] s = s
  build_graph-Sound_from g (c ∷ cs) s =
      Returns-bind Sound Sound _ _ (step-Sound g c s) (λ g' s'. build_graph-Sound_from g' cs s')

  -- Every sequence of calls on a new graph returns, and leaves a graph without cycles, in which the
  -- two maps of edges are converse to each other and each task has one entry.
  pub build_graph-Sound : (cs : List (Call F)) → Returns Sound (build_graph new_graph cs)
  unfolding new_graph targets get
  build_graph-Sound cs =
      build_graph-Sound_from new_graph cs
        (record { acyclic = λ a b i p. i; mirrored = λ a b. (λ i. i, λ i. i); distinct = tt })
