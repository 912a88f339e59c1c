-- ===== src/Algorithms/TaskGraph/Ready.antt =====
-- The tasks of crates/algorithms/src/scheduling.rs that can be run.
use tordex.Prelude.{
  ℕ, ◌≡◌, refl, sym, subst, ◌∙◌, inl, inr, ◌↔◌, Bool, true, false, not, ◌&&◌, List, [], ◌∷◌, nat_eq,
  ◌==◌, In, if◌then◌else◌, Bool-cases, arith, some, Option-cases,
}
use tordex.Prelude.Map.{Map, get, Distinct, contains_key-get-some}
use tordex.Algorithms.TaskGraph.{
  Task, TaskGraph, targets, is_completed, all_completed, is_ready, ready_from, ready_tasks,
}
use tordex.Algorithms.TaskGraph.Acyclic.{Sound}

In-if : (x j : ℕ) (rest : List ℕ) (b : Bool) → In x rest → In x (if b then j ∷ rest else rest)
In-if x j rest true i = inr i
In-if x j rest false i = i

module _ {F : Type 0} where
  -- All dependencies of the task are completed.
  abbrev pub Unblocked : TaskGraph F → ℕ → Type 0
  Unblocked g id = (d : ℕ) → In d (targets g.dependencies id) → is_completed g d ≡ true

  all_completed-true :
      (g : TaskGraph F) (ds : List ℕ)
      → all_completed g ds ≡ true
      → (d : ℕ) → In d ds
      → is_completed g d ≡ true
  unfolding all_completed
  all_completed-true g [] h d i = absurd i
  all_completed-true g (x ∷ ds) h d (inl e) = subst (λ y. is_completed g y ≡ true) e (ground arith)
  all_completed-true g (x ∷ ds) h d (inr i) = all_completed-true g ds (ground arith) d i

  true-all_completed :
      (g : TaskGraph F) (ds : List ℕ)
      → ((d : ℕ) → In d ds → is_completed g d ≡ true)
      → all_completed g ds ≡ true
  unfolding all_completed
  true-all_completed g [] h = refl
  true-all_completed g (x ∷ ds) h =
      rw (h x (inl refl)) (true-all_completed g ds (λ d i. h d (inr i)))

  -- A list of dependencies that are not all completed has one that is not.
  pub all_completed-false :
      (g : TaskGraph F) (ds : List ℕ)
      → all_completed g ds ≡ false
      → (d : ℕ) × In d ds × (is_completed g d ≡ false)
  unfolding all_completed
  all_completed-false g [] h = absurd (cc)
  all_completed-false g (x ∷ ds) h = elim (Bool-cases (is_completed g x)) [
    | inr left_over ↦ (x, inl refl, left_over)
    | inl done ↦ let r = all_completed-false g ds (ground arith) in (r.0, inr r.1, r.2)
  ]

  pub is_ready-eq :
      (g : TaskGraph F) (id : ℕ) (t : Task F)
      → is_ready g id t ≡ not t.completed && all_completed g (targets g.dependencies id)
  unfolding is_ready targets all_completed
  is_ready-eq g id t = elim (Option-cases (get g.dependencies id)) [
    | inl missing ↦ rw missing refl
    | inr (ds, known) ↦ rw known refl
  ]

  -- A later entry is not hidden by the first one.
  later_entry :
      (g : TaskGraph F) (m : Map ℕ (Task F)) (id j : ℕ) (u : Task F)
      → Distinct ((j, u) ∷ m)
      → (t : Task F) × (get m id ≡ some t) × (is_ready g id t ≡ true)
      → (t : Task F) × (get ((j, u) ∷ m) id ≡ some t) × (is_ready g id t ≡ true)
  unfolding get
  later_entry g m id j u d (t, known, ready) = elim (Bool-cases (j == id)) [
    | inl same ↦
        let is : j ≡ id = (nat_eq.test_iff j id).0 same in
        let there = contains_key-get-some m j t (subst (λ k. get m k ≡ some t) (sym is) known) in
        absurd (cc d.0)
    | inr other ↦ (t, rw other known, ready)
  ]

  pub In-ready_from :
      (g : TaskGraph F) (m : Map ℕ (Task F)) (id : ℕ) (t : Task F)
      → get m id ≡ some t
      → is_ready g id t ≡ true
      → In id (ready_from g m)
  unfolding ready_from get
  In-ready_from g [] id t known ready = absurd (cc)
  In-ready_from g ((j, u) ∷ m) id t known ready = elim (Bool-cases (j == id)) [
    | inl same ↦
        let is : j ≡ id = (nat_eq.test_iff j id).0 same in
        let whole : some u ≡ some t = rw same at known in
        let one : u ≡ t = cc in
        let ready_u : is_ready g j u ≡ true = rw (is, one) ready in rw ready_u (inl is)
    | inr other ↦
        In-if id j (ready_from g m) (is_ready g j u)
          (In-ready_from g m id t (rw other at known) ready)
  ]

  ready_from-In :
      (g : TaskGraph F) (m : Map ℕ (Task F)) (id : ℕ)
      → Distinct m
      → In id (ready_from g m)
      → (t : Task F) × (get m id ≡ some t) × (is_ready g id t ≡ true)
  unfolding ready_from get
  ready_from-In g [] id d i = absurd i
  ready_from-In g ((j, u) ∷ m) id d i = elim (Bool-cases (is_ready g j u)) [
    | inr waits ↦ later_entry g m id j u d (ready_from-In g m id d.1 (rw waits at i))
    | inl ready ↦ elim (rw ready at i) [
      | inr more ↦ later_entry g m id j u d (ready_from-In g m id d.1 more)
      | inl is ↦
          (u, rw ((nat_eq.test_iff j id).1 is) refl, subst (λ k. is_ready g k u ≡ true) is ready)
    ]
  ]

  -- In a sound graph the ready tasks are exactly those that exist, are not completed, and have only
  -- completed dependencies.
  pub ready_tasks-Unblocked :
      (g : TaskGraph F) (id : ℕ)
      → Sound g
      → In id (ready_tasks g)
        ↔ ((t : Task F) × (get g.tasks id ≡ some t) × (t.completed ≡ false) × Unblocked g id)
  unfolding ready_tasks
  ready_tasks-Unblocked g id s = (
    λ i.
        let (t, known, ready) = ready_from-In g g.tasks id s.distinct i in
        let both = sym (is_ready-eq g id t) ∙ ready in
        (t, known, ground (arith, both), all_completed-true g _ (ground (arith, both))),
    λ h. In-ready_from g g.tasks id h.0 h.1 (
        is_ready-eq g id h.0 ∙ rw (h.2, true-all_completed g (targets g.dependencies id) h.3) refl),
  )
