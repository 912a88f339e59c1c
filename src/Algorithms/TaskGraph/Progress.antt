-- ===== src/Algorithms/TaskGraph/Progress.antt =====
-- Why a task of crates/algorithms/src/scheduling.rs that is left can always be worked towards.
use tordex.Prelude.{
  ℕ, zero, suc, ◌<◌, ◌≤◌, ◌≡◌, ◌≢◌, refl, sym, subst, ◌∙◌, inl, inr, true, false, List, [], ◌∷◌,
  nat_eq, ◌==◌, nat_beq, nat_beq_iff, In, if◌then◌else◌, Bool-cases, arith, length, some,
  Option-cases,
}
use tordex.Prelude.Map.{Map, get}
use tordex.Algorithms.TaskGraph.{Task, TaskGraph, targets, is_completed, all_completed, ready_tasks}
use tordex.Algorithms.TaskGraph.Trail.{Trail, here, edge, Trail-trans}
use tordex.Algorithms.TaskGraph.Acyclic.{Sound}
use tordex.Algorithms.TaskGraph.Ready.{all_completed-false, is_ready-eq, In-ready_from}

-- `remove` on a list of numbers.
without : ℕ → List ℕ → List ℕ
without x [] = []
without x (y ∷ ys) = if nat_beq y x then without x ys else y ∷ without x ys

In-without : (x y : ℕ) (ys : List ℕ) → In y ys → y ≢ x → In y (without x ys)
unfolding without
In-without x y [] i away = i
In-without x y (z ∷ ys) (inl e) away = elim (Bool-cases (nat_beq z x)) [
  | inl same ↦ absurd (away (sym e ∙ (nat_beq_iff z x).0 same))
  | inr other ↦ rw other (inl e)
]
In-without x y (z ∷ ys) (inr i) away = elim (Bool-cases (nat_beq z x)) [
  | inl same ↦ rw same (In-without x y ys i away)
  | inr other ↦ rw other (inr (In-without x y ys i away))
]

length-without_le : (x : ℕ) (ys : List ℕ) → length (without x ys) ≤ length ys
unfolding without
length-without_le x [] = omega arith
length-without_le x (y ∷ ys) = ground (arith, length-without_le x ys)

length-without : (x : ℕ) (ys : List ℕ) → In x ys → length (without x ys) < length ys
unfolding without
length-without x [] i = absurd i
length-without x (y ∷ ys) (inl e) =
    rw ((nat_beq_iff y x).1 e) (omega (arith, length-without_le x ys))
length-without x (y ∷ ys) (inr i) = ground (arith, length-without x ys i)

keys {ℓ} : {V : Type ℓ} → Map ℕ V → List ℕ
keys [] = []
keys ((k, v) ∷ m) = k ∷ keys m

get-keys {ℓ} : {V : Type ℓ} (m : Map ℕ V) (k : ℕ) (v : V) → get m k ≡ some v → In k (keys m)
unfolding get keys
get-keys [] k v h = absurd (cc)
get-keys ((j, w) ∷ m) k v h = elim (Bool-cases (j == k)) [
  | inl same ↦ inl ((nat_eq.test_iff j k).0 same)
  | inr other ↦ inr (get-keys m k v (rw other at h))
]

module _ {F : Type 0} (g : TaskGraph F) (s : Sound g) where
  abbrev Left : ℕ → Type 0
  Left x = (t : Task F) × (get g.tasks x ≡ some t) × (t.completed ≡ false)

  is_completed-Left : (x : ℕ) → is_completed g x ≡ false → Left x
  unfolding is_completed
  is_completed-Left x h = elim (Option-cases (get g.tasks x)) [
    | inl missing ↦ absurd (let wrong : true ≡ false = rw (missing, is_completed) at h in cc)
    | inr (t, known) ↦ (t, known, rw (known, is_completed) at h)
  ]

  -- `l` holds all tasks that are left and lead to `x`.
  search_back :
      (k : ℕ) (l : List ℕ) (x : ℕ)
      → length l ≤ k
      → ((y : ℕ) → Left y → Trail g.dependents y x → In y l)
      → Left x
      → (r : ℕ) × In r (ready_tasks g) × Trail g.dependents r x
  unfolding ready_tasks
  search_back zero l x small holds left =
      absurd (omega (arith, length-without x l (holds x left here)))
  search_back (suc k) l x small holds (t, known, left_over) =
      elim (Bool-cases (all_completed g (targets g.dependencies x))) [
        | inl free ↦ (
          x,
          In-ready_from g g.tasks x t known (is_ready-eq g x t ∙ rw (left_over, free) refl),
          here,
        )
        | inr blocked ↦
            let (d, i, undone) = all_completed-false g _ blocked in
            let forward : In x (targets g.dependents d) = (s.mirrored x d).0 i in
            let back =
              search_back k (without x l) d
                (omega (arith, length-without x l (holds x (t, known, left_over) here)))
                (λ y left p.
                  In-without x y l (holds y left (Trail-trans g.dependents p (edge forward here)))
                    (λ e. s.acyclic d x forward (subst (λ z. Trail g.dependents z d) e p)))
                (is_completed-Left d undone) in
            (back.0, back.1, Trail-trans g.dependents back.2 (edge forward here))
      ]

  -- In a sound graph, every task that is not completed depends, directly, through others or as
  -- itself, on some task that is ready: so as long as a task is left, one can be run.
  pub ready_tasks-In :
      (x : ℕ) (t : Task F)
      → get g.tasks x ≡ some t
      → t.completed ≡ false
      → (r : ℕ) × In r (ready_tasks g) × Trail g.dependents r x
  ready_tasks-In x t known left_over =
      search_back (length (keys g.tasks)) (keys g.tasks) x (omega arith)
        (λ y left p. get-keys g.tasks y left.0 left.1) (t, known, left_over)
