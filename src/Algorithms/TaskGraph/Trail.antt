-- ===== src/Algorithms/TaskGraph/Trail.antt =====
-- Paths along the edges of the task graph of crates/algorithms/src/scheduling.rs.
use tordex.Prelude.{
  ℕ, ◌≡◌, refl, sym, subst, ◌∙◌, ◌⊎◌, inl, inr, List, [], ◌∷◌, ◌++◌, nat_eq, ◌==◌, beq_refl, In,
  if◌then◌else◌, Bool-cases,
}
use tordex.Prelude.Map.{or_default-get-insert}
use tordex.Algorithms.TaskGraph.{Edges, targets, add_edge, ensure}

-- Any number of edges, one after the other.
pub data Trail (m : Edges) : ℕ → ℕ → Type 0 where
  here : {a : ℕ} → Trail m a a
  edge : {a b c : ℕ} → In b (targets m a) → Trail m b c → Trail m a c

pub Trail-trans : (m : Edges) {a b c : ℕ} → Trail m a b → Trail m b c → Trail m a c
Trail-trans m here q = q
Trail-trans m (edge e p) q = edge e (Trail-trans m p q)

-- No edge leads back to where it starts.
abbrev pub Acyclic : Edges → Type 0
Acyclic m = (a b : ℕ) → In b (targets m a) → Trail m b a → ⊥

pub targets-add_edge :
    (m : Edges) (from to a : ℕ)
    → targets (add_edge m from to) a ≡ (if from == a then targets m a ++ to ∷ [] else targets m a)
unfolding targets add_edge
targets-add_edge m from to a = or_default-get-insert m from a _ ∙ elim (Bool-cases (from == a)) [
  | inl same ↦ let is : from ≡ a = (nat_eq.test_iff from a).0 same in rw (same, is)
  | inr other ↦ rw other
]

pub targets-ensure : (m : Edges) (id a : ℕ) → targets (ensure m id) a ≡ targets m a
unfolding targets ensure
targets-ensure m id a = or_default-get-insert m id a _ ∙ elim (Bool-cases (id == a)) [
  | inl same ↦ let is : id ≡ a = (nat_eq.test_iff id a).0 same in rw (same, is)
  | inr other ↦ rw other
]

In-append : {A : Type 0} (x : A) (xs ys : List A) → In x (xs ++ ys) → In x xs ⊎ In x ys
In-append x [] ys h = inr h
In-append x (z ∷ xs) ys (inl e) = inl (inl e)
In-append x (z ∷ xs) ys (inr h) = elim (In-append x xs ys h) [ inl l ↦ inl (inr l) | inr r ↦ inr r ]

-- An edge of the larger graph is an old one or the new one.
pub edge_cases :
    (m : Edges) (from to a b : ℕ)
    → In b (targets (add_edge m from to) a)
    → In b (targets m a) ⊎ ((a ≡ from) × (b ≡ to))
edge_cases m from to a b h = elim (Bool-cases (from == a)) [
  | inl same ↦
      let is : from ≡ a = (nat_eq.test_iff from a).0 same in
      let there : targets (add_edge m from to) a ≡ targets m a ++ to ∷ [] =
        targets-add_edge m from to a ∙ rw same refl in
      elim (In-append b (targets m a) (to ∷ []) (subst (In b) there h)) [
        | inl old ↦ inl old
        | inr (inl e) ↦ inr (sym is, sym e)
        | inr (inr nothing) ↦ absurd nothing
      ]
  | inr other ↦
      let there : targets (add_edge m from to) a ≡ targets m a =
        targets-add_edge m from to a ∙ rw other refl in
      inl (subst (In b) there h)
]

-- A path of the larger graph is an old one, or it goes through the new edge.
Trail-add_edge :
    (m : Edges) (from to : ℕ) {a b : ℕ}
    → Trail (add_edge m from to) a b
    → Trail m a b ⊎ (Trail m a from × Trail m to b)
Trail-add_edge m from to here = inl here
Trail-add_edge m from to {a} {b} (edge {b = c} e p) =
    let rest = Trail-add_edge m from to p in
    elim (edge_cases m from to a c e) [
      | inl old ↦ elim rest [ inl q ↦ inl (edge old q) | inr (q, r) ↦ inr (edge old q, r) ]
      | inr (start, end) ↦
          let there : Trail m a from = subst (Trail m a) start here in
          elim rest [
            | inl q ↦ inr (there, subst (λ x. Trail m x b) end q)
            | inr (q, r) ↦ inr (there, r)
          ]
    ]

-- An edge whose end does not lead to its start closes no cycle.
pub add_edge-Acyclic :
    (m : Edges) (from to : ℕ) → Acyclic m → (Trail m to from → ⊥) → Acyclic (add_edge m from to)
add_edge-Acyclic m from to acyclic apart a b e p =
    let rest = Trail-add_edge m from to p in
    elim (edge_cases m from to a b e) [
      | inl old ↦ elim rest [
        | inl q ↦ acyclic a b old q
        | inr (q, r) ↦ apart (Trail-trans m r (edge old q))
      ]
      | inr (start, end) ↦ elim rest [
        | inl q ↦ apart (subst (λ x. Trail m x from) end (subst (Trail m b) start q))
        | inr (q, r) ↦ apart (subst (λ x. Trail m x from) end q)
      ]
    ]

In-append_left : {A : Type 0} (x : A) (xs ys : List A) → In x xs → In x (xs ++ ys)
In-append_left x (z ∷ xs) ys (inl e) = inl e
In-append_left x (z ∷ xs) ys (inr h) = inr (In-append_left x xs ys h)
In-append_left x [] ys h = absurd h

In-append_last : {A : Type 0} (x : A) (xs : List A) → In x (xs ++ x ∷ [])
In-append_last x [] = inl refl
In-append_last x (z ∷ xs) = inr (In-append_last x xs)

-- The old edges and the new one are edges of the larger graph.
pub old_edge :
    (m : Edges) (from to a b : ℕ) → In b (targets m a) → In b (targets (add_edge m from to) a)
old_edge m from to a b h = rw (targets-add_edge m from to a) (elim (Bool-cases (from == a)) [
  | inl same ↦ rw same (In-append_left b (targets m a) (to ∷ []) h)
  | inr other ↦ rw other h
])

pub new_edge : (m : Edges) (from to : ℕ) → In to (targets (add_edge m from to) from)
new_edge m from to =
    rw (targets-add_edge m from to from, beq_refl from) (In-append_last to (targets m from))

-- More edges keep the paths.
Trail-mono :
    (m m' : Edges)
    → ((a b : ℕ) → In b (targets m a) → In b (targets m' a))
    → {a b : ℕ} → Trail m a b
    → Trail m' a b
Trail-mono m m' h here = here
Trail-mono m m' h {a} (edge {b = c} e p) = edge (h a c e) (Trail-mono m m' h p)

pub ensure-Acyclic : (m : Edges) (id : ℕ) → Acyclic m → Acyclic (ensure m id)
ensure-Acyclic m id acyclic a b e p =
    let less =
      λ (x y : ℕ) (i : In y (targets (ensure m id) x)). subst (In y) (targets-ensure m id x) i in
    acyclic a b (less a b e) (Trail-mono (ensure m id) m less p)

-- The other way round: an edge whose end leads to its start closes a cycle.
pub Acyclic-add_edge :
    (m : Edges) (from to : ℕ) → Trail m to from → Acyclic (add_edge m from to) → ⊥
Acyclic-add_edge m from to p acyclic =
    acyclic from to (new_edge m from to) (Trail-mono m (add_edge m from to) (old_edge m from to) p)
