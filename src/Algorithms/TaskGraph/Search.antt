-- ===== src/Algorithms/TaskGraph/Search.antt =====
-- The search of `creates_cycle` in crates/algorithms/src/scheduling.rs.
use tordex.Prelude.{
  ℕ, zero, suc, ◌+◌, ◌≤◌, ◌<◌, ◌≡◌, ◌≢◌, refl, sym, ap, subst, ◌∙◌, ◌⊎◌, inl, inr, Bool, true,
  false, List, [], ◌∷◌, nat_eq, ◌==◌, In, length, Bool-cases, arith, beq_refl,
}
use tordex.Prelude.Map.{get, insert, contains_key, contains_key-insert}
use tordex.Prelude.Outcome.{Returns, Returns-map}
use tordex.Algorithms.TaskGraph.{
  Edges, Visited, targets, push_all, weight, search, cycle_fuel, creates_cycle,
}
use tordex.Algorithms.TaskGraph.Trail.{Trail, here, edge}

length-push_all : (ds stack : List ℕ) → length (push_all ds stack) ≡ length ds + length stack
unfolding push_all
length-push_all [] stack = omega arith
length-push_all (d ∷ ds) stack = omega (arith, length-push_all ds (d ∷ stack))

In-push_all_stack : (x : ℕ) (ds stack : List ℕ) → In x stack → In x (push_all ds stack)
unfolding push_all
In-push_all_stack x [] stack h = h
In-push_all_stack x (d ∷ ds) stack h = In-push_all_stack x ds (d ∷ stack) (inr h)

In-push_all : (x : ℕ) (ds stack : List ℕ) → In x ds → In x (push_all ds stack)
unfolding push_all
In-push_all x [] stack h = absurd h
In-push_all x (d ∷ ds) stack (inl e) = In-push_all_stack x ds (d ∷ stack) (inl e)
In-push_all x (d ∷ ds) stack (inr h) = In-push_all x ds (d ∷ stack) h

push_all-In : (x : ℕ) (ds stack : List ℕ) → In x (push_all ds stack) → In x ds ⊎ In x stack
unfolding push_all
push_all-In x [] stack h = inr h
push_all-In x (d ∷ ds) stack h = elim (push_all-In x ds (d ∷ stack) h) [
  | inl more ↦ inl (inr more)
  | inr (inl e) ↦ inl (inl e)
  | inr (inr old) ↦ inr old
]

-- A visit takes the node's edges off the weight.
weight-insert_le :
    (m : Edges) (visited : Visited) (node : ℕ)
    → weight m (insert visited node tt) ≤ weight m visited
unfolding weight
weight-insert_le [] visited node = omega arith
weight-insert_le ((k, ts) ∷ m) visited node =
    ground (arith, weight-insert_le m visited node, contains_key-insert visited node k tt)

weight-insert :
    (m : Edges) (visited : Visited) (node : ℕ)
    → contains_key visited node ≡ false
    → weight m (insert visited node tt) + length (targets m node) ≤ weight m visited
unfolding weight targets get
weight-insert [] visited node fresh = omega arith
weight-insert ((k, ts) ∷ m) visited node fresh = elim (Bool-cases (k == node)) [
  | inl same ↦
      let is : k ≡ node = (nat_eq.test_iff k node).0 same in
      let fresh_k : contains_key visited k ≡ false = ap (contains_key visited) is ∙ fresh in
      let back : (node == k) ≡ true = (nat_eq.test_iff node k).1 (sym is) in
      rw (same, contains_key-insert visited node k tt, back, fresh_k)
        (omega (arith, weight-insert_le m visited node))
  | inr other ↦
      let back : (node == k) ≡ false = ground (arith) in
      rw (other, contains_key-insert visited node k tt, back)
        (omega (arith, weight-insert m visited node fresh))
]

-- Each visited node has its targets visited or on the stack, and none is the one that is sought.
record Explored (m : Edges) (to : ℕ) (visited : Visited) (stack : List ℕ) : Type 0 where
  followed :
      (x y : ℕ)
      → contains_key visited x ≡ true
      → In y (targets m x)
      → (contains_key visited y ≡ true) ⊎ In y stack
  elsewhere : (x : ℕ) → contains_key visited x ≡ true → x ≢ to

-- A set of nodes that no edge leaves, with the nodes visited and those on the stack.
record Closed (m : Edges) (to : ℕ) (visited : Visited) (stack : List ℕ) (v : Visited) : Type 0 where
  holds_visited : (x : ℕ) → contains_key visited x ≡ true → contains_key v x ≡ true
  holds_stack : (x : ℕ) → In x stack → contains_key v x ≡ true
  closed : (x y : ℕ) → contains_key v x ≡ true → In y (targets m x) → contains_key v y ≡ true
  avoids : (x : ℕ) → contains_key v x ≡ true → x ≢ to

abbrev Verdict : Edges → ℕ → Visited → List ℕ → Bool → Type 0
Verdict m to visited stack true = (x : ℕ) × In x stack × Trail m x to
Verdict m to visited stack false = (v : Visited) × Closed m to visited stack v

contains_key-insert_self :
    (visited : Visited) (node : ℕ) → contains_key (insert visited node tt) node ≡ true
contains_key-insert_self visited node =
    contains_key-insert visited node node tt ∙ rw (beq_refl node) refl

contains_key-insert_old :
    (visited : Visited) (node x : ℕ)
    → contains_key visited x ≡ true
    → contains_key (insert visited node tt) x ≡ true
contains_key-insert_old visited node x h = ground (arith, contains_key-insert visited node x tt)

-- The node on top was visited before, and is skipped.
skipped-Explored :
    (m : Edges) (to : ℕ) (visited : Visited) (node : ℕ) (stack : List ℕ)
    → contains_key visited node ≡ true
    → Explored m to visited (node ∷ stack)
    → Explored m to visited stack
skipped-Explored m to visited node stack seen h = record {
  followed = λ x y vx e. elim (h.followed x y vx e) [
    | inl old ↦ inl old
    | inr (inl top) ↦ inl (subst (λ z. contains_key visited z ≡ true) top seen)
    | inr (inr rest) ↦ inr rest
  ];
  elsewhere = h.elsewhere;
}

skipped-Verdict :
    (m : Edges) (to : ℕ) (visited : Visited) (node : ℕ) (stack : List ℕ) (b : Bool)
    → contains_key visited node ≡ true
    → Verdict m to visited stack b
    → Verdict m to visited (node ∷ stack) b
skipped-Verdict m to visited node stack true seen h = (h.0, inr h.1, h.2)
skipped-Verdict m to visited node stack false seen (v, c) = (
  v,
  record {
    holds_visited = c.holds_visited;
    holds_stack = λ x i. elim i [
      | inl top ↦ subst (λ z. contains_key v z ≡ true) top (c.holds_visited node seen)
      | inr rest ↦ c.holds_stack x rest
    ];
    closed = c.closed;
    avoids = c.avoids;
  },
)

-- The node on top is visited, and its targets are pushed.
module _ (m : Edges) (to : ℕ) (visited : Visited) (node : ℕ) (stack : List ℕ) where
  visited' : Visited
  visited' = insert visited node tt

  stack' : List ℕ
  stack' = push_all (targets m node) stack

  visit-Explored : node ≢ to → Explored m to visited (node ∷ stack) → Explored m to visited' stack'
  unfolding visited' stack'
  visit-Explored other h = record {
    followed = λ x y vx e. elim (Bool-cases (node == x)) [
      | inl same ↦
          let is : x ≡ node = sym ((nat_eq.test_iff node x).0 same) in
          inr (In-push_all y (targets m node) stack (subst (λ z. In y (targets m z)) is e))
      | inr away ↦
          let old : contains_key visited x ≡ true =
            ground (arith, contains_key-insert visited node x tt) in
          elim (h.followed x y old e) [
            | inl seen ↦ inl (contains_key-insert_old visited node y seen)
            | inr (inl top) ↦ inl (
                subst (λ z. contains_key (insert visited node tt) z ≡ true) top
                  (contains_key-insert_self visited node))
            | inr (inr rest) ↦ inr (In-push_all_stack y (targets m node) stack rest)
          ]
    ];
    elsewhere = λ x vx. elim (Bool-cases (node == x)) [
      | inl same ↦ λ e. other ((nat_eq.test_iff node x).0 same ∙ e)
      | inr away ↦ h.elsewhere x (ground (arith, contains_key-insert visited node x tt))
    ];
  }

  visit-Verdict :
      (b : Bool) → Verdict m to visited' stack' b → Verdict m to visited (node ∷ stack) b
  unfolding visited' stack'
  visit-Verdict true (x, i, p) = elim (push_all-In x (targets m node) stack i) [
    | inl next ↦ (node, inl refl, edge next p)
    | inr rest ↦ (x, inr rest, p)
  ]
  visit-Verdict false (v, c) = (
    v,
    record {
      holds_visited = λ x seen. c.holds_visited x (contains_key-insert_old visited node x seen);
      holds_stack = λ x i. elim i [
        | inl top ↦
            subst (λ z. contains_key v z ≡ true) top
              (c.holds_visited node (contains_key-insert_self visited node))
        | inr rest ↦ c.holds_stack x (In-push_all_stack x (targets m node) stack rest)
      ];
      closed = c.closed;
      avoids = c.avoids;
    },
  )

  visit_measure :
      contains_key visited node ≡ false
      → length stack' + weight m visited' ≤ length stack + weight m visited
  unfolding visited' stack'
  visit_measure fresh =
      omega (arith, length-push_all (targets m node) stack, weight-insert m visited node fresh)

search-Verdict :
    (m : Edges) (to fuel : ℕ) (visited : Visited) (stack : List ℕ)
    → length stack + weight m visited < fuel
    → Explored m to visited stack
    → Returns (Verdict m to visited stack) (search m to fuel visited stack)
unfolding search visited' stack'
search-Verdict m to zero visited stack small h = absurd (omega arith)
search-Verdict m to (suc fuel) visited [] small h = (
  visited,
  record {
    holds_visited = λ x seen. seen;
    holds_stack = λ x i. absurd i;
    closed = λ x y vx e. elim (h.followed x y vx e) [ inl seen ↦ seen | inr i ↦ absurd i ];
    avoids = h.elsewhere;
  },
)
search-Verdict m to (suc fuel) visited (node ∷ stack) small h = elim (Bool-cases (node == to)) [
  | inl hit ↦ rw hit (node, inl refl, subst (Trail m node) ((nat_eq.test_iff node to).0 hit) here)
  | inr miss ↦ elim (Bool-cases (contains_key visited node)) [
    | inl seen ↦
        rw (miss, seen)
          (Returns-map (Verdict m to visited stack) _ _
            (search-Verdict m to fuel visited stack (omega arith)
              (skipped-Explored m to visited node stack seen h))
            (λ b. skipped-Verdict m to visited node stack b seen))
    | inr fresh ↦
        rw (miss, fresh)
          (Returns-map
            (Verdict m to (visited' m to visited node stack) (stack' m to visited node stack)) _ _
            (search-Verdict m to fuel (visited' m to visited node stack)
              (stack' m to visited node stack)
              (omega (arith, visit_measure m to visited node stack fresh))
              (visit-Explored m to visited node stack (λ e. cc ((nat_eq.test_iff node to).1 e)) h))
            (visit-Verdict m to visited node stack))
  ]
]

closed-Trail :
    (m : Edges) (v : Visited)
    → ((x y : ℕ) → contains_key v x ≡ true → In y (targets m x) → contains_key v y ≡ true)
    → {a b : ℕ} → Trail m a b
    → contains_key v a ≡ true
    → contains_key v b ≡ true
closed-Trail m v h here va = va
closed-Trail m v h {a} (edge {b = c} e p) va = closed-Trail m v h p (h a c va e)

-- The answer to whether one node leads to another.
abbrev pub Leads : Edges → ℕ → ℕ → Bool → Type 0
Leads m a b true = Trail m a b
Leads m a b false = Trail m a b → ⊥

Verdict-Leads :
    (m : Edges) (from to : ℕ) (b : Bool) → Verdict m to [] (from ∷ []) b → Leads m from to b
Verdict-Leads m from to true (x, i, p) = elim i [
  | inl e ↦ subst (λ z. Trail m z to) (sym e) p
  | inr nothing ↦ absurd nothing
]
Verdict-Leads m from to false (v, c) =
    λ p. c.avoids to (closed-Trail m v c.closed p (c.holds_stack from (inl refl))) refl

-- The search ends, on every graph and with the fuel that it is given, and it answers yes exactly if
-- a path of dependents leads from the first task to the second.
pub creates_cycle-Leads :
    (m : Edges) (from to : ℕ) → Returns (Leads m from to) (creates_cycle m from to)
unfolding creates_cycle cycle_fuel contains_key
creates_cycle-Leads m from to =
    Returns-map (Verdict m to [] (from ∷ [])) _ _
      (search-Verdict m to (weight m [] + 2) [] (from ∷ []) (omega arith)
        (record { followed = λ x y vx e. absurd (cc); elsewhere = λ x vx. absurd (cc) }))
      (Verdict-Leads m from to)
