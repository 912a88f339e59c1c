-- ===== src/Algorithms/WorkStealing/Steal.antt =====
-- The loop of `try_execute_next` in crates/algorithms/src/scheduling.rs.
use native.Mathlib.Nat.{mod-lt, mod-eq_of_lt, add-mod_right}
use tordex.Prelude.{
  ℕ, zero, suc, ◌+◌, ◌-◌, ◌%◌, ◌≤◌, ◌<◌, ◌≡◌, ◌≢◌, refl, sym, subst, ◌∙◌, Option, some, none, List,
  [], ◌∷◌, ◌++◌, length, set, ltb, ltb→lt, ltb→le, nat_beq, arith, Bool-cases, inl, inr,
  nat_beq_iff,
}
use tordex.Prelude.Vec.{take-append_last}
use tordex.Algorithms.WorkStealing.{queue_at, pop_back, steal_from, steal}

-- The rounds of a worker reach every other queue.
round_of :
    (n worker t : ℕ)
    → worker < n
    → t < n
    → t ≢ worker
    → (j : ℕ) × (1 ≤ j) × (j < n) × ((worker + j) % n ≡ t)
round_of n worker t hw ht away = elim (Bool-cases (ltb worker t)) [
  | inl above ↦
      let up = ltb→lt worker t above in
      let at : worker + (t - worker) ≡ t = omega arith in
      (t - worker, omega arith, omega arith, rw at (mod-eq_of_lt ht))
  | inr below ↦
      let down = ltb→le worker t below in
      let apart : t < worker = ground arith in
      let at : worker + (t + n - worker) ≡ t + n = omega arith in
      (t + n - worker, omega arith, omega arith, rw at (add-mod_right t n ∙ mod-eq_of_lt ht))
]

module _ {A : Type 0} where
  -- What is popped at the back is the last element.
  abbrev BackOf : List A → Option (A × List A) → Type 0
  BackOf xs none = xs ≡ []
  BackOf xs (some (x, q)) = xs ≡ q ++ x ∷ []

  pop_back-BackOf : (xs : List A) → BackOf xs (pop_back xs)
  unfolding pop_back
  pop_back-BackOf [] = refl
  pop_back-BackOf (x ∷ xs) =
      let n = length xs in
      let size : length (x ∷ xs) - 1 ≡ n = omega arith in
      rw size (sym (take-append_last x n (x ∷ xs) refl))

  -- What the loop from round `i` on answers.
  abbrev pub Steals : List (List A) → ℕ → ℕ → ℕ → Option (A × List (List A)) → Type 0
  Steals queues worker rounds i none =
      (j : ℕ)
      → i ≤ j
      → j < i + rounds
      → (worker + j) % length queues ≢ worker
      → queue_at queues ((worker + j) % length queues) ≡ []
  Steals queues worker rounds i (some (task, queues')) =
      (t : ℕ) × (q : List A) × (t ≢ worker)
      × (t < length queues)
      × (queue_at queues t ≡ q ++ task ∷ [])
      × (queues' ≡ set queues t q)

  abbrev Found : List (List A) → ℕ → ℕ → Option (A × List A) → Type 0
  Found queues worker t none = t ≢ worker → queue_at queues t ≡ []
  Found queues worker t (some (x, q)) = (t ≢ worker) × (queue_at queues t ≡ q ++ x ∷ [])

  steal_from-Found :
      (queues : List (List A)) (worker t : ℕ) → Found queues worker t (steal_from queues worker t)
  unfolding steal_from
  steal_from-Found queues worker t = elim (Bool-cases (nat_beq t worker)) [
    | inl same ↦ rw same (λ h. absurd (h ((nat_beq_iff t worker).0 same)))
    | inr other ↦ rw other (
        back (λ same. cc ((nat_beq_iff t worker).1 same)) (pop_back (queue_at queues t))
          (pop_back-BackOf (queue_at queues t)))
  ]
    where
      back :
          t ≢ worker
          → (o : Option (A × List A)) → BackOf (queue_at queues t) o
          → Found queues worker t o
      back away none e = λ _. e
      back away (some (x, q)) e = (away, e)

  pub steal-Steals :
      (queues : List (List A)) (worker rounds i : ℕ)
      → 0 < length queues
      → Steals queues worker rounds i (steal queues worker rounds i)
  unfolding steal
  steal-Steals queues worker zero i pos = λ j a b. absurd (omega arith)
  steal-Steals queues worker (suc rounds) i pos =
      round (steal_from queues worker t) (steal_from-Found queues worker t)
        (steal queues worker rounds (i + 1)) (steal-Steals queues worker rounds (i + 1) pos)
    where
      t : ℕ
      t = (worker + i) % length queues

      round :
          (o : Option (A × List A))
          → Found queues worker t o
          → (rest : Option (A × List (List A))) → Steals queues worker rounds (i + 1) rest
          → Steals queues worker
              (suc rounds)
              i
              (elim o [ none ↦ rest | some (task, queue) ↦ some (task, set queues t queue) ])
      round none h none later = λ j low high away. elim (Bool-cases (nat_beq i j)) [
        | inl same ↦
            let is : i ≡ j = (nat_beq_iff i j).0 same in
            subst
              (λ k.
                (worker + k) % length queues ≢ worker
                → queue_at queues ((worker + k) % length queues) ≡ [])
              is h away
        | inr other ↦ later j (ground arith) (omega arith) away
      ]
      round none h (some (task, queues')) later = later
      round (some (task, q)) h rest later = (t, q, h.0, mod-lt (worker + i) pos, h.1, refl)

  -- When the whole loop finds nothing, all other queues are empty.
  pub Steals-none :
      (queues : List (List A)) (worker t : ℕ)
      → Steals queues worker (length queues - 1) 1 none
      → worker < length queues
      → t < length queues
      → t ≢ worker
      → queue_at queues t ≡ []
  Steals-none queues worker t h hw ht away =
      let (j, low, high, at) = round_of (length queues) worker t hw ht away in
      rw at at (h j low (omega arith) (λ e. away (sym at ∙ e)))
