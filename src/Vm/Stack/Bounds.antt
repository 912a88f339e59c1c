-- ===== src/Vm/Stack/Bounds.antt =====
-- About the depth of the stack, crates/vm/src/stack.rs.
use tordex.Prelude.{
  ℕ, ◌<◌, ◌≤◌, ◌-◌, ◌≡◌, Option, some, none, List, [], ◌∷◌, if◌then◌else◌, leb, ltb, arith, length,
  get_elem?, set, length-append, length-take, length-set, Result, ok, err, Bool-cases, inl, inr,
}
use tordex.Prelude.Outcome.{returned, index, ◌>>=◌, Returns, Returns-bind}
use tordex.Prelude.Vec.{swap}
use tordex.Vm.Stack.{InferenceStack, StackError, push, popped, pop, peek, push_top, dup, swap_top}
use tordex.Vm.Stack.Laws.{index-Returns}

-- The stack is no deeper than it may be.
abbrev pub Bounded : {A : Type 0} → InferenceStack A → Type 0
Bounded s = length s.inner ≤ s.max_depth

abbrev pub BoundedResult : {A : Type 0} → Result (InferenceStack A) StackError → Type 0
BoundedResult (ok t) = Bounded t
BoundedResult (err e) = Unit

abbrev pub BoundedPop : {A : Type 0} → Result (A × InferenceStack A) StackError → Type 0
BoundedPop (ok (v, t)) = Bounded t
BoundedPop (err e) = Unit

module _ {A : Type 0} where
  pub push-BoundedResult : (s : InferenceStack A) (x : A) → BoundedResult (push s x)
  unfolding push
  push-BoundedResult s x = elim (Bool-cases (leb s.max_depth (length s.inner))) [
    | inl full ↦ rw full tt
    | inr free ↦ rw free (ground (arith, length-append s.inner (x ∷ [])))
  ]

  popped-BoundedPop : (s : InferenceStack A) (o : Option A) → Bounded s → BoundedPop (popped s o)
  unfolding popped
  popped-BoundedPop s none h = tt
  popped-BoundedPop s (some v) h = ground (arith, length-take (length s.inner - 1) s.inner)

  pub pop-BoundedPop : (s : InferenceStack A) → Bounded s → BoundedPop (pop s)
  unfolding pop
  pop-BoundedPop s h =
      popped-BoundedPop s
        (if leb (length s.inner) 0 then none else get_elem? s.inner (length s.inner - 1)) h

  push_top-BoundedResult :
      (s : InferenceStack A) (r : Result A StackError) → BoundedResult (push_top s r)
  unfolding push_top
  push_top-BoundedResult s (ok x) = push-BoundedResult s x
  push_top-BoundedResult s (err e) = tt

  peek-Returns : (s : InferenceStack A) → Returns {0, 0} (λ r. Unit) (peek s 0)
  unfolding peek
  peek-Returns s = elim (Bool-cases (leb (length s.inner) 0)) [
    | inl e ↦ rw e tt
    | inr e ↦ rw e (
        Returns-bind {0, 0, 0, 0} (λ x. Unit) (λ x. Unit) (index s.inner (length s.inner - 1 - 0))
          (λ v. returned (ok v)) (index-Returns s.inner (length s.inner - 1 - 0) (ground arith))
          (λ v u. tt))
  ]

  pub dup-BoundedResult : (s : InferenceStack A) → Returns BoundedResult (dup s)
  unfolding dup
  dup-BoundedResult s =
      Returns-bind {0, 0, 0, 0} (λ r. Unit) BoundedResult (peek s 0)
        (λ top. returned (push_top s top)) (peek-Returns s) (λ r u. push_top-BoundedResult s r)

  swap-length :
      (xs : List A) (i j : ℕ)
      → i < length xs
      → j < length xs
      → Returns {0, 0} (λ ys. length ys ≡ length xs) (swap xs i j)
  unfolding swap
  swap-length xs i j hi hj =
      Returns-bind {0, 0, 0, 0} (λ x. Unit) (λ ys. length ys ≡ length xs) (index xs i)
        (λ x. index xs j >>= λ y. returned (set (set xs i y) j x)) (index-Returns xs i hi)
        (λ x u.
          Returns-bind {0, 0, 0, 0} (λ y. Unit) (λ ys. length ys ≡ length xs) (index xs j)
            (λ y. returned (set (set xs i y) j x)) (index-Returns xs j hj) (λ y w. simp length-set))

  pub swap_top-BoundedResult :
      (s : InferenceStack A) → Bounded s → Returns BoundedResult (swap_top s)
  unfolding swap_top
  swap_top-BoundedResult s h = elim (Bool-cases (ltb (length s.inner) 2)) [
    | inl e ↦ rw e tt
    | inr e ↦ rw e (
        Returns-bind {0, 0, 0, 0} (λ ys. length ys ≡ length s.inner) BoundedResult
          (swap s.inner (length s.inner - 1) (length s.inner - 2))
          (λ v. returned (ok (record s { inner = v })))
          (swap-length s.inner (length s.inner - 1) (length s.inner - 2) (ground arith)
            (ground arith))
          (λ v same. omega arith))
  ]
