-- ===== src/Vm/Stack/Laws.antt =====
-- About the operations of the stack, crates/vm/src/stack.rs.
use tordex.Prelude.{
  ℕ, ◌<◌, ◌≤◌, ◌-◌, ◌≡◌, refl, ap, some, List, [], ◌∷◌, ◌++◌, leb, ltb, arith, length, get_elem?,
  take, set, zero, suc, length-append, Result, ok, err, Bool-cases, inl, inr,
}
use tordex.Prelude.Outcome.{Outcome, returned, index, ◌>>=◌, Returns, Returns-bind}
use tordex.Prelude.Vec.{swap}
use tordex.Vm.Stack.{
  InferenceStack, StackError, overflow, push, popped, pop, peek, push_top, dup, swap_top,
}

pub last_of : {A : Type 0} (xs : List A) (x : A) → get_elem? (xs ++ x ∷ []) (length xs) ≡ some x
last_of [] x = refl
last_of (y ∷ xs) x = last_of xs x

take-all : {A : Type 0} (xs ys : List A) → take (length xs) (xs ++ ys) ≡ xs
take-all [] ys = refl
take-all (x ∷ xs) ys = ap (λ zs. x ∷ zs) (take-all xs ys)

-- What a push gives: the stack was full, or it was not and a pop gives back the value and the stack.
abbrev pub PushSound :
    {A : Type 0} → InferenceStack A → A → Result (InferenceStack A) StackError → Type 0
PushSound s x (ok t) =
    (length s.inner < s.max_depth) × (pop t ≡ ok (x, s)) × (length t.inner ≤ t.max_depth)
PushSound s x (err e) = (s.max_depth ≤ length s.inner) × (e ≡ overflow s.max_depth)

-- A push succeeds exactly on a stack that is not full; then a pop gives back the value and the stack
-- of before, and the depth is within its bound. On a full stack it reports the bound.
pub push-Sound : {A : Type 0} (s : InferenceStack A) (x : A) → PushSound s x (push s x)
unfolding push pop popped
push-Sound s x = elim (Bool-cases (leb s.max_depth (length s.inner))) [
  | inl full ↦ rw full (ground arith, refl)
  | inr free ↦
      let size = length-append s.inner (x ∷ []) in
      rw free (
        ground arith,
        ground (arith, size, last_of s.inner x, take-all s.inner (x ∷ [])),
        ground (arith, size),
      )
]

pub index-Returns :
    {A : Type 0} (xs : List A) (i : ℕ) → i < length xs → Returns {0, 0} (λ x. Unit) (index xs i)
unfolding index
index-Returns [] i h = absurd (omega arith)
index-Returns (x ∷ xs) zero h = tt
index-Returns (x ∷ xs) (suc i) h = index-Returns xs i (omega arith)

swap-Returns :
    {A : Type 0} (xs : List A) (i j : ℕ)
    → i < length xs
    → j < length xs
    → Returns {0, 0} (λ x. Unit) (swap xs i j)
unfolding swap
swap-Returns xs i j hi hj =
    Returns-bind {0, 0, 0, 0} (λ x. Unit) (λ x. Unit) (index xs i)
      (λ x. index xs j >>= λ y. returned (set (set xs i y) j x)) (index-Returns xs i hi)
      (λ x u.
        Returns-bind {0, 0, 0, 0} (λ x. Unit) (λ x. Unit) (index xs j)
          (λ y. returned (set (set xs i y) j x)) (index-Returns xs j hj) (λ y v. tt))

Returns-then :
    {A B : Type 0} (m : Outcome A) (f : A → B)
    → Returns {0, 0} (λ x. Unit) m
    → Returns {0, 0} (λ x. Unit) (m >>= λ a. returned (f a))
Returns-then m f h =
    Returns-bind {0, 0, 0, 0} (λ x. Unit) (λ x. Unit) m (λ a. returned (f a)) h (λ a u. tt)

-- `dup` never indexes out of range.
pub dup-Returns : {A : Type 0} (s : InferenceStack A) → Returns {0, 0} (λ r. Unit) (dup s)
unfolding dup peek
dup-Returns s = elim (Bool-cases (leb (length s.inner) 0)) [
  | inl e ↦ rw e tt
  | inr e ↦ rw e (
      Returns-then (index s.inner (length s.inner - 1 - 0) >>= λ v. returned (ok v)) (push_top s) (
        Returns-then (index s.inner (length s.inner - 1 - 0)) (λ v. ok v)
          (index-Returns s.inner (length s.inner - 1 - 0) (ground arith))))
]

-- `swap` never indexes out of range.
pub swap_top-Returns : {A : Type 0} (s : InferenceStack A) → Returns {0, 0} (λ r. Unit) (swap_top s)
unfolding swap_top
swap_top-Returns s = elim (Bool-cases (ltb (length s.inner) 2)) [
  | inl e ↦ rw e tt
  | inr e ↦ rw e (
      Returns-then (swap s.inner (length s.inner - 1) (length s.inner - 2))
        (λ v. ok (record s { inner = v }))
        (swap-Returns s.inner (length s.inner - 1) (length s.inner - 2) (ground arith)
          (ground arith)))
]
