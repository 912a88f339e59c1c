-- ===== src/Vm/Stack.antt =====
-- crates/vm/src/stack.rs: the inference stack. The top is the last element.
pub mod Laws
pub mod Bounds
use tordex.Prelude.{
  ℕ, ◌-◌, Bool, Option, some, none, List, [], ◌∷◌, ◌++◌, if◌then◌else◌, leb, ltb, nat_beq, length,
  get_elem?, Result, ok, err,
}
use tordex.Prelude.Outcome.{Outcome, returned, index, ◌>>=◌}
use tordex.Prelude.Vec.{swap, but_last}

pub record InferenceStack (A : Type 0) : Type 0 where
  pub inner : List A
  pub max_depth : ℕ

pub data StackError : Type 0 where
  overflow : ℕ → StackError
  underflow : StackError

module _ {A : Type 0} where
  unfoldable pub new : ℕ → InferenceStack A
  new n = record { inner = []; max_depth = n }

  unfoldable pub push : InferenceStack A → A → Result (InferenceStack A) StackError
  push s value =
      if leb s.max_depth (length s.inner)
      then err (overflow s.max_depth)
      else ok (record s { inner = s.inner ++ value ∷ [] })

  -- `self.inner.pop()` removed the value, if there was one.
  unfoldable pub popped : InferenceStack A → Option A → Result (A × InferenceStack A) StackError
  popped s none = err underflow
  popped s (some v) = ok (v, record s { inner = but_last s.inner })

  unfoldable pub pop : InferenceStack A → Result (A × InferenceStack A) StackError
  pop s = popped s (if leb (length s.inner) 0 then none else get_elem? s.inner (length s.inner - 1))

  unfoldable pub peek : InferenceStack A → ℕ → Outcome (Result A StackError)
  peek s depth =
      if leb (length s.inner) depth
      then returned (err underflow)
      else do v ← index s.inner (length s.inner - 1 - depth); returned (ok v)

  -- `self.peek(0)?` gave the value that is pushed.
  unfoldable pub push_top :
      InferenceStack A → Result A StackError → Result (InferenceStack A) StackError
  push_top s (err e) = err e
  push_top s (ok top) = push s top

  unfoldable pub dup : InferenceStack A → Outcome (Result (InferenceStack A) StackError)
  dup s = do top ← peek s 0; returned (push_top s top)

  pub swap_top : InferenceStack A → Outcome (Result (InferenceStack A) StackError)
  swap_top s = if ltb (length s.inner) 2 then returned (err underflow) else do
    v ← swap s.inner (length s.inner - 1) (length s.inner - 2)
    returned (ok (record s { inner = v }))

  unfoldable pub depth : InferenceStack A → ℕ
  depth s = length s.inner

  unfoldable pub is_empty : InferenceStack A → Bool
  is_empty s = nat_beq (length s.inner) 0

  unfoldable pub clear : InferenceStack A → InferenceStack A
  clear s = record s { inner = [] }

  -- `drain` hands out the values, bottom first, and leaves the stack empty.
  unfoldable drain : InferenceStack A → List A × InferenceStack A
  drain s = (s.inner, clear s)
