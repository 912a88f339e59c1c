-- ===== src/Heap.antt =====
-- The sift loops of a binary heap in a vector, over the comparison of its elements: `bubble_up` and
-- `bubble_down` of crates/fabric/src/queue.rs.
pub mod Order
pub mod Up
pub mod Down
pub mod Hole
pub mod Ends
use tordex.Prelude.{
  ℕ, zero, suc, ◌+◌, ◌-◌, ◌*◌, ◌/◌, Bool, List, length, ltb, nat_beq, if◌then◌else◌,
}
use tordex.Prelude.Outcome.{Outcome, returned, exhausted, ◌>>=◌, index}
use tordex.Prelude.Vec.{swap}

abbrev pub parent : ℕ → ℕ
parent c = (c - 1) / 2

module _ {ℓ} {A : Type ℓ} (less : A → A → Bool) where
  -- `while idx > 0`: an element that comes before its parent trades places with it.
  unfoldable pub sift_up : ℕ → List A → ℕ → Outcome (List A)
  sift_up zero heap idx = exhausted
  sift_up (suc fuel) heap idx =
      let rise = swap heap idx (parent idx) >>= λ heap'. sift_up fuel heap' (parent idx) in
      let round : Outcome (List A) = do
        x ← index heap idx
        y ← index heap (parent idx)
        if less x y then rise else returned heap
      in if ltb 0 idx then round else returned heap

  -- The child, if there is one and it comes before the element at `best`.
  unfoldable pub better : List A → ℕ → ℕ → Outcome ℕ
  better heap best child =
      if ltb child (length heap)
      then (do
        x ← index heap child
        y ← index heap best
        returned (if less x y then child else best))
      else returned best

  -- `loop`: an element that comes after a child trades places with the first of the children.
  unfoldable pub sift_down : ℕ → List A → ℕ → Outcome (List A)
  unfolding better
  sift_down zero heap idx = exhausted
  sift_down (suc fuel) heap idx = do
    left ← better heap idx (2 * idx + 1)
    best ← better heap left (2 * idx + 2)
    let sink = swap heap idx best >>= λ heap'. sift_down fuel heap' best
    if nat_beq best idx then returned heap else sink
