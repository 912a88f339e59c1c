-- ===== src/Algorithms/BinaryHeap.antt =====
-- BinaryHeapCustom of crates/algorithms/src/scheduling.rs, a heap with its greatest element first,
-- as the vector that it is. `greater` stands for `>` of the elements, and its negation for `<=`.
pub mod Order
pub mod Drain
use tordex.Prelude.{
  ℕ, ◌+◌, ◌-◌, Bool, Option, some, none, List, [], ◌∷◌, ◌++◌, length, get_elem?, nat_beq,
  if◌then◌else◌,
}
use tordex.Prelude.Outcome.{Outcome, returned, ◌>>=◌}
use tordex.Prelude.Vec.{swap, but_last}
use tordex.Heap.{sift_up, sift_down}

module _ {T : Type 0} (greater : T → T → Bool) where
  -- The loop swaps as long as it does not find `data[i] <= data[parent]`.
  pub push : List T → T → Outcome (List T)
  push heap item =
      let heap' = heap ++ item ∷ [] in sift_up greater (length heap') heap' (length heap' - 1)

  -- After the swap: `pop` of the vector, and the loop.
  pub pop_last : List T → Outcome (Option T × List T)
  pop_last heap =
      let result = get_elem? heap (length heap - 1) in
      let rest = but_last heap in
      sift_down greater (length rest + 1) rest 0 >>= λ sifted. returned (result, sifted)

  pub pop : List T → Outcome (Option T × List T)
  unfolding pop_last
  pop heap =
      if nat_beq (length heap) 0
      then returned (none, heap)
      else (swap heap 0 (length heap - 1) >>= pop_last)

pub peek {ℓ} : {T : Type ℓ} → List T → Option T
peek heap = get_elem? heap 0

pub is_empty {ℓ} : {T : Type ℓ} → List T → Bool
is_empty heap = nat_beq (length heap) 0
