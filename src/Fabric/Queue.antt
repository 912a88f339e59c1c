-- ===== src/Fabric/Queue.antt =====
-- crates/fabric/src/queue.rs, lines 168 to 342: `PriorityQueue`. The mutex makes each method one
-- step on the state below it. `V` stands for the JSON values of serde_json, `now` for a reading of
-- the clock. `heap.len() - 1` of an empty heap, an index out of range and a swap out of range
-- panic.
pub mod Order
pub mod Valid
pub mod Enqueue
pub mod Dequeue
pub mod Cancel
pub mod Stale
use tordex.Prelude.{
  ℕ, suc, ◌+◌, ◌-◌, ◌%◌, ◌^◌, Bool, true, false, Option, some, none, String, string_eq, List, [],
  ◌∷◌, ◌++◌, map, length, get_elem?, take, ltb, nat_beq, if◌then◌else◌, Result, ok, err,
}
use tordex.Prelude.Outcome.{Outcome, returned, panicked, ◌>>=◌, index}
use tordex.Prelude.Map.{Map, get, insert, remove, contains_key}
use tordex.Prelude.Vec.{swap, but_last}
use tordex.Heap.{sift_up, sift_down}
use tordex.Fabric.Task.{
  CollectionTask, QueueEntry, less, discriminant, FabricError, task_not_found, duplicate_task,
}

pub record QueueInner (V : Type 0) : Type 0 where
  pub heap : List (QueueEntry V)
  pub by_id : Map String ℕ
  pub seen : Map String (Unit {0})
  pub seq : ℕ

abbrev pub u64_mod : ℕ
u64_mod = 2 ^ 64

module _ {V : Type 0} where
  unfoldable pub new : QueueInner V
  new = record { heap = []; by_id = []; seen = []; seq = 0 }

  -- The fuel exceeds the index, which each round lowers.
  pub bubble_up : List (QueueEntry V) → ℕ → Outcome (List (QueueEntry V))
  bubble_up heap idx = sift_up less (idx + 1) heap idx

  -- The fuel exceeds the length, which bounds the index that each round raises.
  pub bubble_down : List (QueueEntry V) → ℕ → Outcome (List (QueueEntry V))
  bubble_down heap idx = sift_down less (length heap + 1) heap idx

  pub enqueue :
      QueueInner V → CollectionTask V → ℕ → Outcome (Result (Unit {0}) FabricError × QueueInner V)
  enqueue inner task now =
      if contains_key inner.by_id task.id
      then returned (err (duplicate_task task.id), inner)
      else (do
        let seq = inner.seq
        let idx = length inner.heap
        let entry : QueueEntry V = record { task = task; submitted_at = now; seq = seq }
        heap ← bubble_up (inner.heap ++ entry ∷ []) idx
        returned (
          ok tt,
          record {
            heap = heap;
            by_id = insert inner.by_id task.id idx;
            seen = insert inner.seen task.id tt;
            seq = (seq + 1) % u64_mod;
          },
        ))

  -- The end of `dequeue`, on the popped entry.
  pub after_pop :
      QueueInner V
      → List (QueueEntry V)
      → Option (QueueEntry V)
      → Outcome (Option (CollectionTask V) × QueueInner V)
  after_pop inner heap none = returned (none, record inner { heap = heap })
  after_pop inner heap (some entry) = do
    let by_id = remove inner.by_id entry.task.id
    heap' ← if nat_beq (length heap) 0 then returned heap else bubble_down heap 0
    returned (some entry.task, record inner { heap = heap'; by_id = by_id })

  pub dequeue : QueueInner V → Outcome (Option (CollectionTask V) × QueueInner V)
  unfolding after_pop
  dequeue inner = if nat_beq (length inner.heap) 0 then returned (none, inner) else (do
    let last = length inner.heap - 1
    heap ← swap inner.heap 0 last
    after_pop inner (but_last heap) (get_elem? heap (length heap - 1)))

  unfoldable pub peek : QueueInner V → Option (CollectionTask V)
  peek inner = elim (get_elem? inner.heap 0) [ none ↦ none | some e ↦ some e.task ]

  -- `heap.len() - 1`
  pub last_index : List (QueueEntry V) → Outcome ℕ
  last_index heap = if nat_beq (length heap) 0 then panicked else returned (length heap - 1)

  -- The swap with the last entry, whose index is written anew.
  pub move_last :
      List (QueueEntry V) → Map String ℕ → ℕ → ℕ → Outcome (List (QueueEntry V) × Map String ℕ)
  move_last heap by_id idx last = if nat_beq idx last then returned (heap, by_id) else (do
    heap' ← swap heap idx last
    e ← index heap' idx
    returned (heap', insert by_id e.task.id idx))

  -- The heap order is restored if the entry that was moved is still there.
  pub restore : List (QueueEntry V) → ℕ → Outcome (List (QueueEntry V))
  restore heap idx =
      if ltb idx (length heap)
      then (do heap' ← bubble_up heap idx; bubble_down heap' idx)
      else returned heap

  -- `cancel` at the index that `by_id` gives.
  pub cancel_at : QueueInner V → String → ℕ → Outcome (Result (Unit {0}) FabricError × QueueInner V)
  unfolding last_index move_last restore
  cancel_at inner task_id idx = do
    last ← last_index inner.heap
    moved ← move_last inner.heap (remove inner.by_id task_id) idx last
    let by_id = remove moved.1 task_id
    heap ← restore (but_last moved.0) idx
    returned (ok tt, record inner { heap = heap; by_id = by_id })

  cancel_found :
      QueueInner V → String → Option ℕ → Outcome (Result (Unit {0}) FabricError × QueueInner V)
  unfolding cancel_at
  cancel_found inner task_id none = returned (err (task_not_found task_id), inner)
  cancel_found inner task_id (some idx) = cancel_at inner task_id idx

  pub cancel : QueueInner V → String → Outcome (Result (Unit {0}) FabricError × QueueInner V)
  unfolding cancel_found
  cancel inner task_id = cancel_found inner task_id (get inner.by_id task_id)

  unfoldable pub len : QueueInner V → ℕ
  len inner = length inner.heap

  unfoldable pub is_empty : QueueInner V → Bool
  unfolding len
  is_empty inner = nat_beq (len inner) 0

  unfoldable pub contains : QueueInner V → String → Bool
  contains inner task_id = contains_key inner.seen task_id
