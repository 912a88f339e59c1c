-- ===== src/Fabric/Queue/Valid.antt =====
-- The invariant of the priority queue.
use tordex.Prelude.{ℕ, ◌<◌, ◌≡◌, String, string_eq, ◌==◌, true, List, All, if◌then◌else◌}
use tordex.Prelude.Map.{contains_key}
use tordex.Prelude.Perms.{count_if}
use tordex.Heap.Order.{IsHeap}
use tordex.Fabric.Task.{QueueEntry, less}
use tordex.Fabric.Queue.{QueueInner}

module _ {V : Type 0} where
  -- How many entries carry the identifier.
  abbrev pub count_id : String → List (QueueEntry V) → ℕ
  count_id k heap = count_if (λ e. e.task.id == k) heap

  -- The heap is in order, `by_id` knows exactly the identifiers of its entries, each of which is
  -- unique and has been seen, and the numbers of the entries lie below the next one.
  pub record IsValid (q : QueueInner V) : Type 0 where
    pub ordered : IsHeap less q.heap
    pub indexed : (k : String) → count_id k q.heap ≡ (if contains_key q.by_id k then 1 else 0)
    pub numbered : All (λ e. e.seq < q.seq) q.heap
    pub recorded : (k : String) → contains_key q.by_id k ≡ true → contains_key q.seen k ≡ true
