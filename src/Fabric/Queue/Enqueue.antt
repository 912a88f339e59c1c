-- ===== src/Fabric/Queue/Enqueue.antt =====
-- About `PriorityQueue::enqueue` of crates/fabric/src/queue.rs.
use mathlib.Core.List.{Perm}
use mathlib.Core.List.Perm
use native.Mathlib.Bridge.{le_prop}
use tordex.Prelude.{
  ℕ, ◌+◌, ◌%◌, ◌<◌, ◌≡◌, ◌⊎◌, inl, inr, refl, true, false, List, ◌∷◌, All-map, length, Bool-cases,
  Result, ok, err, arith, string_eq, ◌==◌,
}
use tordex.Prelude.Outcome.{Returns, Returns-bind}
use tordex.Prelude.Map.{contains_key, insert, contains_key-insert}
use tordex.Prelude.Perms.{count_if-perm, All-perm}
use tordex.Heap.Order.{Heaped}
use tordex.Heap.Ends.{push-Heaped}
use tordex.Fabric.Task.{CollectionTask, QueueEntry, less, FabricError, duplicate_task}
use tordex.Fabric.Queue.{QueueInner, u64_mod, bubble_up, enqueue}
use tordex.Fabric.Queue.Order.{less-IsOrder}
use tordex.Fabric.Queue.Valid.{IsValid}

module _ {V : Type 0} (q : QueueInner V) (task : CollectionTask V) (now : ℕ) where
  -- The entry that is made of the task.
  abbrev pub entry : QueueEntry V
  entry = record { task = task; submitted_at = now; seq = q.seq }

  -- The task was new: it is in the queue now, with the highest number.
  pub record Accepted (r : Result (Unit {0}) FabricError × QueueInner V) : Type 0 where
    pub success : r.0 ≡ ok tt
    pub valid : IsValid r.1
    pub added : Perm r.1.heap (entry ∷ q.heap)
    pub counted : r.1.seq ≡ q.seq + 1

  abbrev pub Enqueued : Result (Unit {0}) FabricError × QueueInner V → Type 0
  Enqueued r =
      ((contains_key q.by_id task.id ≡ true) × (r ≡ (err (duplicate_task task.id), q)))
      ⊎ ((contains_key q.by_id task.id ≡ false) × Accepted r)

  pushed-IsValid :
      IsValid q
      → q.seq + 1 < u64_mod
      → contains_key q.by_id task.id ≡ false
      → (heap : List (QueueEntry V)) → Heaped less (entry ∷ q.heap) heap
      → Accepted (
        ok tt,
        record {
          heap = heap;
          by_id = insert q.by_id task.id (length q.heap);
          seen = insert q.seen task.id tt;
          seq = (q.seq + 1) % u64_mod;
        },
      )
  pushed-IsValid v small fresh heap h = record {
    success = refl;
    valid = record {
      ordered = h.heap;
      indexed = λ k. ground (
        arith,
        count_if-perm (λ e. e.task.id == k) h.same,
        contains_key-insert q.by_id task.id k (length q.heap),
        v.indexed k,
        string_eq.test_iff task.id k,
      );
      numbered =
          All-perm (λ e. e.seq < (q.seq + 1) % u64_mod) (λ e. le_prop) (Perm.symm h.same)
            (
              omega arith,
              All-map (λ e. e.seq < q.seq) (λ e. e.seq < (q.seq + 1) % u64_mod) q.heap
                  (λ e p. omega arith) v.numbered,
            );
      recorded = λ k m. ground (
        arith,
        contains_key-insert q.by_id task.id k (length q.heap),
        contains_key-insert q.seen task.id k tt,
        v.recorded k,
      );
    };
    added = h.same;
    counted = omega arith;
  }

  -- A task whose identifier is in the queue is refused, and the queue stays as it was. Any other is
  -- added under the next number, without a panic, and the queue stays valid. The number must not
  -- run over.
  pub enqueue-Enqueued : IsValid q → q.seq + 1 < u64_mod → Returns Enqueued (enqueue q task now)
  unfolding enqueue bubble_up
  enqueue-Enqueued v small = elim (Bool-cases (contains_key q.by_id task.id)) [
    | inl known ↦ rw known (inl (known, refl))
    | inr fresh ↦ rw fresh (
        Returns-bind (Heaped less (entry ∷ q.heap)) Enqueued _ _
          (push-Heaped less less-IsOrder q.heap entry v.ordered)
          (λ heap h. inr (fresh, pushed-IsValid v small fresh heap h)))
  ]
