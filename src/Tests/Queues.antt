-- ===== src/Tests/Queues.antt =====
-- A queue in which two tasks stand, the second of which has overtaken the first.
use tordex.Prelude.{
  ℕ, ◌+◌, subst, get_or, ◌<◌, ◌≡◌, ◌≢◌, refl, true, false, some, String, string_eq, ◌==◌, [], ◌∷◌,
  map, if◌then◌else◌, ok, arith,
}
use tordex.Prelude.Outcome.{Returns}
use tordex.Prelude.Map.{get, contains_key}
use tordex.Heap.{parent}
use tordex.Heap.Order.{IsHeap, Le}
use tordex.Fabric.Task.{CollectionTask, QueueEntry, critical, background, discriminant, url, less}
use tordex.Fabric.Queue.{QueueInner, enqueue, dequeue, cancel}
use tordex.Fabric.Queue.Valid.{IsValid, count_id}
use tordex.Fabric.Queue.Enqueue.{Enqueued, enqueue-Enqueued}
use tordex.Fabric.Queue.Dequeue.{Dequeued, dequeue-Dequeued}
use tordex.Fabric.Queue.Cancel.{TakenOut, cancel-TakenOut, cancel-wrong_index}
use tordex.Fabric.Queue.Stale.{submit_two_cancel_first, submit_two_cancel_first-keeps_first}

abbrev slow : CollectionTask ℕ
slow = record {
  id = "slow";
  target = url "a";
  priority = background;
  driver = "http";
  capability = "page";
  params = 0;
  max_retries = 3;
  created_at = 0;
  metadata = [];
}

abbrev fast : CollectionTask ℕ
fast = record {
  id = "fast";
  target = url "b";
  priority = critical;
  driver = "http";
  capability = "page";
  params = 0;
  max_retries = 3;
  created_at = 0;
  metadata = [];
}

abbrev third : CollectionTask ℕ
third = record {
  id = "third";
  target = url "c";
  priority = critical;
  driver = "http";
  capability = "page";
  params = 0;
  max_retries = 3;
  created_at = 0;
  metadata = [];
}

abbrev fast_entry : QueueEntry ℕ
fast_entry = record { task = fast; submitted_at = 1; seq = 1 }

abbrev slow_entry : QueueEntry ℕ
slow_entry = record { task = slow; submitted_at = 0; seq = 0 }

abbrev two : QueueInner ℕ
two = record {
  heap = fast_entry ∷ slow_entry ∷ [];
  by_id = ("slow", 0) ∷ ("fast", 1) ∷ [];
  seen = ("slow", tt) ∷ ("fast", tt) ∷ [];
  seq = 2;
}

-- The indices of `two` as they should be.
abbrev fixed : QueueInner ℕ
fixed = record two { by_id = ("slow", 1) ∷ ("fast", 0) ∷ [] }

different : (slow.id == fast.id) ≡ false
different = refl

distinct : slow.id ≢ fast.id
distinct e = ground (arith, different, string_eq.test_iff slow.id fast.id)

one_each :
    (k : String)
    → (if fast.id == k then 1 else 0) + ((if slow.id == k then 1 else 0) + 0)
      ≡ (if (if slow.id == k then true else (if fast.id == k then true else false)) then 1 else 0)
one_each k = ground (arith, distinct, string_eq.test_iff slow.id k, string_eq.test_iff fast.id k)

two-IsHeap : IsHeap less two.heap
unfolding less discriminant
two-IsHeap d c p q =
    let one : 1 ≡ c = omega arith in
    subst (λ x. Le (less {V = ℕ}) (get_or two.heap (parent x) d) (get_or two.heap x d)) one refl

two-IsValid : IsValid two
unfolding contains_key
two-IsValid = record {
  ordered = two-IsHeap;
  indexed = one_each;
  numbered = (omega arith, (omega arith, tt));
  recorded = λ k h. h;
}

fixed-IsValid : IsValid fixed
unfolding contains_key
fixed-IsValid = record {
  ordered = two-IsHeap;
  indexed = one_each;
  numbered = (omega arith, (omega arith, tt));
  recorded = λ k h. h;
}

enqueue-Enqueued_example : Returns (Enqueued two third 5) (enqueue two third 5)
enqueue-Enqueued_example = enqueue-Enqueued two third 5 two-IsValid (omega arith)

dequeue-Dequeued_example : Returns (Dequeued two) (dequeue two)
dequeue-Dequeued_example = dequeue-Dequeued two two-IsValid

two_known : get two.by_id "slow" ≡ some 0
unfolding get
two_known = refl

fixed_known : get fixed.by_id "slow" ≡ some 1
unfolding get
fixed_known = refl

cancel-TakenOut_example :
    Returns (λ r. TakenOut fixed slow_entry r × IsValid r.1) (cancel fixed "slow")
cancel-TakenOut_example =
    cancel-TakenOut fixed "slow" 1 slow_entry fixed-IsValid fixed_known refl refl

cancel-wrong_index_example :
    Returns
      (λ r.
        TakenOut two fast_entry r
        × (count_id "slow" r.1.heap ≡ 1)
        × (contains_key r.1.by_id "slow" ≡ false))
      (cancel two "slow")
cancel-wrong_index_example =
    cancel-wrong_index two "slow" 0 fast_entry two-IsValid two_known refl refl

higher : discriminant fast.priority < discriminant slow.priority
unfolding discriminant
higher = omega arith

submit_two_cancel_first-keeps_first_example :
    Returns
      (λ r. (r.0 ≡ ok tt) × (map (λ e. e.task) r.1.heap ≡ slow ∷ []))
      (submit_two_cancel_first slow fast 0 1)
submit_two_cancel_first-keeps_first_example =
    submit_two_cancel_first-keeps_first slow fast 0 1 distinct higher
