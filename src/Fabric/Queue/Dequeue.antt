-- ===== src/Fabric/Queue/Dequeue.antt =====
-- About `PriorityQueue::dequeue` and `peek` of crates/fabric/src/queue.rs.
use mathlib.Core.List.{Perm}
use mathlib.Core.List.Perm
use native.Mathlib.Bridge.{le_prop}
use tordex.Prelude.{
  suc, ◌-◌, ◌<◌, ◌≡◌, refl, ap, ◌∙◌, Bool-cases, inl, inr, false, List, [], ◌∷◌, All, length,
  get_or, get_elem?, Option, some, none, arith, string_eq, ◌==◌, nat_beq, get_elem?-get_or,
}
use tordex.Prelude.Outcome.{Returns, Returns-bind}
use tordex.Prelude.Map.{remove, contains_key-remove}
use tordex.Prelude.Perms.{count_if-perm, All-perm, All-get_or}
use tordex.Prelude.Vec.{swap-swapped, swapped, length-swapped, get_or-swapped}
use tordex.Heap.Order.{IsHeap, Heaped, Heaped-self, root_least}
use tordex.Heap.Ends.{rest, length-rest, rest-perm, pop-Heaped}
use tordex.Fabric.Task.{CollectionTask, QueueEntry, less}
use tordex.Fabric.Queue.{QueueInner, bubble_down, after_pop, dequeue, peek}
use tordex.Fabric.Queue.Order.{Before, Le→Before, less-IsOrder}
use tordex.Fabric.Queue.Valid.{IsValid}

module _ {V : Type 0} where
  -- `e` is served: it is to be served before or with every entry, and exactly it is taken out.
  pub record Served (q : QueueInner V) (e : QueueEntry V) (q' : QueueInner V) : Type 0 where
    pub first : All (Before e) q.heap
    pub taken : Perm (e ∷ q'.heap) q.heap
    pub valid : IsValid q'
    pub seen_kept : q'.seen ≡ q.seen
    pub seq_kept : q'.seq ≡ q.seq

  abbrev pub Dequeued : QueueInner V → Option (CollectionTask V) × QueueInner V → Type 0
  Dequeued q (none, q') = (q.heap ≡ []) × (peek q ≡ none) × (q' ≡ q)
  Dequeued q (some task, q') =
      (peek q ≡ some task) × (e : QueueEntry V) × (e.task ≡ task) × Served q e q'

  taken-Served :
      (q : QueueInner V) (e : QueueEntry V) (heap : List (QueueEntry V))
      → IsValid q
      → All (Before e) q.heap
      → IsHeap less heap
      → Perm (e ∷ heap) q.heap
      → Served q e (record q { heap = heap; by_id = remove q.by_id e.task.id })
  taken-Served q e heap v first ordered same = record {
    first = first;
    taken = same;
    valid = record {
      ordered = ordered;
      indexed = λ k. ground (
        arith,
        count_if-perm (λ x. x.task.id == k) same,
        contains_key-remove q.by_id e.task.id k,
        v.indexed k,
        string_eq.test_iff e.task.id k,
      );
      numbered = (All-perm (λ x. x.seq < q.seq) (λ x. le_prop) (Perm.symm same) v.numbered).1;
      recorded = λ k m. ground (arith, contains_key-remove q.by_id e.task.id k, v.recorded k);
    };
    seen_kept = refl;
    seq_kept = refl;
  }

  first_of_All :
      (e : QueueEntry V) (xs : List (QueueEntry V)) → IsHeap less (e ∷ xs) → All (Before e) (e ∷ xs)
  first_of_All e xs h =
      All-get_or (Before e) e (e ∷ xs) (λ i p.
        Le→Before e (get_or (e ∷ xs) i e) (root_least less less-IsOrder e (e ∷ xs) i (h e) p))

  dequeue-nil : (q : QueueInner V) → q.heap ≡ [] → Returns (Dequeued q) (dequeue q)
  unfolding dequeue peek
  dequeue-nil q e = rw (ap length e) (e, rw e refl, refl)

  -- The end of `dequeue`, on a nonempty queue whose first entry is `e`.
  module _ (q : QueueInner V) (e : QueueEntry V) (xs : List (QueueEntry V))
      (shape : q.heap ≡ e ∷ xs) (v : IsValid q) where
    size : length q.heap ≡ suc (length xs)
    size = ap length shape

    abbrev others : List (QueueEntry V)
    others = rest less less-IsOrder e (length xs) q.heap size 0 (omega arith)

    others-perm : Perm (e ∷ others) q.heap
    others-perm =
        let root : get_or q.heap 0 e ≡ e = rw shape in
        rw root at (rest-perm less less-IsOrder e (length xs) q.heap size 0 (omega arith))

    first : All (Before e) q.heap
    first = rw shape (first_of_All e xs (rw shape at v.ordered))

    shown : peek q ≡ some e.task
    unfolding peek
    shown = rw shape

    served :
        (heap : List (QueueEntry V))
        → Heaped less others heap
        → Dequeued q (some e.task, record q { heap = heap; by_id = remove q.by_id e.task.id })
    served heap h = (
      shown,
      e,
      refl,
      taken-Served q e heap v first h.heap (Perm.trans (Perm.cons e h.same) others-perm),
    )

    after_pop-Dequeued : Returns (Dequeued q) (after_pop q others (some e))
    unfolding after_pop bubble_down
    after_pop-Dequeued = elim (Bool-cases (nat_beq (length others) 0)) [
      | inl last ↦
          rw last (served others (Heaped-self less e others (λ c p r. absurd (ground arith))))
      | inr more ↦ rw more (
          Returns-bind (Heaped less others) (Dequeued q) _ _
            (pop-Heaped less less-IsOrder e (length xs) q.heap size v.ordered (
              ground
                (arith, length-rest less less-IsOrder e (length xs) q.heap size 0 (omega arith))))
            served)
    ]

    dequeue-cons : Returns (Dequeued q) (dequeue q)
    unfolding dequeue
    dequeue-cons =
        let n = length xs in
        let ys = swapped e q.heap 0 n in
        let some_left : nat_beq (length q.heap) 0 ≡ false = ground (arith, size) in
        let at_end : length q.heap - 1 ≡ n = omega (arith, size) in
        let same_size : length ys ≡ suc n = length-swapped e q.heap 0 n ∙ size in
        let at_end' : length ys - 1 ≡ n = omega (arith, same_size) in
        let popped : get_elem? ys n ≡ some e =
          get_elem?-get_or ys n e (omega (arith, same_size))
          ∙ ap some (ground (arith, get_or-swapped e q.heap 0 n n, size, shape)) in
        rw
          (
            some_left,
            at_end,
            swap-swapped e q.heap 0 n (omega (arith, size)) (omega (arith, size)),
            at_end',
            popped,
          )
          after_pop-Dequeued

  -- An empty queue gives nothing, and stays as it was. Of any other valid queue `dequeue` takes, without a panic, an
  -- entry that is to be served before or with all: the highest priority, and the earliest
  -- submission of that. The queue is left valid, with exactly the other entries, and the same
  -- identifiers seen. `peek` shows what `dequeue` takes.
  pub dequeue-Dequeued : (q : QueueInner V) → IsValid q → Returns (Dequeued q) (dequeue q)
  dequeue-Dequeued q v = by_shape q.heap refl
    where
      by_shape : (xs : List (QueueEntry V)) → q.heap ≡ xs → Returns (Dequeued q) (dequeue q)
      by_shape [] e = dequeue-nil q e
      by_shape (x ∷ xs) e = dequeue-cons q x xs e v
