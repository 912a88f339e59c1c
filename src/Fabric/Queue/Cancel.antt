-- ===== src/Fabric/Queue/Cancel.antt =====
-- About `PriorityQueue::cancel` of crates/fabric/src/queue.rs.
use mathlib.Core.List.{Perm}
use mathlib.Core.List.Perm
use native.Mathlib.Bridge.{le_prop}
use tordex.Prelude.{
  ℕ, suc, ◌-◌, ◌<◌, ◌≡◌, refl, ◌∙◌, Bool-cases, inl, inr, true, false, List, ◌∷◌, length, get_or,
  get_elem?, take, some, arith, String, string_eq, ◌==◌, if◌then◌else◌, nat_beq, nat_beq_iff, ltb,
  get_elem?-some, beq_refl, Result, ok, length-take,
}
use tordex.Prelude.Outcome.{Returns, Returns-bind, Returns-map, returned}
use tordex.Prelude.Map.{
  Map, get, contains_key, insert, remove, contains_key-remove, contains_key-insert,
  contains_key-get-some,
}
use tordex.Prelude.Perms.{count_if-perm, count_if-get_or, All-perm}
use tordex.Prelude.Vec.{swap-swapped, swapped, length-swapped, get_or-swapped, index-get_or}
use tordex.Heap.Order.{IsHeap, Heaped}
use tordex.Heap.Hole.{resift-Heaped}
use tordex.Heap.Ends.{rest-perm, rest-HoleInv, take-IsHeap, take-perm}
use tordex.Fabric.Task.{QueueEntry, less, FabricError}
use tordex.Fabric.Queue.{
  QueueInner, bubble_up, bubble_down, last_index, move_last, restore, cancel_at, cancel,
}
use tordex.Fabric.Queue.Order.{less-IsOrder}
use tordex.Fabric.Queue.Valid.{IsValid, count_id}

module _ {V : Type 0} where
  -- `e` is taken out of the heap, whose order is kept.
  pub record TakenOut (q : QueueInner V) (e : QueueEntry V)
      (r : Result (Unit {0}) FabricError × QueueInner V) : Type 0 where
    pub success : r.0 ≡ ok tt
    pub ordered : IsHeap less r.1.heap
    pub taken : Perm (e ∷ r.1.heap) q.heap
    pub seen_kept : r.1.seen ≡ q.seen
    pub seq_kept : r.1.seq ≡ q.seq

  module _ (q : QueueInner V) (id : String) (i n : ℕ) (e : QueueEntry V)
      (size : length q.heap ≡ suc n) (inside : i < suc n) (at : get_or q.heap i e ≡ e)
      (ordered : IsHeap less q.heap) where
    -- The map of indices before `task_id` is removed a second time.
    abbrev moved_index : Map String ℕ
    moved_index =
        if nat_beq i n
        then remove q.by_id id
        else insert (remove q.by_id id) (get_or q.heap n e).task.id i

    -- How `cancel_at` ends: with a heap of the other entries.
    abbrev Ends : Result (Unit {0}) FabricError × QueueInner V → Type 0
    Ends r =
        (heap : List (QueueEntry V)) × IsHeap less heap
        × Perm (e ∷ heap) q.heap
        × (r ≡ (ok tt, record q { heap = heap; by_id = remove moved_index id }))

    last_lem : last_index q.heap ≡ returned n
    unfolding last_index
    last_lem =
        let more : nat_beq (length q.heap) 0 ≡ false = ground (arith, size) in
        let at_end : length q.heap - 1 ≡ n = omega (arith, size) in rw (more, at_end)

    Ends-last : nat_beq i n ≡ true → Returns Ends (cancel_at q id i)
    unfolding cancel_at move_last restore
    Ends-last same =
        let at_end : length q.heap - 1 ≡ n = omega (arith, size) in
        let here : i ≡ n = (nat_beq_iff i n).0 same in
        let gone : ltb i (length (take n q.heap)) ≡ false =
          ground (arith, here, length-take n q.heap) in
        let root : get_or q.heap n e ≡ e = rw (← here) at in
        rw (last_lem, same, at_end, gone)
          (
            take n q.heap,
            take-IsHeap less less-IsOrder e n q.heap size ordered,
            rw root at (take-perm less less-IsOrder e n q.heap size),
            rw same,
          )

    Ends-moved : nat_beq i n ≡ false → Returns Ends (cancel_at q id i)
    unfolding cancel_at move_last restore bubble_up bubble_down
    Ends-moved other =
        let ys = swapped e q.heap i n in
        let small : i < n = ground arith in
        let same_size : length ys ≡ suc n = length-swapped e q.heap i n ∙ size in
        let at_end : length ys - 1 ≡ n = omega (arith, same_size) in
        let there : get_or ys i e ≡ get_or q.heap n e =
          ground (arith, get_or-swapped e q.heap i n i, size) in
        let still : ltb i (length (take n ys)) ≡ true =
          ground (arith, length-take n ys, same_size) in
        rw
          (
            last_lem,
            other,
            swap-swapped e q.heap i n (omega (arith, size)) (omega (arith, size)),
            index-get_or ys i e (omega (arith, same_size)),
            there,
            at_end,
            still,
          )
          (Returns-bind (Heaped less (take n ys)) Ends _ _
            (resift-Heaped less less-IsOrder e (take n ys) i
              (rest-HoleInv less less-IsOrder e n q.heap size i inside ordered small))
            (λ heap h. (
              heap,
              h.heap,
              Perm.trans (Perm.cons e h.same)
                  (rw at at (rest-perm less less-IsOrder e n q.heap size i inside)),
              rw other,
            )))

    pub cancel_at-Ends : Returns Ends (cancel_at q id i)
    cancel_at-Ends = elim (Bool-cases (nat_beq i n)) [
      | inl same ↦ Ends-last same
      | inr other ↦ Ends-moved other
    ]

    -- The identifiers that `by_id` knows afterwards.
    moved_keys :
        (k : String)
        → IsValid q
        → contains_key (remove moved_index id) k
          ≡ (if id == k then false else contains_key q.by_id k)
    moved_keys k v =
        let x = get_or q.heap n e in
        ground (
          arith,
          contains_key-remove moved_index id k,
          contains_key-remove q.by_id id k,
          contains_key-insert (remove q.by_id id) x.task.id k i,
          v.indexed k,
          count_if-get_or (λ y. y.task.id == k) e q.heap n,
          size,
        )

  -- The entry that `get_elem?` finds, in the form of the lemmas above.
  module _ (q : QueueInner V) (id : String) (i : ℕ) (e : QueueEntry V) (v : IsValid q)
      (known : get q.by_id id ≡ some i) (there : get_elem? q.heap i ≡ some e) where
    cancel-Ends :
        Returns
          (λ r.
            (heap : List (QueueEntry V)) × (m : Map String ℕ) × IsHeap less heap
            × Perm (e ∷ heap) q.heap
            × ((k : String)
                → contains_key m k ≡ (if id == k then false else contains_key q.by_id k))
            × (r ≡ (ok tt, record q { heap = heap; by_id = m })))
          (cancel q id)
    unfolding cancel
    cancel-Ends =
        let at = get_elem?-some q.heap i e there in
        let n = length q.heap - 1 in
        let size : length q.heap ≡ suc n = omega (arith, at.0) in
        let inside : i < suc n = omega (arith, at.0) in
        rw known (
          Returns-map (Ends q id i n e size inside at.1 v.ordered) _ _
            (cancel_at-Ends q id i n e size inside at.1 v.ordered)
            (λ r (heap, ordered, same, eq). (
              heap,
              remove (moved_index q id i n e size inside at.1 v.ordered) id,
              ordered,
              same,
              (λ k. moved_keys q id i n e size inside at.1 v.ordered k v),
              eq,
            )))

    -- If the index that `by_id` holds is that of the task, `cancel` takes exactly this entry out,
    -- without a panic, and the queue stays valid.
    pub cancel-TakenOut : e.task.id ≡ id → Returns (λ r. TakenOut q e r × IsValid r.1) (cancel q id)
    cancel-TakenOut right =
        Returns-map _ (λ r. TakenOut q e r × IsValid r.1) _ cancel-Ends
          (λ r (heap, m, ordered, same, keys, eq). rw eq (
            record {
              success = refl;
              ordered = ordered;
              taken = same;
              seen_kept = refl;
              seq_kept = refl;
            },
            record {
              ordered = ordered;
              indexed = λ k.
                  rw (keys k)
                    (ground (arith, count_if-perm (λ y. y.task.id == k) same, v.indexed k));
              numbered =
                  (All-perm (λ y. y.seq < q.seq) (λ y. le_prop) (Perm.symm same) v.numbered).1;
              recorded = λ k h. ground (arith, keys k, v.recorded k);
            },
          ))

    -- If it is that of another task, `cancel` reports success and takes that one out: the task that
    -- was to be cancelled stays in the queue, and its identifier is forgotten.
    pub cancel-wrong_index :
        (e.task.id == id) ≡ false
        → Returns
            (λ r. TakenOut q e r × (count_id id r.1.heap ≡ 1) × (contains_key r.1.by_id id ≡ false))
            (cancel q id)
    cancel-wrong_index wrong =
        Returns-map _
          (λ r. TakenOut q e r × (count_id id r.1.heap ≡ 1) × (contains_key r.1.by_id id ≡ false)) _
          cancel-Ends
          (λ r (heap, m, ordered, same, keys, eq). rw eq (
            record {
              success = refl;
              ordered = ordered;
              taken = same;
              seen_kept = refl;
              seq_kept = refl;
            },
            ground (
              arith,
              wrong,
              count_if-perm (λ y. y.task.id == id) same,
              v.indexed id,
              contains_key-get-some q.by_id id i known,
            ),
            rw (keys id, beq_refl id),
          ))
