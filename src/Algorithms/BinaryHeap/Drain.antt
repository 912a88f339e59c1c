-- ===== src/Algorithms/BinaryHeap/Drain.antt =====
-- Pushing and popping many elements of BinaryHeapCustom in crates/algorithms/src/scheduling.rs.
use mathlib.Core.List.{Perm, append-nil, perm_middle, perm-append_left_iff}
use mathlib.Core.List.Perm
use tordex.Prelude.{
  ℕ, zero, suc, ◌+◌, ◌<◌, ◌≡◌, Bool, false, Option, some, none, List, [], ◌∷◌, ◌++◌, All, length,
  arith,
}
use tordex.Prelude.Outcome.{Outcome, returned, exhausted, Returns, Returns-bind, Returns-map, ◌>>=◌}
use tordex.Prelude.Perms.{length-perm, All-perm}
use tordex.Heap.Order.{IsOrder, IsHeap, Heaped}
use tordex.Algorithms.BinaryHeap.{push, pop}
use tordex.Algorithms.BinaryHeap.Order.{push-Pushed, Popped, pop-Popped}

module _ {T : Type 0} (greater : T → T → Bool) where
  -- Pushes in the order of the list.
  unfoldable pub push_each : List T → List T → Outcome (List T)
  push_each heap [] = returned heap
  push_each heap (x ∷ xs) = do heap' ← push greater heap x; push_each heap' xs

  -- Pops until nothing is left.
  unfoldable pub pop_each : ℕ → List T → Outcome (List T)
  pop_each zero heap = exhausted
  pop_each (suc fuel) heap = do
    r ← pop greater heap
    elim r.0 [ none ↦ returned [] | some x ↦ do rest ← pop_each fuel r.1; returned (x ∷ rest) ]

  -- The greatest first: no element is greater than one before it.
  abbrev pub Descending : List T → Type 0
  Descending [] = Unit
  Descending (x ∷ xs) = All (λ y. greater y x ≡ false) xs × Descending xs

  -- The elements of the second list, the greatest first.
  pub record SortedOf (xs ys : List T) : Type 0 where
    pub descending : Descending ys
    pub same : Perm ys xs

  module _ (o : IsOrder greater) where
    -- A heap of the elements.
    abbrev HeapOf : List T → List T → Type 0
    HeapOf xs heap = IsHeap greater heap × Perm heap xs

    push_each-HeapOf :
        (heap xs : List T) → IsHeap greater heap → Returns (HeapOf (xs ++ heap)) (push_each heap xs)
    unfolding push_each
    push_each-HeapOf heap [] h = (h, Perm.refl heap)
    push_each-HeapOf heap (x ∷ xs) h =
        Returns-bind (Heaped greater (x ∷ heap)) (HeapOf ((x ∷ xs) ++ heap)) _ _
          (push-Pushed greater o heap x h)
          (λ heap' k.
            Returns-map (HeapOf (xs ++ heap')) (HeapOf ((x ∷ xs) ++ heap)) _
              (push_each-HeapOf heap' xs k.heap)
              (λ end r. (
                r.0,
                Perm.trans r.1
                    (Perm.trans ((perm-append_left_iff xs).1 k.same) (perm_middle {a = x} xs heap)),
              )))

    -- One round: what is popped, and then the rest in order.
    round-SortedOf :
        (fuel : ℕ) (heap : List T) (r : Option T × List T)
        → length heap < suc fuel
        → ((xs : List T)
            → length xs < fuel
            → IsHeap greater xs
            → Returns (SortedOf xs) (pop_each fuel xs))
        → Popped greater o heap r
        → Returns (SortedOf heap) (elim r.0 [
          | none ↦ returned []
          | some x ↦ do rest ← pop_each fuel r.1; returned (x ∷ rest)
        ])
    round-SortedOf fuel heap (none, heap') small ih p = record {
      descending = tt;
      same = rw (p.0) (Perm.refl []);
    }
    round-SortedOf fuel heap (some x, heap') small ih (first, same, ordered) =
        Returns-bind (SortedOf heap') (SortedOf heap) _ _
          (ih heap' (omega (arith, length-perm same)) ordered)
          (λ rest s.
            let whole = Perm.trans (Perm.cons x s.same) same in
            let bounded =
              All-perm (λ y. greater y x ≡ false) (λ y. hlevel) (Perm.symm whole) first in
            record { descending = (bounded.1, s.descending); same = whole })

    pop_each-SortedOf :
        (fuel : ℕ) (heap : List T)
        → length heap < fuel
        → IsHeap greater heap
        → Returns (SortedOf heap) (pop_each fuel heap)
    unfolding pop_each
    pop_each-SortedOf zero heap small h = absurd (omega arith)
    pop_each-SortedOf (suc fuel) heap small h =
        Returns-bind (Popped greater o heap) (SortedOf heap) _ _ (pop-Popped greater o heap h)
          (λ r p. round-SortedOf fuel heap r small (pop_each-SortedOf fuel) p)

    -- Pushing any elements one after the other on a new heap and then popping until it is empty
    -- returns, without a panic: exactly these elements, each as often as it was pushed, with none
    -- greater than one before it.
    pub pop_each-push_each :
        (xs : List T)
        → Returns (SortedOf xs) (push_each [] xs >>= λ heap. pop_each (length heap + 1) heap)
    pop_each-push_each xs =
        Returns-bind (HeapOf (xs ++ [])) (SortedOf xs) _ _
          (push_each-HeapOf [] xs (λ d c p q. absurd (omega arith)))
          (λ heap k.
            Returns-map (SortedOf heap) (SortedOf xs) _
              (pop_each-SortedOf (length heap + 1) heap (omega arith) k.0)
              (λ ys s. record {
                descending = s.descending;
                same = Perm.trans s.same (rw (append-nil xs) at k.1);
              }))
