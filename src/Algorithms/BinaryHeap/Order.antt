-- ===== src/Algorithms/BinaryHeap/Order.antt =====
-- One push and one pop of BinaryHeapCustom in crates/algorithms/src/scheduling.rs.
use mathlib.Core.List.{Perm}
use mathlib.Core.List.Perm
use tordex.Prelude.{
  suc, ◌+◌, ◌-◌, ◌≡◌, refl, ap, ◌∙◌, Bool, false, Bool-cases, inl, inr, Option, some, none, List,
  [], ◌∷◌, ◌++◌, All, length, length-append, get_or, get_elem?, get_elem?-get_or, nat_beq, ltb,
  ltb→lt, ltb→le, arith,
}
use tordex.Prelude.Outcome.{Returns, Returns-bind}
use tordex.Prelude.Perms.{All-get_or}
use tordex.Prelude.Vec.{swap-swapped, swapped, length-swapped, get_or-swapped}
use tordex.Heap.{sift_down, better}
use tordex.Heap.Order.{IsOrder, IsHeap, Heaped, root_least}
use tordex.Heap.Ends.{rest, length-rest, rest-perm, push-Heaped, pop-Heaped}
use tordex.Algorithms.BinaryHeap.{push, pop, pop_last}

module _ {T : Type 0} (greater : T → T → Bool) (o : IsOrder greater) where
  pub push-Pushed :
      (heap : List T) (x : T)
      → IsHeap greater heap
      → Returns (Heaped greater (x ∷ heap)) (push greater heap x)
  unfolding push
  push-Pushed heap x h =
      let size : length (heap ++ x ∷ []) ≡ length heap + 1 = length-append heap (x ∷ []) in
      let end : length heap + 1 - 1 ≡ length heap = omega arith in
      rw (size, end) (push-Heaped greater o heap x h)

  -- The loop ends at once on an empty vector.
  sift_down-nil :
      (xs : List T)
      → length xs ≡ 0
      → Returns (Heaped greater xs) (sift_down greater (length xs + 1) xs 0)
  unfolding sift_down better
  sift_down-nil [] e = record { heap = λ d c p q. absurd (omega arith); same = Perm.refl [] }
  sift_down-nil (x ∷ xs) e = absurd (omega arith)

  -- The greatest element is taken out, and nothing else.
  abbrev pub Popped : List T → Option T × List T → Type 0
  Popped heap (none, heap') = (heap ≡ []) × (heap' ≡ [])
  Popped heap (some x, heap') =
      All (λ y. greater y x ≡ false) heap × Perm (x ∷ heap') heap × IsHeap greater heap'

  -- The rest of `pop`, on a heap whose first element is `e`.
  module _ (heap : List T) (e : T) (xs : List T) (shape : heap ≡ e ∷ xs)
      (h : IsHeap greater heap) where
    size : length heap ≡ suc (length xs)
    size = ap length shape

    abbrev others : List T
    others = rest greater o e (length xs) heap size 0 (omega arith)

    others-perm : Perm (e ∷ others) heap
    others-perm =
        let root : get_or heap 0 e ≡ e = rw shape in
        rw root at (rest-perm greater o e (length xs) heap size 0 (omega arith))

    first : All (λ y. greater y e ≡ false) heap
    first =
        All-get_or (λ y. greater y e ≡ false) e heap
          (λ i p.
            let root : get_or heap 0 e ≡ e = rw shape in
            rw root at (root_least greater o e heap i (h e) p))

    Popped-others : (ys : List T) → Heaped greater others ys → Popped heap (some e, ys)
    Popped-others ys k = (first, Perm.trans (Perm.cons e k.same) others-perm, k.heap)

    sifted : Returns (Heaped greater others) (sift_down greater (length others + 1) others 0)
    sifted =
        let small = length-rest greater o e (length xs) heap size 0 (omega arith) in
        elim (Bool-cases (ltb 0 (length xs))) [
          | inl more ↦ pop-Heaped greater o e (length xs) heap size h (ltb→lt _ _ more)
          | inr last ↦
              let none_left = ltb→le _ _ last in sift_down-nil others (omega (arith, small))
        ]

    pop-cons : Returns (Popped heap) (pop greater heap)
    unfolding pop pop_last
    pop-cons =
        let n = length xs in
        let ys = swapped e heap 0 n in
        let filled : nat_beq (length heap) 0 ≡ false = ground (arith, size) in
        let at_end : length heap - 1 ≡ n = omega (arith, size) in
        let same_size : length ys ≡ suc n = length-swapped e heap 0 n ∙ size in
        let last : length ys - 1 ≡ n = omega (arith, same_size) in
        let result : get_elem? ys n ≡ some e =
          get_elem?-get_or ys n e (omega (arith, same_size))
          ∙ ap some (ground (arith, get_or-swapped e heap 0 n n, size, shape)) in
        rw
          (
            filled,
            at_end,
            swap-swapped e heap 0 n (omega (arith, size)) (omega (arith, size)),
            last,
            result,
          )
          (Returns-bind (Heaped greater others) (Popped heap) _ _ sifted Popped-others)

  pop-nil : (heap : List T) → heap ≡ [] → Returns (Popped heap) (pop greater heap)
  unfolding pop
  pop-nil heap e = rw (ap length e) (e, e)

  by_shape :
      (heap xs : List T)
      → heap ≡ xs
      → IsHeap greater heap
      → Returns (Popped heap) (pop greater heap)
  by_shape heap [] e h = pop-nil heap e
  by_shape heap (x ∷ xs) e h = pop-cons heap x xs e h

  pub pop-Popped : (heap : List T) → IsHeap greater heap → Returns (Popped heap) (pop greater heap)
  pop-Popped heap h = by_shape heap heap refl h
