-- ===== src/Heap/Ends.antt =====
-- The two ends at which a heap changes: an element pushed at the end, and the root taken off by a
-- swap with the last element.
use mathlib.Core.List.{Perm, perm_middle, append-nil}
use mathlib.Core.List.Perm
use tordex.Prelude.{
  ℕ, suc, ◌+◌, ◌<◌, ◌≡◌, ◌∙◌, Bool, List, [], ◌∷◌, ◌++◌, length, get_or, take, arith, length-append,
  length-take, get_or-append, get_or-take,
}
use tordex.Prelude.Outcome.{Returns, Returns-map}
use tordex.Prelude.Vec.{swapped, length-swapped, get_or-swapped, swapped-perm, take-append_last}
use tordex.Heap.{parent, sift_up, sift_down}
use tordex.Heap.Order.{IsOrder, IsHeap, Heaped}
use tordex.Heap.Up.{UpInv, sift_up-Heaped}
use tordex.Heap.Down.{sift_down-Heaped}
use tordex.Heap.Hole.{HoleInv, HoleInv-DownInv}

module _ {ℓ} {A : Type ℓ} (less : A → A → Bool) (o : IsOrder less) where
  pushed-UpInv : (xs : List A) (x : A) → IsHeap less xs → UpInv less o x (xs ++ x ∷ []) (length xs)
  pushed-UpInv xs x h =
      let size = length-append xs (x ∷ []) in
      record {
        inside = omega (arith, size);
        edges = λ c pos in_c other. ground (
          arith,
          size,
          h x c,
          get_or-append xs (x ∷ []) c x,
          get_or-append xs (x ∷ []) (parent c) x,
        );
        bridge = λ c pos in_c par pos_l. absurd (omega (arith, size));
      }

  pub push-Heaped :
      (xs : List A) (x : A)
      → IsHeap less xs
      → Returns (Heaped less (x ∷ xs)) (sift_up less (length xs + 1) (xs ++ x ∷ []) (length xs))
  push-Heaped xs x h =
      Returns-map (Heaped less (xs ++ x ∷ [])) (Heaped less (x ∷ xs)) _
        (sift_up-Heaped less o x (xs ++ x ∷ []) (length xs) (pushed-UpInv xs x h))
        (λ ys k. record {
          heap = k.heap;
          same = Perm.trans k.same (rw (append-nil xs) at (perm_middle {a = x} xs []));
        })

  -- What is left of a list when an element has changed places with the last one and is popped.
  module _ (d : A) (n : ℕ) (xs : List A) (size : length xs ≡ suc n) where
    module _ (i : ℕ) (inside : i < suc n) where
      abbrev pub rest : List A
      rest = take n (swapped d xs i n)

      pub length-rest : length rest ≡ n
      length-rest = omega (arith, length-take n (swapped d xs i n), length-swapped d xs i n)

      pub rest-perm : Perm (get_or xs i d ∷ rest) xs
      rest-perm =
          let ys = swapped d xs i n in
          let last : get_or ys n d ≡ get_or xs i d = ground (arith, get_or-swapped d xs i n n) in
          let whole : rest ++ get_or xs i d ∷ [] ≡ ys =
            rw (← last) (take-append_last d n ys (length-swapped d xs i n ∙ size)) in
          let front : Perm (rest ++ get_or xs i d ∷ []) (get_or xs i d ∷ rest) =
            rw (append-nil rest) at (perm_middle {a = get_or xs i d} rest []) in
          Perm.trans (Perm.symm front)
            (rw whole (swapped-perm d xs i n (omega arith) (omega arith)))

      pub rest-HoleInv : IsHeap less xs → i < n → HoleInv less o d rest i
      rest-HoleInv h below = record {
        inside = omega (arith, length-rest);
        edges = λ c pos_c in_c other away.
            let small : c < n = omega (arith, length-rest) in
            ground (
              arith,
              h d c,
              get_or-take n (swapped d xs i n) c d,
              get_or-take n (swapped d xs i n) (parent c) d,
              get_or-swapped d xs i n c,
              get_or-swapped d xs i n (parent c),
            );
        bridge = λ c pos_c in_c par pos_i.
            let small : c < n = omega (arith, length-rest) in
            ground (
              arith,
              o.le_trans (get_or xs (parent i) d) (get_or xs i d) (get_or xs c d),
              h d c,
              h d i,
              get_or-take n (swapped d xs i n) c d,
              get_or-take n (swapped d xs i n) (parent i) d,
              get_or-swapped d xs i n c,
              get_or-swapped d xs i n (parent i),
            );
      }

    abbrev pub popped : List A
    popped = rest 0 (omega arith)

    pub pop-Heaped :
        IsHeap less xs
        → 0 < n
        → Returns (Heaped less popped) (sift_down less (length popped + 1) popped 0)
    pop-Heaped h pos = sift_down-Heaped less o d popped 0 (
        HoleInv-DownInv less o d popped 0 (rest-HoleInv 0 (omega arith) h pos)
          (λ pos_0. absurd (omega arith)))

    -- The last element can be popped at once.
    pub take-IsHeap : IsHeap less xs → IsHeap less (take n xs)
    take-IsHeap h e c pos in_c =
        let small : c < n = omega (arith, length-take n xs) in
        ground (arith, h e c, get_or-take n xs c e, get_or-take n xs (parent c) e, length-take n xs)

    pub take-perm : Perm (get_or xs n d ∷ take n xs) xs
    take-perm =
        let front : Perm (take n xs ++ get_or xs n d ∷ []) (get_or xs n d ∷ take n xs) =
          rw (append-nil (take n xs)) at (perm_middle {a = get_or xs n d} (take n xs) []) in
        rw (take-append_last d n xs size) at (Perm.symm front)
