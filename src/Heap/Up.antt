-- ===== src/Heap/Up.antt =====
-- About `sift_up` on a heap with one element too low.
use tordex.Prelude.{ℕ, zero, suc, ◌+◌, ◌<◌, ◌≡◌, ◌≢◌, Bool, true, List, length, get_or, arith, ltb}
use tordex.Prelude.Outcome.{Returns, Returns-if}
use tordex.Prelude.Vec.{swapped, index-get_or, swap-swapped, length-swapped, get_or-swapped}
use tordex.Heap.{parent, sift_up}
use tordex.Heap.Order.{Le, IsOrder, Heaped, Heaped-self, Heaped-swapped}

module _ {ℓ} {A : Type ℓ} (less : A → A → Bool) (o : IsOrder less) (d : A) where
  -- Only the edge above `i` may be out of order.
  pub record UpInv (xs : List A) (i : ℕ) : Type ℓ where
    pub inside : i < length xs
    pub edges :
        (c : ℕ) → 0 < c → c < length xs → c ≢ i → Le less (get_or xs (parent c) d) (get_or xs c d)
    pub bridge :
        (c : ℕ)
        → 0 < c
        → c < length xs
        → parent c ≡ i
        → 0 < i
        → Le less (get_or xs (parent i) d) (get_or xs c d)

  swapped-UpInv :
      (xs : List A) (i : ℕ)
      → UpInv xs i
      → 0 < i
      → less (get_or xs i d) (get_or xs (parent i) d) ≡ true
      → UpInv (swapped d xs i (parent i)) (parent i)
  swapped-UpInv xs i v pos below =
      let p = parent i in
      let at = λ (k : ℕ). get_or-swapped d xs i p k v.inside (omega arith) in
      let x = get_or xs i d in
      let y = get_or xs p d in
      record {
        inside = omega (arith, length-swapped d xs i p);
        edges = λ c pos_c in_c other.
            let in_xs : c < length xs = omega (arith, length-swapped d xs i p) in
            ground (
              arith,
              at c,
              at (parent c),
              o.le_of_less x y,
              v.edges c,
              v.bridge c,
              o.le_trans x y (get_or xs c d),
            );
        bridge = λ c pos_c in_c below_p pos_p.
            let in_xs : c < length xs = omega (arith, length-swapped d xs i p) in
            ground (
              arith,
              at c,
              at (parent p),
              v.edges p,
              v.edges c,
              o.le_trans (get_or xs (parent p) d) y (get_or xs c d),
            );
      }

  sift_up_within :
      (fuel : ℕ) (xs : List A) (i : ℕ)
      → i < fuel
      → UpInv xs i
      → Returns (Heaped less xs) (sift_up less fuel xs i)
  unfolding sift_up
  sift_up_within zero xs i f v = absurd (omega arith)
  sift_up_within (suc fuel) xs i f v =
      let above : parent i < length xs = omega (arith, v.inside) in
      let ys = swapped d xs i (parent i) in
      rw
        (
          index-get_or xs i d v.inside,
          index-get_or xs (parent i) d above,
          swap-swapped d xs i (parent i) v.inside above,
        )
        (Returns-if (Heaped less xs) (ltb 0 i) _ _
          (λ pos.
            Returns-if (Heaped less xs) (less (get_or xs i d) (get_or xs (parent i) d)) _ _
              (λ below. Heaped-swapped less d xs i (parent i) v.inside above _ (
                sift_up_within fuel ys (parent i) (ground arith)
                  (swapped-UpInv xs i v (ground arith) below)))
              (λ settled. Heaped-self less d xs (λ c p q. ground (arith, v.edges c))))
          (λ root. Heaped-self less d xs (λ c p q. v.edges c p q (ground arith))))

  -- `bubble_up` ends without a panic, with a heap of the same elements.
  pub sift_up-Heaped :
      (xs : List A) (i : ℕ) → UpInv xs i → Returns (Heaped less xs) (sift_up less (i + 1) xs i)
  sift_up-Heaped xs i v = sift_up_within (i + 1) xs i (omega arith) v
