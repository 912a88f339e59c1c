-- ===== src/Heap/Hole.antt =====
-- About a heap in which one element was replaced, and `sift_up` and then `sift_down` at its place.
use mathlib.Core.List.Perm
use tordex.Prelude.{
  ℕ, suc, ◌+◌, ◌<◌, ◌≡◌, ◌≢◌, inl, inr, Bool, true, List, length, get_or, arith, ltb, Bool-cases,
  ◌&&◌,
}
use tordex.Prelude.Outcome.{Outcome, Returns, Returns-bind, Returns-map, returned, ◌>>=◌}
use tordex.Prelude.Perms.{length-perm}
use tordex.Prelude.Vec.{index-get_or}
use tordex.Heap.{parent, sift_up, sift_down}
use tordex.Heap.Order.{Le, IsOrder, IsHeap, Heaped}
use tordex.Heap.Up.{UpInv, sift_up-Heaped}
use tordex.Heap.Down.{DownInv, sift_down-Heaped}

module _ {ℓ} {A : Type ℓ} (less : A → A → Bool) (o : IsOrder less) (d : A) where
  -- Only the edges at `i` may be out of order, above it and below it.
  pub record HoleInv (xs : List A) (i : ℕ) : Type ℓ where
    pub inside : i < length xs
    pub edges :
        (c : ℕ)
        → 0 < c
        → c < length xs
        → c ≢ i
        → parent c ≢ i
        → Le less (get_or xs (parent c) d) (get_or xs c d)
    pub bridge :
        (c : ℕ)
        → 0 < c
        → c < length xs
        → parent c ≡ i
        → 0 < i
        → Le less (get_or xs (parent i) d) (get_or xs c d)

  pub HoleInv-DownInv :
      (xs : List A) (i : ℕ)
      → HoleInv xs i
      → (0 < i → Le less (get_or xs (parent i) d) (get_or xs i d))
      → DownInv less o d xs i
  HoleInv-DownInv xs i v above = record {
    inside = v.inside;
    edges = λ c pos in_c away. ground (arith, v.edges c, above);
    bridge = v.bridge;
  }

  HoleInv-UpInv :
      (xs : List A) (i : ℕ)
      → HoleInv xs i
      → 0 < i
      → less (get_or xs i d) (get_or xs (parent i) d) ≡ true
      → UpInv less o d xs i
  HoleInv-UpInv xs i v pos low = record {
    inside = v.inside;
    edges = λ c pos_c in_c other. ground (
      arith,
      v.edges c,
      v.bridge c,
      o.le_of_less (get_or xs i d) (get_or xs (parent i) d),
      o.le_trans (get_or xs i d) (get_or xs (parent i) d) (get_or xs c d),
    );
    bridge = v.bridge;
  }

  -- `bubble_up(heap, i); bubble_down(heap, i);`
  abbrev pub resift : List A → ℕ → Outcome (List A)
  resift xs i = sift_up less (i + 1) xs i >>= λ ys. sift_down less (length ys + 1) ys i

  heap-DownInv : (xs : List A) (i : ℕ) → IsHeap less xs → i < length xs → DownInv less o d xs i
  heap-DownInv xs i h inside = record {
    inside = inside;
    edges = λ c pos in_c away. h d c pos in_c;
    bridge = λ c pos in_c par pos_i.
        ground (
          arith,
          h d c,
          h d i,
          o.le_trans (get_or xs (parent i) d) (get_or xs i d) (get_or xs c d),
        );
  }

  settled :
      (xs : List A) (i : ℕ)
      → i < length xs
      → (0 < i → Le less (get_or xs (parent i) d) (get_or xs i d))
      → sift_up less (i + 1) xs i ≡ returned xs
  unfolding sift_up
  settled xs i h above =
      let more : i + 1 ≡ suc i = omega arith in
      rw more (elim (Bool-cases (ltb 0 i)) [
        | inl pos ↦ rw (
          pos,
          index-get_or xs i d h,
          index-get_or xs (parent i) d (omega arith),
          above (ground arith),
        )
        | inr root ↦ rw root
      ])

  pub resift-Heaped : (xs : List A) (i : ℕ) → HoleInv xs i → Returns (Heaped less xs) (resift xs i)
  resift-Heaped xs i v =
      elim (Bool-cases (ltb 0 i && less (get_or xs i d) (get_or xs (parent i) d))) [
        | inl low ↦
            Returns-bind (Heaped less xs) (Heaped less xs) _ _
              (sift_up-Heaped less o d xs i (HoleInv-UpInv xs i v (ground arith) (ground arith)))
              (λ ys h.
                Returns-map (Heaped less ys) (Heaped less xs) _
                  (sift_down-Heaped less o d ys i
                    (heap-DownInv ys i h.heap (omega (arith, v.inside, length-perm h.same))))
                  (λ zs k. record { heap = k.heap; same = Perm.trans k.same h.same }))
        | inr high ↦
            rw (settled xs i v.inside (λ pos. ground arith))
              (sift_down-Heaped less o d xs i (HoleInv-DownInv xs i v (λ pos. ground arith)))
      ]
