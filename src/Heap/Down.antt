-- ===== src/Heap/Down.antt =====
-- About `sift_down` on a heap with one element too high.
use tordex.Prelude.{
  ℕ, zero, suc, ◌+◌, ◌-◌, ◌*◌, ◌<◌, ◌≡◌, ◌≢◌, ◌⊎◌, inl, inr, Bool, List, length, get_or, arith, ltb,
  nat_beq, nat_beq_iff, Bool-cases, refl,
}
use tordex.Prelude.Outcome.{Returns, Returns-if, Returns-bind}
use tordex.Prelude.Vec.{swapped, index-get_or, swap-swapped, length-swapped, get_or-swapped}
use tordex.Heap.{parent, better, sift_down}
use tordex.Heap.Order.{Le, IsOrder, Heaped, Heaped-self, Heaped-swapped}

module _ {ℓ} {A : Type ℓ} (less : A → A → Bool) (o : IsOrder less) (d : A) where
  -- Only the edges below `i` may be out of order.
  pub record DownInv (xs : List A) (i : ℕ) : Type ℓ where
    pub inside : i < length xs
    pub edges :
        (c : ℕ)
        → 0 < c
        → c < length xs
        → parent c ≢ i
        → Le less (get_or xs (parent c) d) (get_or xs c d)
    pub bridge :
        (c : ℕ)
        → 0 < c
        → c < length xs
        → parent c ≡ i
        → 0 < i
        → Le less (get_or xs (parent i) d) (get_or xs c d)

  -- What `better` picks: one of the two, in range, that comes before or with both.
  record Better (xs : List A) (best child : ℕ) (r : ℕ) : Type ℓ where
    among : (r ≡ best) ⊎ ((r ≡ child) × (child < length xs))
    before : Le less (get_or xs r d) (get_or xs best d)
    first : child < length xs → Le less (get_or xs r d) (get_or xs child d)

  better-Better :
      (xs : List A) (best child : ℕ)
      → best < length xs
      → Returns (Better xs best child) (better less xs best child)
  unfolding better
  better-Better xs best child h =
      Returns-if (Better xs best child) (ltb child (length xs)) _ _
        (λ inside.
          rw (index-get_or xs child d (ground arith), index-get_or xs best d h)
            (elim (Bool-cases (less (get_or xs child d) (get_or xs best d))) [
              | inl e ↦ rw e (record {
                among = inr (refl, ground arith);
                before = o.le_of_less _ _ e;
                first = λ _. o.le_refl _;
              })
              | inr e ↦ rw e (record { among = inl refl; before = o.le_refl _; first = λ _. e })
            ]))
        (λ beyond. record {
          among = inl refl;
          before = o.le_refl _;
          first = λ q. absurd (ground arith);
        })

  -- The place to sink to, against all children.
  record Best (xs : List A) (i m : ℕ) : Type ℓ where
    inside : m < length xs
    place : (m ≡ i) ⊎ ((0 < m) × (parent m ≡ i))
    first : (c : ℕ) → 0 < c → c < length xs → parent c ≡ i → Le less (get_or xs m d) (get_or xs c d)
    before : Le less (get_or xs m d) (get_or xs i d)

  Better-Best :
      (xs : List A) (i l m : ℕ)
      → i < length xs
      → Better xs i (2 * i + 1) l
      → Better xs l (2 * i + 2) m
      → Best xs i m
  Better-Best xs i l m h p q = record {
    inside = ground (arith, p.among, q.among);
    place = ground (arith, p.among, q.among);
    first = λ c pos in_c e. elim (Bool-cases (nat_beq c (2 * i + 1))) [
      | inl odd ↦
          let at : c ≡ 2 * i + 1 = (nat_beq_iff _ _).0 odd in
          o.le_trans (get_or xs m d) (get_or xs l d) (get_or xs c d) q.before
            (rw at (p.first (omega arith)))
      | inr even ↦ let at : c ≡ 2 * i + 2 = ground arith in rw at (q.first (omega arith))
    ];
    before = o.le_trans (get_or xs m d) (get_or xs l d) (get_or xs i d) q.before p.before;
  }

  swapped-DownInv :
      (xs : List A) (i m : ℕ) → DownInv xs i → Best xs i m → m ≢ i → DownInv (swapped d xs i m) m
  swapped-DownInv xs i m v b ne =
      let at = λ (k : ℕ). get_or-swapped d xs i m k v.inside b.inside in
      let below : (0 < m) × (parent m ≡ i) = ground (arith, b.place) in
      let pos_m : 0 < m = below.0 in
      let par_m : parent m ≡ i = below.1 in
      record {
        inside = omega (arith, length-swapped d xs i m, b.inside);
        edges = λ c pos in_c other.
            let in_xs : c < length xs = omega (arith, length-swapped d xs i m) in
            ground
              (arith, at c, at (parent c), v.edges c, v.bridge m, b.first c, b.before, b.inside);
        bridge = λ c pos in_c par pos_m'.
            let in_xs : c < length xs = omega (arith, length-swapped d xs i m) in
            ground (arith, at c, at (parent m), v.edges c);
      }

  sift_down_within :
      (fuel : ℕ) (xs : List A) (i : ℕ)
      → length xs - i < fuel
      → DownInv xs i
      → Returns (Heaped less xs) (sift_down less fuel xs i)
  unfolding sift_down
  sift_down_within zero xs i f v = absurd (omega arith)
  sift_down_within (suc fuel) xs i f v =
      Returns-bind (Better xs i (2 * i + 1)) (Heaped less xs) _ _
        (better-Better xs i (2 * i + 1) v.inside)
        (λ l p.
          Returns-bind (Better xs l (2 * i + 2)) (Heaped less xs) _ _
            (better-Better xs l (2 * i + 2) (ground (arith, p.among, v.inside)))
            (λ m q.
              let b : Best xs i m = Better-Best xs i l m v.inside p q in
              Returns-if (Heaped less xs) (nat_beq m i) _ _
                (λ settled.
                  Heaped-self less d xs (λ c pos in_c. ground (arith, v.edges c, b.first c)))
                (λ moved. rw (swap-swapped d xs i m v.inside b.inside) (
                  Heaped-swapped less d xs i m v.inside b.inside _ (
                    sift_down_within fuel (swapped d xs i m) m
                      (ground (arith, length-swapped d xs i m, b.place, b.inside))
                      (swapped-DownInv xs i m v b (ground arith)))))))

  -- `bubble_down` ends without a panic, with a heap of the same elements.
  pub sift_down-Heaped :
      (xs : List A) (i : ℕ)
      → DownInv xs i
      → Returns (Heaped less xs) (sift_down less (length xs + 1) xs i)
  sift_down-Heaped xs i v = sift_down_within (length xs + 1) xs i (omega arith) v
