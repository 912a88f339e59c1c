-- ===== src/Algorithms/Lsm/Chunks.antt =====
-- About the tables that `compact` of `LSMTree` makes, crates/algorithms/src/storage.rs.
use tordex.Prelude.{
  ℕ, zero, suc, ◌*◌, ◌%◌, ◌^◌, ◌≤◌, ◌<◌, ◌≡◌, refl, sym, ap, ap₂, subst, ◌∙◌, Bool, false, Option,
  some, none, List, [], ◌∷◌, ◌++◌, map, Eq, ◌==◌, length, length-drop, take, drop, All, ltb,
  nat_beq, Bool-cases, inl, inr, arith,
}
use tordex.Prelude.Outcome.{Returns}
use tordex.Prelude.Map.{Map, get}
use tordex.Algorithms.Lsm.{or_else, last_found, chunks, insert_all, merge, split}
use tordex.Algorithms.Lsm.Sorted.{
  IsLinear, Above, IsSorted, insert_all-IsSorted, get-Above, get-insert_all,
}

or_else-none : {A : Type 0} (a : Option A) → or_else a none ≡ a
or_else-none none = refl
or_else-none (some x) = refl

or_else-or_else :
    {A : Type 0} (a b c : Option A) → or_else (or_else a b) c ≡ or_else a (or_else b c)
or_else-or_else none b c = refl
or_else-or_else (some x) b c = refl

module _ {K V : Type 0} ⦃keys : Eq K⦄ (lt : K → K → Bool) (laws : IsLinear keys lt) where
  Above-take : (i : K) (n : ℕ) (m : Map K V) → Above lt i m → Above lt i (take n m)
  Above-take i zero m a = tt
  Above-take i (suc n) [] a = tt
  Above-take i (suc n) ((j, w) ∷ m) a = (a.0, Above-take i n m a.1)

  take-IsSorted : (n : ℕ) (m : Map K V) → IsSorted lt m → IsSorted lt (take n m)
  take-IsSorted zero m s = tt
  take-IsSorted (suc n) [] s = tt
  take-IsSorted (suc n) ((j, w) ∷ m) s = (Above-take j n m s.0, take-IsSorted n m s.1)

  drop-IsSorted : (n : ℕ) (m : Map K V) → IsSorted lt m → IsSorted lt (drop n m)
  drop-IsSorted zero m s = s
  drop-IsSorted (suc n) [] s = tt
  drop-IsSorted (suc n) ((j, w) ∷ m) s = drop-IsSorted n m s.1

  -- What the later chunks and the first one have of a key is what the map has of it.
  get-take-drop :
      (n : ℕ) (m : Map K V) (k : K)
      → IsSorted lt m
      → or_else (get (drop n m) k) (get (take n m) k) ≡ get m k
  unfolding get
  get-take-drop zero m k s = or_else-none (get m k)
  get-take-drop (suc n) [] k s = refl
  get-take-drop (suc n) ((j, w) ∷ m) k s = elim (Bool-cases (j == k)) [
    | inl same ↦
        let is : j ≡ k = (keys.test_iff j k).0 same in
        let gone : get m k ≡ none = get-Above lt laws k m (subst (λ x. Above lt x m) is s.0) in
        let part = get-take-drop n m k s.1 in rw same (ground (arith, part, gone))
    | inr other ↦ rw other (get-take-drop n m k s.1)
  ]

  last_found-chunks :
      (fuel n : ℕ) (m : Map K V) (k : K)
      → 0 < n
      → length m ≤ fuel
      → IsSorted lt m
      → last_found (map (λ c. insert_all lt [] c) (chunks fuel n m)) k ≡ get m k
  unfolding chunks last_found get
  last_found-chunks zero n [] k pos h s = refl
  last_found-chunks zero n (e ∷ m) k pos h s = absurd (omega arith)
  last_found-chunks (suc fuel) n [] k pos h s = refl
  last_found-chunks (suc fuel) n (e ∷ m) k pos h s =
      ap₂ or_else
        (last_found-chunks fuel n (drop n (e ∷ m)) k pos (omega (arith, length-drop n (e ∷ m)))
          (drop-IsSorted n (e ∷ m) s))
        (get-insert_all lt laws [] (take n (e ∷ m)) k (take-IsSorted n (e ∷ m) s)
          ∙ or_else-none (get (take n (e ∷ m)) k))
      ∙ get-take-drop n (e ∷ m) k s

  chunks-IsSorted :
      (cs : List (List (K × V))) → All (IsSorted lt) (map (λ c. insert_all lt [] c) cs)
  chunks-IsSorted [] = tt
  chunks-IsSorted (c ∷ cs) = (insert_all-IsSorted lt laws [] c tt, chunks-IsSorted cs)

  -- The tables are sorted, and a search of them finds what the merged map has.
  pub record Tables (m : Map K V) (ts : List (Map K V)) : Type 0 where
    pub ordered : All (IsSorted lt) ts
    pub same : (k : K) → last_found ts k ≡ get m k

  pub split-Tables :
      (max : ℕ) (m : Map K V) → 0 < max → IsSorted lt m → Returns (Tables m) (split lt max m)
  unfolding split last_found
  split-Tables max m pos s =
      let positive : nat_beq max 0 ≡ false = ground arith in
      elim (Bool-cases (ltb ((max * 2) % 2 ^ 64) (length m))) [
        | inl many ↦
            rw (many, positive)
              (record {
                ordered = chunks-IsSorted (chunks (length m) max m);
                same = λ k. last_found-chunks (length m) max m k pos (omega arith) s;
              })
        | inr few ↦ rw few (record { ordered = (s, tt); same = λ k. refl })
      ]

  -- Merging the tables, the later over the earlier ones.
  pub get-merge :
      (m : Map K V) (ss : List (Map K V)) (k : K)
      → All (IsSorted lt) ss
      → get (merge lt m ss) k ≡ or_else (last_found ss k) (get m k)
  unfolding merge last_found
  get-merge m [] k s = refl
  get-merge m (t ∷ ss) k s =
      get-merge (insert_all lt m t) ss k s.1
      ∙ ap (or_else (last_found ss k)) (get-insert_all lt laws m t k s.0)
      ∙ sym (or_else-or_else (last_found ss k) (get t k) (get m k))

  pub merge-IsSorted :
      (m : Map K V) (ss : List (Map K V)) → IsSorted lt m → IsSorted lt (merge lt m ss)
  unfolding merge
  merge-IsSorted m [] s = s
  merge-IsSorted m (t ∷ ss) s =
      merge-IsSorted (insert_all lt m t) ss (insert_all-IsSorted lt laws m t s)

  pub last_found-append :
      (ss : List (Map K V)) (t : Map K V) (k : K)
      → last_found (ss ++ t ∷ []) k ≡ or_else (get t k) (last_found ss k)
  unfolding last_found
  last_found-append [] t k = sym (or_else-none (get t k))
  last_found-append (s ∷ ss) t k =
      ap (λ a. or_else a (get s k)) (last_found-append ss t k)
      ∙ or_else-or_else (get t k) (last_found ss k) (get s k)
