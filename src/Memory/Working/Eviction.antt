-- ===== src/Memory/Working/Eviction.antt =====
-- What the eviction of crates/memory/src/working.rs keeps.
use mathlib.Core.List.{Perm, append-nil}
use mathlib.Core.List.Perm
use tordex.Prelude.{
  ℕ, zero, suc, ◌≤◌, ◌≡◌, refl, String, List, [], ◌∷◌, ◌++◌, ◌⊎◌, inl, inr, All, All-map, length,
  length-take, take, drop, take-append-drop, ltb, ltb→lt, ltb→le, leb, Bool-cases, arith,
}
use tordex.Prelude.Perms.{length-perm}
use tordex.Memory.Working.{WmEntry, InnerWm, retain_live, insert_sorted, sort_by_count, evict}

abbrev pub Entry : Type 0 → Type 0
Entry V = String × WmEntry V

module _ {V : Type 0} where
  abbrev pub LessUsed : Entry V → Entry V → Type 0
  LessUsed x y = x.1.access_count ≤ y.1.access_count

  abbrev pub Ascending : List (Entry V) → Type 0
  Ascending [] = Unit
  Ascending (x ∷ xs) = All (LessUsed x) xs × Ascending xs

  insert_sorted-perm : (x : Entry V) (ys : List (Entry V)) → Perm (insert_sorted x ys) (x ∷ ys)
  unfolding insert_sorted
  insert_sorted-perm x [] = Perm.refl _
  insert_sorted-perm x (y ∷ ys) = elim (Bool-cases (leb x.1.access_count y.1.access_count)) [
    | inl first ↦ rw first (Perm.refl _)
    | inr later ↦ rw later (Perm.trans (Perm.cons y (insert_sorted-perm x ys)) (Perm.swap x y ys))
  ]

  insert_sorted-All :
      (P : Entry V → Type 0) (x : Entry V) (ys : List (Entry V))
      → P x
      → All P ys
      → All P (insert_sorted x ys)
  unfolding insert_sorted
  insert_sorted-All P x [] p h = (p, tt)
  insert_sorted-All P x (y ∷ ys) p h = elim (Bool-cases (leb x.1.access_count y.1.access_count)) [
    | inl first ↦ rw first (p, h)
    | inr later ↦ rw later (h.0, insert_sorted-All P x ys p h.1)
  ]

  insert_sorted-Ascending :
      (x : Entry V) (ys : List (Entry V)) → Ascending ys → Ascending (insert_sorted x ys)
  unfolding insert_sorted
  insert_sorted-Ascending x [] h = (tt, tt)
  insert_sorted-Ascending x (y ∷ ys) h = elim (Bool-cases (leb x.1.access_count y.1.access_count)) [
    | inl first ↦
        let low : LessUsed x y = ground arith in
        rw first ((low, All-map (LessUsed y) (LessUsed x) ys (λ z l. omega arith) h.0), h)
    | inr later ↦
        let low : LessUsed y x = ground arith in
        rw later (insert_sorted-All (LessUsed y) x ys low h.0, insert_sorted-Ascending x ys h.1)
  ]

  sort_by_count-Ascending : (xs : List (Entry V)) → Ascending (sort_by_count xs)
  unfolding sort_by_count
  sort_by_count-Ascending [] = tt
  sort_by_count-Ascending (x ∷ xs) = insert_sorted-Ascending x _ (sort_by_count-Ascending xs)

  sort_by_count-perm : (xs : List (Entry V)) → Perm (sort_by_count xs) xs
  unfolding sort_by_count
  sort_by_count-perm [] = Perm.refl []
  sort_by_count-perm (x ∷ xs) =
      Perm.trans (insert_sorted-perm x (sort_by_count xs)) (Perm.cons x (sort_by_count-perm xs))

  drop-All : (P : Entry V → Type 0) (n : ℕ) (xs : List (Entry V)) → All P xs → All P (drop n xs)
  drop-All P zero xs h = h
  drop-All P (suc n) [] h = tt
  drop-All P (suc n) (x ∷ xs) h = drop-All P n xs h.1

  -- Each of the first entries is used at most as often as each of the others.
  take-LessUsed :
      (n : ℕ) (xs : List (Entry V))
      → Ascending xs
      → All (λ x. All (LessUsed x) (drop n xs)) (take n xs)
  take-LessUsed zero xs h = tt
  take-LessUsed (suc n) [] h = tt
  take-LessUsed (suc n) (x ∷ xs) h = (drop-All (LessUsed x) n xs h.0, take-LessUsed n xs h.1)

  -- What is left after an eviction, and what is gone besides the expired entries.
  pub record KeepsLeast (now : ℕ) (before after : InnerWm V) : Type 0 where
    pub gone : List (Entry V)
    pub bounded : length after.entries ≤ before.capacity
    pub same : Perm (after.entries ++ gone) (retain_live now before.entries)
    pub needed : (gone ≡ []) ⊎ (length after.entries ≡ before.capacity)
    pub least : All (λ x. All (LessUsed x) gone) after.entries

  All-nil : (xs : List (Entry V)) → All (λ x. All (LessUsed x) []) xs
  All-nil [] = tt
  All-nil (x ∷ xs) = (tt, All-nil xs)

  -- After an eviction there are at most as many entries as the capacity. They are unexpired entries
  -- of before; other unexpired ones are given up only if the capacity is used up; and those given
  -- up have been accessed at least as often as each one kept.
  pub evict-KeepsLeast : (now : ℕ) (inner : InnerWm V) → KeepsLeast now inner (evict now inner)
  unfolding evict
  evict-KeepsLeast now inner =
      let live = retain_live now inner.entries in
      let n = inner.capacity in
      elim (Bool-cases (ltb n (length live))) [
        | inl over ↦
            let more = ltb→lt _ _ over in
            let sorted = sort_by_count live in
            let size = length-perm (sort_by_count-perm live) in
            rw over (record {
              gone = drop n sorted;
              bounded = omega (arith, length-take n sorted);
              same = rw (take-append-drop n sorted) (sort_by_count-perm live);
              needed = inr (omega (arith, length-take n sorted));
              least = take-LessUsed n sorted (sort_by_count-Ascending live);
            })
        | inr within ↦
            let fits = ltb→le _ _ within in
            rw within (record {
              gone = [];
              bounded = fits;
              same = rw (append-nil live) (Perm.refl live);
              needed = inl refl;
              least = All-nil live;
            })
      ]
