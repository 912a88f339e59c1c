-- ===== src/Tests/Storage.antt =====
-- A tree of three chunks under a sum for a hash, and a tree of tables with a small memtable.
use tordex.Prelude.{ℕ, ◌+◌, refl, some, List, [], ◌∷◌, if◌then◌else◌, nat_eq, ◌==◌, ltb, arith}
use tordex.Prelude.Outcome.{Returns}
use tordex.Algorithms.Merkle.{from_data}
use tordex.Algorithms.Merkle.Proofs.{Proved, verify-generate_proof}
use tordex.Algorithms.Lsm.{LsmTree, lookup, insert}
use tordex.Algorithms.Lsm.Sorted.{IsLinear}
use tordex.Algorithms.Lsm.Insert.{IsValid, Holds, insert-Holds}

abbrev sum : List ℕ → ℕ
sum [] = 7
sum (b ∷ bs) = b + sum bs

abbrev one : ℕ → List ℕ
one d = d ∷ []

abbrev three : List (List ℕ)
three = (1 ∷ []) ∷ (2 ∷ 3 ∷ []) ∷ (4 ∷ []) ∷ []

verify-generate_proof_example : Proved sum one (from_data sum one three) 2 (4 ∷ [])
verify-generate_proof_example = verify-generate_proof sum one three 2 (4 ∷ []) refl

ltb-IsLinear : IsLinear nat_eq ltb
ltb-IsLinear = record {
  irreflexive = λ k. ground arith;
  transitive = λ i j k h l. ground arith;
  total = λ j k h l. ground arith;
}

abbrev small : LsmTree ℕ ℕ
small = record {
  memtable = (5, 50) ∷ [];
  sstables = ((1, 10) ∷ (5, 51) ∷ []) ∷ ((2, 20) ∷ []) ∷ ((3, 30) ∷ []) ∷ [];
  max_memtable_size = 2;
  compaction_threshold = 4;
}

small-IsValid : IsValid ltb ltb-IsLinear small
small-IsValid = record {
  room = omega arith;
  memory = (tt, tt);
  tables = (((refl, tt), (tt, tt)), ((tt, tt), ((tt, tt), tt)));
}

insert-Holds_example :
    Returns
      (Holds ltb ltb-IsLinear (λ j. if 4 == j then some 40 else lookup small j))
      (insert ltb small 4 40)
insert-Holds_example = insert-Holds ltb ltb-IsLinear small 4 40 small-IsValid
