-- ===== src/Tests/Recall.antt =====
-- Numbers in a heap, a working memory of two entries, and intervals with open ends.
use tordex.Prelude.{
  ℕ, ◌+◌, ◌<◌, ◌≡◌, Bool, ◌&&◌, some, none, List, [], ◌∷◌, length, ltb, max, if◌then◌else◌, arith,
}
use tordex.Prelude.Outcome.{Returns, ◌>>=◌}
use tordex.Heap.Order.{IsOrder}
use tordex.Algorithms.BinaryHeap.Drain.{push_each, pop_each, SortedOf, pop_each-push_each}
use tordex.Memory.Working.{WmEntry, InnerWm, evict}
use tordex.Memory.Working.Eviction.{KeepsLeast, evict-KeepsLeast}
use tordex.Temporal.Interval.{
  TimeInterval, far_future, contains, intersection, starting_at, bounded,
}
use tordex.Temporal.Interval.Meet.{contains_some, contains-intersection, intersection-starting_at}

abbrev above : ℕ → ℕ → Bool
above x y = ltb y x

above-IsOrder : IsOrder above
above-IsOrder = record {
  le_trans = λ x y z p q. ground arith;
  le_of_less = λ x y p. ground arith;
  le_refl = λ x. ground arith;
}

abbrev numbers : List ℕ
numbers = 2 ∷ 7 ∷ 1 ∷ 7 ∷ []

pop_each-push_each_example :
    Returns
      (SortedOf above numbers)
      (push_each above [] numbers >>= λ heap. pop_each above (length heap + 1) heap)
pop_each-push_each_example = pop_each-push_each above above-IsOrder numbers

abbrev entry : ℕ → WmEntry ℕ
entry uses = record { key = "k"; value = 0; created_at = 0; ttl_secs = 0; access_count = uses }

-- One entry too many: the one that was used most goes.
abbrev crowded : InnerWm ℕ
crowded = record {
  entries = ("hot", entry 9) ∷ ("warm", entry 4) ∷ ("cold", entry 0) ∷ [];
  capacity = 2;
  default_ttl_secs = 300;
}

evict-KeepsLeast_example : KeepsLeast 5 crowded (evict 5 crowded)
evict-KeepsLeast_example = evict-KeepsLeast 5 crowded

abbrev shift : TimeInterval
shift = record { start = 10; end = some 20 }

abbrev since_15 : TimeInterval
since_15 = record { start = 15; end = none }

near : 16 < 100 + far_future
unfolding far_future
near = omega arith

contains-intersection_example :
    contains_some (intersection shift since_15 100 101 102) 16
    ≡ (contains shift 16 && contains since_15 16)
contains-intersection_example =
    contains-intersection shift since_15 16 100 101 102 (omega arith) (omega arith) near

soon : max 10 15 < 100 + far_future
unfolding far_future
soon = omega arith

intersection-starting_at_example :
    intersection (starting_at 10) (starting_at 15) 100 101 102
    ≡ some (if ltb 100 102 then bounded (max 10 15) (100 + far_future) else starting_at (max 10 15))
intersection-starting_at_example =
    intersection-starting_at 10 15 100 101 102 (omega arith) (omega arith) soon
