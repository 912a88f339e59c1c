-- ===== src/Temporal/Interval/Meet.antt =====
-- The intersection of crates/temporal-graph/src/interval.rs.
use tordex.Prelude.{
  ℕ, ◌+◌, ◌≤◌, ◌<◌, ◌≡◌, Bool, true, false, ◌&&◌, Option, some, none, ltb, leb, min, max,
  if◌then◌else◌, arith, ◌≢◌, ◌↔◌, ◌∙◌,
}
use tordex.Temporal.Interval.{
  TimeInterval, far_future, before_end, contains, or_far, end_or_far, overlaps, intersection,
  contains_interval, starting_at, bounded, ends_within,
}

-- Whether a time lies in an interval that may not be there.
abbrev pub contains_some : Option TimeInterval → ℕ → Bool
contains_some none t = false
contains_some (some i) t = contains i t

within_ends :
    (s t n m k : ℕ) (e f : Option ℕ)
    → n ≤ m
    → m ≤ k
    → t < n + far_future
    → contains_some
        (if ltb s (min (or_far e n) (or_far f m))
          then some (record {
            start = s;
            end =
                if leb (k + far_future) (min (or_far e n) (or_far f m))
                then none
                else some (min (or_far e n) (or_far f m));
          })
          else none)
        t
      ≡ (leb s t && (before_end e t && before_end f t))
unfolding contains before_end or_far
within_ends s t n m k none none nm mk near = ground arith
within_ends s t n m k none (some f) nm mk near = ground arith
within_ends s t n m k (some e) none nm mk near = ground arith
within_ends s t n m k (some e) (some f) nm mk near = ground arith

-- Up to the far future, and for readings of the clock that do not go back, a time lies in the
-- intersection of two intervals exactly if it lies in both; if there is no intersection, no such
-- time lies in both.
pub contains-intersection :
    (i j : TimeInterval) (t now_1 now_2 now_3 : ℕ)
    → now_1 ≤ now_2
    → now_2 ≤ now_3
    → t < now_1 + far_future
    → contains_some (intersection i j now_1 now_2 now_3) t ≡ (contains i t && contains j t)
unfolding contains intersection end_or_far
contains-intersection i j t now_1 now_2 now_3 p q near =
    within_ends (max i.start j.start) t now_1 now_2 now_3 i.end j.end p q near
    ∙ both (before_end i.end t) (before_end j.end t)
  where
    both :
        (x y : Bool)
        → (leb (max i.start j.start) t && (x && y)) ≡ ((leb i.start t && x) && (leb j.start t && y))
    both x y = ground arith

-- The intersection of two intervals with open ends that start before the far future has an open end
-- only if the clock stands still between its three readings. Otherwise it ends at the first
-- reading's far future.
pub intersection-starting_at :
    (s s' now_1 now_2 now_3 : ℕ)
    → now_1 ≤ now_2
    → now_2 ≤ now_3
    → max s s' < now_1 + far_future
    → intersection (starting_at s) (starting_at s') now_1 now_2 now_3
      ≡ some (
          if ltb now_1 now_3
          then bounded (max s s') (now_1 + far_future)
          else starting_at (max s s'))
unfolding intersection starting_at bounded end_or_far or_far
intersection-starting_at s s' now_1 now_2 now_3 p q near = ground arith

-- Two intervals, neither empty nor starting in the far future, overlap exactly if they intersect.
pub overlaps-intersection :
    (i j : TimeInterval) (now_1 now_2 now_3 : ℕ)
    → i.start < end_or_far i now_1
    → j.start < end_or_far j now_2
    → (overlaps i j now_1 now_2 ≡ true) ↔ (intersection i j now_1 now_2 now_3 ≢ none)
unfolding overlaps intersection
overlaps-intersection i j now_1 now_2 now_3 p q = (λ h. ground arith, λ h. ground arith)

-- Everything in an interval that another contains lies in the other.
pub contains_interval-contains :
    (i j : TimeInterval) (t : ℕ)
    → contains_interval i j ≡ true
    → contains j t ≡ true
    → contains i t ≡ true
unfolding contains_interval contains
contains_interval-contains i j t h k = ends (i.end) (j.end) h k
  where
    ends :
        (e f : Option ℕ)
        → (leb i.start j.start && ends_within e f) ≡ true
        → (leb j.start t && before_end f t) ≡ true
        → (leb i.start t && before_end e t) ≡ true
    ends none f h k = ground arith
    ends (some e) none h k = ground arith
    ends (some e) (some f) h k = ground arith
