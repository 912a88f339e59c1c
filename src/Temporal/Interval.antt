-- ===== src/Temporal/Interval.antt =====
-- crates/temporal-graph/src/interval.rs: intervals of time, of which the end may be open. A time is
-- a number of nanoseconds. Each reading of the clock is an argument of its own. The sum of a reading
-- and `FAR_FUTURE` panics after the year 9999, which a clock that reads before the year 9000 does not
-- reach: that is not modelled.
pub mod Meet
use tordex.Prelude.{
  ℕ, ◌+◌, ◌*◌, ◌^◌, Bool, true, false, ◌&&◌, Option, some, none, ltb, leb, min, max, if◌then◌else◌,
}

pub record TimeInterval : Type 0 where
  pub start : ℕ
  pub end : Option ℕ

-- 365,000 days.
unfoldable pub far_future : ℕ
far_future = 365000 * 86400 * 10 ^ 9

unfoldable pub starting_at : ℕ → TimeInterval
starting_at start = record { start = start; end = none }

unfoldable pub bounded : ℕ → ℕ → TimeInterval
bounded start end = record { start = start; end = some end }

-- `self.end.map_or(true, |end| t < end)`
pub before_end : Option ℕ → ℕ → Bool
before_end none t = true
before_end (some end) t = ltb t end

unfoldable pub contains : TimeInterval → ℕ → Bool
unfolding before_end
contains i t = leb i.start t && before_end i.end t

pub or_far : Option ℕ → ℕ → ℕ
or_far none now = now + far_future
or_far (some end) now = end

unfoldable pub end_or_far : TimeInterval → ℕ → ℕ
unfolding or_far
end_or_far i now = or_far i.end now

unfoldable pub overlaps : TimeInterval → TimeInterval → ℕ → ℕ → Bool
unfolding end_or_far
overlaps i j now_1 now_2 = ltb i.start (end_or_far j now_2) && ltb j.start (end_or_far i now_1)

-- The clock is read for each of the two ends, and once more.
unfoldable pub intersection : TimeInterval → TimeInterval → ℕ → ℕ → ℕ → Option TimeInterval
unfolding end_or_far
intersection i j now_1 now_2 now_3 =
    let start = max i.start j.start in
    let end = min (end_or_far i now_1) (end_or_far j now_2) in
    if ltb start end
    then some
        (record { start = start; end = if leb (now_3 + far_future) end then none else some end })
    else none

pub ends_by : Option ℕ → ℕ → Bool
ends_by none t = false
ends_by (some end) t = leb end t

unfoldable pub before : TimeInterval → TimeInterval → Bool
unfolding ends_by
before i j = ends_by i.end j.start

unfoldable pub after : TimeInterval → TimeInterval → Bool
unfolding ends_by
after i j = ends_by j.end i.start

pub ends_within : Option ℕ → Option ℕ → Bool
ends_within none other = true
ends_within (some end) none = false
ends_within (some end) (some other) = leb other end

unfoldable pub contains_interval : TimeInterval → TimeInterval → Bool
unfolding ends_within
contains_interval i j = leb i.start j.start && ends_within i.end j.end
