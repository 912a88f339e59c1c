-- ===== src/Core/EventStore/Log.antt =====
-- What crates/core/src/event_store.rs promises, on a plain log: an event is accepted if its version
-- follows the number of its aggregate's events.
use tordex.Prelude.{
  ℕ, suc, ◌+◌, ◌<◌, ◌≡◌, refl, ap, Bool, String, string_eq, ◌==◌, if◌then◌else◌, List, [], ◌∷◌,
  ◌++◌, length, keep, nat_beq, inl, inr, Result, ok, err, get_elem?, Bool-cases, arith,
}
use tordex.Prelude.Outcome.{returned, index}
use tordex.Core.EventStore.{EventEnvelope, EventStoreError, version_conflict}

-- A call that changes the store.
pub data Request (V : Type 0) : Type 0 where
  appends : EventEnvelope V → Request V
  clears : Request V

module _ {V : Type 0} where
  abbrev pub has_aggregate : String → EventEnvelope V → Bool
  has_aggregate k e = e.aggregate_id == k

  abbrev pub has_type : String → EventEnvelope V → Bool
  has_type k e = e.aggregate_type == k

  -- The events of an aggregate, in the order of the log.
  abbrev pub history : List (EventEnvelope V) → String → List (EventEnvelope V)
  history log k = keep (has_aggregate k) log

  unfoldable pub log_append :
      List (EventEnvelope V)
      → EventEnvelope V
      → Result (Unit {0}) EventStoreError × List (EventEnvelope V)
  log_append log e =
      let next = length (history log e.aggregate_id) + 1 in
      if nat_beq e.version next
      then (ok tt, log ++ e ∷ [])
      else (err (version_conflict e.aggregate_id next e.version), log)

  unfoldable pub log_step :
      List (EventEnvelope V)
      → Request V
      → Result (Unit {0}) EventStoreError × List (EventEnvelope V)
  unfolding log_append
  log_step log (appends e) = log_append log e
  log_step log clears = (ok tt, [])

  -- The answers to a list of requests, and the log after them.
  unfoldable pub log_run :
      List (EventEnvelope V)
      → List (Request V)
      → List (Result (Unit {0}) EventStoreError) × List (EventEnvelope V)
  unfolding log_step
  log_run log [] = ([], log)
  log_run log (r ∷ rs) =
      let (answer, log') = log_step log r in
      let (answers, end) = log_run log' rs in (answer ∷ answers, end)

module _ {ℓ} {A : Type ℓ} where
  -- The positions of the elements that pass the test, the first element being at `i`.
  abbrev pub positions : (A → Bool) → ℕ → List A → List ℕ
  positions test i [] = []
  positions test i (x ∷ xs) =
      if test x then i ∷ positions test (suc i) xs else positions test (suc i) xs

  pub positions-append :
      (test : A → Bool) (i : ℕ) (xs ys : List A)
      → positions test i (xs ++ ys) ≡ positions test i xs ++ positions test (i + length xs) ys
  positions-append test i [] ys = ap (λ n. positions test n ys) (omega arith)
  positions-append test i (x ∷ xs) ys =
      let moved : suc i + length xs ≡ i + length (x ∷ xs) = omega arith in
      let rest = rw moved at (positions-append test (suc i) xs ys) in
      elim (Bool-cases (test x)) [ inl pass ↦ rw pass (ap (◌∷◌ i) rest) | inr fail ↦ rw fail rest ]

  pub length-positions :
      (test : A → Bool) (i : ℕ) (xs : List A) → length (positions test i xs) ≡ length (keep test xs)
  length-positions test i [] = refl
  length-positions test i (x ∷ xs) = ground (arith, length-positions test (suc i) xs)

  -- `xs` stands in `all` from `i` on.
  abbrev pub StandsAt : List A → ℕ → List A → Type ℓ
  StandsAt all i xs = (j : ℕ) → j < length xs → get_elem? all (i + j) ≡ get_elem? xs j

  pub StandsAt-tail :
      (all : List A) (i : ℕ) (x : A) (xs : List A)
      → StandsAt all i (x ∷ xs)
      → StandsAt all (suc i) xs
  StandsAt-tail all i x xs h j small =
      let moved : i + suc j ≡ suc i + j = omega arith in rw moved at (h (suc j) (omega arith))

  pub index-head :
      (all : List A) (i : ℕ) (x : A) (xs : List A)
      → StandsAt all i (x ∷ xs)
      → index all i ≡ returned x
  unfolding index
  index-head all i x xs h =
      let here : i + 0 ≡ i = omega arith in rw (rw here at (h 0 (omega arith)))
