-- ===== src/Core/EventStore/Refinement.antt =====
-- The store of crates/core/src/event_store.rs against its plain log.
use mathlib.Core.List.{append-nil}
use tordex.Prelude.{
  ℕ, ◌+◌, ◌≡◌, refl, sym, ap, subst, ◌∙◌, Bool, String, string_eq, ◌==◌, if◌then◌else◌, List, [],
  ◌∷◌, ◌++◌, length, nat_beq, inl, inr, Result, ok, Bool-cases, arith,
}
use tordex.Prelude.Map.{Map, get, or_default-get-insert}
use tordex.Core.EventStore.{
  EventEnvelope, EventStoreError, Inner, indices, push_index, append, record_event, clear,
  latest_version,
}
use tordex.Core.EventStore.Log.{
  Request, appends, clears, has_aggregate, has_type, history, log_step, positions, positions-append,
  length-positions,
}

indices-push_index :
    (m : Map String (List ℕ)) (k j : String) (i : ℕ)
    → indices (push_index m k i) j ≡ (if k == j then indices m j ++ i ∷ [] else indices m j)
unfolding indices push_index
indices-push_index m k j i =
    or_default-get-insert m k j (indices m k ++ i ∷ []) ∙ elim (Bool-cases (k == j)) [
      | inl same ↦ let is : k ≡ j = (string_eq.test_iff k j).0 same in rw (same, is)
      | inr other ↦ rw other
    ]

module _ {V : Type 0} where
  -- The call on the store, with its answer.
  pub step : Inner V → Request V → Result (Unit {0}) EventStoreError × Inner V
  step s (appends e) = append s e
  step s clears = (ok tt, clear s)

  unfoldable pub run :
      Inner V → List (Request V) → List (Result (Unit {0}) EventStoreError) × Inner V
  unfolding step
  run s [] = ([], s)
  run s (r ∷ rs) =
      let (answer, s') = step s r in let (answers, end) = run s' rs in (answer ∷ answers, end)

  -- The index of the map holds the positions of the events that pass the test.
  abbrev IndexedBy :
      (String → EventEnvelope V → Bool) → Map String (List ℕ) → List (EventEnvelope V) → Type 0
  IndexedBy test m log = (k : String) → indices m k ≡ positions (test k) 0 log

  pub record Represents (s : Inner V) (log : List (EventEnvelope V)) : Type 0 where
    pub holds : s.events ≡ log
    pub aggregates : IndexedBy has_aggregate s.by_aggregate log
    pub types : IndexedBy has_type s.by_type log

  push_index-IndexedBy :
      (field : EventEnvelope V → String) (m : Map String (List ℕ)) (log : List (EventEnvelope V))
      (e : EventEnvelope V)
      → IndexedBy (λ k x. field x == k) m log
      → IndexedBy (λ k x. field x == k) (push_index m (field e) (length log)) (log ++ e ∷ [])
  push_index-IndexedBy field m log e h k =
      let test = λ (x : EventEnvelope V). field x == k in
      let grown = positions-append test 0 log (e ∷ []) in
      let start : 0 + length log ≡ length log = omega arith in
      indices-push_index m (field e) k (length log) ∙ elim (Bool-cases (field e == k)) [
        | inl mine ↦ rw (mine, h k, grown, mine, start)
        | inr other ↦ rw (other, h k, grown, other, append-nil)
      ]

  pub latest_version-Represents :
      (s : Inner V) (log : List (EventEnvelope V)) (k : String)
      → Represents s log
      → latest_version s k ≡ length (history log k)
  unfolding latest_version
  latest_version-Represents s log k r =
      rw (r.aggregates k) (length-positions (has_aggregate k) 0 log)

  pub record_event-Represents :
      (s : Inner V) (log : List (EventEnvelope V)) (e : EventEnvelope V)
      → Represents s log
      → Represents (record_event s e) (log ++ e ∷ [])
  unfolding record_event
  record_event-Represents s log e r = record {
    holds = ap (λ l. l ++ e ∷ []) r.holds;
    aggregates =
        subst
          (λ n.
            IndexedBy has_aggregate (push_index s.by_aggregate e.aggregate_id n) (log ++ e ∷ []))
          (ap length (sym r.holds))
          (push_index-IndexedBy (λ x. x.aggregate_id) s.by_aggregate log e r.aggregates);
    types =
        subst (λ n. IndexedBy has_type (push_index s.by_type e.aggregate_type n) (log ++ e ∷ []))
          (ap length (sym r.holds))
          (push_index-IndexedBy (λ x. x.aggregate_type) s.by_type log e r.types);
  }

  -- One call on the store and on the log: the same answer, and the store holds the log again.
  abbrev StepRefines : Inner V → List (EventEnvelope V) → Request V → Type 0
  StepRefines s log r =
      ((step s r).0 ≡ (log_step log r).0) × Represents (step s r).1 (log_step log r).1

  pub step-Represents :
      (s : Inner V) (log : List (EventEnvelope V)) (r : Request V)
      → Represents s log
      → StepRefines s log r
  unfolding step append log_step clear indices get
  step-Represents s log (appends e) r =
      elim (Bool-cases (nat_beq e.version (length (history log e.aggregate_id) + 1))) [
        | inl next ↦
            rw (latest_version-Represents s log e.aggregate_id r, next)
              (refl, record_event-Represents s log e r)
        | inr other ↦ rw (latest_version-Represents s log e.aggregate_id r, other) (refl, r)
      ]
  step-Represents s log clears r =
      (refl, record { holds = refl; aggregates = λ k. refl; types = λ k. refl })
