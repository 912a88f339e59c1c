-- ===== src/Core/EventStore/Reads.antt =====
-- The reading methods of crates/core/src/event_store.rs against a plain log.
use tordex.Prelude.{
  ℕ, suc, ◌≡◌, refl, sym, ap, ◌∙◌, Bool, Option, some, none, String, string_eq, List, [], ◌∷◌,
  length, or_default, keep, ltb, inl, inr, get_elem?, Bool-cases, arith,
}
use tordex.Prelude.Map.{Map, get}
use tordex.Prelude.Outcome.{returned, index, >>=-returned}
use tordex.Core.EventStore.{
  EventEnvelope, Inner, fetch, fetch_since, indices, new_store, read_events, read_all, read_since,
  read_since_version, latest_version, count, total_count,
}
use tordex.Core.EventStore.Log.{
  Request, has_aggregate, has_type, history, log_step, log_run, positions, length-positions,
  StandsAt, StandsAt-tail, index-head,
}
use tordex.Core.EventStore.Refinement.{
  Represents, latest_version-Represents, step, run, step-Represents,
}

-- A missing key counts as the empty vector for every loop over the indices.
or_default-loop {ℓ} :
    {B : Type ℓ} (loop : List ℕ → B) (nothing : B) (o : Option (List ℕ))
    → loop [] ≡ nothing
    → (elim o [ none ↦ nothing | some v ↦ loop v ]) ≡ loop (or_default o)
or_default-loop loop nothing none e = sym e
or_default-loop loop nothing (some v) e = refl

module _ {V : Type 0} where
  fetch-positions :
      (test : EventEnvelope V → Bool) (all : List (EventEnvelope V)) (i : ℕ)
      (xs : List (EventEnvelope V))
      → StandsAt all i xs
      → fetch all (positions test i xs) ≡ returned (keep test xs)
  unfolding fetch
  fetch-positions test all i [] h = refl
  fetch-positions test all i (x ∷ xs) h =
      let rest = fetch-positions test all (suc i) xs (StandsAt-tail all i x xs h) in
      elim (Bool-cases (test x)) [
        | inl pass ↦ rw (pass, index-head all i x xs h, rest)
        | inr fail ↦ rw (fail, rest)
      ]

  fetch_since-fetch :
      (all : List (EventEnvelope V)) (since : ℕ) (is : List ℕ) (es : List (EventEnvelope V))
      → fetch all is ≡ returned es
      → fetch_since all since is ≡ returned (keep (λ e. ltb since e.version) es)
  unfolding fetch fetch_since
  fetch_since-fetch all since [] es h = ground arith
  fetch_since-fetch all since (i ∷ is) es h =
      let first = >>=-returned (index all i) _ h in
      let second = >>=-returned (fetch all is) _ first.2 in
      rw (first.1, fetch_since-fetch all since is second.0 second.1) (ground arith)

  -- What the reading methods answer, for a store that holds the log.
  pub record Observes (s : Inner V) (log : List (EventEnvelope V)) : Type 0 where
    pub reads_events : (k : String) → read_events s k ≡ returned (history log k)
    pub reads_all : (k : String) → read_all s k ≡ returned (keep (has_type k) log)
    pub reads_since : (id : ℕ) → read_since s id ≡ keep (λ e. ltb id e.id) log
    pub reads_since_version :
        (k : String) (v : ℕ)
        → read_since_version s k v ≡ returned (keep (λ e. ltb v e.version) (history log k))
    pub latest : (k : String) → latest_version s k ≡ length (history log k)
    pub counts : (k : String) → count s k ≡ length (keep (has_type k) log)
    pub total : total_count s ≡ length log

  fetched_log :
      (s : Inner V) (log : List (EventEnvelope V)) (test : String → EventEnvelope V → Bool)
      (m : Map String (List ℕ)) (k : String)
      → s.events ≡ log
      → indices m k ≡ positions (test k) 0 log
      → fetch s.events (indices m k) ≡ returned (keep (test k) log)
  fetched_log s log test m k holds indexed =
      rw (indexed, holds)
        (fetch-positions (test k) log 0 log (λ j small. ap (get_elem? log) (omega arith)))

  pub Represents-Observes :
      (s : Inner V) (log : List (EventEnvelope V)) → Represents s log → Observes s log
  unfolding read_events read_all read_since read_since_version count total_count fetch fetch_since
      indices
  Represents-Observes s log r = record {
    reads_events = λ k.
        or_default-loop (fetch s.events) _ (get s.by_aggregate k) refl
        ∙ fetched_log s log has_aggregate s.by_aggregate k r.holds (r.aggregates k);
    reads_all = λ k.
        or_default-loop (fetch s.events) _ (get s.by_type k) refl
        ∙ fetched_log s log has_type s.by_type k r.holds (r.types k);
    reads_since = λ id. ap (keep _) r.holds;
    reads_since_version = λ k v.
        or_default-loop (fetch_since s.events v) _ (get s.by_aggregate k) refl
        ∙ fetch_since-fetch s.events v _ _
            (fetched_log s log has_aggregate s.by_aggregate k r.holds (r.aggregates k));
    latest = λ k. latest_version-Represents s log k r;
    counts = λ k. rw (r.types k) (length-positions (has_type k) 0 log);
    total = ap length r.holds;
  }

  -- The same answers, and a store that answers every read from the log.
  abbrev pub RunRefines : List (Request V) → Type 0
  RunRefines rs =
      ((run new_store rs).0 ≡ (log_run [] rs).0) × Observes (run new_store rs).1 (log_run [] rs).1

  pub run-Represents :
      (s : Inner V) (log : List (EventEnvelope V)) (rs : List (Request V))
      → Represents s log
      → ((run s rs).0 ≡ (log_run log rs).0) × Represents (run s rs).1 (log_run log rs).1
  unfolding run log_run
  run-Represents s log [] r = (refl, r)
  run-Represents s log (c ∷ rs) r =
      let now = step-Represents s log c r in
      let later = run-Represents (step s c).1 (log_step log c).1 rs now.1 in (cc, later.1)

  pub new-Represents : Represents {V = V} new_store []
  unfolding new_store indices get
  new-Represents = record { holds = refl; aggregates = λ k. refl; types = λ k. refl }

  -- For every sequence of appends and clears on a new store, each call answers as it would on a
  -- plain log that accepts an event exactly when its version follows the number of its
  -- aggregate's events; and after the sequence every reading method, for every key, answers by
  -- filtering that log in its order, with no index out of range.
  pub run-RunRefines : (rs : List (Request V)) → RunRefines rs
  run-RunRefines rs =
      let both = run-Represents new_store [] rs new-Represents in
      (both.0, Represents-Observes _ _ both.1)
