-- ===== src/Core/EventStore/Recovery.antt =====
-- Versions of the events in crates/core/src/event_store.rs, and recovery of an aggregate from a
-- snapshot and the later events.
use mathlib.Core.List.{append-nil, map-append, foldl-append}
use tordex.Prelude.{
  ℕ, zero, suc, ◌+◌, ◌-◌, ◌≡◌, refl, sym, ap, ◌∙◌, String, string_eq, ◌==◌, keep-append, List, [],
  ◌∷◌, ◌++◌, map, foldl, length, length-append, keep, ltb, nat_beq, nat_beq_iff, take, drop,
  take-append-drop, inl, inr, Bool-cases, arith, ltb→lt, ltb→le,
}
use tordex.Prelude.Outcome.{returned, Returns}
use tordex.Core.EventStore.{
  EventEnvelope, new_store, read_events, read_since_version, latest_version, replay,
}
use tordex.Core.EventStore.Log.{Request, appends, clears, has_aggregate, history, log_step, log_run}
use tordex.Core.EventStore.Refinement.{run}
use tordex.Core.EventStore.Reads.{run-RunRefines}

-- `n` numbers from `a` on.
abbrev pub numbers : ℕ → ℕ → List ℕ
numbers a zero = []
numbers a (suc n) = a ∷ numbers (suc a) n

numbers-suc : (a n : ℕ) → numbers a n ++ (a + n) ∷ [] ≡ numbers a (n + 1)
numbers-suc a zero = ap (λ x. x ∷ []) (omega arith)
numbers-suc a (suc n) =
    let moved : suc a + n ≡ a + suc n = omega arith in
    let grown : suc n + 1 ≡ suc (n + 1) = omega arith in
    rw grown (ap (◌∷◌ a) (rw moved at (numbers-suc (suc a) n)))

module _ {ℓ} {A : Type ℓ} where
  drop-nil : (n : ℕ) → drop {A = A} n [] ≡ []
  drop-nil zero = refl
  drop-nil (suc n) = refl

module _ {V : Type 0} where
  abbrev pub versions : List (EventEnvelope V) → List ℕ
  versions es = map (λ e. e.version) es

  -- The versions of each aggregate count from one.
  abbrev Numbered : List (EventEnvelope V) → Type 0
  Numbered log = (k : String) → versions (history log k) ≡ numbers 1 (length (history log k))

  append-Numbered :
      (log : List (EventEnvelope V)) (e : EventEnvelope V)
      → e.version ≡ length (history log e.aggregate_id) + 1
      → Numbered log
      → Numbered (log ++ e ∷ [])
  append-Numbered log e next numbered k = elim (Bool-cases (e.aggregate_id == k)) [
    | inl mine ↦
        let is : e.aggregate_id ≡ k = (string_eq.test_iff e.aggregate_id k).0 mine in
        let es = history log k in
        let version : e.version ≡ 1 + length es =
          next ∙ ap (λ i. length (history log i) + 1) is ∙ (omega arith) in
        rw
          (
            keep-append (has_aggregate k) log (e ∷ []),
            mine,
            map-append,
            length-append es (e ∷ []),
            numbered k,
            version,
          )
          (numbers-suc 1 (length es))
    | inr other ↦ rw (keep-append (has_aggregate k) log (e ∷ []), other, append-nil) (numbered k)
  ]

  log_step-Numbered :
      (log : List (EventEnvelope V)) (r : Request V) → Numbered log → Numbered (log_step log r).1
  unfolding log_step
  log_step-Numbered log clears numbered = λ k. refl
  log_step-Numbered log (appends e) numbered =
      let next = length (history log e.aggregate_id) + 1 in
      elim (Bool-cases (nat_beq e.version next)) [
        | inl follows ↦ rw follows (append-Numbered log e ((nat_beq_iff _ _).0 follows) numbered)
        | inr conflict ↦ rw conflict numbered
      ]

  log_run-Numbered :
      (log : List (EventEnvelope V)) (rs : List (Request V))
      → Numbered log
      → Numbered (log_run log rs).1
  unfolding log_run
  log_run-Numbered log [] numbered = numbered
  log_run-Numbered log (r ∷ rs) numbered =
      log_run-Numbered (log_step log r).1 rs (log_step-Numbered log r numbered)

  keep-drop :
      (v b n : ℕ) (es : List (EventEnvelope V))
      → versions es ≡ numbers (suc b) n
      → keep (λ e. ltb v e.version) es ≡ drop (v - b) es
  keep-drop v b n [] h = sym (drop-nil (v - b))
  keep-drop v b zero (e ∷ es) h = cc
  keep-drop v b (suc n) (e ∷ es) h =
      let rest = keep-drop v (suc b) n es (cc) in
      let here : e.version ≡ suc b = cc in
      elim (Bool-cases (ltb v e.version)) [
        | inl later ↦
            let low = ltb→lt v e.version later in
            let a : v - b ≡ 0 = omega arith in
            let c : v - suc b ≡ 0 = omega arith in rw (later, a) (ap (◌∷◌ e) (rw c at rest))
        | inr earlier ↦
            let high = ltb→le v e.version earlier in
            let a : v - b ≡ suc (v - suc b) = omega arith in rw (earlier, a) rest
      ]

  -- After every sequence of calls on a new store, reading an aggregate returns, and its versions
  -- are 1, 2, 3 and so on to the latest version, with no gap and no repetition.
  pub run-numbers :
      (rs : List (Request V)) (k : String)
      → let s = (run new_store rs).1 in
        Returns (λ es. versions es ≡ numbers 1 (latest_version s k)) (read_events s k)
  run-numbers rs k =
      let o = (run-RunRefines rs).1 in
      rw (o.reads_events k, o.latest k) (log_run-Numbered [] rs (λ k. refl) k)

  caught_up :
      (rs : List (Request V)) (k : String) (v : ℕ)
      → keep (λ e. ltb v e.version) (history (log_run [] rs).1 k)
        ≡ drop v (history (log_run [] rs).1 k)
  caught_up rs k v =
      let all : v - 0 ≡ v = omega arith in
      rw all at (keep-drop v 0 _ _ (log_run-Numbered [] rs (λ k. refl) k))

  -- After every sequence of calls on a new store, reading an aggregate since a version returns
  -- exactly what is left of all its events when as many as that version are dropped.
  pub read_since_version-drop :
      (rs : List (Request V)) (k : String) (v : ℕ)
      → let s = (run new_store rs).1 in
        Returns (λ es. read_since_version s k v ≡ returned (drop v es)) (read_events s k)
  read_since_version-drop rs k v =
      let o = (run-RunRefines rs).1 in
      rw (o.reads_events k) (o.reads_since_version k v ∙ ap returned (caught_up rs k v))

  -- Recovery: after every sequence of calls on a new store, an aggregate that was replayed up to
  -- some version, and then is given the events since that version, is in the state that the replay
  -- of all its events gives, whatever its initial state and its way to apply an event are.
  pub replay-read_since_version {ℓ} :
      {A : Type ℓ} (apply : A → EventEnvelope V → A) (initial : A) (rs : List (Request V))
      (k : String) (v : ℕ)
      → let s = (run new_store rs).1 in
        Returns
          (λ es.
            Returns
              (λ later.
                replay apply (replay apply initial (take v es)) later ≡ replay apply initial es)
              (read_since_version s k v))
          (read_events s k)
  unfolding replay
  replay-read_since_version apply initial rs k v =
      let o = (run-RunRefines rs).1 in
      let es = history (log_run [] rs).1 k in
      rw (o.reads_events k, o.reads_since_version k v, caught_up rs k v)
        (sym (foldl-append apply initial (take v es) (drop v es))
          ∙ ap (foldl apply initial) (take-append-drop v es))
