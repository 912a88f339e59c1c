-- ===== src/Fabric/Session/Runs.antt =====
-- Runs of the session manager of crates/fabric/src/session.rs.
use tordex.Prelude.{
  ℕ, ◌+◌, ◌<◌, ◌≤◌, ◌≡◌, ◌≢◌, ◌⊎◌, inl, inr, refl, sym, ◌∙◌, ap, subst, List, [], ◌∷◌, All, length,
  Option, some, none, String, string_eq, ◌==◌, if◌then◌else◌, Bool-cases, arith,
}
use tordex.Prelude.Map.{Map, get, get-insert}
use tordex.Fabric.Session.{
  SessionState, queued, running, succeeded, failed, cancelled, CollectionSession, Sessions,
  transition, create, u32_mod,
}
use tordex.Fabric.Session.Machine.{
  Move, start, succeed, fail, retry, cancel_queued, cancel_running, cancel_failed, IsFinal,
  Move-not-IsFinal,
}
use tordex.Fabric.Session.Transition.{Entered, transition-Transitioned}

abbrev IsSome : Option ℕ → Type 0
IsSome o = (t : ℕ) × (o ≡ some t)

-- A call of the manager that changes its state.
pub data Call (V : Type 0) : Type 0 where
  creates : String → String → String → String → ℕ → Map String String → ℕ → Call V
  transitions : String → SessionState → Option V → Option String → ℕ → Call V

running_or_not : (to : SessionState) → (to ≡ running) ⊎ (to ≢ running)
running_or_not queued = inr (λ q. cc)
running_or_not running = inl refl
running_or_not succeeded = inr (λ q. cc)
running_or_not failed = inr (λ q. cc)
running_or_not cancelled = inr (λ q. cc)

module _ {V : Type 0} where
  -- The times and the attempts of a session agree with its state.
  abbrev pub ConsistentAt : SessionState → CollectionSession V → Type 0
  ConsistentAt queued s =
      ((s.attempt ≡ 0) × (s.started_at ≡ none))
      ⊎ ((0 < s.attempt) × IsSome s.started_at × IsSome s.completed_at)
  ConsistentAt running s = (0 < s.attempt) × IsSome s.started_at
  ConsistentAt succeeded s = (0 < s.attempt) × IsSome s.started_at × IsSome s.completed_at
  ConsistentAt failed s = (0 < s.attempt) × IsSome s.started_at × IsSome s.completed_at
  ConsistentAt cancelled s =
      IsSome s.completed_at
      × (((s.attempt ≡ 0) × (s.started_at ≡ none)) ⊎ ((0 < s.attempt) × IsSome s.started_at))

  abbrev pub Consistent : CollectionSession V → Type 0
  Consistent s = ConsistentAt s.state s

  module _ (s s' : CollectionSession V) {to : SessionState} {result : Option V}
      {error : Option String} {now : ℕ} (e : Entered s to result error now s') where
    -- A move that starts nothing keeps the start of before.
    started_before : to ≢ running → IsSome s.started_at → IsSome s'.started_at
    started_before n h = subst IsSome (sym (e.unstarted n)) h

    ended_now : (to ≡ succeeded) ⊎ (to ≡ failed) ⊎ (to ≡ cancelled) → IsSome s'.completed_at
    ended_now h = (now, e.ended h)

    never_started :
        to ≢ running
        → (s.attempt ≡ 0) × (s.started_at ≡ none)
        → (s'.attempt ≡ 0) × (s'.started_at ≡ none)
    never_started n z = (e.uncounted n ∙ z.0, e.unstarted n ∙ z.1)

    was_started :
        to ≢ running
        → (0 < s.attempt) × IsSome s.started_at
        → (0 < s'.attempt) × IsSome s'.started_at
    was_started n h = (omega (arith, e.uncounted n, h.0), started_before n h.1)

    attempt_le : s.attempt + 1 < u32_mod → s'.attempt ≤ s.attempt + 1
    attempt_le small = elim (running_or_not to) [
      | inl r ↦ omega (arith, e.counted r)
      | inr n ↦ omega (arith, e.uncounted n)
    ]

  Entered-Consistent :
      (s s' : CollectionSession V) {from to : SessionState} {result : Option V}
      {error : Option String} {now : ℕ}
      → Entered s to result error now s'
      → Move from to
      → s.attempt + 1 < u32_mod
      → ConsistentAt from s
      → ConsistentAt to s'
  Entered-Consistent s s' {now = now} e start small c =
      (omega (arith, e.counted refl), (now, e.started refl))
  Entered-Consistent s s' e succeed small c =
      let h = was_started s s' e (λ q. cc) c in (h.0, h.1, ended_now s s' e (inl refl))
  Entered-Consistent s s' e fail small c =
      let h = was_started s s' e (λ q. cc) c in (h.0, h.1, ended_now s s' e (inr (inl refl)))
  Entered-Consistent s s' e retry small c =
      let h = was_started s s' e (λ q. cc) (c.0, c.1) in
      inr (h.0, h.1, subst IsSome (sym (e.unended (inr refl))) c.2)
  Entered-Consistent s s' e cancel_queued small c = (
    ended_now s s' e (inr (inr refl)),
    elim c [
      | inl z ↦ inl (never_started s s' e (λ q. cc) z)
      | inr (a, b, _) ↦ inr (was_started s s' e (λ q. cc) (a, b))
    ],
  )
  Entered-Consistent s s' e cancel_running small c =
      (ended_now s s' e (inr (inr refl)), inr (was_started s s' e (λ q. cc) c))
  Entered-Consistent s s' e cancel_failed small c =
      (ended_now s s' e (inr (inr refl)), inr (was_started s s' e (λ q. cc) (c.0, c.1)))

  pub step : Sessions V → Call V → Sessions V
  step m (creates id target driver capability max_retries metadata now) =
      (create m id target driver capability max_retries metadata now).1
  step m (transitions id to result error now) = (transition m id to result error now).1

  pub run : Sessions V → List (Call V) → Sessions V
  run m [] = m
  run m (c ∷ cs) = run (step m c) cs

  -- Every session is consistent, and has been started `n` times at most.
  abbrev pub Sound : ℕ → Sessions V → Type 0
  Sound n m =
      (k : String) (s : CollectionSession V) → get m k ≡ some s → Consistent s × (s.attempt ≤ n)

  inserted-Sound :
      (n : ℕ) (m m' : Sessions V) (id : String) (s' : CollectionSession V)
      → Sound n m
      → Consistent s' × (s'.attempt ≤ n + 1)
      → ((j : String) → get m' j ≡ (if id == j then some s' else get m j))
      → Sound (n + 1) m'
  inserted-Sound n m m' id s' sound new law k s e = elim (Bool-cases (id == k)) [
    | inl same ↦
        let eq : s' ≡ s = cc (law k) in subst (λ x. Consistent x × (x.attempt ≤ n + 1)) eq new
    | inr other ↦ let old = sound k s (ground (arith, law k)) in (old.0, omega (arith, old.1))
  ]

  later : (n : ℕ) (m : Sessions V) → Sound n m → Sound (n + 1) m
  later n m sound k s e = let old = sound k s e in (old.0, omega (arith, old.1))

  step-Sound :
      (n : ℕ) (m : Sessions V) (c : Call V) → n + 1 < u32_mod → Sound n m → Sound (n + 1) (step m c)
  unfolding step create
  step-Sound n m (creates id target driver capability max_retries metadata now) small sound =
      inserted-Sound n m _ id _ sound (inl (refl, refl), omega arith) (λ j. get-insert m id j _)
  step-Sound n m (transitions id to result error now) small sound =
      elim (transition-Transitioned m id to result error now) [
        | inl (missing, eq) ↦ subst (Sound (n + 1)) (sym (ap (λ r. r.1) eq)) (later n m sound)
        | inr (s, known, inl (bad, eq)) ↦
            subst (Sound (n + 1)) (sym (ap (λ r. r.1) eq)) (later n m sound)
        | inr (s, known, inr (move, s', e, eq, law)) ↦
            let old = sound id s known in
            let new = Entered-Consistent s s' e move (omega (arith, old.1)) old.0 in
            let more = attempt_le s s' e (omega (arith, old.1)) in
            inserted-Sound n m _ id s' sound
              (subst (λ at. ConsistentAt at s') (sym e.moved) new, omega (arith, more, old.1)) law
      ]

  run-Sound_from :
      (n : ℕ) (m : Sessions V) (cs : List (Call V))
      → n + length cs < u32_mod
      → Sound n m
      → Sound (n + length cs) (run m cs)
  unfolding run
  run-Sound_from n m [] small sound =
      λ k s e. let old = sound k s e in (old.0, omega (arith, old.1))
  run-Sound_from n m (c ∷ cs) small sound =
      let more : n + length (c ∷ cs) ≡ n + 1 + length cs = omega arith in
      rw more
        (run-Sound_from (n + 1) (step m c) cs (omega arith) (step-Sound n m c (omega arith) sound))

  -- In every run of fewer than 2^32 calls on a new manager, the times and the attempts of each
  -- session agree with its state, and a session has no more attempts than there were calls.
  pub run-Sound : (cs : List (Call V)) → length cs < u32_mod → Sound (length cs) (run [] cs)
  unfolding get
  run-Sound cs small =
      let none_yet : 0 + length cs ≡ length cs = omega arith in
      rw none_yet at (run-Sound_from 0 [] cs (omega arith) (λ k s e. absurd (cc)))

  -- The call starts no new session.
  abbrev pub NoCreate : Call V → Type 0
  NoCreate (creates id target driver capability max_retries metadata now) = ⊥
  NoCreate (transitions id to result error now) = Unit

  step-final :
      (m : Sessions V) (c : Call V) (k : String) (s : CollectionSession V)
      → NoCreate c
      → get m k ≡ some s
      → IsFinal s.state
      → get (step m c) k ≡ some s
  unfolding step
  step-final m (creates id target driver capability max_retries metadata now) k s no_create known
        final =
      absurd no_create
  step-final m (transitions id to result error now) k s no_create known final =
      elim (transition-Transitioned m id to result error now) [
        | inl (missing, eq) ↦ subst (λ m'. get m' k ≡ some s) (sym (ap (λ r. r.1) eq)) known
        | inr (t, there, inl (bad, eq)) ↦
            subst (λ m'. get m' k ≡ some s) (sym (ap (λ r. r.1) eq)) known
        | inr (t, there, inr (move, t', e, eq, law)) ↦ elim (Bool-cases (id == k)) [
          | inl same ↦
              let here : id ≡ k = (string_eq.test_iff id k).0 same in
              let one : t ≡ s = cc in
              absurd (Move-not-IsFinal (subst (λ x. Move x.state to) one move) final)
          | inr other ↦ law k ∙ rw other known
        ]
      ]

  -- A session that has succeeded or was cancelled stays exactly as it is in every run of
  -- transitions, of this and of other sessions.
  pub run-final :
      (m : Sessions V) (cs : List (Call V)) (k : String) (s : CollectionSession V)
      → All NoCreate cs
      → get m k ≡ some s
      → IsFinal s.state
      → get (run m cs) k ≡ some s
  unfolding run
  run-final m [] k s no_create known final = known
  run-final m (c ∷ cs) k s no_create known final =
      run-final (step m c) cs k s no_create.1 (step-final m c k s no_create.0 known final) final
