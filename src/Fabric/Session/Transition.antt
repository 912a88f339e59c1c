-- ===== src/Fabric/Session/Transition.antt =====
-- About `SessionManager::transition` of crates/fabric/src/session.rs.
use tordex.Prelude.{
  arith, ℕ, ◌+◌, ◌%◌, ◌≡◌, ◌≢◌, ◌⊎◌, inl, inr, refl, sym, ap, subst, Option, some, none, String,
  string_eq, ◌==◌, if◌then◌else◌, Bool-cases, Option-cases, Result, ok, err,
}
use tordex.Prelude.Map.{get, get-insert}
use tordex.Fabric.Task.{FabricError, task_not_found}
use tordex.Fabric.Session.{
  SessionState, queued, running, succeeded, failed, cancelled, stamp, u32_mod, CollectionSession,
  Sessions, allowed_transition, enter, invalid, transition, transition_found,
}
use tordex.Fabric.Session.Machine.{Move, allowed_transition-Move}

module _ {V : Type 0} where
  -- `s'` is `s` after a move to `to`: it is in that state; a result or an error replaces the one of
  -- before only if it is given; a start counts an attempt and sets its time, an end sets its time;
  -- all else is as before.
  pub record Entered (s : CollectionSession V) (to : SessionState) (result : Option V)
      (error : Option String) (now : ℕ) (s' : CollectionSession V) : Type 0 where
    pub moved : s'.state ≡ to
    pub new_result : (v : V) → result ≡ some v → s'.result ≡ some v
    pub old_result : result ≡ none → s'.result ≡ s.result
    pub new_error : (e : String) → error ≡ some e → s'.error ≡ some e
    pub old_error : error ≡ none → s'.error ≡ s.error
    pub counted : to ≡ running → s'.attempt ≡ (s.attempt + 1) % u32_mod
    pub uncounted : to ≢ running → s'.attempt ≡ s.attempt
    pub started : to ≡ running → s'.started_at ≡ some now
    pub unstarted : to ≢ running → s'.started_at ≡ s.started_at
    pub ended : (to ≡ succeeded) ⊎ (to ≡ failed) ⊎ (to ≡ cancelled) → s'.completed_at ≡ some now
    pub unended : (to ≡ running) ⊎ (to ≡ queued) → s'.completed_at ≡ s.completed_at
    pub same_task : s'.task_id ≡ s.task_id
    pub same_target : s'.target ≡ s.target
    pub same_driver : s'.driver ≡ s.driver
    pub same_capability : s'.capability ≡ s.capability
    pub same_retries : s'.max_retries ≡ s.max_retries
    pub same_queued : s'.queued_at ≡ s.queued_at
    pub same_metadata : s'.metadata ≡ s.metadata

  enter-Entered :
      (s : CollectionSession V) (to : SessionState) (result : Option V) (error : Option String)
      (now : ℕ)
      → Entered s to result error now (enter s to result error now)
  unfolding enter stamp
  enter-Entered s queued result error now = ground arith
  enter-Entered s running result error now = ground arith
  enter-Entered s succeeded result error now = ground arith
  enter-Entered s failed result error now = ground arith
  enter-Entered s cancelled result error now = ground arith

  module _ (inner : Sessions V) (id : String) (to : SessionState) (result : Option V)
      (error : Option String) (now : ℕ) where
    -- The session is unknown, or the move is none of the machine and nothing changes, or the session
    -- makes the move and no other session changes.
    abbrev pub Transitioned : Result (CollectionSession V) FabricError × Sessions V → Type 0
    Transitioned r =
        ((get inner id ≡ none) × (r ≡ (err (task_not_found id), inner)))
        ⊎ ((s : CollectionSession V) × (get inner id ≡ some s)
            × (((¬ (Move s.state to)) × (r ≡ (err (invalid s.state to), inner)))
                ⊎ (Move s.state to
                    × (s' : CollectionSession V) × Entered s to result error now s'
                    × (r.0 ≡ ok s')
                    × ((j : String) → get r.1 j ≡ (if id == j then some s' else get inner j)))))

    found :
        (s : CollectionSession V)
        → get inner id ≡ some s
        → Transitioned (transition_found inner id to result error now (some s))
    unfolding transition_found
    found s known = elim (Bool-cases (allowed_transition s.state to)) [
      | inl yes' ↦ rw yes' (
          inr (
            s,
            known,
            inr (
              (allowed_transition-Move s.state to).0 yes',
              enter s to result error now,
              enter-Entered s to result error now,
              refl,
              (λ j. get-insert inner id j (enter s to result error now)),
            ),
          ))
      | inr no' ↦
          rw no' (inr (s, known, inl ((λ m. cc ((allowed_transition-Move s.state to).1 m)), refl)))
    ]

    -- `transition` of an unknown session fails, a transition that is none of the state machine's
    -- fails, and neither changes a session; any other gives the session as it was but for its new
    -- state, a result or an error that is given, the attempt and the time of a start, and the time of
    -- an end, and changes that session alone.
    pub transition-Transitioned : Transitioned (transition inner id to result error now)
    unfolding transition transition_found
    transition-Transitioned = elim (Option-cases (get inner id)) [
      | inl missing ↦
          subst Transitioned (sym (ap (transition_found inner id to result error now) missing))
            (inl (missing, refl))
      | inr (s, known) ↦
          subst Transitioned (sym (ap (transition_found inner id to result error now) known))
            (found s known)
    ]
