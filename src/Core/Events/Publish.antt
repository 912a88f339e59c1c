-- ===== src/Core/Events/Publish.antt =====
-- Publishing a system event of crates/core/src/event_store.rs through the store.
use mathlib.Core.List.{append-nil}
use tordex.Prelude.{
  ℕ, ◌+◌, ◌≡◌, ◌⊎◌, nat_beq_iff, Option-cases, ◌≢◌, refl, sym, ◌∙◌, String, string_eq, ◌==◌, Option,
  none, List, [], ◌∷◌, ◌++◌, if◌then◌else◌, keep-append, ok, err, nat_beq, Bool-cases, inl, inr,
}
use tordex.Prelude.Outcome.{returned, Returns}
use tordex.Core.EventStore.{
  EventEnvelope, Inner, new_store, read_events, append, latest_version, version_conflict,
  record_event,
}
use tordex.Core.EventStore.Log.{Request, has_aggregate, log_run}
use tordex.Core.EventStore.Reads.{Represents-Observes, run-Represents, new-Represents}
use tordex.Core.EventStore.Refinement.{run, Represents, record_event-Represents}
use tordex.Core.Events.{
  SystemEvent, aggregate_id, aggregate_type, event_type, into_envelope, variant, entity_created,
  entity_updated, entity_deleted, observation_recorded, artifact_stored, artifact_deleted,
  evidence_extracted, relationship_established, relationship_deleted, knowledge_produced,
  finding_created, finding_updated, decision_made, decision_executed, service_registered,
  service_updated, service_deleted, investigation_opened, investigation_closed,
  investigation_archived, timeline_entry_added, agent_started, agent_stopped, agent_heartbeat,
  monitoring_change_detected,
}

-- The number that a variant's two texts have in the table.
find : List (String × String) → ℕ → String → String → ℕ
find [] i a e = i
find ((b, f) ∷ rows) i a e =
    if b == a then (if f == e then i else find rows (i + 1) a e) else find rows (i + 1) a e

abbrev texts : List (String × String)
texts =
    ("Entity", "Created")
    ∷ ("Entity", "Updated")
    ∷ ("Entity", "Deleted")
    ∷ ("Observation", "Recorded")
    ∷ ("Artifact", "Stored")
    ∷ ("Artifact", "Deleted")
    ∷ ("Evidence", "Extracted")
    ∷ ("Relationship", "Established")
    ∷ ("Relationship", "Deleted")
    ∷ ("Knowledge", "Produced")
    ∷ ("Finding", "Created")
    ∷ ("Finding", "Updated")
    ∷ ("Decision", "Made")
    ∷ ("Decision", "Executed")
    ∷ ("Service", "Registered")
    ∷ ("Service", "Updated")
    ∷ ("Service", "Deleted")
    ∷ ("Investigation", "Opened")
    ∷ ("Investigation", "Closed")
    ∷ ("Investigation", "Archived")
    ∷ ("Timeline", "EntryAdded")
    ∷ ("Agent", "Started")
    ∷ ("Agent", "Stopped")
    ∷ ("Agent", "Heartbeat")
    ∷ ("Monitoring", "ChangeDetected")
    ∷ []

module _ {V F : Type 0} where
  find-variant : (e : SystemEvent V F) → find texts 0 (aggregate_type e) (event_type e) ≡ variant e
  unfolding find aggregate_type event_type variant
  find-variant (entity_created _ _ _ _ _) = refl
  find-variant (entity_updated _ _ _ _) = refl
  find-variant (entity_deleted _) = refl
  find-variant (observation_recorded _ _ _ _ _ _) = refl
  find-variant (artifact_stored _ _ _ _ _ _ _) = refl
  find-variant (artifact_deleted _) = refl
  find-variant (evidence_extracted _ _ _ _ _) = refl
  find-variant (relationship_established _ _ _ _ _ _) = refl
  find-variant (relationship_deleted _) = refl
  find-variant (knowledge_produced _ _ _ _ _) = refl
  find-variant (finding_created _ _ _ _ _ _ _ _) = refl
  find-variant (finding_updated _ _ _ _ _) = refl
  find-variant (decision_made _ _ _ _ _ _) = refl
  find-variant (decision_executed _) = refl
  find-variant (service_registered _ _ _ _ _ _) = refl
  find-variant (service_updated _ _ _ _) = refl
  find-variant (service_deleted _) = refl
  find-variant (investigation_opened _ _ _ _ _) = refl
  find-variant (investigation_closed _) = refl
  find-variant (investigation_archived _) = refl
  find-variant (timeline_entry_added _ _ _ _ _ _) = refl
  find-variant (agent_started _ _ _ _) = refl
  find-variant (agent_stopped _ _) = refl
  find-variant (agent_heartbeat _ _ _) = refl
  find-variant (monitoring_change_detected _ _ _ _ _ _ _) = refl

  -- The texts of the aggregate type and of the event type together tell which variant an event is.
  pub variant-eq :
      (d e : SystemEvent V F)
      → aggregate_type d ≡ aggregate_type e
      → event_type d ≡ event_type e
      → variant d ≡ variant e
  variant-eq d e a t = sym (find-variant d) ∙ (λ i. find texts 0 (a i) (t i)) ∙ find-variant e

module _ {V : Type 0} where
  -- The appended event is the last one of its own aggregate, and no other aggregate has changed.
  abbrev pub Published : Inner V → EventEnvelope V → Inner V → Type 0
  Published s env s' =
      (k : String)
      → Returns
          (λ es. read_events s' k ≡ returned (if env.aggregate_id == k then es ++ env ∷ [] else es))
          (read_events s k)

  record_event-Published :
      (s : Inner V) (log : List (EventEnvelope V)) (env : EventEnvelope V)
      → Represents s log
      → Published s env (record_event s env)
  record_event-Published s log env r k =
      let before = Represents-Observes s log r in
      let after = Represents-Observes _ _ (record_event-Represents s log env r) in
      rw (before.reads_events k, after.reads_events k, keep-append (has_aggregate k) log (env ∷ []))
        (elim (Bool-cases (env.aggregate_id == k)) [
          | inl mine ↦ rw mine refl
          | inr other ↦ rw (other, append-nil) refl
        ])

  -- What becomes of an envelope that is appended: it is accepted at the next version, and refused
  -- with the store unchanged at any other.
  abbrev pub AppendsTo : Inner V → EventEnvelope V → Type 0
  AppendsTo s env =
      let next = latest_version s env.aggregate_id + 1 in
      ((env.version ≡ next) × ((append s env).0 ≡ ok tt) × Published s env (append s env).1)
      ⊎ ((env.version ≢ next)
          × (append s env ≡ (err (version_conflict env.aggregate_id next env.version), s)))

  append-AppendsTo :
      (s : Inner V) (log : List (EventEnvelope V)) (env : EventEnvelope V)
      → Represents s log
      → AppendsTo s env
  unfolding append
  append-AppendsTo s log env r =
      let next = latest_version s env.aggregate_id + 1 in
      elim (Bool-cases (nat_beq env.version next)) [
        | inl follows ↦ inl (
          (nat_beq_iff _ _).0 follows,
          rw follows refl,
          rw follows (record_event-Published s log env r),
        )
        | inr conflict ↦ inr (λ e. cc ((nat_beq_iff env.version next).1 e), rw conflict refl)
      ]

module _ {V F : Type 0} where
  -- A system event that serde_json can write becomes an envelope with the event's own aggregate
  -- and the given version. After every sequence of calls on a new store, appending it succeeds
  -- exactly if the version follows the latest one of that aggregate: then the envelope is the last
  -- event of the aggregate and the reads of all other aggregates are as before. Otherwise the
  -- version conflict names the expected and the given version, and the store is unchanged.
  pub into_envelope-append :
      (to_value : SystemEvent V F → Option V) (ulid now : ℕ) (e : SystemEvent V F) (version : ℕ)
      (rs : List (Request V))
      → to_value e ≢ none
      → Returns
          (λ env.
            (env.aggregate_id ≡ aggregate_id e)
            × (env.version ≡ version)
            × AppendsTo (run new_store rs).1 env)
          (into_envelope to_value ulid now e version)
  unfolding into_envelope
  into_envelope-append to_value ulid now e version rs writes = elim (Option-cases (to_value e)) [
    | inl fails ↦ absurd (writes fails)
    | inr (json, written) ↦ rw written (
      refl,
      refl,
      append-AppendsTo _ (log_run [] rs).1 _ (run-Represents new_store [] rs new-Represents).1,
    )
  ]
