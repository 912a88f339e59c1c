-- ===== src/Core/Events.antt =====
-- The system events of crates/core/src/event_store.rs and their envelopes. `V` stands for the JSON
-- values of serde_json and `F` for the floating point numbers; a time is a number of nanoseconds.
pub mod Publish
use tordex.Prelude.{ℕ, String, Option, some, none, List, []}
use tordex.Prelude.Map.{Map}
use tordex.Prelude.Outcome.{Outcome, returned, unwrap, ◌>>=◌}
use tordex.Core.EventStore.{EventEnvelope}

pub data SystemEvent (V F : Type 0) : Type 0 where
  entity_created : String → String → String → Map String String → ℕ → SystemEvent V F
  entity_updated :
      String → Option String → Option String → Option (Map String String) → SystemEvent V F
  entity_deleted : String → SystemEvent V F
  observation_recorded : String → String → List ℕ → Option String → String → ℕ → SystemEvent V F
  artifact_stored : String → String → String → Option String → ℕ → String → String → SystemEvent V F
  artifact_deleted : String → SystemEvent V F
  evidence_extracted : String → String → String → V → F → SystemEvent V F
  relationship_established : String → String → String → String → String → String → SystemEvent V F
  relationship_deleted : String → SystemEvent V F
  knowledge_produced : String → String → V → F → List String → SystemEvent V F
  finding_created :
      String → String → String → String → String → String → F → List String → SystemEvent V F
  finding_updated :
      String → Option String → Option String → Option String → Option F → SystemEvent V F
  decision_made : String → List String → String → String → String → String → SystemEvent V F
  decision_executed : String → SystemEvent V F
  service_registered : String → String → String → String → String → Option String → SystemEvent V F
  service_updated : String → Option String → Option String → Option String → SystemEvent V F
  service_deleted : String → SystemEvent V F
  investigation_opened : String → String → String → String → List String → SystemEvent V F
  investigation_closed : String → SystemEvent V F
  investigation_archived : String → SystemEvent V F
  timeline_entry_added : String → String → ℕ → String → String → String → SystemEvent V F
  agent_started : String → String → String → String → SystemEvent V F
  agent_stopped : String → String → SystemEvent V F
  agent_heartbeat : String → String → ℕ → SystemEvent V F
  monitoring_change_detected :
      String → String → String → String → Option V → V → ℕ → SystemEvent V F

module _ {V F : Type 0} where
  unfoldable pub aggregate_type : SystemEvent V F → String
  aggregate_type (entity_created _ _ _ _ _) = "Entity"
  aggregate_type (entity_updated _ _ _ _) = "Entity"
  aggregate_type (entity_deleted _) = "Entity"
  aggregate_type (observation_recorded _ _ _ _ _ _) = "Observation"
  aggregate_type (artifact_stored _ _ _ _ _ _ _) = "Artifact"
  aggregate_type (artifact_deleted _) = "Artifact"
  aggregate_type (evidence_extracted _ _ _ _ _) = "Evidence"
  aggregate_type (relationship_established _ _ _ _ _ _) = "Relationship"
  aggregate_type (relationship_deleted _) = "Relationship"
  aggregate_type (knowledge_produced _ _ _ _ _) = "Knowledge"
  aggregate_type (finding_created _ _ _ _ _ _ _ _) = "Finding"
  aggregate_type (finding_updated _ _ _ _ _) = "Finding"
  aggregate_type (decision_made _ _ _ _ _ _) = "Decision"
  aggregate_type (decision_executed _) = "Decision"
  aggregate_type (service_registered _ _ _ _ _ _) = "Service"
  aggregate_type (service_updated _ _ _ _) = "Service"
  aggregate_type (service_deleted _) = "Service"
  aggregate_type (investigation_opened _ _ _ _ _) = "Investigation"
  aggregate_type (investigation_closed _) = "Investigation"
  aggregate_type (investigation_archived _) = "Investigation"
  aggregate_type (timeline_entry_added _ _ _ _ _ _) = "Timeline"
  aggregate_type (agent_started _ _ _ _) = "Agent"
  aggregate_type (agent_stopped _ _) = "Agent"
  aggregate_type (agent_heartbeat _ _ _) = "Agent"
  aggregate_type (monitoring_change_detected _ _ _ _ _ _ _) = "Monitoring"

  unfoldable pub event_type : SystemEvent V F → String
  event_type (entity_created _ _ _ _ _) = "Created"
  event_type (entity_updated _ _ _ _) = "Updated"
  event_type (entity_deleted _) = "Deleted"
  event_type (observation_recorded _ _ _ _ _ _) = "Recorded"
  event_type (artifact_stored _ _ _ _ _ _ _) = "Stored"
  event_type (artifact_deleted _) = "Deleted"
  event_type (evidence_extracted _ _ _ _ _) = "Extracted"
  event_type (relationship_established _ _ _ _ _ _) = "Established"
  event_type (relationship_deleted _) = "Deleted"
  event_type (knowledge_produced _ _ _ _ _) = "Produced"
  event_type (finding_created _ _ _ _ _ _ _ _) = "Created"
  event_type (finding_updated _ _ _ _ _) = "Updated"
  event_type (decision_made _ _ _ _ _ _) = "Made"
  event_type (decision_executed _) = "Executed"
  event_type (service_registered _ _ _ _ _ _) = "Registered"
  event_type (service_updated _ _ _ _) = "Updated"
  event_type (service_deleted _) = "Deleted"
  event_type (investigation_opened _ _ _ _ _) = "Opened"
  event_type (investigation_closed _) = "Closed"
  event_type (investigation_archived _) = "Archived"
  event_type (timeline_entry_added _ _ _ _ _ _) = "EntryAdded"
  event_type (agent_started _ _ _ _) = "Started"
  event_type (agent_stopped _ _) = "Stopped"
  event_type (agent_heartbeat _ _ _) = "Heartbeat"
  event_type (monitoring_change_detected _ _ _ _ _ _ _) = "ChangeDetected"

  unfoldable pub aggregate_id : SystemEvent V F → String
  aggregate_id (entity_created id _ _ _ _) = id
  aggregate_id (entity_updated id _ _ _) = id
  aggregate_id (entity_deleted id) = id
  aggregate_id (observation_recorded id _ _ _ _ _) = id
  aggregate_id (artifact_stored id _ _ _ _ _ _) = id
  aggregate_id (artifact_deleted id) = id
  aggregate_id (evidence_extracted id _ _ _ _) = id
  aggregate_id (relationship_established id _ _ _ _ _) = id
  aggregate_id (relationship_deleted id) = id
  aggregate_id (knowledge_produced id _ _ _ _) = id
  aggregate_id (finding_created id _ _ _ _ _ _ _) = id
  aggregate_id (finding_updated id _ _ _ _) = id
  aggregate_id (decision_made id _ _ _ _ _) = id
  aggregate_id (decision_executed id) = id
  aggregate_id (service_registered id _ _ _ _ _) = id
  aggregate_id (service_updated id _ _ _) = id
  aggregate_id (service_deleted id) = id
  aggregate_id (investigation_opened id _ _ _ _) = id
  aggregate_id (investigation_closed id) = id
  aggregate_id (investigation_archived id) = id
  aggregate_id (timeline_entry_added id _ _ _ _ _) = id
  aggregate_id (agent_started id _ _ _) = id
  aggregate_id (agent_stopped id _) = id
  aggregate_id (agent_heartbeat id _ _) = id
  aggregate_id (monitoring_change_detected id _ _ _ _ _ _) = id

  -- `to_value` is serde_json's; where it fails, `expect` panics.
  pub into_envelope :
      (SystemEvent V F → Option V) → ℕ → ℕ → SystemEvent V F → ℕ → Outcome (EventEnvelope V)
  unfolding aggregate_id aggregate_type event_type
  into_envelope to_value ulid now e version = do
    json ← unwrap (to_value e)
    returned (record {
      id = ulid;
      aggregate_id = aggregate_id e;
      aggregate_type = aggregate_type e;
      event_type = event_type e;
      version = version;
      payload = json;
      metadata = [];
      timestamp = now;
    })

  -- The variant, by its place in the declaration.
  unfoldable pub variant : SystemEvent V F → ℕ
  variant (entity_created _ _ _ _ _) = 0
  variant (entity_updated _ _ _ _) = 1
  variant (entity_deleted _) = 2
  variant (observation_recorded _ _ _ _ _ _) = 3
  variant (artifact_stored _ _ _ _ _ _ _) = 4
  variant (artifact_deleted _) = 5
  variant (evidence_extracted _ _ _ _ _) = 6
  variant (relationship_established _ _ _ _ _ _) = 7
  variant (relationship_deleted _) = 8
  variant (knowledge_produced _ _ _ _ _) = 9
  variant (finding_created _ _ _ _ _ _ _ _) = 10
  variant (finding_updated _ _ _ _ _) = 11
  variant (decision_made _ _ _ _ _ _) = 12
  variant (decision_executed _) = 13
  variant (service_registered _ _ _ _ _ _) = 14
  variant (service_updated _ _ _ _) = 15
  variant (service_deleted _) = 16
  variant (investigation_opened _ _ _ _ _) = 17
  variant (investigation_closed _) = 18
  variant (investigation_archived _) = 19
  variant (timeline_entry_added _ _ _ _ _ _) = 20
  variant (agent_started _ _ _ _) = 21
  variant (agent_stopped _ _) = 22
  variant (agent_heartbeat _ _ _) = 23
  variant (monitoring_change_detected _ _ _ _ _ _ _) = 24
