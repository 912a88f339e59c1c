-- ===== src/Core/EventStore.antt =====
-- crates/core/src/event_store.rs: the append-only log of events with its two indices, the store of
-- snapshots and the replay of aggregates. The mutex makes each method one step. `V` stands for the
-- JSON values of serde_json; an identifier of ulid is the number it stands for, in its order. A
-- `Vec` is shorter than 2^63, so no length wraps.
pub mod Log
pub mod Refinement
pub mod Reads
pub mod Recovery
pub mod Snapshots
use tordex.Prelude.{
  ℕ, ◌+◌, ◌≡◌, Bool, Option, some, none, String, string_eq, if◌then◌else◌, List, [], ◌∷◌, ◌++◌,
  foldl, length, ltb, leb, nat_beq, ◌==◌, keep, or_default, Result, ok, err,
}
use tordex.Prelude.Map.{Map, get, insert, remove, values}
use tordex.Prelude.Outcome.{Outcome, returned, index, ◌>>=◌}

pub record EventEnvelope (V : Type 0) : Type 0 where
  pub id : ℕ
  pub aggregate_id : String
  pub aggregate_type : String
  pub event_type : String
  pub version : ℕ
  pub payload : V
  pub metadata : Map String String
  pub timestamp : ℕ

pub data EventStoreError : Type 0 where
  storage : String → EventStoreError
  version_conflict : String → ℕ → ℕ → EventStoreError

pub record Inner (V : Type 0) : Type 0 where
  pub events : List (EventEnvelope V)
  pub by_aggregate : Map String (List ℕ)
  pub by_type : Map String (List ℕ)

-- `map.get(k)` where a missing key counts as the empty vector.
pub indices : Map String (List ℕ) → String → List ℕ
indices m k = or_default (get m k)

-- `map.entry(k).or_default().push(i)`
pub push_index : Map String (List ℕ) → String → ℕ → Map String (List ℕ)
unfolding indices
push_index m k i = insert m k (indices m k ++ i ∷ [])

-- `Aggregate::replay`, for the `apply` and `initial` of an implementation.
pub replay {ℓ κ} : {A : Type ℓ} {Event : Type κ} → (A → Event → A) → A → List Event → A
replay apply initial events = foldl apply initial events

module _ {V : Type 0} where
  unfoldable pub EventEnvelope_new : ℕ → ℕ → String → String → String → ℕ → V → EventEnvelope V
  EventEnvelope_new ulid now aggregate_id aggregate_type event_type version payload = record {
    id = ulid;
    aggregate_id = aggregate_id;
    aggregate_type = aggregate_type;
    event_type = event_type;
    version = version;
    payload = payload;
    metadata = [];
    timestamp = now;
  }

  unfoldable pub with_metadata : EventEnvelope V → String → String → EventEnvelope V
  with_metadata e key value = record e { metadata = insert e.metadata key value }

  pub new_store : Inner V
  new_store = record { events = []; by_aggregate = []; by_type = [] }

  pub latest_version : Inner V → String → ℕ
  unfolding indices
  latest_version inner k = length (indices inner.by_aggregate k)

  -- The two pushes after the version check.
  unfoldable pub record_event : Inner V → EventEnvelope V → Inner V
  record_event inner e =
      let idx = length inner.events in
      record {
        events = inner.events ++ e ∷ [];
        by_aggregate = push_index inner.by_aggregate e.aggregate_id idx;
        by_type = push_index inner.by_type e.aggregate_type idx;
      }

  unfoldable pub append : Inner V → EventEnvelope V → Result (Unit {0}) EventStoreError × Inner V
  append inner e =
      let current = latest_version inner e.aggregate_id in
      if nat_beq e.version (current + 1)
      then (ok tt, record_event inner e)
      else (err (version_conflict e.aggregate_id (current + 1) e.version), inner)

  -- `indices.iter().map(|&i| inner.events[i].clone()).collect()`
  pub fetch : List (EventEnvelope V) → List ℕ → Outcome (List (EventEnvelope V))
  fetch events [] = returned []
  fetch events (i ∷ is) = do e ← index events i; rest ← fetch events is; returned (e ∷ rest)

  pub read_events : Inner V → String → Outcome (List (EventEnvelope V))
  unfolding fetch
  read_events inner k = elim (get inner.by_aggregate k) [
    | none ↦ returned []
    | some v ↦ fetch inner.events v
  ]

  pub read_all : Inner V → String → Outcome (List (EventEnvelope V))
  unfolding fetch
  read_all inner k = elim (get inner.by_type k) [
    | none ↦ returned []
    | some v ↦ fetch inner.events v
  ]

  pub read_since : Inner V → ℕ → List (EventEnvelope V)
  read_since inner since_id = keep (λ e. ltb since_id e.id) inner.events

  -- `filter_map` on the indices of an aggregate.
  pub fetch_since : List (EventEnvelope V) → ℕ → List ℕ → Outcome (List (EventEnvelope V))
  fetch_since events since [] = returned []
  fetch_since events since (i ∷ is) = do
    e ← index events i
    rest ← fetch_since events since is
    returned (if ltb since e.version then e ∷ rest else rest)

  pub read_since_version : Inner V → String → ℕ → Outcome (List (EventEnvelope V))
  unfolding fetch_since
  read_since_version inner k since = elim (get inner.by_aggregate k) [
    | none ↦ returned []
    | some v ↦ fetch_since inner.events since v
  ]

  pub count : Inner V → String → ℕ
  unfolding indices
  count inner k = length (indices inner.by_type k)

  pub total_count : Inner V → ℕ
  total_count inner = length inner.events

  pub clear : Inner V → Inner V
  clear inner = record { events = []; by_aggregate = []; by_type = [] }

-- `Snapshot` and `InMemorySnapshotStore`: a state is a list of bytes.
pub record Snapshot : Type 0 where
  pub aggregate_id : String
  pub aggregate_type : String
  pub version : ℕ
  pub state : List ℕ
  pub timestamp : ℕ

pub data SnapshotError : Type 0 where
  not_found : String → SnapshotError
  serialization : String → SnapshotError

abbrev pub SnapshotStore : Type 0
SnapshotStore = Map String Snapshot

unfoldable pub save : SnapshotStore → Snapshot → SnapshotStore
save m s = insert m s.aggregate_id s

unfoldable pub load : SnapshotStore → String → Option Snapshot
load m k = get m k

-- `max_by_key` on the version, which takes the last of several greatest ones.
pub max_from : Snapshot → List Snapshot → Snapshot
max_from best [] = best
max_from best (x ∷ xs) = max_from (if leb best.version x.version then x else best) xs

pub max_by_version : List Snapshot → Option Snapshot
max_by_version [] = none
max_by_version (x ∷ xs) = some (max_from x xs)

pub load_latest : SnapshotStore → String → Option Snapshot
unfolding values max_by_version max_from
load_latest m t = max_by_version (keep (λ s. s.aggregate_type == t) (values m))

pub delete_found :
    SnapshotStore → String → Option Snapshot → Result (Unit {0}) SnapshotError × SnapshotStore
delete_found m k none = (err (not_found k), m)
delete_found m k (some s) = (ok tt, remove m k)

pub delete : SnapshotStore → String → Result (Unit {0}) SnapshotError × SnapshotStore
unfolding delete_found
delete m k = delete_found m k (get m k)
