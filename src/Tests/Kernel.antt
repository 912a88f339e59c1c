-- ===== src/Tests/Kernel.antt =====
-- Events of two aggregates, messages between two endpoints, and tasks that are cancelled.
use tordex.Prelude.{
  if◌then◌else◌, ℕ, ◌+◌, ◌≡◌, ◌≢◌, refl, true, inr, some, none, List, [], ◌∷◌, nat_eq, string_eq,
  Option, String, keep, ◌==◌, take, ◌++◌,
}
use tordex.Prelude.Map.{get, insert, contains_key}
use tordex.Prelude.Outcome.{Returns}
use tordex.Core.EventStore.{
  EventEnvelope, new_store, read_events, read_since_version, latest_version, replay, Snapshot,
  load_latest,
}
use tordex.Core.EventStore.Log.{Request, appends}
use tordex.Core.EventStore.Refinement.{run}
use tordex.Core.EventStore.Reads.{RunRefines, run-RunRefines}
use tordex.Core.EventStore.Recovery.{versions, numbers, run-numbers, replay-read_since_version}
use tordex.Core.EventStore.Snapshots.{
  SnapshotCall, saves, deletes, snapshot_run, IsLatest, snapshot_run-IsLatest,
}
use tordex.Core.Events.{SystemEvent, entity_deleted, aggregate_id, into_envelope}
use tordex.Core.Events.Publish.{AppendsTo, into_envelope-append}
use tordex.Core.Ipc.{Message, new_ipc, knows_target, deliver, add_endpoint, mailbox}
use tordex.Core.Ipc.Interleaving
use tordex.Core.Ipc.Interleaving.{Reach-Fifo, Reach-drained}
use tordex.Core.Scheduler.{
  schedule_after, wake, spawn, complete, cancel, status, cancelled, set_status,
}
use tordex.Core.Scheduler.Threads
use tordex.Core.Scheduler.Threads.{Reach-Fit}
use tordex.Core.Scheduler.Fates.{Reach-final, NeverStarts, Reach-NeverStarts}

abbrev event : String → ℕ → ℕ → EventEnvelope ℕ
event k version payload = record {
  id = payload;
  aggregate_id = k;
  aggregate_type = "Entity";
  event_type = "Updated";
  version = version;
  payload = payload;
  metadata = [];
  timestamp = 0;
}

-- The third append repeats a version and is refused.
abbrev requests : List (Request ℕ)
requests =
    appends (event "a" 1 10)
    ∷ appends (event "b" 1 20)
    ∷ appends (event "a" 1 30)
    ∷ appends (event "a" 2 40)
    ∷ []

run-RunRefines_example : RunRefines requests
run-RunRefines_example = run-RunRefines requests

run-numbers_example :
    Returns
      (λ es. versions es ≡ numbers 1 (latest_version (run new_store requests).1 "a"))
      (read_events (run new_store requests).1 "a")
run-numbers_example = run-numbers requests "a"

abbrev total : ℕ → EventEnvelope ℕ → ℕ
total n e = n + e.payload

replay-read_since_version_example :
    Returns
      (λ es.
        Returns
          (λ later. replay total (replay total 0 (take 1 es)) later ≡ replay total 0 es)
          (read_since_version (run new_store requests).1 "a" 1))
      (read_events (run new_store requests).1 "a")
replay-read_since_version_example = replay-read_since_version total 0 requests "a" 1

abbrev snapshot : String → ℕ → Snapshot
snapshot k version = record {
  aggregate_id = k;
  aggregate_type = "Entity";
  version = version;
  state = [];
  timestamp = 0;
}

abbrev snapshot_calls : List SnapshotCall
snapshot_calls = saves (snapshot "a" 3) ∷ saves (snapshot "b" 5) ∷ deletes "b" ∷ []

snapshot_run-IsLatest_example :
    IsLatest
      (snapshot_run [] snapshot_calls)
      "Entity"
      (load_latest (snapshot_run [] snapshot_calls) "Entity")
snapshot_run-IsLatest_example = snapshot_run-IsLatest snapshot_calls "Entity"

abbrev deletion : SystemEvent ℕ ℕ
deletion = entity_deleted "a"

abbrev to_value : SystemEvent ℕ ℕ → Option ℕ
to_value e = some 5

some-ne-none : to_value deletion ≢ none
some-ne-none e = cc

into_envelope-append_example :
    Returns
      (λ env.
        (env.aggregate_id ≡ aggregate_id deletion)
        × (env.version ≡ 3)
        × AppendsTo (run new_store requests).1 env)
      (into_envelope to_value 8 9 deletion 3)
into_envelope-append_example = into_envelope-append to_value 8 9 deletion 3 requests some-ne-none

abbrev message : Message
message = record { id = 1; source = 4; target = 7; kind = "ping"; payload = []; reply_to = none }

abbrev opened : Interleaving.World
opened = record Interleaving.start {
  ipc = add_endpoint Interleaving.start.ipc 7;
  registered = 7 ∷ Interleaving.start.registered;
}

abbrev checked : Interleaving.World
checked = record opened { sending = message ∷ opened.sending }

abbrev delivered : Interleaving.World
delivered = record checked {
  ipc = deliver checked.ipc message;
  sending = [];
  delivered = checked.delivered ++ message ∷ [];
}

message_known : knows_target opened.ipc message ≡ true
unfolding knows_target add_endpoint insert contains_key new_ipc
message_known = refl

to_checked : Interleaving.Reach Interleaving.start checked
to_checked =
    Interleaving.next (Interleaving.next Interleaving.here (Interleaving.adds_endpoint 7))
      (Interleaving.checks message message_known)

to_delivered : Interleaving.Reach Interleaving.start delivered
to_delivered = Interleaving.next to_checked (Interleaving.delivers message [] [] refl)

Reach-Fifo_example : Interleaving.Fifo delivered
Reach-Fifo_example = Reach-Fifo to_delivered

Reach-drained_example :
    (v : Interleaving.World) × Interleaving.Reach checked v
    × (v.sending ≡ [])
    × (mailbox v.ipc 7 ≡ [])
    × (Interleaving.received_at 7 v.received
        ≡ keep (λ m. m.target == 7) (checked.delivered ++ checked.sending))
Reach-drained_example = Reach-drained 7 to_checked

-- A task that is started, and is then cancelled while it works.
abbrev started : Threads.World
started = record {
  statuses = spawn Threads.start.statuses 1;
  threads = insert Threads.start.threads 1 Threads.working;
}

abbrev stopped : Threads.World
stopped = record started { statuses = (cancel started.statuses 1).1 }

to_started : Threads.Reach Threads.start started
unfolding get
to_started = Threads.next Threads.here (Threads.spawns 1 refl)

to_stopped : Threads.Reach Threads.start stopped
to_stopped = Threads.next to_started (Threads.cancels 1)

working_1 : get started.threads 1 ≡ some Threads.working
unfolding get insert
working_1 = refl

cancelled_1 : status stopped.statuses 1 ≡ some cancelled
unfolding status cancel spawn set_status get insert
cancelled_1 = refl

Reach-Fit_example : Threads.Fit stopped
Reach-Fit_example = Reach-Fit to_stopped

-- The cancelled task comes to its end all the same.
abbrev over : Threads.World
over = record {
  statuses = complete stopped.statuses 1;
  threads = insert stopped.threads 1 Threads.ended;
}

finished : Threads.Reach stopped over
finished = Threads.next Threads.here (Threads.finishes 1 working_1)

Reach-final_example : status over.statuses 1 ≡ some cancelled
Reach-final_example = Reach-final 1 cancelled to_stopped finished (inr refl) cancelled_1

-- A task that is cancelled before its time, and is then woken.
abbrev delayed : Threads.World
delayed = record {
  statuses = (cancel (schedule_after Threads.start.statuses 2) 2).1;
  threads = insert Threads.start.threads 2 Threads.sleeping;
}

to_delayed : Threads.Reach Threads.start delayed
unfolding get
to_delayed = Threads.next (Threads.next Threads.here (Threads.schedules 2 refl)) (Threads.cancels 2)

asleep_2 : get delayed.threads 2 ≡ some Threads.sleeping
unfolding get insert
asleep_2 = refl

cancelled_2 : status delayed.statuses 2 ≡ some cancelled
unfolding status cancel schedule_after set_status get insert
cancelled_2 = refl

abbrev woken : Threads.World
woken = record {
  statuses = (wake delayed.statuses 2).1;
  threads =
      insert delayed.threads 2
        (if (wake delayed.statuses 2).0 then Threads.working else Threads.ended);
}

Reach-NeverStarts_example : NeverStarts 2 woken
Reach-NeverStarts_example =
    Reach-NeverStarts 2 to_delayed (Threads.next Threads.here (Threads.wakes 2 asleep_2))
      cancelled_2 asleep_2
