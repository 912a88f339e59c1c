-- ===== src/Fabric/Task.antt =====
-- crates/fabric/src/queue.rs, lines 17 to 166 and 344 to 361: priorities, targets, tasks, the
-- entries of the queue and their order, and the errors of the fabric. A time is a number of ticks;
-- `V` stands for the JSON values of serde_json, which the queue only carries.
pub mod Labels
use Prim.Native.Nat.{compare, Ordering}
use tordex.Prelude.{
  ℕ, Bool, true, false, Option, some, none, String, string_eq, ◌==◌, if◌then◌else◌, [],
}
use tordex.Prelude.Map.{Map, insert}

pub data Priority : Type 0 where
  critical high medium low background : Priority

unfoldable pub discriminant : Priority → ℕ
discriminant critical = 0
discriminant high = 1
discriminant medium = 2
discriminant low = 3
discriminant background = 4

pub label : Priority → String
label critical = "critical"
label high = "high"
label medium = "medium"
label low = "low"
label background = "background"

pub from_label : String → Option Priority
from_label s =
    if s == "critical"
    then some critical
    else if s == "high"
    then some high
    else if s == "medium"
    then some medium
    else if s == "low"
    then some low
    else if s == "background"
    then some background
    else none

pub data CollectionTarget : Type 0 where
  url : String → CollectionTarget
  domain : String → CollectionTarget
  service : String → String → CollectionTarget
  custom : String → String → CollectionTarget

unfoldable locator : CollectionTarget → String
locator (url u) = u
locator (domain d) = d
locator (service id l) = l
locator (custom kind l) = l

pub record CollectionTask (V : Type 0) : Type 0 where
  pub id : String
  pub target : CollectionTarget
  pub priority : Priority
  pub driver : String
  pub capability : String
  pub params : V
  pub max_retries : ℕ
  pub created_at : ℕ
  pub metadata : Map String String

module _ {V : Type 0} where
  -- `CollectionTask::new`; `now` is the reading of the clock.
  unfoldable new_task : String → CollectionTarget → String → String → V → ℕ → CollectionTask V
  new_task id target driver capability params now = record {
    id = id;
    target = target;
    priority = medium;
    driver = driver;
    capability = capability;
    params = params;
    max_retries = 3;
    created_at = now;
    metadata = [];
  }

  unfoldable with_priority : CollectionTask V → Priority → CollectionTask V
  with_priority t p = record t { priority = p }

  unfoldable with_max_retries : CollectionTask V → ℕ → CollectionTask V
  with_max_retries t n = record t { max_retries = n }

  unfoldable with_metadata : CollectionTask V → String → String → CollectionTask V
  with_metadata t key val = record t { metadata = insert t.metadata key val }

pub record QueueEntry (V : Type 0) : Type 0 where
  pub task : CollectionTask V
  pub submitted_at : ℕ
  pub seq : ℕ

-- `Ordering::then_with`
abbrev pub then_with : Ordering → Ordering → Ordering
then_with Ordering.lt o = Ordering.lt
then_with Ordering.eq o = o
then_with Ordering.gt o = Ordering.gt

module _ {V : Type 0} where
  -- `QueueEntry::cmp`
  cmp : QueueEntry V → QueueEntry V → Ordering
  cmp a b =
      then_with (compare (discriminant a.task.priority) (discriminant b.task.priority))
        (compare a.seq b.seq)

  -- `a.cmp(b) == Ordering::Less`
  unfoldable pub less : QueueEntry V → QueueEntry V → Bool
  unfolding cmp
  less a b = elim (cmp a b) [ Ordering.lt ↦ true | _ ↦ false ]

pub data FabricError : Type 0 where
  task_not_found : String → FabricError
  duplicate_task : String → FabricError
  session : String → FabricError
  driver : String → FabricError
  queue_full : FabricError
  stopped : FabricError
