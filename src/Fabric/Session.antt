-- ===== src/Fabric/Session.antt =====
-- crates/fabric/src/session.rs: the sessions of the collection tasks and their state machine. The
-- mutex makes each method one step. `V` stands for the JSON values of serde_json, `now` for a
-- reading of the clock.
pub mod Machine
pub mod Transition
pub mod Runs
use Prim.Native.String.{◌++◌ as str_append}
use tordex.Prelude.{
  ℕ, ◌+◌, ◌%◌, ◌^◌, Bool, true, false, ◌&&◌, Option, some, none, String, string_eq, List, [], ◌∷◌,
  length, ltb, nat_beq, if◌then◌else◌, Result, ok, err,
}
use tordex.Prelude.Map.{Map, get, insert}
use tordex.Fabric.Task.{FabricError, task_not_found, session}

pub data SessionState : Type 0 where
  queued running succeeded failed cancelled : SessionState

-- The derived `PartialEq`.
unfoldable pub same_state : SessionState → SessionState → Bool
same_state queued queued = true
same_state running running = true
same_state succeeded succeeded = true
same_state failed failed = true
same_state cancelled cancelled = true
same_state _ _ = false

-- The derived `Debug`.
debug : SessionState → String
debug queued = "Queued"
debug running = "Running"
debug succeeded = "Succeeded"
debug failed = "Failed"
debug cancelled = "Cancelled"

pub record CollectionSession (V : Type 0) : Type 0 where
  pub task_id : String
  pub target : String
  pub driver : String
  pub capability : String
  pub state : SessionState
  pub attempt : ℕ
  pub max_retries : ℕ
  pub result : Option V
  pub error : Option String
  pub queued_at : ℕ
  pub started_at : Option ℕ
  pub completed_at : Option ℕ
  pub metadata : Map String String

pub allowed_transition : SessionState → SessionState → Bool
allowed_transition queued running = true
allowed_transition queued cancelled = true
allowed_transition running succeeded = true
allowed_transition running failed = true
allowed_transition running cancelled = true
allowed_transition failed queued = true
allowed_transition failed cancelled = true
allowed_transition _ _ = false

abbrev pub u32_mod : ℕ
u32_mod = 2 ^ 32

-- `if new.is_some() { old = new }`
abbrev pub or_keep {ℓ} : {A : Type ℓ} → Option A → Option A → Option A
or_keep (some x) old = some x
or_keep none old = old

abbrev pub Sessions : Type 0 → Type 0
Sessions V = Map String (CollectionSession V)

unfoldable pub invalid : SessionState → SessionState → FabricError
unfolding debug
invalid from to =
    session
      (str_append "invalid transition: " (str_append (debug from) (str_append " → " (debug to))))

module _ {V : Type 0} where
  pub create :
      Sessions V
      → String
      → String
      → String
      → String
      → ℕ
      → Map String String
      → ℕ
      → CollectionSession V × Sessions V
  create inner task_id target driver capability max_retries metadata now =
      let s : CollectionSession V = record {
        task_id = task_id;
        target = target;
        driver = driver;
        capability = capability;
        state = queued;
        attempt = 0;
        max_retries = max_retries;
        result = none;
        error = none;
        queued_at = now;
        started_at = none;
        completed_at = none;
        metadata = metadata;
      } in
      (s, insert inner task_id s)

  -- The `match session.state` at the end of `transition`.
  stamp : CollectionSession V → ℕ → SessionState → CollectionSession V
  stamp s now running = record s { attempt = (s.attempt + 1) % u32_mod; started_at = some now }
  stamp s now succeeded = record s { completed_at = some now }
  stamp s now failed = record s { completed_at = some now }
  stamp s now cancelled = record s { completed_at = some now }
  stamp s now queued = s

  -- The session after an allowed transition.
  pub enter :
      CollectionSession V → SessionState → Option V → Option String → ℕ → CollectionSession V
  unfolding stamp
  enter s to result error now =
      stamp
        (record s { state = to; result = or_keep result s.result; error = or_keep error s.error })
        now to

  pub transition_found :
      Sessions V
      → String
      → SessionState
      → Option V
      → Option String
      → ℕ
      → Option (CollectionSession V)
      → Result (CollectionSession V) FabricError × Sessions V
  transition_found inner task_id to result error now none = (err (task_not_found task_id), inner)
  transition_found inner task_id to result error now (some s) =
      if allowed_transition s.state to
      then (ok (enter s to result error now), insert inner task_id (enter s to result error now))
      else (err (invalid s.state to), inner)

  pub transition :
      Sessions V
      → String
      → SessionState
      → Option V
      → Option String
      → ℕ
      → Result (CollectionSession V) FabricError × Sessions V
  unfolding transition_found
  transition inner task_id to result error now =
      transition_found inner task_id to result error now (get inner task_id)

  unfoldable pub matches : Option SessionState → CollectionSession V → Bool
  matches none s = true
  matches (some f) s = same_state s.state f

  unfoldable pub list : Sessions V → Option SessionState → List (CollectionSession V)
  list [] f = []
  list ((k, s) ∷ m) f = let rest = list m f in if matches f s then s ∷ rest else rest

  -- `counts`, at one state; a state with no session has no entry, which reads as 0.
  unfoldable count : Sessions V → SessionState → ℕ
  count [] state = 0
  count ((k, s) ∷ m) state = (if same_state s.state state then 1 else 0) + count m state

  unfoldable pub len : Sessions V → ℕ
  len inner = length inner

  retryable : Option (CollectionSession V) → Bool
  retryable none = false
  retryable (some s) = same_state s.state failed && ltb s.attempt s.max_retries

  unfoldable should_retry : Sessions V → String → Bool
  unfolding retryable
  should_retry inner task_id = retryable (get inner task_id)
