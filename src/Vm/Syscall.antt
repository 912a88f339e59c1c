-- ===== src/Vm/Syscall.antt =====
-- crates/vm/src/syscall.rs: the numbers of system calls, their arguments and results. An `i32` or
-- `i64` is its word of two's complement; `V` stands for the JSON values of serde_json.
use tordex.Prelude.{
  ℕ, ◌≡◌, refl, Bool, true, false, Option, some, none, String, List, [], ◌∷◌, nat_eq,
}
use tordex.Prelude.Map.{get}

pub data SyscallNumber : Type 0 where
  log emit_event spawn_agent search_index dispatch_task get_time sleep read_config write_output
        invoke_processor collect_evidence :
      SyscallNumber

pub number : SyscallNumber → ℕ
number log = 0
number emit_event = 1
number spawn_agent = 2
number search_index = 3
number dispatch_task = 4
number get_time = 5
number sleep = 6
number read_config = 7
number write_output = 8
number invoke_processor = 9
number collect_evidence = 10

-- The rows of the match.
abbrev pub rows : List (ℕ × SyscallNumber)
rows =
    (0, log)
    ∷ (1, emit_event)
    ∷ (2, spawn_agent)
    ∷ (3, search_index)
    ∷ (4, dispatch_task)
    ∷ (5, get_time)
    ∷ (6, sleep)
    ∷ (7, read_config)
    ∷ (8, write_output)
    ∷ (9, invoke_processor)
    ∷ (10, collect_evidence)
    ∷ []

pub from_i32 : ℕ → Option SyscallNumber
from_i32 n = get rows n

pub record SyscallArgs (V : Type 0) : Type 0 where
  pub call : SyscallNumber
  pub arg0 : ℕ
  pub arg1 : ℕ
  pub arg2 : ℕ
  pub data_in : Option V

pub record SyscallResult (V : Type 0) : Type 0 where
  pub success : Bool
  pub value : ℕ
  pub data_out : Option V
  pub error : Option String

module _ {V : Type 0} where
  unfoldable pub succeeded : ℕ → SyscallResult V
  succeeded v = record { success = true; value = v; data_out = none; error = none }

  unfoldable succeeded_with_data : ℕ → V → SyscallResult V
  succeeded_with_data v d = record { success = true; value = v; data_out = some d; error = none }

  -- The value is -1.
  unfoldable pub failed : String → SyscallResult V
  failed msg = record {
    success = false;
    value = 18446744073709551615;
    data_out = none;
    error = some msg;
  }

pub from_i32-number : (n : SyscallNumber) → from_i32 (number n) ≡ some n
unfolding number from_i32 get
from_i32-number log = refl
from_i32-number emit_event = refl
from_i32-number spawn_agent = refl
from_i32-number search_index = refl
from_i32-number dispatch_task = refl
from_i32-number get_time = refl
from_i32-number sleep = refl
from_i32-number read_config = refl
from_i32-number write_output = refl
from_i32-number invoke_processor = refl
from_i32-number collect_evidence = refl
