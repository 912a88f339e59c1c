-- ===== src/Vm/Machine.antt =====
-- crates/vm/src/executor.rs, lines 15 to 67: the state of the machine, and what its instructions do
-- to it. Words of two's complement stand for `i32` and
-- `i64`, and the sum of a jump wraps around, as in a release build. The system calls are the trait
-- object that the machine is given. For the opcodes that go to the memory crates, the GPU engine, the
-- clock or the identifiers of ulid, the interface `Outside` says what value comes of the registers
-- that they read. Errors are values of their own, in place of their text.
use tordex.Prelude.{
  ℕ, ◌+◌, ◌-◌, ◌%◌, Bool, false, Option, some, none, String, List, [], if◌then◌else◌, ltb, leb,
  length, get_elem?, Result, ok, err,
}
use tordex.Prelude.Outcome.{Outcome}
use tordex.Prelude.Vec.{but_last}
use tordex.Vm.Instruction.{Instruction}
use tordex.Vm.Register.{
  RegisterValue, RegisterFile, RegisterError, Json, int, string, is_truthy, to_json, read, write,
}
use tordex.Vm.Register
use tordex.Vm.Stack.{InferenceStack, StackError}
use tordex.Vm.Stack
use tordex.Vm.Syscall.{SyscallArgs, SyscallResult}
use tordex.Vm.Program.{Program}

-- Rust's `()`
abbrev pub Done : Type 0
Done = Unit

pub data Failure : Type 0 where
  invalid_pc : ℕ → Failure
  bad_register : RegisterError → Failure
  bad_stack : StackError → Failure
  invalid_syscall : ℕ → Failure
  syscall_failed : Failure
  reported : String → Failure
  exceeded_max_cycles : Failure

pub data StepResult : Type 0 where
  continue : StepResult
  halted : StepResult
  call : ℕ → StepResult
  return : ℕ → StepResult
  error : String → StepResult

-- A word of 32 bits with its sign, as one of 64 bits.
abbrev pub sign_extend : ℕ → ℕ
sign_extend w = if ltb w 2147483648 then w else w + 18446744069414584320

-- `(ctx.pc as i32 + instr.imm) as usize`
unfoldable pub jump_target : ℕ → ℕ → ℕ
jump_target pc imm = sign_extend ((pc + imm) % 4294967296)

-- What the machine is given: serde_json, the test of a float against 0.0, the handler of system
-- calls, the text of a JSON value and of an `i32`, and what the opcodes of memory, GPU, clock and
-- identifiers make, over a world `W`, of the registers that they have read: the value for `reg_a`, if
-- there is one, or an error. They may panic or not come to an end.
pub record Outside (V F K R W : Type 0) : Type 0 where
  pub json : Json V F K R
  pub as_str : V → Option String
  pub float_zero : F → Bool
  pub handle : W → SyscallArgs V → SyscallResult V × W
  pub json_text : V → String
  pub word_text : ℕ → String
  pub knowledge :
      Instruction
      → List (RegisterValue F K R)
      → W
      → Outcome (Result (Option (RegisterValue F K R)) String × W)

pub record Context (V F K R W : Type 0) : Type 0 where
  pub regs : RegisterFile (RegisterValue F K R)
  pub stack : InferenceStack (RegisterValue F K R)
  pub pc : ℕ
  pub return_stack : List ℕ
  pub program : Program V
  pub world : W
  pub running : Bool
  pub cycles : ℕ
  pub max_cycles : ℕ

abbrev pub last_address : List ℕ → Option ℕ
last_address xs = if leb (length xs) 0 then none else get_elem? xs (length xs - 1)

abbrev pub or_empty : Option String → String
or_empty none = ""
or_empty (some s) = s

abbrev pub and_then : {V : Type 0} → Option V → (V → Option String) → Option String
and_then none f = none
and_then (some v) f = f v

-- The result of a step, and the context it leaves, also when it fails.
abbrev pub Stepped : Type 0 → Type 0 → Type 0 → Type 0 → Type 0 → Type 0
Stepped V F K R W = Result StepResult Failure × Context V F K R W

module _ {V F K R W : Type 0} where
  unfoldable pub new : Program V → W → Context V F K R W
  new program world = record {
    regs = Register.new;
    stack = Stack.new 1024;
    pc = program.entry_point;
    return_stack = [];
    program = program;
    world = world;
    running = false;
    cycles = 0;
    max_cycles = 1000000;
  }

  -- `ctx.pc += 1; Ok(result)`
  abbrev pub advance : Context V F K R W → (Stepped V F K R W)
  advance ctx = (ok continue, record ctx { pc = ctx.pc + 1 })

  -- The result of a write to a register.
  abbrev pub wrote :
      Context V F K R W
      → Result (RegisterFile (RegisterValue F K R)) RegisterError
      → (Stepped V F K R W)
  wrote ctx (err e) = (err (bad_register e), ctx)
  wrote ctx (ok regs) = advance (record ctx { regs = regs })

  unfoldable pub set_reg : Context V F K R W → ℕ → RegisterValue F K R → (Stepped V F K R W)
  set_reg ctx idx value = wrote ctx (write ctx.regs idx value)

  -- `ctx.regs.read(idx)?`, and what is done with the value.
  abbrev pub with_value :
      Context V F K R W
      → Result (RegisterValue F K R) RegisterError
      → (RegisterValue F K R → (Stepped V F K R W))
      → (Stepped V F K R W)
  with_value ctx (err e) k = (err (bad_register e), ctx)
  with_value ctx (ok v) k = k v

  abbrev pub reading :
      Context V F K R W → ℕ → (RegisterValue F K R → (Stepped V F K R W)) → (Stepped V F K R W)
  reading ctx idx k = with_value ctx (read ctx.regs idx) k

  -- The result of an operation of the stack.
  abbrev pub stacked :
      Context V F K R W
      → Result (InferenceStack (RegisterValue F K R)) StackError
      → (Stepped V F K R W)
  stacked ctx (err e) = (err (bad_stack e), ctx)
  stacked ctx (ok s) = advance (record ctx { stack = s })

  abbrev pub popped_into :
      Context V F K R W
      → ℕ
      → Result (RegisterValue F K R × InferenceStack (RegisterValue F K R)) StackError
      → (Stepped V F K R W)
  popped_into ctx idx (err e) = (err (bad_stack e), ctx)
  popped_into ctx idx (ok (v, s)) = set_reg (record ctx { stack = s }) idx v

  unfoldable pub jump : Context V F K R W → ℕ → (Stepped V F K R W)
  jump ctx imm = (ok continue, record ctx { pc = jump_target ctx.pc imm })

  -- The address that `Ret` goes to, and the return stack it leaves.
  unfoldable pub return_to : Context V F K R W → Option ℕ → (Stepped V F K R W)
  return_to ctx none = (ok (return (ctx.pc + 1)), ctx)
  return_to ctx (some addr) =
      (ok (return addr), record ctx { return_stack = but_last ctx.return_stack })

  -- The handler's answer to a system call.
  abbrev pub answered : Context V F K R W → SyscallResult V × W → (Stepped V F K R W)
  answered ctx (r, w) =
      if r.success
      then advance (record ctx { world = w })
      else (err (failure r.error), record ctx { world = w })
    where
      failure : Option String → Failure
      failure none = syscall_failed
      failure (some m) = reported m
