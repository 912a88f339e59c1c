-- ===== src/Vm/Executor.antt =====
-- crates/vm/src/executor.rs, lines 69 to 672: the decode-execute cycle.
pub mod Steady
pub mod Total
pub mod Calls
pub mod Sizes
use tordex.Prelude.{
  ℕ, ◌+◌, ◌-◌, ◌%◌, Bool, true, false, not, ◌&&◌, Option, some, none, String, List, [], ◌∷◌, ◌++◌,
  if◌then◌else◌, ltb, leb, ◌==◌, string_eq, length, get_elem?, suc, zero, Result, ok, err,
}
use tordex.Prelude.Outcome.{Outcome, returned, exhausted, ◌>>=◌}
use tordex.Prelude.Vec.{but_last}
use tordex.Vm.Opcode
use tordex.Vm.Opcode.{Opcode}
use tordex.Vm.Instruction.{Instruction}
use tordex.Vm.Register.{
  RegisterValue, RegisterFile, RegisterError, Json, int, string, boolean, entity, is_truthy,
  to_json, read, write,
}
use tordex.Vm.Register
use tordex.Vm.Stack.{InferenceStack, StackError}
use tordex.Vm.Stack
use tordex.Vm.Syscall.{SyscallArgs, SyscallResult, SyscallNumber, emit_event, from_i32}
use tordex.Vm.Program.{Program, get_constant}
use tordex.Vm.Machine.{
  Failure, StepResult, bad_register, Outside, Context, Stepped, Done, invalid_pc, invalid_syscall,
  exceeded_max_cycles, reported, continue, halted, call, return, error, sign_extend, jump_target,
  advance, set_reg, reading, stacked, popped_into, jump, return_to, last_address, or_empty,
  and_then, answered,
}

module _ {V F K R W : Type 0} (o : Outside V F K R W) where
  unfoldable pub load_str : Context V F K R W → Instruction → (Stepped V F K R W)
  load_str ctx i =
      set_reg ctx i.reg_a
        (string (or_empty (and_then (get_constant ctx.program (i.imm % 65536)) o.as_str)))

  unfoldable pub syscall :
      Context V F K R W → Instruction → Option SyscallNumber → (Stepped V F K R W)
  syscall ctx i none = (err (invalid_syscall i.imm), ctx)
  syscall ctx i (some n) = answered ctx (
      o.handle ctx.world
        (record { call = n; arg0 = i.reg_a; arg1 = i.reg_b; arg2 = i.extra; data_in = none }))

  unfoldable pub emit : Context V F K R W → Instruction → (Stepped V F K R W)
  emit ctx i = reading ctx i.reg_a (λ v. advance (record ctx {
    world =
        (o.handle ctx.world (record {
          call = emit_event;
          arg0 = 0;
          arg1 = 0;
          arg2 = 0;
          data_in = some (to_json o.json v);
        })).1;
  }))

  pub load_entity : Context V F K R W → Instruction → (Stepped V F K R W)
  load_entity ctx i =
      reading ctx i.reg_b
        (λ v. set_reg ctx i.reg_a (entity (o.json_text (to_json o.json v)) (o.word_text i.imm)))

  pub compare : Context V F K R W → Instruction → (Stepped V F K R W)
  compare ctx i = reading ctx i.reg_a (λ a. reading ctx i.reg_b (λ b.
      set_reg ctx i.reg_a
        (boolean (o.json_text (to_json o.json a) == o.json_text (to_json o.json b)))))

  -- What the world outside has answered: an error, nothing to write, or a value for `reg_a`.
  pub told :
      Context V F K R W → ℕ → Result (Option (RegisterValue F K R)) String × W → (Stepped V F K R W)
  told ctx idx (err e, w) = (err (reported e), record ctx { world = w })
  told ctx idx (ok none, w) = advance (record ctx { world = w })
  told ctx idx (ok (some v), w) = set_reg (record ctx { world = w }) idx v

  -- An opcode of the world outside, after it has read its registers.
  pub ask :
      Context V F K R W → Instruction → List (RegisterValue F K R) → Outcome (Stepped V F K R W)
  ask ctx i vs = do a ← o.knowledge i vs ctx.world; returned (told ctx i.reg_a a)

  -- `ctx.regs.read(idx)?` before a call that may panic.
  pub needing :
      Context V F K R W
      → Result (RegisterValue F K R) RegisterError
      → (RegisterValue F K R → Outcome (Stepped V F K R W))
      → Outcome (Stepped V F K R W)
  needing ctx (err e) k = returned (err (bad_register e), ctx)
  needing ctx (ok v) k = k v

  pub ask_one : Context V F K R W → Instruction → ℕ → Outcome (Stepped V F K R W)
  ask_one ctx i x = needing ctx (read ctx.regs x) (λ v. ask ctx i (v ∷ []))

  pub ask_two : Context V F K R W → Instruction → ℕ → ℕ → Outcome (Stepped V F K R W)
  ask_two ctx i x y =
      needing ctx (read ctx.regs x)
        (λ v. needing ctx (read ctx.regs y) (λ w. ask ctx i (v ∷ w ∷ [])))

  pub ask_three : Context V F K R W → Instruction → ℕ → ℕ → ℕ → Outcome (Stepped V F K R W)
  ask_three ctx i x y z = needing ctx (read ctx.regs x) (λ v.
      needing ctx (read ctx.regs y)
        (λ w. needing ctx (read ctx.regs z) (λ u. ask ctx i (v ∷ w ∷ u ∷ []))))

  -- `.ok()`, as a list.
  pub if_there : Result (RegisterValue F K R) RegisterError → List (RegisterValue F K R)
  if_there (err e) = []
  if_there (ok v) = v ∷ []

  -- `Rank` does without the query if there is no register `reg_a`.
  pub rank : Context V F K R W → Instruction → Outcome (Stepped V F K R W)
  rank ctx i =
      needing ctx (read ctx.regs i.reg_b) (λ v. ask ctx i (v ∷ if_there (read ctx.regs i.reg_a)))

  -- The instruction that stands at the program counter.
  pub exec : Opcode → Context V F K R W → Instruction → Outcome (Stepped V F K R W)
  exec Opcode.nop ctx i = returned (advance ctx)
  exec Opcode.load_imm ctx i = returned (set_reg ctx i.reg_a (int (sign_extend i.imm)))
  exec Opcode.load_str ctx i = returned (load_str ctx i)
  exec Opcode.mov ctx i = returned (reading ctx i.reg_b (λ v. set_reg ctx i.reg_a v))
  exec Opcode.push ctx i =
      returned (reading ctx i.reg_a (λ v. stacked ctx (Stack.push ctx.stack v)))
  exec Opcode.pop ctx i = returned (popped_into ctx i.reg_a (Stack.pop ctx.stack))
  exec Opcode.dup ctx i = do s ← Stack.dup ctx.stack; returned (stacked ctx s)
  exec Opcode.swap ctx i = do s ← Stack.swap_top ctx.stack; returned (stacked ctx s)
  exec Opcode.jmp ctx i = returned (jump ctx i.imm)
  exec Opcode.jz ctx i =
      returned (
        reading ctx i.reg_a (λ v. if is_truthy o.float_zero v then advance ctx else jump ctx i.imm))
  exec Opcode.jnz ctx i =
      returned (
        reading ctx i.reg_a (λ v. if is_truthy o.float_zero v then jump ctx i.imm else advance ctx))
  exec Opcode.call ctx i = returned (ok (call (jump_target ctx.pc i.imm)), ctx)
  exec Opcode.ret ctx i = returned (return_to ctx (last_address ctx.return_stack))
  exec Opcode.halt ctx i = returned (ok halted, ctx)
  exec Opcode.relate ctx i =
      returned (
        reading ctx i.reg_a
          (λ s. reading ctx i.reg_b (λ k. reading ctx i.extra (λ t. advance ctx))))
  exec Opcode.index ctx i =
      returned (reading ctx i.reg_a (λ d. reading ctx i.reg_b (λ k. advance ctx)))
  exec Opcode.consolidate ctx i = returned (advance ctx)
  exec Opcode.forget ctx i = returned (reading ctx i.reg_a (λ d. advance ctx))
  exec Opcode.sys_call ctx i = returned (syscall ctx i (from_i32 i.imm))
  exec Opcode.emit ctx i = returned (emit ctx i)
  exec Opcode.load_entity ctx i = returned (load_entity ctx i)
  exec Opcode.compare ctx i = returned (compare ctx i)
  exec Opcode.load_graph ctx i = ask_one ctx i i.reg_b
  exec Opcode.traverse ctx i = ask_one ctx i i.reg_b
  exec Opcode.fact ctx i = ask_three ctx i i.reg_a i.reg_b i.extra
  exec Opcode.query ctx i = ask_one ctx i i.reg_b
  exec Opcode.infer ctx i = ask_two ctx i i.reg_b i.extra
  exec Opcode.similar ctx i = ask_two ctx i i.reg_b i.extra
  exec Opcode.classify ctx i = ask_one ctx i i.reg_b
  exec Opcode.reason ctx i = ask_one ctx i i.reg_b
  exec Opcode.correlate ctx i = ask_two ctx i i.reg_a i.reg_b
  exec Opcode.timeline ctx i = ask_one ctx i i.reg_b
  exec Opcode.search ctx i = ask_two ctx i i.reg_a i.reg_b
  exec Opcode.rank ctx i = rank ctx i
  exec Opcode.recall ctx i = ask_one ctx i i.reg_b
  exec Opcode.store ctx i = ask_one ctx i i.reg_a
  exec Opcode.snapshot ctx i = ask ctx i []

  pub fetched : Context V F K R W → Option Instruction → Outcome (Stepped V F K R W)
  fetched ctx none = returned (err (invalid_pc ctx.pc), ctx)
  fetched ctx (some i) = exec i.opcode ctx i

  unfoldable pub step : Context V F K R W → Outcome (Stepped V F K R W)
  step ctx = fetched ctx (get_elem? ctx.program.instructions ctx.pc)

-- How `execute` ends, and the context it leaves.
abbrev pub Run : Type 0 → Type 0 → Type 0 → Type 0 → Type 0 → Type 0
Run V F K R W = Result Done Failure × Context V F K R W

-- What the loop does after a step.
pub data Control (V F K R W : Type 0) : Type 0 where
  again : Context V F K R W → Control V F K R W
  stop : Result Done Failure → Context V F K R W → Control V F K R W

module _ {V F K R W : Type 0} where
  pub react : StepResult → Context V F K R W → Control V F K R W
  react halted ctx = stop (ok tt) (record ctx { running = false })
  react (call addr) ctx =
      again (record ctx { return_stack = ctx.return_stack ++ ctx.pc ∷ []; pc = addr })
  react (return addr) ctx = again (record ctx { pc = addr })
  react (error msg) ctx = stop (err (reported msg)) (record ctx { running = false })
  react continue ctx = again ctx

  pub control : (Stepped V F K R W) → Control V F K R W
  control (err e, ctx) = stop (err e) ctx
  control (ok r, ctx) = react r (record ctx { cycles = ctx.cycles + 1 })

  -- After the loop.
  pub finish : Context V F K R W → Result Done Failure
  finish ctx = if leb ctx.max_cycles ctx.cycles then err exceeded_max_cycles else ok tt

  abbrev pub resume :
      (Context V F K R W → Outcome (Run V F K R W)) → Control V F K R W → Outcome (Run V F K R W)
  resume loop (again ctx) = loop ctx
  resume loop (stop r ctx) = returned (r, ctx)

module _ {V F K R W : Type 0} (o : Outside V F K R W) where
  -- The test of the loop, and its body.
  pub iterate : Context V F K R W → Outcome (Control V F K R W)
  iterate ctx =
      if ctx.running && ltb ctx.cycles ctx.max_cycles
      then (do s ← step o ctx; returned (control s))
      else returned (stop (finish ctx) ctx)

  pub loop : ℕ → Context V F K R W → Outcome (Run V F K R W)
  loop zero ctx = exhausted
  loop (suc n) ctx = iterate ctx >>= resume (loop n)

  -- The loop is entered at most `max_cycles + 1` times.
  pub execute : Context V F K R W → Outcome (Run V F K R W)
  execute ctx = loop (suc ctx.max_cycles) (record ctx { running = true; cycles = 0 })
