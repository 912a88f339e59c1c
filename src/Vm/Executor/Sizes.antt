-- ===== src/Vm/Executor/Sizes.antt =====
-- About the registers and the stack along the steps of crates/vm/src/executor.rs.
use tordex.Prelude.{
  ℕ, ◌%◌, Option, some, none, String, List, [], ◌∷◌, get_elem?, if◌then◌else◌, Bool-cases, inl, inr,
  Result, ok, err, arith,
}
use tordex.Prelude.Outcome.{Outcome, returned, Returns, Returns-bind, ◌>>=◌}
use tordex.Vm.Opcode.{Opcode}
use tordex.Vm.Instruction.{Instruction}
use tordex.Vm.Register.{
  RegisterValue, RegisterFile, RegisterError, int, string, is_truthy, read, write,
}
use tordex.Vm.Stack.{InferenceStack, StackError}
use tordex.Vm.Stack
use tordex.Vm.Stack.Bounds.{
  Bounded, BoundedResult, BoundedPop, push-BoundedResult, pop-BoundedPop, dup-BoundedResult,
  swap_top-BoundedResult,
}
use tordex.Vm.Register.Access.{WriteSound, write-Sound}
use tordex.Vm.Register.{Sized}
use tordex.Vm.Syscall.{SyscallNumber, SyscallResult, from_i32}
use tordex.Vm.Program.{get_constant}
use tordex.Vm.Machine.{
  Outside, Context, Stepped, sign_extend, advance, wrote, set_reg, with_value, reading, stacked,
  popped_into, jump, return_to, last_address, or_empty, and_then, answered,
}
use tordex.Vm.Executor.{
  load_str, syscall, emit, load_entity, compare, told, ask, needing, ask_one, ask_two, ask_three,
  if_there, rank, exec, fetched, step,
}

module _ {V F K R W : Type 0} where
  -- There are 32 registers, and the stack is within its depth.
  abbrev pub InBounds : Context V F K R W → Type 0
  InBounds ctx = Sized ctx.regs × Bounded ctx.stack

  abbrev pub Kept : Stepped V F K R W → Type 0
  Kept (r, c) = InBounds c

  wrote-Kept :
      (ctx : Context V F K R W) (b : InBounds ctx) (idx : ℕ) (v : RegisterValue F K R)
      (r : Result (RegisterFile (RegisterValue F K R)) RegisterError)
      → WriteSound ctx.regs idx v r
      → Kept (wrote ctx r)
  wrote-Kept ctx b idx v (ok g) w = (w.1.sized, b.1)
  wrote-Kept ctx b idx v (err e) w = b

  set_reg-Kept :
      (ctx : Context V F K R W) (b : InBounds ctx) (idx : ℕ) (v : RegisterValue F K R)
      → Kept (set_reg ctx idx v)
  unfolding set_reg
  set_reg-Kept ctx b idx v =
      wrote-Kept ctx b idx v (write ctx.regs idx v) (write-Sound ctx.regs idx v b.0)

  with_value-Kept :
      (ctx : Context V F K R W) (b : InBounds ctx) (r : Result (RegisterValue F K R) RegisterError)
      (k : RegisterValue F K R → Stepped V F K R W)
      → ((v : RegisterValue F K R) → Kept (k v))
      → Kept (with_value ctx r k)
  with_value-Kept ctx b (ok v) k h = h v
  with_value-Kept ctx b (err e) k h = b

  reading-Kept :
      (ctx : Context V F K R W) (b : InBounds ctx) (idx : ℕ)
      (k : RegisterValue F K R → Stepped V F K R W)
      → ((v : RegisterValue F K R) → Kept (k v))
      → Kept (reading ctx idx k)
  reading-Kept ctx b idx k h = with_value-Kept ctx b (read ctx.regs idx) k h

  stacked-Kept :
      (ctx : Context V F K R W) (b : InBounds ctx)
      (r : Result (InferenceStack (RegisterValue F K R)) StackError)
      → BoundedResult r
      → Kept (stacked ctx r)
  stacked-Kept ctx b (ok s) h = (b.0, h)
  stacked-Kept ctx b (err e) h = b

  popped_into-Kept :
      (ctx : Context V F K R W) (b : InBounds ctx) (idx : ℕ)
      (r : Result (RegisterValue F K R × InferenceStack (RegisterValue F K R)) StackError)
      → BoundedPop r
      → Kept (popped_into ctx idx r)
  popped_into-Kept ctx b idx (ok (v, s)) h = set_reg-Kept (record ctx { stack = s }) (b.0, h) idx v
  popped_into-Kept ctx b idx (err e) h = b

  stack_op-Kept :
      (ctx : Context V F K R W) (b : InBounds ctx)
      (m : Outcome (Result (InferenceStack (RegisterValue F K R)) StackError))
      → Returns BoundedResult m
      → Returns Kept (m >>= λ s. returned (stacked ctx s))
  stack_op-Kept ctx b m h =
      Returns-bind BoundedResult Kept m (λ s. returned (stacked ctx s)) h
        (λ r u. stacked-Kept ctx b r u)

  return_to-Kept :
      (ctx : Context V F K R W) (b : InBounds ctx) (a : Option ℕ) → Kept (return_to ctx a)
  unfolding return_to
  return_to-Kept ctx b none = b
  return_to-Kept ctx b (some a) = b

  answered-Kept :
      (ctx : Context V F K R W) (b : InBounds ctx) (a : SyscallResult V × W) → Kept (answered ctx a)
  answered-Kept ctx b (r, w) = elim (Bool-cases r.success) [ inl e ↦ rw e b | inr e ↦ rw e b ]

module _ {V F K R W : Type 0} (o : Outside V F K R W)
    (returns : (i : Instruction) (vs : List (RegisterValue F K R)) (w : W)
      → Returns {0, 0} (λ a. Unit) (o.knowledge i vs w)) where
  told-Kept :
      (ctx : Context V F K R W) (b : InBounds ctx) (idx : ℕ)
      (a : Result (Option (RegisterValue F K R)) String × W)
      → Kept (told o ctx idx a)
  unfolding told
  told-Kept ctx b idx (ok (some v), w) = set_reg-Kept (record ctx { world = w }) b idx v
  told-Kept ctx b idx (ok none, w) = b
  told-Kept ctx b idx (err e, w) = b

  load_entity-Kept :
      (ctx : Context V F K R W) (b : InBounds ctx) (i : Instruction) → Kept (load_entity o ctx i)
  unfolding load_entity
  load_entity-Kept ctx b i = reading-Kept ctx b i.reg_b _ (λ v. set_reg-Kept ctx b i.reg_a _)

  compare-Kept :
      (ctx : Context V F K R W) (b : InBounds ctx) (i : Instruction) → Kept (compare o ctx i)
  unfolding compare
  compare-Kept ctx b i =
      reading-Kept ctx b i.reg_a _
        (λ v. reading-Kept ctx b i.reg_b _ (λ w. set_reg-Kept ctx b i.reg_a _))

  ask-Kept :
      (ctx : Context V F K R W) (b : InBounds ctx) (i : Instruction)
      (vs : List (RegisterValue F K R))
      → Returns Kept (ask o ctx i vs)
  unfolding ask
  ask-Kept ctx b i vs =
      Returns-bind {0, 0, 0, 0} (λ a. Unit) Kept (o.knowledge i vs ctx.world)
        (λ a. returned (told o ctx i.reg_a a)) (returns i vs ctx.world)
        (λ a u. told-Kept ctx b i.reg_a a)

  needing-Kept :
      (ctx : Context V F K R W) (b : InBounds ctx) (r : Result (RegisterValue F K R) RegisterError)
      (k : RegisterValue F K R → Outcome (Stepped V F K R W))
      → ((v : RegisterValue F K R) → Returns Kept (k v))
      → Returns Kept (needing o ctx r k)
  unfolding needing
  needing-Kept ctx b (ok v) k h = h v
  needing-Kept ctx b (err e) k h = b

  ask_one-Kept :
      (ctx : Context V F K R W) (b : InBounds ctx) (i : Instruction) (x : ℕ)
      → Returns Kept (ask_one o ctx i x)
  unfolding ask_one
  ask_one-Kept ctx b i x = needing-Kept ctx b (read ctx.regs x) _ (λ v. ask-Kept ctx b i (v ∷ []))

  ask_two-Kept :
      (ctx : Context V F K R W) (b : InBounds ctx) (i : Instruction) (x y : ℕ)
      → Returns Kept (ask_two o ctx i x y)
  unfolding ask_two
  ask_two-Kept ctx b i x y =
      needing-Kept ctx b (read ctx.regs x) _
        (λ v. needing-Kept ctx b (read ctx.regs y) _ (λ w. ask-Kept ctx b i (v ∷ w ∷ [])))

  ask_three-Kept :
      (ctx : Context V F K R W) (b : InBounds ctx) (i : Instruction) (x y z : ℕ)
      → Returns Kept (ask_three o ctx i x y z)
  unfolding ask_three
  ask_three-Kept ctx b i x y z = needing-Kept ctx b (read ctx.regs x) _ (λ v.
      needing-Kept ctx b (read ctx.regs y) _
        (λ w. needing-Kept ctx b (read ctx.regs z) _ (λ u. ask-Kept ctx b i (v ∷ w ∷ u ∷ []))))

  rank-Kept :
      (ctx : Context V F K R W) (b : InBounds ctx) (i : Instruction) → Returns Kept (rank o ctx i)
  unfolding rank
  rank-Kept ctx b i =
      needing-Kept ctx b (read ctx.regs i.reg_b) _
        (λ v. ask-Kept ctx b i (v ∷ if_there o (read ctx.regs i.reg_a)))

  syscall-Kept :
      (ctx : Context V F K R W) (b : InBounds ctx) (i : Instruction) (n : Option SyscallNumber)
      → Kept (syscall o ctx i n)
  unfolding syscall
  syscall-Kept ctx b i none = b
  syscall-Kept ctx b i (some n) = answered-Kept ctx b (
      o.handle ctx.world
        (record { call = n; arg0 = i.reg_a; arg1 = i.reg_b; arg2 = i.extra; data_in = none }))

  emit-Kept : (ctx : Context V F K R W) (b : InBounds ctx) (i : Instruction) → Kept (emit o ctx i)
  unfolding emit
  emit-Kept ctx b i = reading-Kept ctx b i.reg_a _ (λ v. b)

  exec-Kept :
      (c : Opcode) (ctx : Context V F K R W) (b : InBounds ctx) (i : Instruction)
      → Returns Kept (exec o c ctx i)
  unfolding exec jump load_str
  exec-Kept Opcode.nop ctx b i = b
  exec-Kept Opcode.load_imm ctx b i = set_reg-Kept ctx b i.reg_a (int (sign_extend i.imm))
  exec-Kept Opcode.load_str ctx b i =
      set_reg-Kept ctx b i.reg_a
        (string (or_empty (and_then (get_constant ctx.program (i.imm % 65536)) o.as_str)))
  exec-Kept Opcode.mov ctx b i =
      reading-Kept ctx b i.reg_b (λ v. set_reg ctx i.reg_a v) (λ v. set_reg-Kept ctx b i.reg_a v)
  exec-Kept Opcode.load_entity ctx b i = load_entity-Kept ctx b i
  exec-Kept Opcode.load_graph ctx b i = ask_one-Kept ctx b i i.reg_b
  exec-Kept Opcode.traverse ctx b i = ask_one-Kept ctx b i i.reg_b
  exec-Kept Opcode.compare ctx b i = compare-Kept ctx b i
  exec-Kept Opcode.fact ctx b i = ask_three-Kept ctx b i i.reg_a i.reg_b i.extra
  exec-Kept Opcode.query ctx b i = ask_one-Kept ctx b i i.reg_b
  exec-Kept Opcode.relate ctx b i = reading-Kept ctx b i.reg_a _ (λ s.
      reading-Kept ctx b i.reg_b _ (λ k. reading-Kept ctx b i.extra (λ t. advance ctx) (λ t. b)))
  exec-Kept Opcode.infer ctx b i = ask_two-Kept ctx b i i.reg_b i.extra
  exec-Kept Opcode.similar ctx b i = ask_two-Kept ctx b i i.reg_b i.extra
  exec-Kept Opcode.classify ctx b i = ask_one-Kept ctx b i i.reg_b
  exec-Kept Opcode.reason ctx b i = ask_one-Kept ctx b i i.reg_b
  exec-Kept Opcode.correlate ctx b i = ask_two-Kept ctx b i i.reg_a i.reg_b
  exec-Kept Opcode.timeline ctx b i = ask_one-Kept ctx b i i.reg_b
  exec-Kept Opcode.push ctx b i =
      reading-Kept ctx b i.reg_a (λ v. stacked ctx (Stack.push ctx.stack v))
        (λ v. stacked-Kept ctx b (Stack.push ctx.stack v) (push-BoundedResult ctx.stack v))
  exec-Kept Opcode.pop ctx b i =
      popped_into-Kept ctx b i.reg_a (Stack.pop ctx.stack) (pop-BoundedPop ctx.stack b.1)
  exec-Kept Opcode.dup ctx b i =
      stack_op-Kept ctx b (Stack.dup ctx.stack) (dup-BoundedResult ctx.stack)
  exec-Kept Opcode.swap ctx b i =
      stack_op-Kept ctx b (Stack.swap_top ctx.stack) (swap_top-BoundedResult ctx.stack b.1)
  exec-Kept Opcode.jmp ctx b i = b
  exec-Kept Opcode.jz ctx b i =
      reading-Kept ctx b i.reg_a
        (λ v. if is_truthy o.float_zero v then advance ctx else jump ctx i.imm) (λ v. ground arith)
  exec-Kept Opcode.jnz ctx b i =
      reading-Kept ctx b i.reg_a
        (λ v. if is_truthy o.float_zero v then jump ctx i.imm else advance ctx) (λ v. ground arith)
  exec-Kept Opcode.call ctx b i = b
  exec-Kept Opcode.ret ctx b i = return_to-Kept ctx b (last_address ctx.return_stack)
  exec-Kept Opcode.halt ctx b i = b
  exec-Kept Opcode.search ctx b i = ask_two-Kept ctx b i i.reg_a i.reg_b
  exec-Kept Opcode.index ctx b i =
      reading-Kept ctx b i.reg_a _ (λ s. reading-Kept ctx b i.reg_b (λ k. advance ctx) (λ k. b))
  exec-Kept Opcode.rank ctx b i = rank-Kept ctx b i
  exec-Kept Opcode.recall ctx b i = ask_one-Kept ctx b i i.reg_b
  exec-Kept Opcode.consolidate ctx b i = b
  exec-Kept Opcode.forget ctx b i = reading-Kept ctx b i.reg_a (λ k. advance ctx) (λ k. b)
  exec-Kept Opcode.store ctx b i = ask_one-Kept ctx b i i.reg_a
  exec-Kept Opcode.snapshot ctx b i = ask-Kept ctx b i []
  exec-Kept Opcode.sys_call ctx b i = syscall-Kept ctx b i (from_i32 i.imm)
  exec-Kept Opcode.emit ctx b i = emit-Kept ctx b i

  fetched-Kept :
      (ctx : Context V F K R W) (b : InBounds ctx) (i : Option Instruction)
      → Returns Kept (fetched o ctx i)
  unfolding fetched
  fetched-Kept ctx b none = b
  fetched-Kept ctx b (some i) = exec-Kept i.opcode ctx b i

  -- If the opcodes of the world outside return, then a step from a machine of 32 registers with a
  -- stack within its depth returns, and the machine it leaves is such a one, also after an error.
  pub step-Kept : (ctx : Context V F K R W) (b : InBounds ctx) → Returns Kept (step o ctx)
  unfolding step
  step-Kept ctx b = fetched-Kept ctx b (get_elem? ctx.program.instructions ctx.pc)
