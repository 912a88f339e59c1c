-- ===== src/Vm/Executor/Steady.antt =====
-- A step of crates/vm/src/executor.rs returns, and only a Halt halts.
use tordex.Prelude.{
  String, List, [], ◌∷◌, ℕ, ◌%◌, ◌≡◌, refl, Option, some, none, get_elem?, if◌then◌else◌,
  Bool-cases, inl, inr, Result, ok, err, arith,
}
use tordex.Prelude.Outcome.{Outcome, returned, Returns, Returns-bind, ◌>>=◌}
use tordex.Vm.Opcode.{Opcode}
use tordex.Vm.Instruction.{Instruction}
use tordex.Vm.Register.{
  RegisterValue, RegisterFile, RegisterError, int, string, is_truthy, read, write,
}
use tordex.Vm.Stack.{InferenceStack, StackError}
use tordex.Vm.Stack
use tordex.Vm.Stack.Laws.{dup-Returns, swap_top-Returns}
use tordex.Vm.Syscall.{SyscallNumber, SyscallResult, from_i32}
use tordex.Vm.Program.{get_constant}
use tordex.Vm.Machine.{
  Outside, Context, Stepped, halted, sign_extend, advance, wrote, set_reg, with_value, reading,
  stacked, popped_into, jump, return_to, last_address, or_empty, and_then, answered,
}
use tordex.Vm.Executor.{
  load_str, syscall, emit, load_entity, compare, told, ask, needing, ask_one, ask_two, ask_three,
  if_there, rank, exec, fetched, step,
}

module _ {V F K R W : Type 0} where
  -- The instruction at the program counter is a Halt.
  abbrev pub AtHalt : Context V F K R W → Type 0
  AtHalt c =
      (i : Instruction) × (get_elem? c.program.instructions c.pc ≡ some i)
      × (i.opcode ≡ Opcode.halt)

  -- Only a Halt halts.
  abbrev pub Stopped : Stepped V F K R W → Type 0
  Stopped (ok halted, c) = AtHalt c
  Stopped _ = Unit

  -- A step leaves the flag and the counters of the loop to the loop, and only a Halt halts.
  abbrev pub Steady : Context V F K R W → Stepped V F K R W → Type 0
  Steady ctx (r, c) =
      (c.running ≡ ctx.running)
      × ((c.cycles ≡ ctx.cycles) × ((c.max_cycles ≡ ctx.max_cycles) × Stopped (r, c)))

  wrote-Steady :
      (ctx : Context V F K R W) (r : Result (RegisterFile (RegisterValue F K R)) RegisterError)
      → Steady ctx (wrote ctx r)
  wrote-Steady ctx (ok g) = (refl, (refl, (refl, tt)))
  wrote-Steady ctx (err e) = (refl, (refl, (refl, tt)))

  set_reg-Steady :
      (ctx : Context V F K R W) (idx : ℕ) (v : RegisterValue F K R) → Steady ctx (set_reg ctx idx v)
  unfolding set_reg
  set_reg-Steady ctx idx v = wrote-Steady ctx (write ctx.regs idx v)

  with_value-Steady :
      (ctx : Context V F K R W) (r : Result (RegisterValue F K R) RegisterError)
      (k : RegisterValue F K R → Stepped V F K R W)
      → ((v : RegisterValue F K R) → Steady ctx (k v))
      → Steady ctx (with_value ctx r k)
  with_value-Steady ctx (ok v) k h = h v
  with_value-Steady ctx (err e) k h = (refl, (refl, (refl, tt)))

  reading-Steady :
      (ctx : Context V F K R W) (idx : ℕ) (k : RegisterValue F K R → Stepped V F K R W)
      → ((v : RegisterValue F K R) → Steady ctx (k v))
      → Steady ctx (reading ctx idx k)
  reading-Steady ctx idx k h = with_value-Steady ctx (read ctx.regs idx) k h

  stacked-Steady :
      (ctx : Context V F K R W) (r : Result (InferenceStack (RegisterValue F K R)) StackError)
      → Steady ctx (stacked ctx r)
  stacked-Steady ctx (ok s) = (refl, (refl, (refl, tt)))
  stacked-Steady ctx (err e) = (refl, (refl, (refl, tt)))

  popped_into-Steady :
      (ctx : Context V F K R W) (idx : ℕ)
      (r : Result (RegisterValue F K R × InferenceStack (RegisterValue F K R)) StackError)
      → Steady ctx (popped_into ctx idx r)
  popped_into-Steady ctx idx (ok (v, s)) = set_reg-Steady (record ctx { stack = s }) idx v
  popped_into-Steady ctx idx (err e) = (refl, (refl, (refl, tt)))

  stack_op-Steady :
      (ctx : Context V F K R W)
      (m : Outcome (Result (InferenceStack (RegisterValue F K R)) StackError))
      → Returns {0, 0} (λ r. Unit) m
      → Returns (Steady ctx) (m >>= λ s. returned (stacked ctx s))
  stack_op-Steady ctx m h =
      Returns-bind {0, 0, 0, 0} (λ r. Unit) (Steady ctx) m (λ s. returned (stacked ctx s)) h
        (λ r u. stacked-Steady ctx r)

  return_to-Steady : (ctx : Context V F K R W) (a : Option ℕ) → Steady ctx (return_to ctx a)
  unfolding return_to
  return_to-Steady ctx none = (refl, (refl, (refl, tt)))
  return_to-Steady ctx (some a) = (refl, (refl, (refl, tt)))

  answered-Steady :
      (ctx : Context V F K R W) (a : SyscallResult V × W) → Steady ctx (answered ctx a)
  answered-Steady ctx (r, w) = elim (Bool-cases r.success) [
    | inl e ↦ rw e (refl, (refl, (refl, tt)))
    | inr e ↦ rw e (refl, (refl, (refl, tt)))
  ]

module _ {V F K R W : Type 0} (o : Outside V F K R W) where
  told-Steady :
      (ctx : Context V F K R W) (idx : ℕ) (a : Result (Option (RegisterValue F K R)) String × W)
      → Steady ctx (told o ctx idx a)
  unfolding told
  told-Steady ctx idx (ok (some v), w) = set_reg-Steady (record ctx { world = w }) idx v
  told-Steady ctx idx (ok none, w) = (refl, (refl, (refl, tt)))
  told-Steady ctx idx (err e, w) = (refl, (refl, (refl, tt)))

  load_entity-Steady :
      (ctx : Context V F K R W) (i : Instruction) → Steady ctx (load_entity o ctx i)
  unfolding load_entity
  load_entity-Steady ctx i = reading-Steady ctx i.reg_b _ (λ v. set_reg-Steady ctx i.reg_a _)

  compare-Steady : (ctx : Context V F K R W) (i : Instruction) → Steady ctx (compare o ctx i)
  unfolding compare
  compare-Steady ctx i =
      reading-Steady ctx i.reg_a _
        (λ v. reading-Steady ctx i.reg_b _ (λ w. set_reg-Steady ctx i.reg_a _))

  syscall-Steady :
      (ctx : Context V F K R W) (i : Instruction) (n : Option SyscallNumber)
      → Steady ctx (syscall o ctx i n)
  unfolding syscall
  syscall-Steady ctx i none = (refl, (refl, (refl, tt)))
  syscall-Steady ctx i (some n) = answered-Steady ctx (
      o.handle ctx.world
        (record { call = n; arg0 = i.reg_a; arg1 = i.reg_b; arg2 = i.extra; data_in = none }))

  emit-Steady : (ctx : Context V F K R W) (i : Instruction) → Steady ctx (emit o ctx i)
  unfolding emit
  emit-Steady ctx i = reading-Steady ctx i.reg_a _ (λ v. (refl, (refl, (refl, tt))))

  module _
      (returns : (i : Instruction) (vs : List (RegisterValue F K R)) (w : W)
        → Returns {0, 0} (λ a. Unit) (o.knowledge i vs w)) where
    ask-Steady :
        (ctx : Context V F K R W) (i : Instruction) (vs : List (RegisterValue F K R))
        → Returns (Steady ctx) (ask o ctx i vs)
    unfolding ask
    ask-Steady ctx i vs =
        Returns-bind {0, 0, 0, 0} (λ a. Unit) (Steady ctx) (o.knowledge i vs ctx.world)
          (λ a. returned (told o ctx i.reg_a a)) (returns i vs ctx.world)
          (λ a u. told-Steady ctx i.reg_a a)

    needing-Steady :
        (ctx : Context V F K R W) (r : Result (RegisterValue F K R) RegisterError)
        (k : RegisterValue F K R → Outcome (Stepped V F K R W))
        → ((v : RegisterValue F K R) → Returns (Steady ctx) (k v))
        → Returns (Steady ctx) (needing o ctx r k)
    unfolding needing
    needing-Steady ctx (ok v) k h = h v
    needing-Steady ctx (err e) k h = (refl, (refl, (refl, tt)))

    ask_one-Steady :
        (ctx : Context V F K R W) (i : Instruction) (x : ℕ)
        → Returns (Steady ctx) (ask_one o ctx i x)
    unfolding ask_one
    ask_one-Steady ctx i x = needing-Steady ctx (read ctx.regs x) _ (λ v. ask-Steady ctx i (v ∷ []))

    ask_two-Steady :
        (ctx : Context V F K R W) (i : Instruction) (x y : ℕ)
        → Returns (Steady ctx) (ask_two o ctx i x y)
    unfolding ask_two
    ask_two-Steady ctx i x y =
        needing-Steady ctx (read ctx.regs x) _
          (λ v. needing-Steady ctx (read ctx.regs y) _ (λ w. ask-Steady ctx i (v ∷ w ∷ [])))

    ask_three-Steady :
        (ctx : Context V F K R W) (i : Instruction) (x y z : ℕ)
        → Returns (Steady ctx) (ask_three o ctx i x y z)
    unfolding ask_three
    ask_three-Steady ctx i x y z = needing-Steady ctx (read ctx.regs x) _ (λ v.
        needing-Steady ctx (read ctx.regs y) _
          (λ w. needing-Steady ctx (read ctx.regs z) _ (λ u. ask-Steady ctx i (v ∷ w ∷ u ∷ []))))

    rank-Steady : (ctx : Context V F K R W) (i : Instruction) → Returns (Steady ctx) (rank o ctx i)
    unfolding rank
    rank-Steady ctx i =
        needing-Steady ctx (read ctx.regs i.reg_b) _
          (λ v. ask-Steady ctx i (v ∷ if_there o (read ctx.regs i.reg_a)))

    exec-Steady :
        (c : Opcode) (ctx : Context V F K R W) (i : Instruction)
        → get_elem? ctx.program.instructions ctx.pc ≡ some i
        → i.opcode ≡ c
        → Returns (Steady ctx) (exec o c ctx i)
    unfolding exec jump load_str
    exec-Steady Opcode.nop ctx i at is = (refl, (refl, (refl, tt)))
    exec-Steady Opcode.load_imm ctx i at is = set_reg-Steady ctx i.reg_a (int (sign_extend i.imm))
    exec-Steady Opcode.load_str ctx i at is =
        set_reg-Steady ctx i.reg_a
          (string (or_empty (and_then (get_constant ctx.program (i.imm % 65536)) o.as_str)))
    exec-Steady Opcode.mov ctx i at is =
        reading-Steady ctx i.reg_b (λ v. set_reg ctx i.reg_a v) (λ v. set_reg-Steady ctx i.reg_a v)
    exec-Steady Opcode.load_entity ctx i at is = load_entity-Steady ctx i
    exec-Steady Opcode.load_graph ctx i at is = ask_one-Steady ctx i i.reg_b
    exec-Steady Opcode.traverse ctx i at is = ask_one-Steady ctx i i.reg_b
    exec-Steady Opcode.compare ctx i at is = compare-Steady ctx i
    exec-Steady Opcode.fact ctx i at is = ask_three-Steady ctx i i.reg_a i.reg_b i.extra
    exec-Steady Opcode.query ctx i at is = ask_one-Steady ctx i i.reg_b
    exec-Steady Opcode.relate ctx i at is = reading-Steady ctx i.reg_a _ (λ s.
        reading-Steady ctx i.reg_b _
          (λ k. reading-Steady ctx i.extra (λ t. advance ctx) (λ t. (refl, (refl, (refl, tt))))))
    exec-Steady Opcode.infer ctx i at is = ask_two-Steady ctx i i.reg_b i.extra
    exec-Steady Opcode.similar ctx i at is = ask_two-Steady ctx i i.reg_b i.extra
    exec-Steady Opcode.classify ctx i at is = ask_one-Steady ctx i i.reg_b
    exec-Steady Opcode.reason ctx i at is = ask_one-Steady ctx i i.reg_b
    exec-Steady Opcode.correlate ctx i at is = ask_two-Steady ctx i i.reg_a i.reg_b
    exec-Steady Opcode.timeline ctx i at is = ask_one-Steady ctx i i.reg_b
    exec-Steady Opcode.push ctx i at is =
        reading-Steady ctx i.reg_a (λ v. stacked ctx (Stack.push ctx.stack v))
          (λ v. stacked-Steady ctx (Stack.push ctx.stack v))
    exec-Steady Opcode.pop ctx i at is = popped_into-Steady ctx i.reg_a (Stack.pop ctx.stack)
    exec-Steady Opcode.dup ctx i at is =
        stack_op-Steady ctx (Stack.dup ctx.stack) (dup-Returns ctx.stack)
    exec-Steady Opcode.swap ctx i at is =
        stack_op-Steady ctx (Stack.swap_top ctx.stack) (swap_top-Returns ctx.stack)
    exec-Steady Opcode.jmp ctx i at is = (refl, (refl, (refl, tt)))
    exec-Steady Opcode.jz ctx i at is =
        reading-Steady ctx i.reg_a
          (λ v. if is_truthy o.float_zero v then advance ctx else jump ctx i.imm)
          (λ v. ground arith)
    exec-Steady Opcode.jnz ctx i at is =
        reading-Steady ctx i.reg_a
          (λ v. if is_truthy o.float_zero v then jump ctx i.imm else advance ctx)
          (λ v. ground arith)
    exec-Steady Opcode.call ctx i at is = (refl, (refl, (refl, tt)))
    exec-Steady Opcode.ret ctx i at is = return_to-Steady ctx (last_address ctx.return_stack)
    exec-Steady Opcode.halt ctx i at is = (refl, (refl, (refl, (i, at, is))))
    exec-Steady Opcode.search ctx i at is = ask_two-Steady ctx i i.reg_a i.reg_b
    exec-Steady Opcode.index ctx i at is =
        reading-Steady ctx i.reg_a _
          (λ s. reading-Steady ctx i.reg_b (λ k. advance ctx) (λ k. (refl, (refl, (refl, tt)))))
    exec-Steady Opcode.rank ctx i at is = rank-Steady ctx i
    exec-Steady Opcode.recall ctx i at is = ask_one-Steady ctx i i.reg_b
    exec-Steady Opcode.consolidate ctx i at is = (refl, (refl, (refl, tt)))
    exec-Steady Opcode.forget ctx i at is =
        reading-Steady ctx i.reg_a (λ k. advance ctx) (λ k. (refl, (refl, (refl, tt))))
    exec-Steady Opcode.store ctx i at is = ask_one-Steady ctx i i.reg_a
    exec-Steady Opcode.snapshot ctx i at is = ask-Steady ctx i []
    exec-Steady Opcode.sys_call ctx i at is = syscall-Steady ctx i (from_i32 i.imm)
    exec-Steady Opcode.emit ctx i at is = emit-Steady ctx i

    fetched-Steady :
        (ctx : Context V F K R W) (i : Option Instruction)
        → get_elem? ctx.program.instructions ctx.pc ≡ i
        → Returns (Steady ctx) (fetched o ctx i)
    unfolding fetched
    fetched-Steady ctx none at = (refl, (refl, (refl, tt)))
    fetched-Steady ctx (some i) at = exec-Steady i.opcode ctx i at refl

    -- A step returns, and leaves the flag and the counters of the loop alone; only a Halt halts.
    pub step-Steady : (ctx : Context V F K R W) → Returns (Steady ctx) (step o ctx)
    unfolding step
    step-Steady ctx = fetched-Steady ctx (get_elem? ctx.program.instructions ctx.pc) refl
