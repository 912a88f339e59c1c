-- ===== src/Vm/Executor/Calls.antt =====
-- About the return addresses of calls in crates/vm/src/executor.rs.
use tordex.Prelude.{
  ℕ, zero, suc, ◌+◌, ◌-◌, ◌<◌, ◌≤◌, ◌≡◌, refl, ◌∙◌, true, false, ◌&&◌, some, List, [], ◌∷◌, ◌++◌,
  length-append, get_elem?, ltb, leb, Bool-cases, inl, inr, err, arith,
}
use tordex.Prelude.Outcome.{returned, Returns, Returns-bind}
use tordex.Vm.Opcode.{Opcode}
use tordex.Vm.Instruction.{Instruction}
use tordex.Vm.Machine.{
  Outside, Context, Stepped, jump_target, last_address, return_to, exceeded_max_cycles,
}
use tordex.Vm.Stack.Laws.{last_of}
use tordex.Vm.Executor.{
  exec, fetched, step, Run, Control, again, stop, react, control, finish, resume, iterate, loop,
  execute,
}

-- The instruction at `at` is a call of a routine that returns at once.
pub record EmptyCall (code : List Instruction) (at : ℕ) : Type 0 where
  pub caller : Instruction
  pub routine : Instruction
  pub calls : get_elem? code at ≡ some caller
  pub is_call : caller.opcode ≡ Opcode.call
  pub target : get_elem? code (jump_target at caller.imm) ≡ some routine
  pub is_ret : routine.opcode ≡ Opcode.ret

module _ {V F K R W : Type 0} (o : Outside V F K R W) where
  -- The machine stands at the call, or in the routine with the call's own address to return to.
  data Spinning (ctx : Context V F K R W) : Type 0 where
    at_call : EmptyCall ctx.program.instructions ctx.pc → Spinning ctx
    at_ret :
        (j : Instruction) (p : ℕ)
        → get_elem? ctx.program.instructions ctx.pc ≡ some j
        → j.opcode ≡ Opcode.ret
        → last_address ctx.return_stack ≡ some p
        → EmptyCall ctx.program.instructions p
        → Spinning ctx

  last_address-append : (xs : List ℕ) (x : ℕ) → last_address (xs ++ x ∷ []) ≡ some x
  last_address-append xs x = ground (arith, length-append xs (x ∷ []), last_of xs x)

  -- One more cycle, and still there.
  abbrev Spun : Context V F K R W → Control V F K R W → Type 0
  Spun ctx (again c) =
      Spinning c
      × ((c.running ≡ ctx.running)
          × ((c.cycles ≡ ctx.cycles + 1)
              × ((c.max_cycles ≡ ctx.max_cycles) × (c.cycles ≤ c.max_cycles))))
  Spun ctx (stop r c) = r ≡ err exceeded_max_cycles

  abbrev SpunStep : Context V F K R W → Stepped V F K R W → Type 0
  SpunStep ctx s = Spun ctx (control s)

  step-Spun :
      (ctx : Context V F K R W)
      → ctx.cycles < ctx.max_cycles
      → Spinning ctx
      → Returns (SpunStep ctx) (step o ctx)
  unfolding step fetched exec control react return_to
  step-Spun ctx free (at_call c) =
      rw (c.calls, c.is_call)
        (
          at_ret c.routine ctx.pc c.target c.is_ret (last_address-append ctx.return_stack ctx.pc) c,
          (refl, (refl, (refl, omega arith))),
        )
  step-Spun ctx free (at_ret j p here is_ret back c) =
      rw (here, is_ret, back) (at_call c, (refl, (refl, (refl, omega arith))))

  iterate-Spun :
      (ctx : Context V F K R W)
      → ctx.running ≡ true
      → Spinning ctx
      → Returns (Spun ctx) (iterate o ctx)
  unfolding iterate finish
  iterate-Spun ctx run s = elim (Bool-cases (ltb ctx.cycles ctx.max_cycles)) [
    | inl free ↦
        let goes : (ctx.running && ltb ctx.cycles ctx.max_cycles) ≡ true = ground arith in
        rw goes (
          Returns-bind (SpunStep ctx) (Spun ctx) (step o ctx) (λ s. returned (control s))
            (step-Spun ctx (ground arith) s) (λ t h. h))
    | inr over ↦
        let full : leb ctx.max_cycles ctx.cycles ≡ true = ground arith in
        let ends : (ctx.running && ltb ctx.cycles ctx.max_cycles) ≡ false = ground arith in
        rw (ends, full) refl
  ]

  abbrev pub Exceeded : Run V F K R W → Type 0
  Exceeded r = r.0 ≡ err exceeded_max_cycles

  resume-Exceeded :
      (n : ℕ) (ctx : Context V F K R W) (c : Control V F K R W)
      → ctx.running ≡ true
      → Spun ctx c
      → ((d : Context V F K R W)
          → d.running ≡ true
          → Spinning d
          → d.max_cycles - d.cycles < n
          → d.cycles ≤ d.max_cycles
          → Returns Exceeded (loop o n d))
      → ctx.max_cycles - ctx.cycles < suc n
      → Returns Exceeded (resume (loop o n) c)
  resume-Exceeded n ctx (again d) run h rest fuel =
      rest d (h.1.0 ∙ run) h.0 (omega (arith, h.1.1.0, h.1.1.1.0, h.1.1.1.1)) h.1.1.1.1
  resume-Exceeded n ctx (stop r d) run h rest fuel = h

  loop-Exceeded :
      (n : ℕ) (ctx : Context V F K R W)
      → ctx.running ≡ true
      → Spinning ctx
      → ctx.max_cycles - ctx.cycles < n
      → ctx.cycles ≤ ctx.max_cycles
      → Returns Exceeded (loop o n ctx)
  unfolding loop
  loop-Exceeded zero ctx run s fuel bound = absurd (omega arith)
  loop-Exceeded (suc n) ctx run s fuel bound =
      Returns-bind (Spun ctx) Exceeded (iterate o ctx) (resume (loop o n)) (iterate-Spun ctx run s)
        (λ c h. resume-Exceeded n ctx c run h (loop-Exceeded n) fuel)

  -- A program that calls a routine which returns at once never gets past the call: the address that
  -- the call leaves is its own, and `execute` ends with the error for too many cycles, for every
  -- bound on them.
  pub execute-EmptyCall :
      (ctx : Context V F K R W)
      → EmptyCall ctx.program.instructions ctx.pc
      → Returns Exceeded (execute o ctx)
  unfolding execute
  execute-EmptyCall ctx c =
      loop-Exceeded (suc ctx.max_cycles) (record ctx { running = true; cycles = 0 }) refl
        (at_call c) (omega arith) (omega arith)
