-- ===== src/Vm/Executor/Total.antt =====
-- About the loop of `execute` in crates/vm/src/executor.rs.
use tordex.Prelude.{
  List, ℕ, zero, suc, ◌+◌, ◌-◌, ◌<◌, ◌≤◌, ◌≡◌, ◌⊎◌, refl, subst, ◌∙◌, true, false, ◌&&◌, ltb, leb,
  Bool-cases, inl, inr, ok, err, arith,
}
use tordex.Prelude.Outcome.{returned, Returns, Returns-bind, Returns-eq}
use tordex.Vm.Instruction.{Instruction}
use tordex.Vm.Register.{RegisterValue}
use tordex.Vm.Machine.{
  Failure, exceeded_max_cycles, Outside, Context, Stepped, continue, halted, call, return, error,
}
use tordex.Vm.Executor.{
  step, Run, Control, again, stop, react, control, finish, resume, iterate, loop, execute,
}
use tordex.Vm.Executor.Steady.{AtHalt, Steady, step-Steady}

module _ {V F K R W : Type 0} (o : Outside V F K R W) where
  -- The step that ended the run with the error `e` and left `c`, from a context `d`.
  abbrev pub Failing : ℕ → Failure → Context V F K R W → Type 0
  Failing bound e c =
      (d : Context V F K R W) × (d.cycles < bound)
      × (s : Stepped V F K R W) × (step o d ≡ returned s)
      × (control s ≡ stop (err e) c)

  -- How `execute` ends, within the bound: without an error only at a Halt, and with one only after
  -- `bound` cycles or by a step that failed.
  abbrev pub Ended : ℕ → Run V F K R W → Type 0
  Ended bound (ok u, c) = (c.cycles ≤ bound) × (c.running ≡ false) × AtHalt c
  Ended bound (err e, c) =
      (c.cycles ≤ bound) × (((e ≡ exceeded_max_cycles) × (c.cycles ≡ bound)) ⊎ Failing bound e c)

  -- The loop goes on with one more cycle, or it ends.
  abbrev pub Counted : Context V F K R W → Control V F K R W → Type 0
  Counted ctx (again c) =
      (c.running ≡ true)
      × ((c.cycles ≡ ctx.cycles + 1)
          × ((c.max_cycles ≡ ctx.max_cycles) × (c.cycles ≤ c.max_cycles)))
  Counted ctx (stop r c) = Ended ctx.max_cycles (r, c)

  control-Counted :
      (ctx : Context V F K R W) (s : Stepped V F K R W)
      → ctx.running ≡ true
      → ctx.cycles < ctx.max_cycles
      → step o ctx ≡ returned s
      → Steady ctx s
      → Counted ctx (control s)
  unfolding control react
  control-Counted ctx (err e, c) run free from h =
      (omega (arith, h.1.0), inr (ctx, free, (err e, c), from, refl))
  control-Counted ctx (ok continue, c) run free from h =
      (h.0 ∙ run, (omega (arith, h.1.0), (h.1.1.0, omega (arith, h.1.0, h.1.1.0))))
  control-Counted ctx (ok halted, c) run free from h = (omega (arith, h.1.0), refl, h.1.1.1)
  control-Counted ctx (ok (call a), c) run free from h =
      (h.0 ∙ run, (omega (arith, h.1.0), (h.1.1.0, omega (arith, h.1.0, h.1.1.0))))
  control-Counted ctx (ok (return a), c) run free from h =
      (h.0 ∙ run, (omega (arith, h.1.0), (h.1.1.0, omega (arith, h.1.0, h.1.1.0))))
  control-Counted ctx (ok (error m), c) run free from h =
      (omega (arith, h.1.0), inr (ctx, free, (ok (error m), c), from, refl))

  module _
      (returns : (i : Instruction) (vs : List (RegisterValue F K R)) (w : W)
        → Returns {0, 0} (λ a. Unit) (o.knowledge i vs w)) where
    iterate-Counted :
        (ctx : Context V F K R W)
        → ctx.running ≡ true
        → ctx.cycles ≤ ctx.max_cycles
        → Returns (Counted ctx) (iterate o ctx)
    unfolding iterate finish
    iterate-Counted ctx run bound = elim (Bool-cases (ltb ctx.cycles ctx.max_cycles)) [
      | inl free ↦
          let goes : (ctx.running && ltb ctx.cycles ctx.max_cycles) ≡ true = ground arith in
          let (s, from, h) = Returns-eq (Steady ctx) (step o ctx) (step-Steady o returns ctx) in
          rw (goes, from) (control-Counted ctx s run (ground arith) from h)
      | inr over ↦
          let full : leb ctx.max_cycles ctx.cycles ≡ true = ground arith in
          let ends : (ctx.running && ltb ctx.cycles ctx.max_cycles) ≡ false = ground arith in
          rw (ends, full) (bound, inl (refl, ground arith))
    ]

    resume-Ended :
        (n : ℕ) (ctx : Context V F K R W) (c : Control V F K R W)
        → Counted ctx c
        → ((d : Context V F K R W)
            → d.running ≡ true
            → d.cycles ≤ d.max_cycles
            → d.max_cycles - d.cycles < n
            → Returns (Ended d.max_cycles) (loop o n d))
        → ctx.max_cycles - ctx.cycles < suc n
        → Returns (Ended ctx.max_cycles) (resume (loop o n) c)
    resume-Ended n ctx (again d) h rest fuel =
        subst (λ b. Returns (Ended b) (loop o n d)) h.1.1.0
          (rest d h.0 h.1.1.1 (omega (arith, h.1.0, h.1.1.0, h.1.1.1)))
    resume-Ended n ctx (stop r d) h rest fuel = h

    loop-Ended :
        (n : ℕ) (ctx : Context V F K R W)
        → ctx.running ≡ true
        → ctx.cycles ≤ ctx.max_cycles
        → ctx.max_cycles - ctx.cycles < n
        → Returns (Ended ctx.max_cycles) (loop o n ctx)
    unfolding loop
    loop-Ended zero ctx run bound fuel = absurd (omega arith)
    loop-Ended (suc n) ctx run bound fuel =
        Returns-bind (Counted ctx) (Ended ctx.max_cycles) (iterate o ctx) (resume (loop o n))
          (iterate-Counted ctx run bound) (λ c h. resume-Ended n ctx c h (loop-Ended n) fuel)

    -- If the opcodes of the world outside return, then `execute` returns for every context, without a
    -- panic, after at most `max_cycles` cycles. It ends without an error only at a Halt, which stands at
    -- the program counter; with an error only by a step that failed, after fewer than `max_cycles`
    -- cycles, or after `max_cycles` cycles with the error that says so.
    pub execute-Ended : (ctx : Context V F K R W) → Returns (Ended ctx.max_cycles) (execute o ctx)
    unfolding execute
    execute-Ended ctx =
        loop-Ended (suc ctx.max_cycles) (record ctx { running = true; cycles = 0 }) refl
          (omega arith) (omega arith)
