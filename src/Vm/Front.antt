-- ===== src/Vm/Front.antt =====
-- crates/vm/src/vm.rs: `IntelligenceVm`, which runs programs. The memory manager is part of the world.
pub mod Runs
use tordex.Prelude.{ℕ, ◌≤◌, ◌≡◌, refl, subst, List, [], ◌∷◌, Result, ok, err}
use tordex.Prelude.Outcome.{Outcome, returned, Returns, Returns-bind, ◌>>=◌}
use tordex.Vm.Register.{RegisterValue, RegisterFile, RegisterError, write}
use tordex.Vm.Stack.{InferenceStack}
use tordex.Vm.Program.{Program}
use tordex.Vm.Machine.{Outside, Context, Failure, Done, bad_register}
use tordex.Vm.Machine
use tordex.Vm.Executor.{Run, execute}
use tordex.Vm.Executor.Total.{Ended, execute-Ended}

pub record VmResult (F K R : Type 0) : Type 0 where
  pub cycles : ℕ
  pub registers : RegisterFile (RegisterValue F K R)
  pub stack : InferenceStack (RegisterValue F K R)

module _ {V F K R W : Type 0} where
  -- What is made of the end of `execute`.
  unfoldable pub result_of : Run V F K R W → Result (VmResult F K R) Failure × W
  result_of (err e, ctx) = (err e, ctx.world)
  result_of (ok u, ctx) =
      (ok (record { cycles = ctx.cycles; registers = ctx.regs; stack = ctx.stack }), ctx.world)

module _ {F K R : Type 0} where
  -- The initial values of registers, up to the first write that fails.
  abbrev pub then_args :
      (RegisterFile (RegisterValue F K R)
        → Result (RegisterFile (RegisterValue F K R)) RegisterError)
      → Result (RegisterFile (RegisterValue F K R)) RegisterError
      → Result (RegisterFile (RegisterValue F K R)) RegisterError
  then_args f (err e) = err e
  then_args f (ok regs) = f regs

  unfoldable pub write_args :
      List (ℕ × RegisterValue F K R)
      → RegisterFile (RegisterValue F K R)
      → Result (RegisterFile (RegisterValue F K R)) RegisterError
  write_args [] regs = ok regs
  write_args ((reg, val) ∷ args) regs = then_args (write_args args) (write regs reg val)

module _ {V F K R W : Type 0} (o : Outside V F K R W) where
  unfoldable pub run_context : Context V F K R W → Outcome (Result (VmResult F K R) Failure × W)
  run_context ctx = do r ← execute o ctx; returned (result_of r)

  unfoldable pub run : Program V → W → Outcome (Result (VmResult F K R) Failure × W)
  run program world = run_context (Machine.new program world)

  -- The context with its arguments, or the error of the first that has no register.
  pub run_args :
      Context V F K R W
      → Result (RegisterFile (RegisterValue F K R)) RegisterError
      → Outcome (Result (VmResult F K R) Failure × W)
  run_args ctx (err e) = returned (err (bad_register e), ctx.world)
  run_args ctx (ok regs) = run_context (record ctx { regs = regs })

  pub run_with_args :
      Program V → W → List (ℕ × RegisterValue F K R) → Outcome (Result (VmResult F K R) Failure × W)
  run_with_args program world args =
      let ctx : Context V F K R W = Machine.new program world in
      run_args ctx (write_args args ctx.regs)
