-- ===== src/Vm/Front/Runs.antt =====
-- About `run_with_args` of crates/vm/src/vm.rs.
use tordex.Prelude.{
  ℕ, ◌≤◌, ◌<◌, ◌≡◌, ◌⊎◌, refl, inl, inr, List, [], ◌∷◌, All, nat_beq, if◌then◌else◌, Result, ok,
  err,
}
use tordex.Prelude.Outcome.{returned, Never, Returns, Returns-eq}
use tordex.Vm.Instruction.{Instruction}
use tordex.Vm.Register.{
  RegisterValue, RegisterFile, RegisterError, invalid_register, nil, Sized, read, write,
}
use tordex.Vm.Register
use tordex.Vm.Register.Access.{WriteSound, write-Sound, new-Sized, new-nil}
use tordex.Vm.Program.{Program}
use tordex.Vm.Machine.{Outside, Context, Failure, Done, bad_register}
use tordex.Vm.Machine
use tordex.Vm.Executor.{Run, execute}
use tordex.Vm.Executor.Total.{Ended, execute-Ended}
use tordex.Vm.Front.{
  VmResult, result_of, then_args, write_args, run_context, run_args, run_with_args,
}

module _ {F K R : Type 0} where
  -- What a register reads after the arguments: the last one that is given for it, or else `before`.
  pub given :
      List (ℕ × RegisterValue F K R)
      → ℕ
      → Result (RegisterValue F K R) RegisterError
      → Result (RegisterValue F K R) RegisterError
  given [] j before = before
  given ((reg, val) ∷ args) j before = given args j (if nat_beq reg j then ok val else before)

  -- `idx` is the first argument's register that the machine does not have.
  abbrev pub FirstBad : ℕ → List (ℕ × RegisterValue F K R) → Type 0
  FirstBad idx [] = Never
  FirstBad idx ((reg, val) ∷ args) = ((idx ≡ reg) × (32 ≤ reg)) ⊎ ((reg < 32) × FirstBad idx args)

  -- The registers after the arguments, or the error of the first that has no register.
  abbrev pub Given :
      List (ℕ × RegisterValue F K R)
      → RegisterFile (RegisterValue F K R)
      → Result (RegisterFile (RegisterValue F K R)) RegisterError
      → Type 0
  Given args f (ok g) =
      All (λ a. a.0 < 32) args × Sized g × ((j : ℕ) → read g j ≡ given args j (read f j))
  Given args f (err e) = (idx : ℕ) × FirstBad idx args × (e ≡ invalid_register idx)

  cons-Given :
      (reg : ℕ) (val : RegisterValue F K R) (args : List (ℕ × RegisterValue F K R))
      (f g : RegisterFile (RegisterValue F K R))
      (r : Result (RegisterFile (RegisterValue F K R)) RegisterError)
      → reg < 32
      → ((j : ℕ) → read g j ≡ (if nat_beq reg j then ok val else read f j))
      → Given args g r
      → Given ((reg, val) ∷ args) f r
  unfolding given
  cons-Given reg val args f g (ok h) inside reads (all, sized, law) =
      ((inside, all), sized, λ j. rw (law j, reads j) refl)
  cons-Given reg val args f g (err e) inside reads (idx, bad, is) = (idx, inr (inside, bad), is)

  then_args-Given :
      (reg : ℕ) (val : RegisterValue F K R) (args : List (ℕ × RegisterValue F K R))
      (f : RegisterFile (RegisterValue F K R))
      (r : Result (RegisterFile (RegisterValue F K R)) RegisterError)
      → ((g : RegisterFile (RegisterValue F K R)) → Sized g → Given args g (write_args args g))
      → WriteSound f reg val r
      → Given ((reg, val) ∷ args) f (then_args (write_args args) r)
  then_args-Given reg val args f (ok g) rest (inside, w) =
      cons-Given reg val args f g (write_args args g) inside w.reads (rest g w.sized)
  then_args-Given reg val args f (err e) rest (beyond, is) = (reg, inl (refl, beyond), is)

  write_args-Given :
      (args : List (ℕ × RegisterValue F K R)) (f : RegisterFile (RegisterValue F K R))
      → Sized f
      → Given args f (write_args args f)
  unfolding write_args given
  write_args-Given [] f sized = (tt, sized, λ j. refl)
  write_args-Given ((reg, val) ∷ args) f sized =
      then_args-Given reg val args f (write f reg val) (write_args-Given args)
        (write-Sound f reg val sized)

module _ {V F K R W : Type 0} (o : Outside V F K R W) where
  -- What is reported of the end of `execute`.
  abbrev pub Reports : Run V F K R W → Result (VmResult F K R) Failure × W → Type 0
  Reports (ok u, c) (ok v, w) =
      (v.cycles ≡ c.cycles) × (v.registers ≡ c.regs) × (v.stack ≡ c.stack) × (w ≡ c.world)
  Reports (err e, c) (err f, w) = (f ≡ e) × (w ≡ c.world)
  Reports _ _ = Never

  result_of-Reports : (r : Run V F K R W) → Reports r (result_of r)
  unfolding result_of
  result_of-Reports (ok u, c) = (refl, refl, refl, refl)
  result_of-Reports (err e, c) = (refl, refl)

  -- The machine ran with the arguments in its registers; or an argument has no register, and nothing
  -- was run.
  abbrev pub RunsWith :
      Program V → W → List (ℕ × RegisterValue F K R) → Result (VmResult F K R) Failure × W → Type 0
  RunsWith program world args r =
      (All (λ a. a.0 < 32) args
        × (regs : RegisterFile (RegisterValue F K R)) × ((j : ℕ)
            → j < 32
            → read regs j ≡ given args j (ok nil))
        × (end : Run V F K R W) × (execute o (record (Machine.new program world) { regs = regs })
            ≡ returned end)
        × Ended o 1000000 end
        × Reports end r)
      ⊎ ((idx : ℕ) × FirstBad idx args × (r ≡ (err (bad_register (invalid_register idx)), world)))

  module _
      (returns : (i : Instruction) (vs : List (RegisterValue F K R)) (w : W)
        → Returns {0, 0} (λ a. Unit) (o.knowledge i vs w)) where
    run_args-RunsWith :
        (program : Program V) (world : W) (args : List (ℕ × RegisterValue F K R))
        (regs : Result (RegisterFile (RegisterValue F K R)) RegisterError)
        → Given args Register.new regs
        → Returns (RunsWith program world args) (run_args o (Machine.new program world) regs)
    unfolding run_args run_context Machine.new
    run_args-RunsWith program world args (err e) (idx, bad, is) = inr (idx, bad, rw is refl)
    run_args-RunsWith program world args (ok regs) (all, sized, law) =
        let ctx : Context V F K R W = record (Machine.new program world) { regs = regs } in
        let (end, ends, ended) =
          Returns-eq (Ended o 1000000) (execute o ctx) (execute-Ended o returns ctx) in
        rw ends (
          inl (
            all,
            regs,
            (λ j inside. rw (law j, new-nil F K R j inside) refl),
            end,
            ends,
            ended,
            result_of-Reports end,
          ))

    -- If the opcodes of the world outside return, then a run of any program with any arguments
    -- returns. If each argument names one of the 32 registers, `execute` was run, on a new machine in
    -- which each register reads the last argument given for it, or nil; it ended within a million
    -- cycles, and its cycles, registers, stack and world, or its error, are reported. Otherwise the
    -- first argument that names no register is the error, and the world is the one of before.
    pub run_with_args-RunsWith :
        (program : Program V) (world : W) (args : List (ℕ × RegisterValue F K R))
        → Returns (RunsWith program world args) (run_with_args o program world args)
    unfolding run_with_args Machine.new
    run_with_args-RunsWith program world args =
        run_args-RunsWith program world args (write_args args Register.new)
          (write_args-Given args Register.new (new-Sized F K R))
