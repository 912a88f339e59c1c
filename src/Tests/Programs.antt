-- ===== src/Tests/Programs.antt =====
-- A program of the knowledge IR with a repeated string and an unused one.
use tordex.Prelude.{ℕ, ◌+◌, ◌≡◌, refl, some, List, [], ◌∷◌, length}
use tordex.Tdxl.Kir.{KirOp, KirProgram, const_str, resolve, return, output_id, input_ids, contains}
use tordex.Tdxl.Meaning.{Env, meaning}
use tordex.Tdxl.WellFormed.{WellFormed}
use tordex.Tdxl.Optimizer.{optimize, eliminate_dead_code}
use tordex.Tdxl.Optimizer.DeadCode.{eliminate_dead_code-meaning}
use tordex.Tdxl.Optimizer.Whole.{optimize-meaning}

abbrev program : KirProgram ℕ ℕ
program = record {
  ops = const_str 0 "a" ∷ const_str 1 "a" ∷ const_str 2 "b" ∷ resolve 3 0 1 ∷ return 3 ∷ [];
  next_id = 4;
  output = some 3;
}

-- A reading that counts inputs.
abbrev reading : KirOp ℕ ℕ → List ℕ → ℕ
reading op inputs = length inputs + 1

abbrev start : Env reading
start x = 0

program-WellFormed : WellFormed program
unfolding output_id input_ids contains
program-WellFormed = record {
  ordered = (tt, refl, (tt, refl, (tt, refl, ((refl, (refl, tt)), refl, ((refl, tt), tt, tt)))));
  output_known = refl;
}

eliminate_dead_code-meaning_example :
    meaning reading start (eliminate_dead_code program) ≡ meaning reading start program
eliminate_dead_code-meaning_example = eliminate_dead_code-meaning reading start program

optimize-meaning_example : meaning reading start (optimize program) ≡ meaning reading start program
optimize-meaning_example = optimize-meaning reading start program program-WellFormed
