-- ===== src/Tdxl/Optimizer/Whole.antt =====
-- `optimize`: all passes one after the other.
use tordex.Prelude.{◌≡◌, ◌∙◌, List}
use tordex.Tdxl.Kir.{KirOp, KirProgram}
use tordex.Tdxl.Meaning.{Env, meaning}
use tordex.Tdxl.WellFormed.{WellFormed}
use tordex.Tdxl.Optimizer.{eliminate_redundant_strings, propagate_limits, optimize}
use tordex.Tdxl.Optimizer.DeadCode.{eliminate_dead_code-meaning}
use tordex.Tdxl.Optimizer.Strings.{eliminate_redundant_strings-meaning}

-- For every reading `apply` of the operations and every initial environment, optimizing a well-formed
-- program keeps its effects, in their order, and its output.
pub optimize-meaning :
    {Z F V : Type 0} (apply : KirOp Z F → List V → V) (env : Env apply) (p : KirProgram Z F)
    → WellFormed p
    → meaning apply env (optimize p) ≡ meaning apply env p
unfolding optimize propagate_limits
optimize-meaning apply env p w =
    eliminate_dead_code-meaning apply env (eliminate_redundant_strings p)
    ∙ eliminate_redundant_strings-meaning apply env p w
