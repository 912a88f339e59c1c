-- ===== src/Tdxl/WellFormed.antt =====
-- Programs of the knowledge IR in which each value is defined once, and before it is used.
use tordex.Prelude.{ℕ, ◌≡◌, true, false, Option, some, none, List, [], ◌∷◌, All}
use tordex.Tdxl.Kir.{KirOp, KirProgram, output_id, input_ids, contains}

abbrev pub Defined : List ℕ → ℕ → Type 0
Defined ds x = contains ds x ≡ true

abbrev pub Fresh : List ℕ → Option ℕ → Type 0
Fresh ds none = Unit
Fresh ds (some o) = contains ds o ≡ false

abbrev pub extend : List ℕ → Option ℕ → List ℕ
extend ds none = ds
extend ds (some o) = o ∷ ds

abbrev pub OutputDefined : List ℕ → Option ℕ → Type 0
OutputDefined ds none = Unit
OutputDefined ds (some o) = Defined ds o

module _ {Z F : Type 0} where
  -- `ds` are the values defined before.
  abbrev pub WellFormedFrom : List ℕ → List (KirOp Z F) → Type 0
  WellFormedFrom ds [] = Unit
  WellFormedFrom ds (op ∷ ops) =
      All (Defined ds) (input_ids op)
      × Fresh ds (output_id op)
      × WellFormedFrom (extend ds (output_id op)) ops

  abbrev pub defined_after : List ℕ → List (KirOp Z F) → List ℕ
  defined_after ds [] = ds
  defined_after ds (op ∷ ops) = defined_after (extend ds (output_id op)) ops

  pub record WellFormed (p : KirProgram Z F) : Type 0 where
    pub ordered : WellFormedFrom [] p.ops
    pub output_known : OutputDefined (defined_after [] p.ops) p.output
