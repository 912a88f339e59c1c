-- ===== src/Tdxl/Kir.antt =====
-- crates/tdxl/src/kir.rs: the operations of the knowledge IR and its programs. `Z` stands for the
-- machine integers and `F` for the floats that the operations carry. A `HashSet` of values is the
-- list of what was inserted, of which only membership is used.
use tordex.Prelude.{
  ℕ, ◌+◌, Bool, false, ◌||◌, Option, some, none, String, List, [], ◌∷◌, ◌++◌, nat_beq,
}

pub record FilterCond : Type 0 where
  pub field : String
  pub op : String
  pub value : String

-- The operations, with the identifier of the output first where there is one.
pub data KirOp (Z F : Type 0) : Type 0 where
  collect : ℕ → ℕ → KirOp Z F
  source_entity : ℕ → ℕ → KirOp Z F
  source_search : ℕ → ℕ → KirOp Z F
  observe : ℕ → ℕ → KirOp Z F
  classify : ℕ → ℕ → KirOp Z F
  load_graph : ℕ → ℕ → KirOp Z F
  filter : ℕ → ℕ → FilterCond → KirOp Z F
  resolve : ℕ → ℕ → ℕ → KirOp Z F
  traverse : ℕ → ℕ → ℕ → Option Z → KirOp Z F
  correlate : ℕ → ℕ → ℕ → KirOp Z F
  similar : ℕ → ℕ → F → KirOp Z F
  infer : ℕ → ℕ → ℕ → KirOp Z F
  timeline : ℕ → ℕ → KirOp Z F
  return : ℕ → KirOp Z F
  store : ℕ → ℕ → KirOp Z F
  export : ℕ → ℕ → KirOp Z F
  snapshot : ℕ → ℕ → ℕ → KirOp Z F
  const_str : ℕ → String → KirOp Z F
  const_int : ℕ → Z → KirOp Z F
  const_float : ℕ → F → KirOp Z F
  sort_hint : ℕ → String → Bool → KirOp Z F
  limit_hint : ℕ → ℕ → KirOp Z F

module _ {Z F : Type 0} where
  unfoldable pub output_id : KirOp Z F → Option ℕ
  output_id (collect o a) = some o
  output_id (source_entity o a) = some o
  output_id (source_search o a) = some o
  output_id (observe o a) = some o
  output_id (classify o a) = some o
  output_id (load_graph o a) = some o
  output_id (filter o a x) = some o
  output_id (resolve o a b) = some o
  output_id (traverse o a b x) = some o
  output_id (correlate o a b) = some o
  output_id (similar o a x) = some o
  output_id (infer o a b) = some o
  output_id (timeline o a) = some o
  output_id (return a) = none
  output_id (store a b) = none
  output_id (export a b) = none
  output_id (snapshot o a x) = some o
  output_id (const_str o x) = some o
  output_id (const_int o x) = some o
  output_id (const_float o x) = some o
  output_id (sort_hint a x y) = none
  output_id (limit_hint a x) = none

  unfoldable pub input_ids : KirOp Z F → List ℕ
  input_ids (collect o a) = a ∷ []
  input_ids (source_entity o a) = a ∷ []
  input_ids (source_search o a) = a ∷ []
  input_ids (observe o a) = a ∷ []
  input_ids (classify o a) = a ∷ []
  input_ids (load_graph o a) = a ∷ []
  input_ids (filter o a x) = a ∷ []
  input_ids (resolve o a b) = a ∷ b ∷ []
  input_ids (traverse o a b x) = a ∷ b ∷ []
  input_ids (correlate o a b) = a ∷ b ∷ []
  input_ids (similar o a x) = a ∷ []
  input_ids (infer o a b) = a ∷ b ∷ []
  input_ids (timeline o a) = a ∷ []
  input_ids (return a) = a ∷ []
  input_ids (store a b) = a ∷ b ∷ []
  input_ids (export a b) = a ∷ b ∷ []
  input_ids (snapshot o a x) = a ∷ []
  input_ids (const_str o x) = []
  input_ids (const_int o x) = []
  input_ids (const_float o x) = []
  input_ids (sort_hint a x y) = a ∷ []
  input_ids (limit_hint a x) = a ∷ []

pub record KirProgram (Z F : Type 0) : Type 0 where
  pub ops : List (KirOp Z F)
  pub output : Option ℕ
  pub next_id : ℕ

-- `if let Some(out) = self.output { used.insert(out) }`
abbrev pub with_output : List ℕ → Option ℕ → List ℕ
with_output used none = used
with_output used (some out) = used ++ out ∷ []

module _ {Z F : Type 0} where
  unfoldable pub new : KirProgram Z F
  new = record { ops = []; output = none; next_id = 0 }

  unfoldable alloc_id : KirProgram Z F → ℕ × KirProgram Z F
  alloc_id p = (p.next_id, record p { next_id = p.next_id + 1 })

  unfoldable pub push : KirProgram Z F → KirOp Z F → Option ℕ × KirProgram Z F
  push p op = (output_id op, record p { ops = p.ops ++ op ∷ [] })

  unfoldable pub all_inputs : List (KirOp Z F) → List ℕ
  all_inputs [] = []
  all_inputs (op ∷ ops) = input_ids op ++ all_inputs ops

  unfoldable pub used_values : KirProgram Z F → List ℕ
  unfolding all_inputs
  used_values p = with_output (all_inputs p.ops) p.output

-- Membership in the set.
unfoldable pub contains : List ℕ → ℕ → Bool
contains [] x = false
contains (y ∷ ys) x = nat_beq y x || contains ys x
