-- ===== src/Tdxl/Meaning.antt =====
-- What a program of the knowledge IR means, for any reading of its operations: each operation
-- computes its output from the values of its inputs, and those without an output (Return, Store,
-- Export and the hints) are the effects that are seen from outside. `erase` forgets the
-- identifiers, so that no meaning can depend on them.
use tordex.Prelude.{ℕ, Option, some, none, List, [], ◌∷◌, ◌++◌, map, nat_beq, if◌then◌else◌}
use tordex.Tdxl.Kir.{
  KirOp, KirProgram, output_id, input_ids, collect, source_entity, source_search, observe, classify,
  load_graph, filter, resolve, traverse, correlate, similar, infer, timeline, return, store, export,
  snapshot, const_str, const_int, const_float, sort_hint, limit_hint,
}

module _ {Z F : Type 0} where
  -- The operation without its identifiers.
  unfoldable pub erase : KirOp Z F → KirOp Z F
  erase (collect o a) = collect 0 0
  erase (source_entity o a) = source_entity 0 0
  erase (source_search o a) = source_search 0 0
  erase (observe o a) = observe 0 0
  erase (classify o a) = classify 0 0
  erase (load_graph o a) = load_graph 0 0
  erase (filter o a x) = filter 0 0 x
  erase (resolve o a b) = resolve 0 0 0
  erase (traverse o a b x) = traverse 0 0 0 x
  erase (correlate o a b) = correlate 0 0 0
  erase (similar o a x) = similar 0 0 x
  erase (infer o a b) = infer 0 0 0
  erase (timeline o a) = timeline 0 0
  erase (return a) = return 0
  erase (store a b) = store 0 0
  erase (export a b) = export 0 0
  erase (snapshot o a x) = snapshot 0 0 x
  erase (const_str o x) = const_str 0 x
  erase (const_int o x) = const_int 0 x
  erase (const_float o x) = const_float 0 x
  erase (sort_hint a x y) = sort_hint 0 x y
  erase (limit_hint a x) = limit_hint 0 x

  -- A reading of the operations over values `V`.
  module _ {V : Type 0} (apply : KirOp Z F → List V → V) where
    abbrev pub Env : Type 0
    Env = ℕ → V

    abbrev pub assign : Env → ℕ → V → Env
    assign env o v x = if nat_beq o x then v else env x

    abbrev pub inputs : Env → KirOp Z F → List V
    inputs env op = map env (input_ids op)

    -- The environment after an operation with the output `o`.
    abbrev pub after : Env → KirOp Z F → Option ℕ → Env
    after env op none = env
    after env op (some o) = assign env o (apply (erase op) (inputs env op))

    abbrev pub Effect : Type 0
    Effect = KirOp Z F × List V

    abbrev pub effect : Env → KirOp Z F → Option ℕ → List Effect
    effect env op none = (erase op, inputs env op) ∷ []
    effect env op (some o) = []

    unfoldable pub effects : Env → List (KirOp Z F) → List Effect
    effects env [] = []
    effects env (op ∷ ops) =
        effect env op (output_id op) ++ effects (after env op (output_id op)) ops

    unfoldable pub final : Env → List (KirOp Z F) → Env
    final env [] = env
    final env (op ∷ ops) = final (after env op (output_id op)) ops

    abbrev pub result : Env → Option ℕ → Option V
    result env none = none
    result env (some o) = some (env o)

    -- The effects of a program and the value of its output.
    unfoldable pub meaning : Env → KirProgram Z F → List Effect × Option V
    meaning env p = (effects env p.ops, result (final env p.ops) p.output)
