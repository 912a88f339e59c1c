-- ===== src/Tdxl/Optimizer.antt =====
-- crates/tdxl/src/optimizer.rs: the passes over the knowledge IR.
pub mod DeadCode
pub mod Rewrite
pub mod Prefix
pub mod Strings
pub mod Whole
use tordex.Prelude.{
  ℕ, Bool, true, false, Option, some, none, String, string_eq, nat_eq, List, [], ◌∷◌, if◌then◌else◌,
}
use tordex.Prelude.Map.{Map, get, insert, contains_key}
use tordex.Tdxl.Kir
use tordex.Tdxl.Kir.{
  KirOp, KirProgram, output_id, used_values, contains, collect, source_entity, source_search,
  observe, classify, load_graph, filter, resolve, traverse, correlate, similar, infer, timeline,
  return, store, export, snapshot, const_str, const_int, const_float, sort_hint, limit_hint,
}

-- `repl.get(id).copied().unwrap_or(*id)`
abbrev pub or_self : Option ℕ → ℕ → ℕ
or_self none id = id
or_self (some e) id = e

abbrev pub replaced : Map ℕ ℕ → ℕ → ℕ
replaced repl id = or_self (get repl id) id

module _ {Z F : Type 0} where
  pub rewrite_inputs : KirOp Z F → Map ℕ ℕ → KirOp Z F
  rewrite_inputs (collect o a) repl = collect o (replaced repl a)
  rewrite_inputs (source_entity o a) repl = source_entity o (replaced repl a)
  rewrite_inputs (source_search o a) repl = source_search o (replaced repl a)
  rewrite_inputs (observe o a) repl = observe o (replaced repl a)
  rewrite_inputs (classify o a) repl = classify o (replaced repl a)
  rewrite_inputs (load_graph o a) repl = load_graph o (replaced repl a)
  rewrite_inputs (filter o a x) repl = filter o (replaced repl a) x
  rewrite_inputs (resolve o a b) repl = resolve o (replaced repl a) (replaced repl b)
  rewrite_inputs (traverse o a b x) repl = traverse o (replaced repl a) (replaced repl b) x
  rewrite_inputs (correlate o a b) repl = correlate o (replaced repl a) (replaced repl b)
  rewrite_inputs (similar o a x) repl = similar o (replaced repl a) x
  rewrite_inputs (infer o a b) repl = infer o (replaced repl a) (replaced repl b)
  rewrite_inputs (timeline o a) repl = timeline o (replaced repl a)
  rewrite_inputs (return a) repl = return (replaced repl a)
  rewrite_inputs (store a b) repl = store (replaced repl a) (replaced repl b)
  rewrite_inputs (export a b) repl = export (replaced repl a) (replaced repl b)
  rewrite_inputs (snapshot o a x) repl = snapshot o (replaced repl a) x
  rewrite_inputs (const_str o x) repl = const_str o x
  rewrite_inputs (const_int o x) repl = const_int o x
  rewrite_inputs (const_float o x) repl = const_float o x
  rewrite_inputs (sort_hint a x y) repl = sort_hint (replaced repl a) x y
  rewrite_inputs (limit_hint a x) repl = limit_hint (replaced repl a) x

  -- `if let KirOp::ConstStr { output, value } = op`
  pub as_const_str : KirOp Z F → Option (ℕ × String)
  as_const_str (const_str o v) = some (o, v)
  as_const_str _ = none

-- The strings seen so far with their first outputs, and the outputs that are replaced.
pub record Seen : Type 0 where
  pub strings : Map String ℕ
  pub replacements : Map ℕ ℕ

-- A string constant: `found` is its entry in the strings seen so far.
pub note_string : Seen → ℕ → String → Option ℕ → Seen
note_string s output value none = record s { strings = insert s.strings value output }
note_string s output value (some existing) = record s {
  replacements = insert s.replacements output existing;
}

pub note : Seen → Option (ℕ × String) → Seen
note s none = s
note s (some (output, value)) = note_string s output value (get s.strings value)

-- A replaced constant is left out.
pub skipped : Map ℕ ℕ → Option (ℕ × String) → Bool
skipped repl none = false
skipped repl (some (output, value)) = contains_key repl output

abbrev pub map_output : Map ℕ ℕ → Option ℕ → Option ℕ
map_output repl none = none
map_output repl (some o) = some (replaced repl o)

-- An operation is kept if it has no output, or if its output is used.
pub kept : List ℕ → Option ℕ → Bool
kept used none = true
kept used (some id) = contains used id

module _ {Z F : Type 0} where
  -- The first loop.
  pub scan : Seen → List (KirOp Z F) → Seen
  scan s [] = s
  scan s (op ∷ ops) = scan (note s (as_const_str op)) ops

  -- The second loop.
  pub rewrite_all : Map ℕ ℕ → List (KirOp Z F) → List (KirOp Z F)
  rewrite_all repl [] = []
  rewrite_all repl (op ∷ ops) =
      let rest = rewrite_all repl ops in
      if skipped repl (as_const_str op) then rest else rewrite_inputs op repl ∷ rest

  -- The new program starts from `KirProgram::new`, whose `next_id` is 0.
  pub eliminate_redundant_strings : KirProgram Z F → KirProgram Z F
  eliminate_redundant_strings p =
      let repl = (scan (record { strings = []; replacements = [] }) p.ops).replacements in
      record Kir.new { ops = rewrite_all repl p.ops; output = map_output repl p.output }

  pub propagate_limits : KirProgram Z F → KirProgram Z F
  propagate_limits p = p

  pub keep_used : List ℕ → List (KirOp Z F) → List (KirOp Z F)
  unfolding kept
  keep_used used [] = []
  keep_used used (op ∷ ops) =
      let rest = keep_used used ops in if kept used (output_id op) then op ∷ rest else rest

  pub eliminate_dead_code : KirProgram Z F → KirProgram Z F
  eliminate_dead_code p = record Kir.new {
    ops = keep_used (used_values p) p.ops;
    output = p.output;
  }

  pub optimize : KirProgram Z F → KirProgram Z F
  optimize p = eliminate_dead_code (propagate_limits (eliminate_redundant_strings p))
