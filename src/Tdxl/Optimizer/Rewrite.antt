-- ===== src/Tdxl/Optimizer/Rewrite.antt =====
-- What the rewriting of an operation's inputs keeps.
use tordex.Prelude.{ℕ, ◌≡◌, refl, some, String, map}
use tordex.Prelude.Map.{Map}
use tordex.Tdxl.Kir.{KirOp, output_id, input_ids, const_str, collect}
use tordex.Tdxl.Meaning.{erase}
use tordex.Tdxl.Optimizer.{replaced, rewrite_inputs, as_const_str}

module _ {Z F : Type 0} where
  pub output_id-rewrite_inputs :
      (op : KirOp Z F) (r : Map ℕ ℕ) → output_id (rewrite_inputs op r) ≡ output_id op
  unfolding rewrite_inputs output_id
  output_id-rewrite_inputs (collect o a) r = refl
  output_id-rewrite_inputs _ r = refl

  pub input_ids-rewrite_inputs :
      (op : KirOp Z F) (r : Map ℕ ℕ)
      → input_ids (rewrite_inputs op r) ≡ map (replaced r) (input_ids op)
  unfolding rewrite_inputs input_ids
  input_ids-rewrite_inputs (collect o a) r = refl
  input_ids-rewrite_inputs _ r = refl

  pub erase-rewrite_inputs : (op : KirOp Z F) (r : Map ℕ ℕ) → erase (rewrite_inputs op r) ≡ erase op
  unfolding rewrite_inputs erase
  erase-rewrite_inputs (collect o a) r = refl
  erase-rewrite_inputs _ r = refl

  pub as_const_str-some :
      (op : KirOp Z F) (o : ℕ) (v : String) → as_const_str op ≡ some (o, v) → op ≡ const_str o v
  unfolding as_const_str
  as_const_str-some (const_str a w) o v h = cc
  as_const_str-some _ o v h = absurd (cc)

  pub as_const_str-output :
      (op : KirOp Z F) (o : ℕ) (v : String) → as_const_str op ≡ some (o, v) → output_id op ≡ some o
  unfolding output_id
  as_const_str-output op o v h = rw (as_const_str-some op o v h)
