-- ===== src/Tdxl/Token.antt =====
-- crates/tdxl/src/token.rs: the tokens of the query language. `F` stands for the floating point
-- numbers; a text is the list of the codes of its characters.
use tordex.Prelude.{ℕ, Bool, List}

pub data Token (F : Type 0) : Type 0 where
  kw_from kw_match kw_where kw_traverse kw_depth kw_summarize kw_infer : Token F
  kw_correlate kw_with kw_similar kw_to kw_classify kw_as kw_timeline kw_sort : Token F
  kw_by kw_asc kw_desc kw_limit kw_store kw_export kw_load kw_filter kw_and kw_or : Token F
  kw_not : Token F
  integer : ℕ → Token F
  float : F → Token F
  str : List ℕ → Token F
  boolean : Bool → Token F
  null : Token F
  ident : List ℕ → Token F
  eq neq ge le gt lt assign : Token F
  left_paren right_paren left_bracket right_bracket left_brace right_brace : Token F
  comma dot colon : Token F
  newline eof : Token F
