-- ===== src/Tdxl/Lexer.antt =====
-- crates/tdxl/src/lexer.rs. The lexer is the list of the characters from `pos` on, with the line and
-- the column; a character is its code. `is_alphanumeric` stands for the method of `char`, and
-- `float_of` for what a text parses to as an f64, or zero.
pub mod Left
pub mod Total
pub mod Quote
use Prim.Native.Char.{code}
use tordex.Prelude.{
  ℕ, zero, suc, ◌+◌, ◌-◌, ◌*◌, ◌^◌, String, Bool, true, false, not, ◌&&◌, ◌||◌, Option, some, none,
  List, [], ◌∷◌, ◌++◌, length, ltb, leb, nat_beq, if◌then◌else◌, Result, ok, err,
}
use tordex.Prelude.Outcome.{Outcome, returned, exhausted, ◌>>=◌}
use tordex.Tdxl.Token.{
  Token, kw_from, kw_match, kw_where, kw_traverse, kw_depth, kw_summarize, kw_infer, kw_correlate,
  kw_with, kw_similar, kw_to, kw_classify, kw_as, kw_timeline, kw_sort, kw_by, kw_asc, kw_desc,
  kw_limit, kw_store, kw_export, kw_load, kw_filter, kw_and, kw_or, kw_not, integer, float, str,
  boolean, null, ident, eq, neq, ge, le, gt, lt, assign, left_paren, right_paren, left_bracket,
  right_bracket, left_brace, right_brace, comma, dot, colon, newline, eof,
}

-- The characters of a text.
abbrev pub codes : String → List ℕ
codes String.[] = []
codes (String.◌∷◌ c s) = code c ∷ codes s

pub same_text : List ℕ → List ℕ → Bool
same_text [] [] = true
same_text [] (d ∷ ds) = false
same_text (c ∷ cs) [] = false
same_text (c ∷ cs) (d ∷ ds) = nat_beq c d && same_text cs ds

pub record Position : Type 0 where
  pub line : ℕ
  pub col : ℕ

-- `Error::Lex`: where, and what.
pub data LexError : Type 0 where
  lex : Position → List ℕ → LexError

-- `advance` past a character.
pub past : ℕ → Position → Position
past c p =
    if nat_beq c 10
    then record { line = p.line + 1; col = 1 }
    else record { line = p.line; col = p.col + 1 }

unfoldable pub is_ascii_digit : ℕ → Bool
is_ascii_digit c = leb b'0' c && leb c b'9'

unfoldable pub is_ascii_alphabetic : ℕ → Bool
is_ascii_alphabetic c = (leb b'a' c && leb c b'z') || (leb b'A' c && leb c b'Z')

-- `while let Some(c) = self.peek()`: the characters up to the first that fails the test, and the
-- lexer there.
pub read_while : (ℕ → Bool) → List ℕ → Position → List ℕ × List ℕ × Position
unfolding past
read_while test [] p = ([], [], p)
read_while test (c ∷ cs) p =
    let (s, rest, q) = read_while test cs (past c p) in
    if test c then (c ∷ s, rest, q) else ([], c ∷ cs, p)

-- ' ', '\t' and '\r'.
pub is_blank : ℕ → Bool
is_blank c = nat_beq c 32 || nat_beq c 9 || nat_beq c 13

pub in_comment : ℕ → Bool
in_comment c = not (nat_beq c 10)

pub skip_whitespace : ℕ → List ℕ → Position → Outcome (List ℕ × Position)
unfolding past read_while is_blank in_comment
skip_whitespace zero cs p = exhausted
skip_whitespace (suc fuel) [] p = returned ([], p)
skip_whitespace (suc fuel) (c ∷ cs) p =
    let (comment, rest, q) = read_while in_comment (c ∷ cs) p in
    let blank = skip_whitespace fuel cs (past c p) in
    let commented = skip_whitespace fuel rest q in
    if is_blank c then blank else if nat_beq c b'#' then commented else returned (c ∷ cs, p)

-- The digits of an `i64`; a number that does not fit does not parse, and counts as zero.
pub digits_value : ℕ → List ℕ → ℕ
digits_value n [] = n
digits_value n (c ∷ cs) = digits_value (n * 10 + (c - b'0')) cs

pub parse_i64 : List ℕ → ℕ
unfolding digits_value
parse_i64 s = if ltb (digits_value 0 s) (2 ^ 63) then digits_value 0 s else 0

-- The character that stands for an escape.
pub unescape : ℕ → ℕ
unescape c =
    if nat_beq c b'n' then 10 else if nat_beq c b't' then 9 else if nat_beq c b'r' then 13 else c

-- What a loop has read, and the lexer after it.
abbrev pub Reading : Type 0
Reading = Result (List ℕ × List ℕ × Position) LexError

-- `s.push(c)` before the rest of a loop.
pub pushed : ℕ → Reading → Reading
pushed c (ok (s, rest, p)) = ok (c ∷ s, rest, p)
pushed c (err e) = err e

mutual
  unfolding past unescape pushed

  -- The loop of `read_string`, and its arm for a backslash.
  pub string_body : List ℕ → Position → Reading
  string_body [] p = err (lex p (codes "unterminated string"))
  string_body (c ∷ cs) p =
      let escaped = string_escape cs (past c p) in
      let literal = pushed c (string_body cs (past c p)) in
      if nat_beq c b'"' then ok ([], cs, past c p) else if nat_beq c 92 then escaped else literal

  pub string_escape : List ℕ → Position → Reading
  string_escape [] p = err (lex p (codes "unterminated string escape"))
  string_escape (c ∷ cs) p = pushed (unescape c) (string_body cs (past c p))

pub raw_body : List ℕ → Position → Reading
unfolding past pushed
raw_body [] p = err (lex p (codes "unterminated raw string"))
raw_body (c ∷ cs) p =
    let literal = pushed c (raw_body cs (past c p)) in
    if nat_beq c 39 then ok ([], cs, past c p) else literal

has_dot : List ℕ → Bool
has_dot [] = false
has_dot (c ∷ cs) = nat_beq c b'.' || has_dot cs

in_number : ℕ → Bool
in_number c = is_ascii_digit c || nat_beq c b'.'

abbrev pub Lexeme : Type 0 → Type 0
Lexeme F = Result (Token F × List ℕ × Position) LexError

module _ {F : Type 0} where
  pub keywords : List (String × Token F)
  keywords =
      ("FROM", kw_from)
      ∷ ("from", kw_from)
      ∷ ("From", kw_from)
      ∷ ("MATCH", kw_match)
      ∷ ("match", kw_match)
      ∷ ("Match", kw_match)
      ∷ ("WHERE", kw_where)
      ∷ ("where", kw_where)
      ∷ ("Where", kw_where)
      ∷ ("TRAVERSE", kw_traverse)
      ∷ ("traverse", kw_traverse)
      ∷ ("Traverse", kw_traverse)
      ∷ ("DEPTH", kw_depth)
      ∷ ("depth", kw_depth)
      ∷ ("Depth", kw_depth)
      ∷ ("SUMMARIZE", kw_summarize)
      ∷ ("summarize", kw_summarize)
      ∷ ("Summarize", kw_summarize)
      ∷ ("INFER", kw_infer)
      ∷ ("infer", kw_infer)
      ∷ ("Infer", kw_infer)
      ∷ ("CORRELATE", kw_correlate)
      ∷ ("correlate", kw_correlate)
      ∷ ("Correlate", kw_correlate)
      ∷ ("WITH", kw_with)
      ∷ ("with", kw_with)
      ∷ ("With", kw_with)
      ∷ ("SIMILAR", kw_similar)
      ∷ ("similar", kw_similar)
      ∷ ("Similar", kw_similar)
      ∷ ("TO", kw_to)
      ∷ ("to", kw_to)
      ∷ ("To", kw_to)
      ∷ ("CLASSIFY", kw_classify)
      ∷ ("classify", kw_classify)
      ∷ ("Classify", kw_classify)
      ∷ ("AS", kw_as)
      ∷ ("as", kw_as)
      ∷ ("As", kw_as)
      ∷ ("TIMELINE", kw_timeline)
      ∷ ("timeline", kw_timeline)
      ∷ ("Timeline", kw_timeline)
      ∷ ("SORT", kw_sort)
      ∷ ("sort", kw_sort)
      ∷ ("Sort", kw_sort)
      ∷ ("BY", kw_by)
      ∷ ("by", kw_by)
      ∷ ("By", kw_by)
      ∷ ("ASC", kw_asc)
      ∷ ("asc", kw_asc)
      ∷ ("Asc", kw_asc)
      ∷ ("DESC", kw_desc)
      ∷ ("desc", kw_desc)
      ∷ ("Desc", kw_desc)
      ∷ ("LIMIT", kw_limit)
      ∷ ("limit", kw_limit)
      ∷ ("Limit", kw_limit)
      ∷ ("STORE", kw_store)
      ∷ ("store", kw_store)
      ∷ ("Store", kw_store)
      ∷ ("EXPORT", kw_export)
      ∷ ("export", kw_export)
      ∷ ("Export", kw_export)
      ∷ ("LOAD", kw_load)
      ∷ ("load", kw_load)
      ∷ ("Load", kw_load)
      ∷ ("FILTER", kw_filter)
      ∷ ("filter", kw_filter)
      ∷ ("Filter", kw_filter)
      ∷ ("AND", kw_and)
      ∷ ("and", kw_and)
      ∷ ("And", kw_and)
      ∷ ("OR", kw_or)
      ∷ ("or", kw_or)
      ∷ ("Or", kw_or)
      ∷ ("NOT", kw_not)
      ∷ ("not", kw_not)
      ∷ ("Not", kw_not)
      ∷ ("true", boolean true)
      ∷ ("True", boolean true)
      ∷ ("TRUE", boolean true)
      ∷ ("false", boolean false)
      ∷ ("False", boolean false)
      ∷ ("FALSE", boolean false)
      ∷ ("null", null)
      ∷ ("Null", null)
      ∷ ("NULL", null)
      ∷ []

  pub keyword_or : List (String × Token F) → List ℕ → Token F
  unfolding same_text
  keyword_or [] s = ident s
  keyword_or ((k, token) ∷ rows) s = if same_text (codes k) s then token else keyword_or rows s

  pub str_token : Reading → Lexeme F
  str_token (ok (s, rest, p)) = ok (str s, rest, p)
  str_token (err e) = err e

  -- The single characters.
  pub punctuation : ℕ → Option (Token F)
  punctuation c =
      if nat_beq c b'('
      then some left_paren
      else if nat_beq c b')'
      then some right_paren
      else if nat_beq c b'['
      then some left_bracket
      else if nat_beq c b']'
      then some right_bracket
      else if nat_beq c b'{'
      then some left_brace
      else if nat_beq c b'}'
      then some right_brace
      else if nat_beq c b','
      then some comma
      else if nat_beq c b'.'
      then some dot
      else if nat_beq c b':'
      then some colon
      else none

  -- One character, or two if the second is an equals sign.
  pub maybe_two : Token F → Token F → ℕ → List ℕ → Position → Lexeme F
  unfolding past
  maybe_two two one c [] p = ok (one, [], past c p)
  maybe_two two one c (d ∷ ds) p =
      if nat_beq d b'=' then ok (two, ds, past d (past c p)) else ok (one, d ∷ ds, past c p)

  pub bang : ℕ → List ℕ → Position → Lexeme F
  unfolding past
  bang c [] p = err (lex p (codes "unexpected '!'"))
  bang c (d ∷ ds) p =
      if nat_beq d b'='
      then ok (neq, ds, past d (past c p))
      else err (lex p (codes "unexpected '!'"))

  -- The `match` at the end of `next_token`.
  pub symbol : ℕ → List ℕ → Position → Lexeme F
  unfolding maybe_two bang punctuation past
  symbol c cs p = elim (punctuation c) [
    | some token ↦ ok (token, cs, past c p)
    | none ↦
        if nat_beq c b'='
        then maybe_two eq assign c cs p
        else if nat_beq c b'!'
        then bang c cs p
        else if nat_beq c b'>'
        then maybe_two ge gt c cs p
        else if nat_beq c b'<'
        then maybe_two le lt c cs p
        else err (lex p (codes "unexpected character: '" ++ c ∷ codes "'"))
  ]

  pub is_eof : Token F → Bool
  is_eof eof = true
  is_eof _ = false

  -- `tokens.push(t)` before the rest of the loop.
  pub followed :
      Token F × Position
      → Result (List (Token F × Position)) LexError
      → Result (List (Token F × Position)) LexError
  followed t (ok ts) = ok (t ∷ ts)
  followed t (err e) = err e

  module _ (is_alphanumeric : ℕ → Bool) (float_of : List ℕ → F) where
    pub read_number : List ℕ → Position → Lexeme F
    unfolding read_while has_dot parse_i64 in_number
    read_number cs p =
        let (s, rest, q) = read_while in_number cs p in
        ok (if has_dot s then float (float_of s) else integer (parse_i64 s), rest, q)

    pub in_name : ℕ → Bool
    in_name c = is_alphanumeric c || nat_beq c b'_'

    pub read_ident_or_keyword : List ℕ → Position → Lexeme F
    unfolding read_while keyword_or keywords in_name
    read_ident_or_keyword cs p =
        let (s, rest, q) = read_while in_name cs p in ok (keyword_or keywords s, rest, q)

    -- `next_token` after the blanks.
    pub token_at : List ℕ → Position → Lexeme F
    unfolding read_number read_ident_or_keyword string_body raw_body symbol past str_token
    token_at [] p = ok (eof, [], p)
    token_at (c ∷ cs) p =
        if nat_beq c 10
        then ok (newline, cs, past c p)
        else if is_ascii_digit c
        then read_number (c ∷ cs) p
        else if nat_beq c b'"'
        then str_token (string_body cs (past c p))
        else if nat_beq c 39
        then str_token (raw_body cs (past c p))
        else if nat_beq c b'_' || is_ascii_alphabetic c
        then read_ident_or_keyword (c ∷ cs) p
        else symbol c cs p

    -- The token with its position, and the lexer after it.
    pub next_token :
        List ℕ → Position → Outcome (Result ((Token F × Position) × List ℕ × Position) LexError)
    unfolding skip_whitespace token_at
    next_token cs p = do
      r ← skip_whitespace (length cs + 1) cs p
      returned (elim (token_at r.0 r.1) [
        | ok (token, rest, q) ↦ ok ((token, r.1), rest, q)
        | err e ↦ err e
      ])

    -- The loop of `tokenize`.
    pub tokens_from : ℕ → List ℕ → Position → Outcome (Result (List (Token F × Position)) LexError)
    unfolding next_token followed is_eof
    tokens_from zero cs p = exhausted
    tokens_from (suc fuel) cs p = do
      r ← next_token cs p
      elim r [
        | err e ↦ returned (err e)
        | ok (t, rest, q) ↦
            let later = tokens_from fuel rest q >>= λ ts. returned (followed t ts) in
            if is_eof t.0 then returned (ok (t ∷ [])) else later
      ]

    pub tokenize : List ℕ → Outcome (Result (List (Token F × Position)) LexError)
    unfolding tokens_from
    tokenize input = tokens_from (length input + 1) input (record { line = 1; col = 1 })
