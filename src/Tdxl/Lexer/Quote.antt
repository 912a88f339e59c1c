-- ===== src/Tdxl/Lexer/Quote.antt =====
-- Texts in double quotes, for `read_string` of crates/tdxl/src/lexer.rs.
use tordex.Prelude.{
  ℕ, zero, suc, ◌+◌, ◌<◌, ◌≡◌, refl, inl, inr, Bool, false, ◌||◌, List, [], ◌∷◌, ◌++◌, length,
  nat_beq, Bool-cases, if◌then◌else◌, ok, arith,
}
use tordex.Prelude.Outcome.{returned}
use tordex.Tdxl.Token.{str}
use tordex.Tdxl.Lexer.{
  Position, past, pushed, unescape, string_body, string_escape, str_token, token_at,
  skip_whitespace, next_token, is_ascii_digit, is_blank,
}

-- A text as it is written between double quotes: each special character behind a backslash.
unfoldable pub escaped : List ℕ → List ℕ
escaped [] = []
escaped (c ∷ cs) =
    let rest = escaped cs in
    if nat_beq c b'"' || nat_beq c 92
    then 92 ∷ c ∷ rest
    else if nat_beq c 10
    then 92 ∷ b'n' ∷ rest
    else if nat_beq c 9
    then 92 ∷ b't' ∷ rest
    else if nat_beq c 13
    then 92 ∷ b'r' ∷ rest
    else c ∷ rest

-- `read_string` reads `s` from `cs`, and leaves `rest`.
Reads : List ℕ → List ℕ → List ℕ → Type 0
Reads cs s rest = (p : Position) → (q : Position) × (string_body cs p ≡ ok (s, rest, q))

Reads-literal :
    (c : ℕ) (cs s rest : List ℕ)
    → nat_beq c b'"' ≡ false
    → nat_beq c 92 ≡ false
    → Reads cs s rest
    → Reads (c ∷ cs) (c ∷ s) rest
unfolding Reads string_body pushed
Reads-literal c cs s rest quote slash ih p =
    let (q, e) = ih (past c p) in (q, rw (quote, slash, e) refl)

Reads-escape :
    (d c : ℕ) (cs s rest : List ℕ)
    → unescape d ≡ c
    → Reads cs s rest
    → Reads (92 ∷ d ∷ cs) (c ∷ s) rest
unfolding Reads string_body string_escape pushed
Reads-escape d c cs s rest u ih p = let (q, e) = ih (past d (past 92 p)) in (q, rw (e, u) refl)

Reads-escaped : (s rest : List ℕ) → Reads (escaped s ++ b'"' ∷ rest) s rest
unfolding escaped Reads unescape string_body
Reads-escaped [] rest = λ p. (past b'"' p, refl)
Reads-escaped (c ∷ cs) rest =
    let ih = Reads-escaped cs rest in
    let more = escaped cs ++ b'"' ∷ rest in
    elim (Bool-cases (nat_beq c b'"')) [
      | inl quote ↦ rw (quote) (Reads-escape c c more cs rest (ground arith) ih)
      | inr quote ↦ elim (Bool-cases (nat_beq c 92)) [
        | inl slash ↦ rw (quote, slash) (Reads-escape c c more cs rest (ground arith) ih)
        | inr slash ↦ elim (Bool-cases (nat_beq c 10)) [
          | inl newline ↦
              rw (quote, slash, newline) (Reads-escape b'n' c more cs rest (ground arith) ih)
          | inr other ↦ elim (Bool-cases (nat_beq c 9)) [
            | inl tab ↦
                rw (quote, slash, other, tab) (Reads-escape b't' c more cs rest (ground arith) ih)
            | inr other' ↦ elim (Bool-cases (nat_beq c 13)) [
              | inl return ↦
                  rw (quote, slash, other, other', return)
                    (Reads-escape b'r' c more cs rest (ground arith) ih)
              | inr plain ↦
                  rw (quote, slash, other, other', plain)
                    (Reads-literal c more cs rest quote slash ih)
            ]
          ]
        ]
      ]
    ]

skip_whitespace-quote :
    (fuel : ℕ) (cs : List ℕ) (p : Position)
    → 0 < fuel
    → skip_whitespace fuel (b'"' ∷ cs) p ≡ returned (b'"' ∷ cs, p)
unfolding skip_whitespace is_blank
skip_whitespace-quote zero cs p h = absurd (omega arith)
skip_whitespace-quote (suc fuel) cs p h = refl

module _ {F : Type 0} (is_alphanumeric : ℕ → Bool) (float_of : List ℕ → F) where
  -- A text in double quotes, its special characters escaped, is one token: the text. Nothing behind
  -- the closing quote is read.
  pub next_token-escaped :
      (s rest : List ℕ) (p : Position)
      → (q : Position) × (next_token is_alphanumeric float_of (b'"' ∷ escaped s ++ b'"' ∷ rest) p
          ≡ returned (ok ((str s, p), rest, q)))
  unfolding next_token skip_whitespace is_blank token_at is_ascii_digit str_token Reads
  next_token-escaped s rest p =
      let (q, e) = Reads-escaped s rest (past b'"' p) in
      let more = escaped s ++ b'"' ∷ rest in
      let stop = skip_whitespace-quote (length (b'"' ∷ more) + 1) more p (omega arith) in
      (q, rw (stop, e) refl)
