-- ===== src/Tdxl/Lexer/Left.antt =====
-- How far the loops of crates/tdxl/src/lexer.rs get.
use tordex.Prelude.{
  ℕ, zero, suc, ◌≤◌, ◌<◌, ◌≡◌, refl, inl, inr, Bool, true, false, List, [], ◌∷◌, length, nat_beq,
  Bool-cases, Option-cases, if◌then◌else◌, Result, ok, err, arith,
}
use tordex.Prelude.Outcome.{Outcome, returned, panicked, exhausted, Returns, Returns-if}
use tordex.Tdxl.Token.{Token}
use tordex.Tdxl.Lexer.{
  Position, LexError, Reading, past, pushed, read_while, string_body, string_escape, raw_body,
  str_token, maybe_two, bang, symbol, punctuation, skip_whitespace, is_blank, in_comment,
}

-- At most `n` characters are left.
abbrev pub Left {ℓ} : {A : Type ℓ} → ℕ → Result (A × List ℕ × Position) LexError → Type 0
Left n (ok (a, rest, p)) = length rest ≤ n
Left n (err e) = Unit

Left-le {ℓ} :
    {A : Type ℓ} (m n : ℕ) (r : Result (A × List ℕ × Position) LexError)
    → m ≤ n
    → Left m r
    → Left n r
Left-le m n (ok (a, rest, p)) h l = omega arith
Left-le m n (err e) h l = tt

pub Left-if {ℓ} :
    {A : Type ℓ} (n : ℕ) (b : Bool) (r s : Result (A × List ℕ × Position) LexError)
    → Left n r
    → Left n s
    → Left n (if b then r else s)
Left-if n true r s h k = h
Left-if n false r s h k = k

pub Left-test {ℓ} :
    {A : Type ℓ} (n : ℕ) (b : Bool) (r s : Result (A × List ℕ × Position) LexError)
    → (b ≡ true → Left n r)
    → Left n s
    → Left n (if b then r else s)
Left-test n true r s h k = h refl
Left-test n false r s h k = k

read_while-Left :
    (test : ℕ → Bool) (cs : List ℕ) (p : Position) → length (read_while test cs p).1 ≤ length cs
unfolding read_while
read_while-Left test [] p = omega arith
read_while-Left test (c ∷ cs) p = elim (Bool-cases (test c)) [
  | inl h ↦ rw (h) (omega (arith, read_while-Left test cs (past c p)))
  | inr h ↦ rw (h) (omega arith)
]

-- A first character that passes is read.
pub read_while-first :
    (test : ℕ → Bool) (c : ℕ) (cs : List ℕ) (p : Position)
    → test c ≡ true
    → length (read_while test (c ∷ cs) p).1 ≤ length cs
unfolding read_while
read_while-first test c cs p h = rw (h) (read_while-Left test cs (past c p))

pushed-Left : (n c : ℕ) (r : Reading) → Left n r → Left n (pushed c r)
unfolding pushed
pushed-Left n c (ok (s, rest, p)) h = h
pushed-Left n c (err e) h = tt

mutual
  unfolding string_body string_escape

  pub string_body-Left : (cs : List ℕ) (p : Position) → Left (length cs) (string_body cs p)
  string_body-Left [] p = tt
  string_body-Left (c ∷ cs) p =
      let escaped =
        Left-le (length cs) (suc (length cs)) (string_escape cs (past c p)) (omega arith)
          (string_escape-Left cs (past c p)) in
      let literal =
        Left-le (length cs) (suc (length cs)) _ (omega arith)
          (pushed-Left (length cs) c _ (string_body-Left cs (past c p))) in
      Left-if _ (nat_beq c b'"') _ _ (omega arith) (Left-if _ (nat_beq c 92) _ _ escaped literal)

  string_escape-Left : (cs : List ℕ) (p : Position) → Left (length cs) (string_escape cs p)
  string_escape-Left [] p = tt
  string_escape-Left (c ∷ cs) p =
      Left-le (length cs) (suc (length cs)) _ (omega arith)
        (pushed-Left (length cs) _ _ (string_body-Left cs (past c p)))

pub raw_body-Left : (cs : List ℕ) (p : Position) → Left (length cs) (raw_body cs p)
unfolding raw_body
raw_body-Left [] p = tt
raw_body-Left (c ∷ cs) p = Left-if _ (nat_beq c 39) _ _ (omega arith) (
    Left-le (length cs) (suc (length cs)) _ (omega arith)
      (pushed-Left (length cs) c _ (raw_body-Left cs (past c p))))

in_comment-hash : (c : ℕ) → nat_beq c b'#' ≡ true → in_comment c ≡ true
unfolding in_comment
in_comment-hash c h = ground arith

-- At most `n` characters are left.
abbrev pub Within {ℓ} : {B : Type ℓ} → ℕ → List ℕ × B → Type 0
Within n r = length r.0 ≤ n

Within-le {ℓ} :
    {B : Type ℓ} (m n : ℕ) (o : Outcome (List ℕ × B))
    → m ≤ n
    → Returns (Within m) o
    → Returns (Within n) o
Within-le m n (returned r) h w = omega arith
Within-le m n panicked h w = elim w [ ]
Within-le m n exhausted h w = elim w [ ]

-- The blanks and the comments end.
pub skip_whitespace-Returns :
    (fuel : ℕ) (cs : List ℕ) (p : Position)
    → length cs < fuel
    → Returns (Within (length cs)) (skip_whitespace fuel cs p)
unfolding skip_whitespace
skip_whitespace-Returns zero cs p h = absurd (omega arith)
skip_whitespace-Returns (suc fuel) [] p h = omega arith
skip_whitespace-Returns (suc fuel) (c ∷ cs) p h =
    let (comment, rest, q) = read_while in_comment (c ∷ cs) p in
    Returns-if _ (is_blank c) _ _
      (λ blank.
        Within-le (length cs) (suc (length cs)) (skip_whitespace fuel cs (past c p)) (omega arith)
          (skip_whitespace-Returns fuel cs (past c p) (omega arith)))
      (λ other.
        Returns-if _ (nat_beq c b'#') _ _
          (λ hash.
            let shorter = read_while-first in_comment c cs p (in_comment-hash c hash) in
            Within-le (length rest) (suc (length cs)) (skip_whitespace fuel rest q)
              (omega (arith, shorter))
              (skip_whitespace-Returns fuel rest q (omega (arith, shorter))))
          (λ stop. omega arith))

module _ (F : Type 0) where
  pub str_token-Left : (n : ℕ) (r : Reading) → Left n r → Left n (str_token {F = F} r)
  unfolding str_token
  str_token-Left n (ok (s, rest, p)) h = h
  str_token-Left n (err e) h = tt

  maybe_two-Left :
      (two one : Token F) (c : ℕ) (cs : List ℕ) (p : Position)
      → Left (length cs) (maybe_two two one c cs p)
  unfolding maybe_two
  maybe_two-Left two one c [] p = omega arith
  maybe_two-Left two one c (d ∷ ds) p = Left-if _ (nat_beq d b'=') _ _ (omega arith) (omega arith)

  bang-Left : (c : ℕ) (cs : List ℕ) (p : Position) → Left (length cs) (bang {F = F} c cs p)
  unfolding bang
  bang-Left c [] p = tt
  bang-Left c (d ∷ ds) p = Left-if _ (nat_beq d b'=') _ _ (omega arith) tt

  pub symbol-Left : (c : ℕ) (cs : List ℕ) (p : Position) → Left (length cs) (symbol {F = F} c cs p)
  unfolding symbol
  symbol-Left c cs p = elim (Option-cases (punctuation {F = F} c)) [
    | inl e ↦
        rw (e, symbol)
          (Left-if _ (nat_beq c b'=') _ _ (maybe_two-Left _ _ c cs p) (
            Left-if _ (nat_beq c b'!') _ _ (bang-Left c cs p) (
              Left-if _ (nat_beq c b'>') _ _ (maybe_two-Left _ _ c cs p)
                (Left-if _ (nat_beq c b'<') _ _ (maybe_two-Left _ _ c cs p) tt))))
    | inr (token, e) ↦ rw (e, symbol) (omega arith)
  ]
