-- ===== src/Tdxl/Lexer/Total.antt =====
-- `tokenize` of crates/tdxl/src/lexer.rs comes to an end.
use tordex.Prelude.{
  ℕ, zero, suc, ◌+◌, ◌≤◌, ◌<◌, ◌≡◌, refl, ◌⊎◌, inl, inr, Bool, true, false, ◌||◌, List, [], ◌∷◌,
  length, nat_beq, Bool-cases, if◌then◌else◌, Result, ok, err, arith,
}
use tordex.Prelude.Outcome.{returned, Returns, Never, Returns-bind, Returns-if, ◌>>=◌}
use tordex.Tdxl.Token.{Token, eof}
use tordex.Tdxl.Lexer.{
  Position, LexError, Lexeme, past, read_number, read_ident_or_keyword, in_number, in_name,
  is_ascii_digit, is_ascii_alphabetic, token_at, next_token, is_eof, followed, tokens_from,
  tokenize,
}
use tordex.Tdxl.Lexer.Left.{
  Left, Left-if, Left-test, read_while-first, string_body-Left, raw_body-Left, Within,
  skip_whitespace-Returns, str_token-Left, symbol-Left,
}

module _ (F : Type 0) (is_alphanumeric : ℕ → Bool) (float_of : List ℕ → F) where
  read_number-Left :
      (c : ℕ) (cs : List ℕ) (p : Position)
      → is_ascii_digit c ≡ true
      → Left (length cs) (read_number is_alphanumeric float_of (c ∷ cs) p)
  unfolding read_number in_number
  read_number-Left c cs p h = read_while-first in_number c cs p (rw (h) refl)

  read_ident_or_keyword-Left :
      (c : ℕ) (cs : List ℕ) (p : Position)
      → in_name is_alphanumeric float_of c ≡ true
      → Left (length cs) (read_ident_or_keyword is_alphanumeric float_of (c ∷ cs) p)
  unfolding read_ident_or_keyword
  read_ident_or_keyword-Left c cs p h = read_while-first (in_name is_alphanumeric float_of) c cs p h

  -- The lexeme at the front: the list is at its end, or a character is read.
  Read : List ℕ → Lexeme F → Type 0
  Read cs (ok (t, rest, p)) = (is_eof t ≡ true) ⊎ (length rest < length cs)
  Read cs (err e) = Unit

  Left-Read : (c : ℕ) (cs : List ℕ) (r : Lexeme F) → Left (length cs) r → Read (c ∷ cs) r
  unfolding Read
  Left-Read c cs (ok (t, rest, p)) h = inr (omega arith)
  Left-Read c cs (err e) h = tt

  -- A sequence of tokens that ends in the one end of the input.
  abbrev pub Ended : List (Token F × Position) → Type 0
  Ended [] = Never
  Ended (t ∷ []) = t.0 ≡ eof
  Ended (t ∷ u ∷ ts) = (is_eof t.0 ≡ false) × Ended (u ∷ ts)

  -- Tokens up to the end of the input, at most one more than there are characters; or an error.
  unfoldable pub Complete : ℕ → Result (List (Token F × Position)) LexError → Type 0
  Complete n (ok ts) = Ended ts × (length ts ≤ n + 1)
  Complete n (err e) = Unit

  module _ (letters : (c : ℕ) → is_ascii_alphabetic c ≡ true → is_alphanumeric c ≡ true) where
    in_name-start :
        (c : ℕ)
        → (nat_beq c b'_' || is_ascii_alphabetic c) ≡ true
        → in_name is_alphanumeric float_of c ≡ true
    unfolding in_name
    in_name-start c h = elim (Bool-cases (nat_beq c b'_')) [
      | inl underscore ↦ ground (arith)
      | inr letter ↦ rw (letters c (ground arith)) refl
    ]

    token_at-Read : (cs : List ℕ) (p : Position) → Read cs (token_at is_alphanumeric float_of cs p)
    unfolding token_at Read is_eof
    token_at-Read [] p = inl refl
    token_at-Read (c ∷ cs) p = Left-Read c cs _ (
        Left-if _ (nat_beq c 10) _ _ (omega arith) (
          Left-test _ (is_ascii_digit c) _ _ (read_number-Left c cs p) (
            Left-if _ (nat_beq c b'"') _ _ (str_token-Left F _ _ (string_body-Left cs (past c p))) (
              Left-if _ (nat_beq c 39) _ _ (str_token-Left F _ _ (raw_body-Left cs (past c p))) (
                Left-test _ (nat_beq c b'_' || is_ascii_alphabetic c) _ _
                  (λ name. read_ident_or_keyword-Left c cs p (in_name-start c name))
                  (symbol-Left F c cs p))))))

    Next : List ℕ → Result ((Token F × Position) × List ℕ × Position) LexError → Type 0
    Next cs (ok (t, rest, q)) = (is_eof t.0 ≡ true) ⊎ (length rest < length cs)
    Next cs (err e) = Unit

    located :
        (cs : List ℕ) (r : List ℕ × Position) (l : Lexeme F)
        → length r.0 ≤ length cs
        → Read r.0 l
        → Next cs (elim l [ ok (token, rest, q) ↦ ok ((token, r.1), rest, q) | err e ↦ err e ])
    unfolding Next Read
    located cs r (ok (t, rest, q)) h (inl e) = inl e
    located cs r (ok (t, rest, q)) h (inr l) = inr (omega arith)
    located cs r (err e) h k = tt

    next_token-Next :
        (cs : List ℕ) (p : Position) → Returns (Next cs) (next_token is_alphanumeric float_of cs p)
    unfolding next_token
    next_token-Next cs p =
        Returns-bind (Within (length cs)) (Next cs) _ _
          (skip_whitespace-Returns (length cs + 1) cs p (omega arith))
          (λ r h.
            located cs r (token_at is_alphanumeric float_of r.0 r.1) h (token_at-Read r.0 r.1))

    followed-Complete :
        (n : ℕ) (t : Token F × Position) (r : Result (List (Token F × Position)) LexError)
        → is_eof t.0 ≡ false
        → Complete n r
        → Complete (suc n) (followed t r)
    unfolding Complete followed
    followed-Complete n t (ok []) h c = elim (c.0) [ ]
    followed-Complete n t (ok (u ∷ ts)) h c = ((h, c.0), omega (arith, c.1))
    followed-Complete n t (err e) h c = tt

    is_eof-eof : (t : Token F) → is_eof t ≡ true → t ≡ eof
    unfolding is_eof
    is_eof-eof eof h = refl
    is_eof-eof _ h = cc

    -- A fuel above the number of characters is enough.
    Total : ℕ → Type 0
    Total fuel =
        (n : ℕ) (cs : List ℕ) (p : Position)
        → n < fuel
        → length cs ≤ n
        → Returns (Complete n) (tokens_from is_alphanumeric float_of fuel cs p)

    later-Complete :
        (fuel n : ℕ) (t : Token F × Position) (rest : List ℕ) (q : Position)
        → Total fuel
        → n < suc fuel
        → length rest < n
        → is_eof t.0 ≡ false
        → Returns
            (Complete n)
            (tokens_from is_alphanumeric float_of fuel rest q >>= λ ts. returned (followed t ts))
    unfolding Total
    later-Complete fuel zero t rest q ih h l e = absurd (omega arith)
    later-Complete fuel (suc n) t rest q ih h l e =
        Returns-bind (Complete n) (Complete (suc n)) _ _ (ih n rest q (omega arith) (omega arith))
          (λ ts c. followed-Complete n t ts e c)

    round-Complete :
        (fuel n : ℕ) (cs : List ℕ) (r : Result ((Token F × Position) × List ℕ × Position) LexError)
        → Total fuel
        → n < suc fuel
        → length cs ≤ n
        → Next cs r
        → Returns (Complete n) (elim r [
          | err e ↦ returned (err e)
          | ok (t, rest, q) ↦
              if is_eof t.0
              then returned (ok (t ∷ []))
              else tokens_from is_alphanumeric float_of fuel rest q >>= λ ts.
                  returned (followed t ts)
        ])
    unfolding Next Complete
    round-Complete fuel n cs (err e) ih h l next = tt
    round-Complete fuel n cs (ok (t, rest, q)) ih h l (inl last) =
        rw (last) (is_eof-eof t.0 last, omega arith)
    round-Complete fuel n cs (ok (t, rest, q)) ih h l (inr less) =
        Returns-if (Complete n) (is_eof t.0) _ _ (λ last. (is_eof-eof t.0 last, omega arith))
          (later-Complete fuel n t rest q ih h (omega arith))

    tokens_from-Complete : (fuel : ℕ) → Total fuel
    unfolding tokens_from Total
    tokens_from-Complete zero = λ n cs p h l. absurd (omega arith)
    tokens_from-Complete (suc fuel) = λ n cs p h l.
        Returns-bind (Next cs) (Complete n) _ _ (next_token-Next cs p)
          (λ r. round-Complete fuel n cs r (tokens_from-Complete fuel) h l)

    -- If ASCII letters are alphanumeric, tokenize of any input returns: an error, or tokens of which
    -- the last one is the end of the input and no other is, at most one more than the input has
    -- characters.
    pub tokenize-Complete :
        (input : List ℕ)
        → Returns (Complete (length input)) (tokenize is_alphanumeric float_of input)
    unfolding tokenize Total
    tokenize-Complete input =
        tokens_from-Complete (length input + 1) (length input) input _ (omega arith) (omega arith)
