-- ===== src/Tests/Queries.antt =====
-- The text of a query, and a text in double quotes.
use tordex.Prelude.{ℕ, ◌≡◌, refl, Bool, true, ◌||◌, List, ◌∷◌, ◌++◌, length, ok}
use tordex.Prelude.Outcome.{returned, Returns}
use tordex.Tdxl.Token.{str}
use tordex.Tdxl.Lexer.{Position, codes, is_ascii_digit, is_ascii_alphabetic, next_token, tokenize}
use tordex.Tdxl.Lexer.Quote.{escaped, next_token-escaped}
use tordex.Tdxl.Lexer.Total.{Complete, tokenize-Complete}

-- The characters of ASCII; a number is kept as it is written.
abbrev alphanumeric : ℕ → Bool
alphanumeric c = is_ascii_alphabetic c || is_ascii_digit c

abbrev written : List ℕ → List ℕ
written s = s

letters : (c : ℕ) → is_ascii_alphabetic c ≡ true → alphanumeric c ≡ true
letters c h = rw (h) refl

abbrev query : List ℕ
query = codes "FROM person # all of them\nWHERE age >= 18.5"

tokenize-Complete_example :
    Returns
      (Complete (List ℕ) alphanumeric written (length query))
      (tokenize alphanumeric written query)
tokenize-Complete_example = tokenize-Complete (List ℕ) alphanumeric written letters query

abbrev start : Position
start = record { line = 1; col = 1 }

abbrev said : List ℕ
said = codes "say \"hi\""

next_token-escaped_example :
    (q : Position) × (next_token alphanumeric written
        (b'"' ∷ escaped said ++ b'"' ∷ codes " LIMIT")
        start
      ≡ returned (ok ((str said, start), codes " LIMIT", q)))
next_token-escaped_example = next_token-escaped alphanumeric written said (codes " LIMIT") start
