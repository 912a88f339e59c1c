-- ===== src/Vm/Program/Layout.antt =====
-- About the image of a program, crates/vm/src/program.rs.
use tordex.Prelude.{
  ℕ, ◌+◌, ◌*◌, ◌≡◌, ap, ◌∙◌, zero, suc, some, List, [], ◌∷◌, ◌++◌, get_elem?, length, take, drop,
  arith,
}
use tordex.Vm.Instruction.{Instruction, bytes, encode, to_le_bytes}
use tordex.Vm.Program.{Program, flat_map, magic, as_u32, encode_program}

drop-append : (n m : ℕ) (xs ys : List ℕ) → n ≡ length xs + m → drop n (xs ++ ys) ≡ drop m ys
drop-append n m [] ys h = let same : n ≡ m = omega arith in ap (λ k. drop k ys) same
drop-append zero m (x ∷ xs) ys h = absurd (omega arith)
drop-append (suc n) m (x ∷ xs) ys h = drop-append n m xs ys (omega arith)

instruction_at :
    (is : List Instruction) (rest : List ℕ) (n : ℕ) (i : Instruction)
    → get_elem? is n ≡ some i
    → take 8 (drop (8 * n) (flat_map (λ j. bytes (encode j)) is ++ rest)) ≡ bytes (encode i)
instruction_at [] rest n i h = absurd (cc)
instruction_at (j ∷ is) rest zero i h = ap (λ k. bytes (encode k)) (ground arith)
instruction_at (j ∷ is) rest (suc n) i h =
    ap (λ bs. take 8 bs)
      (drop-append (8 * suc n) (8 * n) (bytes (encode j))
        (flat_map (λ k. bytes (encode k)) is ++ rest) (omega arith))
    ∙ instruction_at is rest n i h

-- The header of the image.
abbrev header : {V : Type 0} → (V → List ℕ) → Program V → List ℕ
unfolding to_le_bytes
header to_vec p =
    magic
    ++ to_le_bytes (as_u32 (length p.instructions))
    ++ to_le_bytes (as_u32 p.entry_point)
    ++ to_le_bytes (as_u32 (length (flat_map to_vec p.constants)))

-- The `n`th instruction of a program stands in the image at 16 + 8 * n, in its eight bytes.
pub encode_program-instruction :
    {V : Type 0} (to_vec : V → List ℕ) (p : Program V) (n : ℕ) (i : Instruction)
    → get_elem? p.instructions n ≡ some i
    → take 8 (drop (16 + 8 * n) (encode_program to_vec p)) ≡ bytes (encode i)
unfolding encode_program to_le_bytes
encode_program-instruction to_vec p n i h =
    ap (λ bs. take 8 bs)
      (drop-append (16 + 8 * n) (8 * n) (header to_vec p)
        (flat_map (λ j. bytes (encode j)) p.instructions ++ flat_map to_vec p.constants)
        (omega arith))
    ∙ instruction_at p.instructions (flat_map to_vec p.constants) n i h
