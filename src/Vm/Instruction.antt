-- ===== src/Vm/Instruction.antt =====
-- crates/vm/src/instruction.rs, lines 103 to 171 and 221 to 391: instructions, their encoding in
-- eight bytes, and the helpers that build them. A byte is a number below 256; an `i32` is its word of
-- two's complement, below `2 ^ 32`, so that `to_le_bytes` and `from_le_bytes` are read as they stand.
pub mod Codec
use tordex.Prelude.{ℕ, ◌+◌, ◌*◌, ◌/◌, ◌%◌, Option, some, none, List, [], ◌∷◌}
use tordex.Vm.Opcode.{Opcode, byte, from_u8}
use tordex.Vm.Opcode

pub record Instruction : Type 0 where
  pub opcode : Opcode
  pub reg_a : ℕ
  pub reg_b : ℕ
  pub extra : ℕ
  pub imm : ℕ

unfoldable pub new : Opcode → Instruction
new op = record { opcode = op; reg_a = 0; reg_b = 0; extra = 0; imm = 0 }

unfoldable pub with_reg_a : Instruction → ℕ → Instruction
with_reg_a i reg = record i { reg_a = reg }

unfoldable pub with_reg_b : Instruction → ℕ → Instruction
with_reg_b i reg = record i { reg_b = reg }

unfoldable pub with_extra : Instruction → ℕ → Instruction
with_extra i val = record i { extra = val }

unfoldable pub with_imm : Instruction → ℕ → Instruction
with_imm i val = record i { imm = val }

-- `to_le_bytes` of a word of 32 bits.
unfoldable pub to_le_bytes : ℕ → List ℕ
to_le_bytes n = n % 256 ∷ n / 256 % 256 ∷ n / 65536 % 256 ∷ n / 16777216 % 256 ∷ []

-- `from_le_bytes` of the four bytes.
unfoldable pub from_le_bytes : ℕ → ℕ → ℕ → ℕ → ℕ
from_le_bytes b c d e = b + 256 * c + 65536 * d + 16777216 * e

-- The eight bytes of the array that `decode` takes.
pub record Bytes8 : Type 0 where
  pub b0 : ℕ
  pub b1 : ℕ
  pub b2 : ℕ
  pub b3 : ℕ
  pub b4 : ℕ
  pub b5 : ℕ
  pub b6 : ℕ
  pub b7 : ℕ

-- The array as a sequence.
abbrev pub bytes : Bytes8 → List ℕ
bytes b = b.b0 ∷ b.b1 ∷ b.b2 ∷ b.b3 ∷ b.b4 ∷ b.b5 ∷ b.b6 ∷ b.b7 ∷ []

pub encode : Instruction → Bytes8
encode i = record {
  b0 = byte i.opcode;
  b1 = i.reg_a;
  b2 = i.reg_b;
  b3 = i.extra;
  b4 = i.imm % 256;
  b5 = i.imm / 256 % 256;
  b6 = i.imm / 65536 % 256;
  b7 = i.imm / 16777216 % 256;
}

-- The instruction with the opcode that was found, if there was one.
unfoldable pub with_fields : Bytes8 → Option Opcode → Option Instruction
with_fields b none = none
with_fields b (some op) = some (record {
  opcode = op;
  reg_a = b.b1;
  reg_b = b.b2;
  extra = b.b3;
  imm = from_le_bytes b.b4 b.b5 b.b6 b.b7;
})

unfoldable pub decode : Bytes8 → Option Instruction
decode b = with_fields b (from_u8 b.b0)
