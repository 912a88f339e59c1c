-- ===== src/Vm/Instruction/Codec.antt =====
-- About `encode` and `decode` of crates/vm/src/instruction.rs.
use tordex.Prelude.{
  ℕ, ◌/◌, ◌%◌, ◌<◌, ◌≡◌, refl, sym, ap, subst, ◌∙◌, some, none, Option-cases, inl, inr, arith,
}
use tordex.Vm.Opcode.{Opcode, from_u8, from_u8-byte, byte-from_u8}
use tordex.Vm.Instruction.{Instruction, Bytes8, from_le_bytes, with_fields, encode, decode}

from_le_bytes-word :
    (n : ℕ)
    → n < 4294967296
    → from_le_bytes (n % 256) (n / 256 % 256) (n / 65536 % 256) (n / 16777216 % 256) ≡ n
unfolding from_le_bytes
from_le_bytes-word n h = omega arith

-- Every instruction whose immediate is a word of 32 bits is decoded from its eight bytes again.
pub decode-encode : (i : Instruction) → i.imm < 4294967296 → decode (encode i) ≡ some i
unfolding decode encode with_fields
decode-encode i h =
    rw (from_u8-byte i.opcode) (ap (λ n. some (record i { imm = n })) (from_le_bytes-word i.imm h))

-- The bytes of the immediate are bytes.
pub record Proper (b : Bytes8) : Type 0 where
  pub fourth : b.b4 < 256
  pub fifth : b.b5 < 256
  pub sixth : b.b6 < 256
  pub seventh : b.b7 < 256

byte_0 : (b c d e : ℕ) → b < 256 → c < 256 → d < 256 → e < 256 → from_le_bytes b c d e % 256 ≡ b
unfolding from_le_bytes
byte_0 b c d e hb hc hd he = omega arith

byte_1 :
    (b c d e : ℕ) → b < 256 → c < 256 → d < 256 → e < 256 → from_le_bytes b c d e / 256 % 256 ≡ c
unfolding from_le_bytes
byte_1 b c d e hb hc hd he = omega arith

byte_2 :
    (b c d e : ℕ) → b < 256 → c < 256 → d < 256 → e < 256 → from_le_bytes b c d e / 65536 % 256 ≡ d
unfolding from_le_bytes
byte_2 b c d e hb hc hd he = omega arith

byte_3 :
    (b c d e : ℕ)
    → b < 256
    → c < 256
    → d < 256
    → e < 256
    → from_le_bytes b c d e / 16777216 % 256 ≡ e
unfolding from_le_bytes
byte_3 b c d e hb hc hd he = omega arith

same_bytes :
    (b : Bytes8) (i : Instruction) (o : Opcode)
    → Proper b
    → from_u8 b.b0 ≡ some o
    → with_fields b (some o) ≡ some i
    → encode i ≡ b
unfolding with_fields encode
same_bytes b i o p h e =
    let j : Instruction = record {
      opcode = o;
      reg_a = b.b1;
      reg_b = b.b2;
      extra = b.b3;
      imm = from_le_bytes b.b4 b.b5 b.b6 b.b7;
    } in
    let is : j ≡ i = cc in
    subst (λ k. encode k ≡ b) is
      (rw
        (
          byte-from_u8 b.b0 o h,
          byte_0 b.b4 b.b5 b.b6 b.b7 p.fourth p.fifth p.sixth p.seventh,
          byte_1 b.b4 b.b5 b.b6 b.b7 p.fourth p.fifth p.sixth p.seventh,
          byte_2 b.b4 b.b5 b.b6 b.b7 p.fourth p.fifth p.sixth p.seventh,
          byte_3 b.b4 b.b5 b.b6 b.b7 p.fourth p.fifth p.sixth p.seventh,
        )
        refl)

not_decoded : (b : Bytes8) (i : Instruction) → ¬ (with_fields b none ≡ some i)
unfolding with_fields
not_decoded b i h = absurd (cc)

-- Eight bytes that decode to an instruction are its encoding: no two arrays decode to the same one.
pub encode-decode : (b : Bytes8) (i : Instruction) → Proper b → decode b ≡ some i → encode i ≡ b
unfolding decode
encode-decode b i p h = elim (Option-cases (from_u8 b.b0)) [
  | inl e ↦ absurd (not_decoded b i (ap (with_fields b) (sym e) ∙ h))
  | inr (o, e) ↦ same_bytes b i o p e (ap (with_fields b) (sym e) ∙ h)
]
