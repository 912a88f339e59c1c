-- ===== src/Vm/Program.antt =====
-- crates/vm/src/program.rs: programs and their image in bytes. `V` stands for the JSON values of
-- serde_json and `to_vec` for its printer, whose failure counts as no bytes.
pub mod Layout
use tordex.Prelude.{
  ℕ, ◌+◌, ◌*◌, ◌%◌, ◌≡◌, refl, Bool, Option, some, none, String, List, [], ◌∷◌, ◌++◌, map, length,
  get_elem?, nat_beq,
}
use tordex.Prelude.Map.{Map}
use tordex.Vm.Instruction.{Instruction, encode, bytes, to_le_bytes}

pub record Program (V : Type 0) : Type 0 where
  pub name : String
  pub version : String
  pub instructions : List Instruction
  pub constants : List V
  pub entry_point : ℕ
  pub metadata : Map String String

-- The bytes of all elements, one after the other.
abbrev pub flat_map {ℓ κ} : {A : Type ℓ} {B : Type κ} → (A → List B) → List A → List B
flat_map f [] = []
flat_map f (x ∷ xs) = f x ++ flat_map f xs

-- A number cut to 32 bits, `as u32`.
abbrev pub as_u32 : ℕ → ℕ
as_u32 n = n % 4294967296

-- The magic number, "TVM" and a zero byte.
abbrev pub magic : List ℕ
magic = 84 ∷ 86 ∷ 77 ∷ 0 ∷ []

module _ {V : Type 0} where
  unfoldable pub new : String → Program V
  new name = record {
    name = name;
    version = "0.1.0";
    instructions = [];
    constants = [];
    entry_point = 0;
    metadata = [];
  }

  unfoldable with_version : Program V → String → Program V
  with_version p v = record p { version = v }

  unfoldable pub push : Program V → Instruction → Program V
  push p i = record p { instructions = p.instructions ++ i ∷ [] }

  -- The index of the constant, and the program that has it.
  unfoldable add_constant : Program V → V → ℕ × Program V
  add_constant p v = (length p.constants, record p { constants = p.constants ++ v ∷ [] })

  unfoldable pub get_constant : Program V → ℕ → Option V
  get_constant p idx = get_elem? p.constants idx

  unfoldable pub len : Program V → ℕ
  len p = length p.instructions

  unfoldable pub is_empty : Program V → Bool
  is_empty p = nat_beq (length p.instructions) 0

  pub encode_program : (V → List ℕ) → Program V → List ℕ
  encode_program to_vec p =
      let const_data = flat_map to_vec p.constants in
      magic
      ++ to_le_bytes (as_u32 (length p.instructions))
      ++ to_le_bytes (as_u32 p.entry_point)
      ++ to_le_bytes (as_u32 (length const_data))
      ++ flat_map (λ i. bytes (encode i)) p.instructions
      ++ const_data
