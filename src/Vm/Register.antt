-- ===== src/Vm/Register.antt =====
-- crates/vm/src/register.rs: the values of registers and the register file. `K` and `R` stand for
-- `Knowledge` and `Relationship` of crates/types, which a value only carries; `F` stands for `f64`,
-- `float_zero` for the test of a float against 0.0 and `float_int` for the conversion `as i64`. An
-- `i64` is its word of two's complement. `Json`
-- is what `to_json` calls of serde_json.
pub mod Access
use tordex.Prelude.{
  ℕ, ◌<◌, ◌≡◌, ◌≢◌, refl, Bool, true, false, not, Option, some, none, String, string_eq, ◌==◌, List,
  [], ◌∷◌, nat_beq, if◌then◌else◌, arith, length, get_elem?, set, replicate, length-set,
  length-replicate, Result, ok, err,
}

mutual
  pub data RegisterValue (F K R : Type 0) : Type 0 where
    int : ℕ → RegisterValue F K R
    float : F → RegisterValue F K R
    boolean : Bool → RegisterValue F K R
    string : String → RegisterValue F K R
    knowledge : K → RegisterValue F K R
    relationship : R → RegisterValue F K R
    entity : String → String → RegisterValue F K R
    facts : Values F K R → RegisterValue F K R
    nil : RegisterValue F K R

  -- `Vec<RegisterValue>`
  pub data Values (F K R : Type 0) : Type 0 where
    no_values : Values F K R
    value_and : RegisterValue F K R → Values F K R → Values F K R

-- `v.is_empty()`
abbrev pub empty : {F K R : Type 0} → Values F K R → Bool
empty no_values = true
empty (value_and v vs) = false

pub data RegisterError : Type 0 where
  invalid_register : ℕ → RegisterError
  type_error : String → String → RegisterError

module _ {F K R : Type 0} where
  unfoldable pub is_truthy : (F → Bool) → RegisterValue F K R → Bool
  is_truthy float_zero (int v) = not (nat_beq v 0)
  is_truthy float_zero (float v) = not (float_zero v)
  is_truthy float_zero (boolean b) = b
  is_truthy float_zero (string s) = not (s == "")
  is_truthy float_zero (knowledge k) = true
  is_truthy float_zero (relationship r) = true
  is_truthy float_zero (entity kind id) = true
  is_truthy float_zero (facts v) = not (empty v)
  is_truthy float_zero nil = false

  unfoldable as_int : (F → ℕ) → RegisterValue F K R → Option ℕ
  as_int float_int (int v) = some v
  as_int float_int (float v) = some (float_int v)
  as_int float_int _ = none

  unfoldable pub as_str : RegisterValue F K R → Option String
  as_str (string s) = some s
  as_str _ = none

-- The conversions of serde_json: `json!` of each kind of value, and `to_value` with its default.
pub record Json (V F K R : Type 0) : Type 0 where
  pub of_int : ℕ → V
  pub of_float : F → V
  pub of_bool : Bool → V
  pub of_string : String → V
  pub of_knowledge : K → V
  pub of_relationship : R → V
  pub of_entity : String → String → V
  pub of_facts : Values F K R → V
  pub null : V

unfoldable pub to_json : {V F K R : Type 0} → Json V F K R → RegisterValue F K R → V
to_json json (int v) = json.of_int v
to_json json (float v) = json.of_float v
to_json json (boolean b) = json.of_bool b
to_json json (string s) = json.of_string s
to_json json (knowledge k) = json.of_knowledge k
to_json json (relationship r) = json.of_relationship r
to_json json (entity kind id) = json.of_entity kind id
to_json json (facts v) = json.of_facts v
to_json json nil = json.null

-- The array of registers.
pub record RegisterFile (A : Type 0) : Type 0 where
  pub regs : List A

-- The file has 32 registers.
abbrev pub Sized : {A : Type 0} → RegisterFile A → Type 0
Sized f = length f.regs ≡ 32

unfoldable pub found : {A : Type 0} → ℕ → Option A → Result A RegisterError
found idx none = err (invalid_register idx)
found idx (some v) = ok v

unfoldable pub array_init : {F K R : Type 0} → List (RegisterValue F K R)
array_init = replicate 32 nil

unfoldable pub new : {F K R : Type 0} → RegisterFile (RegisterValue F K R)
new = record { regs = array_init }

pub read : {A : Type 0} → RegisterFile A → ℕ → Result A RegisterError
read f idx = found idx (get_elem? f.regs idx)

-- `*slot = value` for a slot that is there.
pub stored :
    {A : Type 0} → RegisterFile A → ℕ → A → Option A → Result (RegisterFile A) RegisterError
stored f idx value none = err (invalid_register idx)
stored f idx value (some slot) = ok (record { regs = set f.regs idx value })

pub write : {A : Type 0} → RegisterFile A → ℕ → A → Result (RegisterFile A) RegisterError
write f idx value = stored f idx value (get_elem? f.regs idx)

-- Every register is set to nil.
abbrev pub all_nil : {F K R : Type 0} → List (RegisterValue F K R) → List (RegisterValue F K R)
all_nil [] = []
all_nil (r ∷ rs) = nil ∷ all_nil rs

unfoldable pub clear :
    {F K R : Type 0} → RegisterFile (RegisterValue F K R) → RegisterFile (RegisterValue F K R)
clear f = record { regs = all_nil f.regs }
