-- ===== src/Vm/Register/Access.antt =====
-- About reading and writing registers, crates/vm/src/register.rs.
use tordex.Prelude.{
  ℕ, ◌<◌, ◌≤◌, zero, suc, [], ◌∷◌, ◌≡◌, refl, ◌∙◌, some, none, List, nat_beq, if◌then◌else◌, arith,
  length, get_elem?, get_elem?-some, set, length-set, length-replicate, get_elem?-replicate, Result,
  ok, err, Option-cases, inl, inr,
}
use tordex.Vm.Register.{
  RegisterFile, RegisterError, RegisterValue, invalid_register, Sized, found, read, stored, write,
  nil, new, array_init,
}

-- The file after a write: it is as large as before, and differs in the written register only.
pub record Written {A : Type 0} (f g : RegisterFile A) (idx : ℕ) (value : A) : Type 0 where
  pub sized : Sized g
  pub reads : (j : ℕ) → read g j ≡ (if nat_beq idx j then ok value else read f j)

-- What a write gives: the file with the value, or an error if there is no such register.
abbrev pub WriteSound :
    {A : Type 0} → RegisterFile A → ℕ → A → Result (RegisterFile A) RegisterError → Type 0
WriteSound f idx value (ok g) = (idx < 32) × Written f g idx value
WriteSound f idx value (err e) = (32 ≤ idx) × (e ≡ invalid_register idx)

get_elem?-set :
    {A : Type 0} (xs : List A) (i j : ℕ) (v : A)
    → i < length xs
    → get_elem? (set xs i v) j ≡ (if nat_beq i j then some v else get_elem? xs j)
get_elem?-set [] i j v h = absurd (omega arith)
get_elem?-set (x ∷ xs) zero zero v h = refl
get_elem?-set (x ∷ xs) zero (suc j) v h = ground arith
get_elem?-set (x ∷ xs) (suc i) zero v h = ground arith
get_elem?-set (x ∷ xs) (suc i) (suc j) v h = ground (arith, get_elem?-set xs i j v)

get_elem?-none : {A : Type 0} (xs : List A) (i : ℕ) → get_elem? xs i ≡ none → length xs ≤ i
get_elem?-none [] i h = omega arith
get_elem?-none (x ∷ xs) zero h = absurd (cc)
get_elem?-none (x ∷ xs) (suc i) h = ground (arith, get_elem?-none xs i h)

-- A write to a file of 32 registers succeeds exactly for the indices below 32. It then keeps the size,
-- the written register reads back the value and every other one reads as before, an index out of
-- range included.
pub write-Sound :
    {A : Type 0} (f : RegisterFile A) (idx : ℕ) (value : A)
    → Sized f
    → WriteSound f idx value (write f idx value)
unfolding write stored read found
write-Sound f idx value h = elim (Option-cases (get_elem? f.regs idx)) [
  | inl e ↦ rw e (omega (arith, get_elem?-none f.regs idx e), refl)
  | inr (slot, e) ↦
      let inside = (get_elem?-some f.regs idx slot e).0 in
      rw e (
        omega (arith, inside),
        record {
          sized = length-set f.regs idx value ∙ h;
          reads = λ j. ground (arith, get_elem?-set f.regs idx j value);
        },
      )
]

module _ (F K R : Type 0) where
  pub new-Sized : Sized (new {F = F} {K = K} {R = R})
  unfolding new array_init
  new-Sized = length-replicate {A = RegisterValue F K R} 32 nil

  pub new-nil : (j : ℕ) → j < 32 → read (new {F = F} {K = K} {R = R}) j ≡ ok nil
  unfolding new array_init read found
  new-nil j h = rw (get_elem?-replicate {A = RegisterValue F K R} 32 j nil h) refl
