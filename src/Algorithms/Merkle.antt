-- ===== src/Algorithms/Merkle.antt =====
-- crates/algorithms/src/storage.rs, lines 4 to 115: `MerkleTree`. SHA-256 is the parameter `hash_bytes`
-- into a type of digests, `as_slice` the bytes of a digest.
pub mod Proofs
use tordex.Prelude.{
  ℕ, zero, suc, ◌+◌, ◌-◌, ◌/◌, ◌%◌, Bool, true, false, Option, some, none, List, [], ◌∷◌, ◌++◌,
  if◌then◌else◌, Eq, ◌==◌, length, get_elem?, leb, nat_beq,
}

pub record MerkleTree (D : Type 0) : Type 0 where
  pub root : Option D
  pub leaves : List D
  pub levels : List (List D)

unfoldable pub new : {D : Type 0} → MerkleTree D
new = record { root = none; leaves = []; levels = [] }

-- `if idx % 2 == 0 { idx + 1 } else { idx - 1 }`
pub sibling_idx : ℕ → ℕ
sibling_idx idx = if nat_beq (idx % 2) 0 then idx + 1 else idx - 1

module _ {D : Type 0} where
  -- The entry of the proof for a level, if the sibling is there.
  pub with_sibling : Bool → Option D → List (D × Bool)
  with_sibling is_right none = []
  with_sibling is_right (some sibling) = (sibling, is_right) ∷ []

  pub proof_step : List D → ℕ → List (D × Bool)
  proof_step level idx = with_sibling (nat_beq (idx % 2) 0) (get_elem? level (sibling_idx idx))

  -- The loop of `generate_proof`.
  pub proof_from : List (List D) → ℕ → List (D × Bool)
  proof_from [] idx = []
  proof_from (level ∷ levels) idx = proof_step level idx ++ proof_from levels (idx / 2)

  -- `&levels[..levels.len() - 1]`
  pub all_but_last : List (List D) → List (List D)
  all_but_last [] = []
  all_but_last (l ∷ []) = []
  all_but_last (l ∷ m ∷ ls) = l ∷ all_but_last (m ∷ ls)

  abbrev pub no_levels : List (List D) → Bool
  no_levels [] = true
  no_levels (l ∷ ls) = false

  pub generate_proof : MerkleTree D → ℕ → Option (List (D × Bool))
  generate_proof t leaf_index =
      if leb (length t.leaves) leaf_index
      then none
      else if no_levels t.levels
      then none
      else some (proof_from (all_but_last t.levels) leaf_index)

  unfoldable leaf_count : MerkleTree D → ℕ
  leaf_count t = length t.leaves

module _ {D : Type 0} (hash_bytes : List ℕ → D) (as_slice : D → List ℕ) where
  unfoldable pub combine : D → D → D
  combine a b = hash_bytes (as_slice a ++ as_slice b)

  pub add_leaf : MerkleTree D → List ℕ → MerkleTree D
  add_leaf t chunk = record t { leaves = t.leaves ++ hash_bytes chunk ∷ [] }

  -- The next level: `chunks(2)`, where a chunk of one is passed on.
  pub next_level : List D → List D
  next_level [] = []
  next_level (x ∷ []) = x ∷ []
  next_level (x ∷ y ∷ rest) = combine x y ∷ next_level rest

  -- The levels that `build` makes, and the last of them; the fuel is the length of the first, which
  -- each round makes shorter.
  pub all_levels : ℕ → List D → List (List D)
  all_levels zero level = level ∷ []
  all_levels (suc n) level =
      let rest = all_levels n (next_level level) in
      if leb (length level) 1 then level ∷ [] else level ∷ rest

  pub last_level : ℕ → List D → List D
  last_level zero level = level
  last_level (suc n) level =
      let rest = last_level n (next_level level) in if leb (length level) 1 then level else rest

  -- `build` for the leaves of the tree.
  pub built : MerkleTree D → List D → MerkleTree D
  built t [] = record t { root = none; levels = [] }
  built t (x ∷ xs) = record t {
    root = get_elem? (last_level (length (x ∷ xs)) (x ∷ xs)) 0;
    levels = all_levels (length (x ∷ xs)) (x ∷ xs);
  }

  pub build : MerkleTree D → MerkleTree D
  build t = built t t.leaves

  pub add_leaves : MerkleTree D → List (List ℕ) → MerkleTree D
  add_leaves t [] = t
  add_leaves t (chunk ∷ chunks) = add_leaves (add_leaf t chunk) chunks

  pub from_data : List (List ℕ) → MerkleTree D
  from_data chunks = build (add_leaves new chunks)

  -- The loop of `verify`.
  pub climb : D → List (D × Bool) → D
  climb hash [] = hash
  climb hash ((sibling, is_right) ∷ proof) =
      climb (if is_right then combine hash sibling else combine sibling hash) proof

  -- `Some(hash) == self.root`
  abbrev pub is_root : ⦃e : Eq D⦄ → D → Option D → Bool
  is_root hash none = false
  is_root hash (some r) = hash == r

  pub verify : ⦃e : Eq D⦄ → MerkleTree D → List ℕ → List (D × Bool) → Bool
  verify t chunk proof = is_root (climb (hash_bytes chunk) proof) t.root
