-- ===== src/Algorithms/Merkle/Proofs.antt =====
-- About the proofs of inclusion of `MerkleTree`, crates/algorithms/src/storage.rs.
use tordex.Prelude.{
  ℕ, zero, suc, ◌+◌, ◌/◌, ◌%◌, ◌≤◌, ◌<◌, ◌≡◌, refl, sym, ap, ap₂, subst, ◌∙◌, Bool, true, false,
  Option, some, List, [], ◌∷◌, ◌++◌, map, if◌then◌else◌, Eq, beq_refl, length, get_elem?,
  get_elem?-some, leb, nat_beq, Bool-cases, inl, inr, arith,
}
use mathlib.Core.List.{append-nil, append_assoc}
use tordex.Algorithms.Merkle.{
  MerkleTree, new, sibling_idx, with_sibling, proof_step, proof_from, all_but_last, no_levels,
  generate_proof, combine, add_leaf, next_level, all_levels, last_level, built, build, add_leaves,
  from_data, climb, is_root, verify,
}

sibling_idx-next : (i : ℕ) → sibling_idx (suc (suc i)) ≡ suc (suc (sibling_idx i))
unfolding sibling_idx
sibling_idx-next i = ground arith

module _ {D : Type 0} (hash_bytes : List ℕ → D) (as_slice : D → List ℕ) where
  climb-append :
      (h : D) (p q : List (D × Bool))
      → climb hash_bytes as_slice h (p ++ q)
        ≡ climb hash_bytes as_slice (climb hash_bytes as_slice h p) q
  unfolding climb
  climb-append h [] q = refl
  climb-append h ((s, r) ∷ p) q =
      climb-append (if r then combine hash_bytes as_slice h s else combine hash_bytes as_slice s h)
        p q

  -- A digest and its sibling make the digest above them.
  next_level-step :
      (level : List D) (i : ℕ) (h : D)
      → get_elem? level i ≡ some h
      → get_elem? (next_level hash_bytes as_slice level) (i / 2)
        ≡ some (climb hash_bytes as_slice h (proof_step level i))
  unfolding next_level climb proof_step with_sibling sibling_idx
  next_level-step [] i h e = absurd (cc)
  next_level-step (x ∷ []) zero h e = e
  next_level-step (x ∷ []) (suc i) h e = absurd (cc)
  next_level-step (x ∷ y ∷ rest) zero h e =
      let is : x ≡ h = cc in ap (λ z. some (combine hash_bytes as_slice z y)) is
  next_level-step (x ∷ y ∷ rest) (suc zero) h e =
      let is : y ≡ h = cc in ap (λ z. some (combine hash_bytes as_slice x z)) is
  next_level-step (x ∷ y ∷ rest) (suc (suc i)) h e =
      let half : suc (suc i) / 2 ≡ suc (i / 2) = omega arith in
      let parity : suc (suc i) % 2 ≡ i % 2 = omega arith in
      let next = sibling_idx-next i in
      let same : proof_step (x ∷ y ∷ rest) (suc (suc i)) ≡ proof_step rest i =
        ap₂ (λ m s. with_sibling (nat_beq m 0) (get_elem? (x ∷ y ∷ rest) s)) parity next in
      ap (λ k. get_elem? (combine hash_bytes as_slice x y ∷ next_level hash_bytes as_slice rest) k)
        half
      ∙ next_level-step rest i h e
      ∙ sym (ap (λ p. some (climb hash_bytes as_slice h p)) same)

  length-next_level :
      (level : List D) → length (next_level hash_bytes as_slice level) ≤ (length level + 1) / 2
  unfolding next_level
  length-next_level [] = omega arith
  length-next_level (x ∷ []) = omega arith
  length-next_level (x ∷ y ∷ rest) = omega (arith, length-next_level rest)

  all_but_last-all_levels :
      (level : List D) (n : ℕ) (above : List D)
      → all_but_last (level ∷ all_levels hash_bytes as_slice n above)
        ≡ level ∷ all_but_last (all_levels hash_bytes as_slice n above)
  unfolding all_levels all_but_last
  all_but_last-all_levels level zero above = refl
  all_but_last-all_levels level (suc n) above = elim (Bool-cases (leb (length above) 1)) [
    | inl e ↦ rw e refl
    | inr e ↦ rw e refl
  ]

  above_one : (level : List D) → leb (length level) 1 ≡ false → 1 < length level
  above_one level h = ground arith

  only :
      (level : List D) (i : ℕ) (h : D)
      → get_elem? level i ≡ some h
      → length level ≤ 1
      → get_elem? level 0
        ≡ some (climb hash_bytes as_slice h (proof_from (all_but_last (level ∷ [])) i))
  unfolding climb proof_from all_but_last
  only level i h e bound =
      let first : i ≡ 0 = omega (arith, (get_elem?-some level i h e).0) in
      subst (λ k. get_elem? level k ≡ some h) first e

  -- The proof leads from a digest of a level to the only one of the last.
  climb-last_level :
      (n : ℕ) (level : List D) (i : ℕ) (h : D)
      → get_elem? level i ≡ some h
      → length level ≤ n + 1
      → get_elem? (last_level hash_bytes as_slice n level) 0
        ≡ some (
            climb hash_bytes as_slice h
              (proof_from (all_but_last (all_levels hash_bytes as_slice n level)) i))
  unfolding last_level all_levels proof_from
  climb-last_level zero level i h e bound = only level i h e bound
  climb-last_level (suc n) level i h e bound = elim (Bool-cases (leb (length level) 1)) [
    | inl small ↦ rw small (only level i h e (ground arith))
    | inr large ↦ rw large (
        climb-last_level n (next_level hash_bytes as_slice level) (i / 2)
          (climb hash_bytes as_slice h (proof_step level i)) (next_level-step level i h e)
          (omega (arith, length-next_level level, above_one level large))
        ∙ sym (
            ap (λ l. some (climb hash_bytes as_slice h (proof_from l i)))
              (all_but_last-all_levels level n (next_level hash_bytes as_slice level))
            ∙ ap some (
                climb-append h (proof_step level i) (
                  proof_from
                    (all_but_last
                      (all_levels hash_bytes as_slice n (next_level hash_bytes as_slice level)))
                    (i / 2)))))
  ]

  leaves-add_leaves :
      (t : MerkleTree D) (chunks : List (List ℕ))
      → (add_leaves hash_bytes as_slice t chunks).leaves ≡ t.leaves ++ map hash_bytes chunks
  unfolding add_leaves add_leaf
  leaves-add_leaves t [] = sym (append-nil t.leaves)
  leaves-add_leaves t (c ∷ cs) =
      leaves-add_leaves (add_leaf hash_bytes as_slice t c) cs
      ∙ append_assoc t.leaves (hash_bytes c ∷ []) (map hash_bytes cs)

  get_elem?-map :
      (cs : List (List ℕ)) (i : ℕ) (c : List ℕ)
      → get_elem? cs i ≡ some c
      → get_elem? (map hash_bytes cs) i ≡ some (hash_bytes c)
  get_elem?-map [] i c e = absurd (cc)
  get_elem?-map (d ∷ cs) zero c e = let is : d ≡ c = cc in ap (λ x. some (hash_bytes x)) is
  get_elem?-map (d ∷ cs) (suc i) c e = get_elem?-map cs i c e

  has_levels : (n : ℕ) (level : List D) → no_levels (all_levels hash_bytes as_slice n level) ≡ false
  unfolding all_levels
  has_levels zero level = refl
  has_levels (suc n) level = elim (Bool-cases (leb (length level) 1)) [
    | inl e ↦ rw e refl
    | inr e ↦ rw e refl
  ]

  module _ ⦃keys : Eq D⦄ where
    -- There is a proof for the leaf, and it verifies the chunk.
    abbrev pub Proved : MerkleTree D → ℕ → List ℕ → Type 0
    Proved t i chunk =
        (proof : List (D × Bool)) × (generate_proof t i ≡ some proof)
        × (verify hash_bytes as_slice t chunk proof ≡ true)

    verify-root :
        (chunk : List ℕ) (proof : List (D × Bool)) (root : Option D)
        → root ≡ some (climb hash_bytes as_slice (hash_bytes chunk) proof)
        → is_root hash_bytes as_slice (climb hash_bytes as_slice (hash_bytes chunk) proof) root
          ≡ true
    verify-root chunk proof root e =
        rw e (beq_refl (climb hash_bytes as_slice (hash_bytes chunk) proof))

    built-Proved :
        (t : MerkleTree D) (leaves : List D) (i : ℕ) (chunk : List ℕ)
        → t.leaves ≡ leaves
        → get_elem? leaves i ≡ some (hash_bytes chunk)
        → Proved (built hash_bytes as_slice t leaves) i chunk
    unfolding built generate_proof verify
    built-Proved t [] i chunk same e = absurd (cc)
    built-Proved t (x ∷ xs) i chunk same e =
        let n = length (x ∷ xs) in
        let inside : leb (length t.leaves) i ≡ false =
          rw same (ground (arith, get_elem?-some (x ∷ xs) i (hash_bytes chunk) e)) in
        let levels = all_levels hash_bytes as_slice n (x ∷ xs) in
        (
          proof_from (all_but_last levels) i,
          rw (inside, has_levels n (x ∷ xs)) refl,
          verify-root chunk (proof_from (all_but_last levels) i)
              (get_elem? (last_level hash_bytes as_slice n (x ∷ xs)) 0)
              (climb-last_level n (x ∷ xs) i (hash_bytes chunk) e (omega arith)),
        )

    -- For any hash, the tree of a list of chunks has for each of them a proof that verifies it.
    pub verify-generate_proof :
        (chunks : List (List ℕ)) (i : ℕ) (chunk : List ℕ)
        → get_elem? chunks i ≡ some chunk
        → Proved (from_data hash_bytes as_slice chunks) i chunk
    unfolding from_data build new
    verify-generate_proof chunks i chunk e =
        let t = add_leaves hash_bytes as_slice new chunks in
        let leaves : t.leaves ≡ map hash_bytes chunks = leaves-add_leaves new chunks in
        built-Proved t t.leaves i chunk refl
          (ap (λ l. get_elem? l i) leaves ∙ get_elem?-map chunks i chunk e)
