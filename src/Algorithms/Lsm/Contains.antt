-- ===== src/Algorithms/Lsm/Contains.antt =====
-- About `contains_key` and `get` of `LSMTree`, crates/algorithms/src/storage.rs.
use tordex.Prelude.{
  ◌≡◌, refl, sym, ap₂, ◌∙◌, Bool, true, false, ◌||◌, Option, some, none, List, [], ◌∷◌, Eq, ◌==◌,
  Bool-cases, inl, inr,
}
use tordex.Prelude.Map.{Map, get, contains_key}
use tordex.Algorithms.Lsm.{LsmTree, or_else, last_found, lookup, any_contains, contains}

abbrev pub is_some : {A : Type 0} → Option A → Bool
is_some none = false
is_some (some a) = true

is_some-or_else : {A : Type 0} (a b : Option A) → is_some (or_else a b) ≡ is_some a || is_some b
is_some-or_else none b = refl
is_some-or_else (some x) b = refl

module _ {K V : Type 0} ⦃keys : Eq K⦄ where
  contains_key-is_some : (m : Map K V) (k : K) → contains_key m k ≡ is_some (get m k)
  unfolding contains_key get
  contains_key-is_some [] k = refl
  contains_key-is_some ((j, v) ∷ m) k = elim (Bool-cases (j == k)) [
    | inl same ↦ rw same refl
    | inr other ↦ rw other (contains_key-is_some m k)
  ]

  any_contains-is_some :
      (ss : List (Map K V)) (k : K) → any_contains ss k ≡ is_some (last_found ss k)
  unfolding any_contains last_found
  any_contains-is_some [] k = refl
  any_contains-is_some (s ∷ ss) k =
      ap₂ ◌||◌ (any_contains-is_some ss k) (contains_key-is_some s k)
      ∙ sym (is_some-or_else (last_found ss k) (get s k))

  -- The tree contains exactly the keys that it has a value for.
  pub contains-is_some : (t : LsmTree K V) (k : K) → contains t k ≡ is_some (lookup t k)
  unfolding contains lookup
  contains-is_some t k =
      ap₂ ◌||◌ (contains_key-is_some t.memtable k) (any_contains-is_some t.sstables k)
      ∙ sym (is_some-or_else (get t.memtable k) (last_found t.sstables k))
