-- ===== src/Algorithms/Lsm.antt =====
-- crates/algorithms/src/storage.rs, lines 317 to 423: `LSMTree`. A `BTreeMap` is the list of its entries
-- in the order `lt` of the keys. `chunks(0)` panics.
pub mod Sorted
pub mod Chunks
pub mod Insert
pub mod Contains
use tordex.Prelude.{
  ℕ, zero, suc, ◌+◌, ◌*◌, ◌%◌, ◌^◌, Bool, true, false, ◌||◌, Option, some, none, List, [], ◌∷◌,
  ◌++◌, map, if◌then◌else◌, Eq, ◌==◌, length, take, drop, leb, ltb, nat_beq,
}
use tordex.Prelude.Outcome.{Outcome, returned, panicked, ◌>>=◌}
use tordex.Prelude.Map.{Map, get, contains_key}

pub record LsmTree (K V : Type 0) : Type 0 where
  pub memtable : Map K V
  pub sstables : List (Map K V)
  pub max_memtable_size : ℕ
  pub compaction_threshold : ℕ

unfoldable pub new : {K V : Type 0} → ℕ → LsmTree K V
new max = record { memtable = []; sstables = []; max_memtable_size = max; compaction_threshold = 4 }

-- The first of the two values that is there.
abbrev pub or_else : {A : Type 0} → Option A → Option A → Option A
or_else none b = b
or_else (some a) b = some a

-- `entries.chunks(n)` for a positive `n`; the fuel is the number of entries.
pub chunks : {A : Type 0} → ℕ → ℕ → List A → List (List A)
chunks zero n xs = []
chunks (suc fuel) n [] = []
chunks (suc fuel) n (x ∷ xs) = take n (x ∷ xs) ∷ chunks fuel n (drop n (x ∷ xs))

unfoldable memtable_size : {K V : Type 0} → LsmTree K V → ℕ
memtable_size t = length t.memtable

unfoldable sstable_count : {K V : Type 0} → LsmTree K V → ℕ
sstable_count t = length t.sstables

abbrev pub sum_lengths : {K V : Type 0} → List (Map K V) → ℕ
sum_lengths [] = 0
sum_lengths (s ∷ ss) = length s + sum_lengths ss

unfoldable total_entries : {K V : Type 0} → LsmTree K V → ℕ
total_entries t = length t.memtable + sum_lengths t.sstables

module _ {K V : Type 0} ⦃keys : Eq K⦄ where
  -- The search of `self.sstables.iter().rev()`: a later table comes first.
  pub last_found : List (Map K V) → K → Option V
  last_found [] k = none
  last_found (s ∷ ss) k = or_else (last_found ss k) (get s k)

  pub lookup : LsmTree K V → K → Option V
  lookup t k = or_else (get t.memtable k) (last_found t.sstables k)

  pub any_contains : List (Map K V) → K → Bool
  any_contains [] k = false
  any_contains (s ∷ ss) k = any_contains ss k || contains_key s k

  unfoldable pub contains : LsmTree K V → K → Bool
  contains t k = contains_key t.memtable k || any_contains t.sstables k

  module _ (lt : K → K → Bool) where
    -- `BTreeMap::insert`
    pub btree_insert : Map K V → K → V → Map K V
    btree_insert [] k v = (k, v) ∷ []
    btree_insert ((j, w) ∷ m) k v =
        let rest = btree_insert m k v in
        if j == k then (k, v) ∷ m else if lt k j then (k, v) ∷ (j, w) ∷ m else (j, w) ∷ rest

    pub insert_all : Map K V → List (K × V) → Map K V
    insert_all m [] = m
    insert_all m ((k, v) ∷ es) = insert_all (btree_insert m k v) es

    pub merge : Map K V → List (Map K V) → Map K V
    merge m [] = m
    merge m (s ∷ ss) = merge (insert_all m s) ss

    -- The tables of `compact`, for the merged map and `max_memtable_size`.
    pub split : ℕ → Map K V → Outcome (List (Map K V))
    split max merged =
        if ltb ((max * 2) % 2 ^ 64) (length merged)
        then (if nat_beq max 0
            then panicked
            else returned (map (λ c. insert_all [] c) (chunks (length merged) max merged)))
        else returned (merged ∷ [])

    pub compact : LsmTree K V → Outcome (LsmTree K V)
    compact t = do
      tables ← split t.max_memtable_size (merge [] t.sstables)
      returned (record t { sstables = tables })

    -- `flush` of a memtable that has entries.
    pub freeze : LsmTree K V → Outcome (LsmTree K V)
    freeze t =
        let frozen : LsmTree K V = record t {
          memtable = [];
          sstables = t.sstables ++ t.memtable ∷ [];
        } in
        if leb t.compaction_threshold (length frozen.sstables)
        then compact frozen
        else returned frozen

    pub flush : LsmTree K V → Outcome (LsmTree K V)
    flush t = if nat_beq (length t.memtable) 0 then returned t else freeze t

    unfoldable pub insert : LsmTree K V → K → V → Outcome (LsmTree K V)
    insert t k v =
        let stored : LsmTree K V = record t { memtable = btree_insert t.memtable k v } in
        if leb t.max_memtable_size (length stored.memtable) then flush stored else returned stored
