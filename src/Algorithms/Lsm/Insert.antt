-- ===== src/Algorithms/Lsm/Insert.antt =====
-- About `insert` and `get` of `LSMTree`, crates/algorithms/src/storage.rs.
use tordex.Prelude.{
  ◌<◌, ◌≡◌, refl, ap, ◌∙◌, Bool, Option, some, none, [], ◌∷◌, ◌++◌, if◌then◌else◌, Eq, ◌==◌, length,
  All, All-append, leb, nat_beq, Bool-cases, inl, inr, arith,
}
use tordex.Prelude.Outcome.{returned, Returns, Returns-bind}
use tordex.Prelude.Map.{get}
use tordex.Algorithms.Lsm.{
  LsmTree, or_else, last_found, lookup, btree_insert, merge, split, compact, freeze, flush, insert,
}
use tordex.Algorithms.Lsm.Sorted.{IsLinear, IsSorted, btree_insert-IsSorted, get-btree_insert}
use tordex.Algorithms.Lsm.Chunks.{
  Tables, split-Tables, get-merge, merge-IsSorted, last_found-append,
}

module _ {K V : Type 0} ⦃keys : Eq K⦄ (lt : K → K → Bool) (laws : IsLinear keys lt) where
  -- All tables are sorted, and the memtable has room for an entry.
  pub record IsValid (t : LsmTree K V) : Type 0 where
    pub room : 0 < t.max_memtable_size
    pub memory : IsSorted lt t.memtable
    pub tables : All (IsSorted lt) t.sstables

  -- A valid tree in which each key has the value that `found` says.
  pub record Holds (found : K → Option V) (t : LsmTree K V) : Type 0 where
    pub valid : IsValid t
    pub values : (k : K) → lookup t k ≡ found k

  or_else-nothing : (a : Option V) → or_else a none ≡ a
  or_else-nothing none = refl
  or_else-nothing (some x) = refl

  compact-Holds :
      (found : K → Option V) (t : LsmTree K V)
      → t.memtable ≡ []
      → Holds found t
      → Returns (Holds found) (compact lt t)
  unfolding compact lookup get
  compact-Holds found t empty h =
      let merged = merge lt [] t.sstables in
      Returns-bind (Tables lt laws merged) (Holds found) (split lt t.max_memtable_size merged)
        (λ ts. returned (record t { sstables = ts }))
        (split-Tables lt laws t.max_memtable_size merged h.valid.room
          (merge-IsSorted lt laws [] t.sstables tt))
        (λ ts s. record {
          valid = record { room = h.valid.room; memory = h.valid.memory; tables = s.ordered };
          values = λ k.
              ap (or_else (get t.memtable k)) (
                s.same k
                ∙ get-merge lt laws [] t.sstables k h.valid.tables
                ∙ or_else-nothing (last_found t.sstables k))
              ∙ h.values k;
        })

  freeze-Holds :
      (found : K → Option V) (t : LsmTree K V) → Holds found t → Returns (Holds found) (freeze lt t)
  unfolding freeze lookup get
  freeze-Holds found t h =
      let frozen : LsmTree K V = record t {
        memtable = [];
        sstables = t.sstables ++ t.memtable ∷ [];
      } in
      let holds : Holds found frozen = record {
        valid = record {
          room = h.valid.room;
          memory = tt;
          tables =
              All-append (IsSorted lt) t.sstables (t.memtable ∷ []) h.valid.tables
                (h.valid.memory, tt);
        };
        values = λ k. last_found-append lt laws t.sstables t.memtable k ∙ h.values k;
      } in
      elim (Bool-cases (leb t.compaction_threshold (length frozen.sstables))) [
        | inl full ↦ rw full (compact-Holds found frozen refl holds)
        | inr free ↦ rw free holds
      ]

  -- `flush` changes no value, never panics, and leaves the tree valid.
  pub flush-Holds :
      (found : K → Option V) (t : LsmTree K V) → Holds found t → Returns (Holds found) (flush lt t)
  unfolding flush
  flush-Holds found t h = elim (Bool-cases (nat_beq (length t.memtable) 0)) [
    | inl empty ↦ rw empty h
    | inr more ↦ rw more (freeze-Holds found t h)
  ]

  stored-Holds :
      (t : LsmTree K V) (k : K) (v : V)
      → IsValid t
      → Holds
          (λ j. if k == j then some v else lookup t j)
          (record t { memtable = btree_insert lt t.memtable k v })
  unfolding lookup
  stored-Holds t k v valid = record {
    valid = record {
      room = valid.room;
      memory = btree_insert-IsSorted lt laws t.memtable k v valid.memory;
      tables = valid.tables;
    };
    values = λ j. ground (arith, get-btree_insert lt t.memtable k j v);
  }

  -- After `insert` into a valid tree, which never panics, the key has the new value and every other
  -- key the value of before, through all flushes and compactions; the tree stays valid.
  pub insert-Holds :
      (t : LsmTree K V) (k : K) (v : V)
      → IsValid t
      → Returns (Holds (λ j. if k == j then some v else lookup t j)) (insert lt t k v)
  unfolding insert
  insert-Holds t k v valid =
      let stored : LsmTree K V = record t { memtable = btree_insert lt t.memtable k v } in
      elim (Bool-cases (leb t.max_memtable_size (length stored.memtable))) [
        | inl full ↦ rw full (
            flush-Holds (λ j. if k == j then some v else lookup t j) stored
              (stored-Holds t k v valid))
        | inr free ↦ rw free (stored-Holds t k v valid)
      ]
