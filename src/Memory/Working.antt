-- ===== src/Memory/Working.antt =====
-- crates/memory/src/working.rs: entries with a time to live, and their eviction. `V` stands for the
-- JSON values of serde_json. A time is a number of nanoseconds and `now` a reading of the clock; an
-- `i64` is a word of two's complement. The mutex makes each method one step.
pub mod Eviction
use tordex.Prelude.{
  ℕ, ◌+◌, ◌-◌, ◌/◌, ◌%◌, ◌^◌, String, string_eq, ◌==◌, Bool, true, false, not, Option, some, none,
  List, [], ◌∷◌, length, take, ltb, leb, nat_beq, if◌then◌else◌, keep,
}
use tordex.Prelude.Map.{Map, get, insert, remove, contains_key, values}

abbrev pub u64_mod : ℕ
u64_mod = 2 ^ 64

pub record WmEntry (V : Type 0) : Type 0 where
  pub key : String
  pub value : V
  pub created_at : ℕ
  pub ttl_secs : ℕ
  pub access_count : ℕ

pub record InnerWm (V : Type 0) : Type 0 where
  pub entries : Map String (WmEntry V)
  pub capacity : ℕ
  pub default_ttl_secs : ℕ

-- `(now - created_at).whole_seconds() >= ttl_secs`, where the word may stand for a negative number
-- and the clock may have been set back.
pub outlived : ℕ → ℕ → ℕ → Bool
outlived now created_at ttl_secs =
    if ltb ttl_secs (2 ^ 63)
    then leb ttl_secs ((now - created_at) / 10 ^ 9)
    else leb ((created_at - now) / 10 ^ 9) (u64_mod - ttl_secs)

module _ {V : Type 0} where
  unfoldable pub WmEntry_new : String → V → ℕ → ℕ → WmEntry V
  WmEntry_new key value ttl_secs now = record {
    key = key;
    value = value;
    created_at = now;
    ttl_secs = ttl_secs;
    access_count = 0;
  }

  pub is_expired : ℕ → WmEntry V → Bool
  unfolding outlived
  is_expired now e = if nat_beq e.ttl_secs 0 then false else outlived now e.created_at e.ttl_secs

  pub with_capacity : ℕ → InnerWm V
  with_capacity capacity = record { entries = []; capacity = capacity; default_ttl_secs = 300 }

  pub new_memory : InnerWm V
  unfolding with_capacity
  new_memory = with_capacity 1024

  -- `retain(|_, e| !e.is_expired())`
  pub retain_live : ℕ → Map String (WmEntry V) → Map String (WmEntry V)
  retain_live now entries = keep (λ e. not (is_expired now e.1)) entries

  -- The stable `sort_by` on the access counts, the smallest first.
  pub insert_sorted : String × WmEntry V → Map String (WmEntry V) → Map String (WmEntry V)
  insert_sorted x [] = x ∷ []
  insert_sorted x (y ∷ ys) =
      if leb x.1.access_count y.1.access_count then x ∷ y ∷ ys else y ∷ insert_sorted x ys

  pub sort_by_count : Map String (WmEntry V) → Map String (WmEntry V)
  unfolding insert_sorted
  sort_by_count [] = []
  sort_by_count (x ∷ xs) = insert_sorted x (sort_by_count xs)

  pub evict : ℕ → InnerWm V → InnerWm V
  unfolding retain_live sort_by_count
  evict now inner =
      let live = retain_live now inner.entries in
      record inner {
        entries =
            if ltb inner.capacity (length live)
            then take inner.capacity (sort_by_count live)
            else live;
      }

  pub set : InnerWm V → String → V → ℕ → ℕ → String × InnerWm V
  unfolding evict
  set inner key value ttl_secs now =
      let ts = if nat_beq ttl_secs 0 then inner.default_ttl_secs else ttl_secs in
      let entries = insert inner.entries key (WmEntry_new key value ts now) in
      (key, evict now (record inner { entries = entries }))

  -- `get_mut` on an entry that is there: it is counted and read.
  pub touch : InnerWm V → String → Option (WmEntry V) → Option V × InnerWm V
  touch inner key none = (none, inner)
  touch inner key (some e) = (
    some e.value,
    record inner {
      entries =
          insert inner.entries key (record e { access_count = (e.access_count + 1) % u64_mod });
    },
  )

  pub read_found : InnerWm V → String → ℕ → Option (WmEntry V) → Option V × InnerWm V
  unfolding touch
  read_found inner key now none = touch inner key none
  read_found inner key now (some e) =
      if is_expired now e
      then (none, record inner { entries = remove inner.entries key })
      else touch inner key (some e)

  pub read : InnerWm V → String → ℕ → Option V × InnerWm V
  unfolding read_found
  read inner key now = read_found inner key now (get inner.entries key)

  pub delete : InnerWm V → String → Bool × InnerWm V
  delete inner key =
      (contains_key inner.entries key, record inner { entries = remove inner.entries key })

  pub clear : InnerWm V → InnerWm V
  clear inner = record inner { entries = [] }

  pub snapshot : InnerWm V → ℕ → List (WmEntry V)
  unfolding retain_live
  snapshot inner now = values (retain_live now inner.entries)

  pub contains_found : ℕ → Option (WmEntry V) → Bool
  contains_found now none = false
  contains_found now (some e) = not (is_expired now e)

  pub contains : InnerWm V → String → ℕ → Bool
  unfolding contains_found
  contains inner key now = contains_found now (get inner.entries key)

  pub len : InnerWm V → ℕ → ℕ
  unfolding retain_live
  len inner now = length (retain_live now inner.entries)
