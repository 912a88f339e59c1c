-- ===== src/Core/EventStore/Snapshots.antt =====
-- The snapshot store of crates/core/src/event_store.rs.
use tordex.Prelude.{
  ◌≤◌, ◌≡◌, ◌≢◌, refl, sym, ap, subst, ◌∙◌, Bool, true, Option, some, none, String, string_eq,
  beq_refl, ◌==◌, if◌then◌else◌, List, [], ◌∷◌, keep, In, leb, inl, inr, Bool-cases, arith,
  Option-cases, All, ◌↔◌,
}
use tordex.Prelude.Map.{
  get, Distinct, insert-Distinct, remove-Distinct, contains_key-get-some, values,
}
use tordex.Core.EventStore.{
  Snapshot, SnapshotStore, save, load, load_latest, max_by_version, max_from, delete, delete_found,
}

-- A call that changes the store.
pub data SnapshotCall : Type 0 where
  saves : Snapshot → SnapshotCall
  deletes : String → SnapshotCall

snapshot_step : SnapshotStore → SnapshotCall → SnapshotStore
snapshot_step m (saves s) = save m s
snapshot_step m (deletes k) = (delete m k).1

unfoldable pub snapshot_run : SnapshotStore → List SnapshotCall → SnapshotStore
unfolding snapshot_step
snapshot_run m [] = m
snapshot_run m (c ∷ cs) = snapshot_run (snapshot_step m c) cs

-- At least every version in the list.
abbrev Tops : Snapshot → List Snapshot → Type 0
Tops s xs = All (λ x. x.version ≤ s.version) xs

max_from-Tops :
    (best : Snapshot) (xs : List Snapshot)
    → In (max_from best xs) (best ∷ xs) × Tops (max_from best xs) (best ∷ xs)
unfolding max_from
max_from-Tops best [] = (inl refl, (omega arith, tt))
max_from-Tops best (x ∷ xs) =
    let next = λ (b : Bool). max_from (if b then x else best) xs in
    elim (Bool-cases (leb best.version x.version)) [
      | inl up ↦
          let r = max_from-Tops x xs in
          subst (λ m. In m (best ∷ x ∷ xs) × Tops m (best ∷ x ∷ xs)) (sym (ap next up))
            (inr r.0, (ground (arith, r.1.0), r.1))
      | inr down ↦
          let r = max_from-Tops best xs in
          subst (λ m. In m (best ∷ x ∷ xs) × Tops m (best ∷ x ∷ xs)) (sym (ap next down))
            (
              elim r.0 [ inl e ↦ inl e | inr more ↦ inr (inr more) ],
              (r.1.0, (ground (arith, r.1.0), r.1.1)),
            )
    ]

In-keep :
    (test : Snapshot → Bool) (s : Snapshot) (xs : List Snapshot)
    → In s (keep test xs) ↔ (In s xs × (test s ≡ true))
In-keep test s [] = (λ h. absurd h, λ h. absurd h.0)
In-keep test s (x ∷ xs) =
    let rest = In-keep test s xs in
    elim (Bool-cases (test x)) [
      | inl pass ↦ rw pass (
        λ h. elim h [
          | inl e ↦ (inl e, ap test (sym e) ∙ pass)
          | inr more ↦ (inr (rest.0 more).0, (rest.0 more).1)
        ],
        λ h. elim h.0 [ inl e ↦ inl e | inr more ↦ inr (rest.1 (more, h.1)) ],
      )
      | inr fail ↦ rw fail (
        λ h. (inr (rest.0 h).0, (rest.0 h).1),
        λ h. elim h.0 [ inl e ↦ absurd (cc (ap test e)) | inr more ↦ rest.1 (more, h.1) ],
      )
    ]

All-In : (P : Snapshot → Type 0) (s : Snapshot) (xs : List Snapshot) → All P xs → In s xs → P s
All-In P s [] h i = absurd i
All-In P s (x ∷ xs) h (inl e) = subst P e h.0
All-In P s (x ∷ xs) h (inr i) = All-In P s xs h.1 i

-- What a key maps to is a value, and with distinct keys every value is what some key maps to.
get-In : (m : SnapshotStore) (k : String) (s : Snapshot) → get m k ≡ some s → In s (values m)
unfolding get values
get-In [] k s h = absurd (cc)
get-In ((j, x) ∷ m) k s h = elim (Bool-cases (j == k)) [
  | inl same ↦ inl (let is : some x ≡ some s = rw same at h in cc)
  | inr other ↦ inr (get-In m k s (rw other at h))
]

In-get :
    (m : SnapshotStore) (s : Snapshot)
    → Distinct m
    → In s (values m)
    → (k : String) × (get m k ≡ some s)
unfolding get values
In-get [] s d i = absurd i
In-get ((j, x) ∷ m) s d (inl e) = (j, rw (beq_refl j) (ap some e))
In-get ((j, x) ∷ m) s d (inr i) =
    let r = In-get m s d.1 i in
    (
      r.0,
      elim (Bool-cases (j == r.0)) [
        | inl same ↦
            let is : j ≡ r.0 = (string_eq.test_iff j r.0).0 same in
            let known = contains_key-get-some m j s (subst (λ i. get m i ≡ some s) (sym is) r.1) in
            absurd (cc d.0)
        | inr other ↦ rw other r.1
      ],
    )

-- What is the latest snapshot of a type, in terms of what the aggregates load.
abbrev pub IsLatest : SnapshotStore → String → Option Snapshot → Type 0
IsLatest m t none = (k : String) (x : Snapshot) → load m k ≡ some x → x.aggregate_type ≢ t
IsLatest m t (some s) =
    ((k : String) × (load m k ≡ some s))
    × (s.aggregate_type ≡ t)
    × ((k : String) (x : Snapshot)
        → load m k ≡ some x
        → x.aggregate_type ≡ t
        → x.version ≤ s.version)

abbrev IsBest : List Snapshot → Option Snapshot → Type 0
IsBest xs none = xs ≡ []
IsBest xs (some s) = In s xs × Tops s xs

max_by_version-IsBest : (xs : List Snapshot) → IsBest xs (max_by_version xs)
unfolding max_by_version
max_by_version-IsBest [] = refl
max_by_version-IsBest (x ∷ xs) = max_from-Tops x xs

load_latest-IsLatest :
    (m : SnapshotStore) (t : String) → Distinct m → IsLatest m t (load_latest m t)
unfolding load load_latest
load_latest-IsLatest m t d =
    let of_type = λ (s : Snapshot). s.aggregate_type == t in
    let kept = keep of_type (values m) in
    let shown = λ (k : String) (x : Snapshot) (e : get m k ≡ some x) (same : x.aggregate_type ≡ t).
      (In-keep of_type x (values m)).1
        (get-In m k x e, (string_eq.test_iff x.aggregate_type t).1 same) in
    let best = max_by_version-IsBest kept in
    elim (Option-cases (max_by_version kept)) [
      | inl nothing ↦
          rw nothing (λ k x e same. subst (In x) (rw nothing at best) (shown k x e same))
      | inr (s, found) ↦
          let top = rw found at best in
          let here = (In-keep of_type s (values m)).0 top.0 in
          rw found (
            In-get m s d here.0,
            (string_eq.test_iff s.aggregate_type t).0 here.1,
            λ k x e same. All-In (λ y. y.version ≤ s.version) x kept top.1 (shown k x e same),
          )
    ]

delete_found-Distinct :
    (m : SnapshotStore) (k : String) (o : Option Snapshot)
    → Distinct m
    → Distinct (delete_found m k o).1
unfolding delete_found
delete_found-Distinct m k none d = d
delete_found-Distinct m k (some s) d = remove-Distinct m k d

snapshot_step-Distinct :
    (m : SnapshotStore) (c : SnapshotCall) → Distinct m → Distinct (snapshot_step m c)
unfolding snapshot_step save delete
snapshot_step-Distinct m (saves s) d = insert-Distinct m s.aggregate_id s d
snapshot_step-Distinct m (deletes k) d = delete_found-Distinct m k (get m k) d

snapshot_run-Distinct :
    (m : SnapshotStore) (cs : List SnapshotCall) → Distinct m → Distinct (snapshot_run m cs)
unfolding snapshot_run
snapshot_run-Distinct m [] d = d
snapshot_run-Distinct m (c ∷ cs) d =
    snapshot_run-Distinct (snapshot_step m c) cs (snapshot_step-Distinct m c d)

-- After every sequence of saves and deletes on a new store, and for every aggregate type: if the
-- latest snapshot of the type is none, no aggregate loads a snapshot of that type; otherwise some
-- aggregate loads it, it has that type, and its version is at least that of every snapshot of the
-- type that an aggregate loads.
pub snapshot_run-IsLatest :
    (cs : List SnapshotCall) (t : String)
    → IsLatest (snapshot_run [] cs) t (load_latest (snapshot_run [] cs) t)
snapshot_run-IsLatest cs t =
    load_latest-IsLatest (snapshot_run [] cs) t (snapshot_run-Distinct [] cs tt)
