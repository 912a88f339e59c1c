-- ===== src/Tdxl/Optimizer/Prefix.antt =====
-- The invariant of `eliminate_redundant_strings` along a program.
use tordex.Prelude.{
  ℕ, ◌≡◌, refl, ap, ap₂, subst, ◌∙◌, true, false, Option, some, none, String, string_eq, nat_eq,
  List, [], ◌∷◌, map, All, nat_beq, nat_beq_iff, ◌==◌, Bool-cases, Option-cases, inl, inr, arith,
}
use tordex.Prelude.Map.{Map, get, insert, get-insert}
use tordex.Tdxl.Kir.{KirOp, output_id, contains, const_str}
use tordex.Tdxl.Meaning.{Env, assign}
use tordex.Tdxl.WellFormed.{Defined, Fresh, extend, WellFormedFrom}
use tordex.Tdxl.Optimizer.{replaced, or_self, as_const_str, Seen, note_string, note, scan}
use tordex.Tdxl.Optimizer.Rewrite.{as_const_str-output}

contains-extend :
    (ds : List ℕ) (o : Option ℕ) (x : ℕ) → contains ds x ≡ true → contains (extend ds o) x ≡ true
unfolding contains
contains-extend ds none x h = h
contains-extend ds (some o) x h = ground arith

note_string-get :
    (s : Seen) (o : ℕ) (v : String) (m : Option ℕ) (x : ℕ)
    → nat_beq o x ≡ false
    → get (note_string s o v m).replacements x ≡ get s.replacements x
unfolding note_string
note_string-get s o v none x h = refl
note_string-get s o v (some e) x h = ground (arith, get-insert s.replacements o x e)

fresh_ne :
    (ds : List ℕ) (o x : ℕ) → contains ds o ≡ false → contains ds x ≡ true → nat_beq o x ≡ false
fresh_ne ds o x h k = ground (arith, nat_beq_iff o x)

module _ {Z F : Type 0} where
  note-stable :
      (ds : List ℕ) (s : Seen) (op : KirOp Z F) (x : ℕ)
      → Fresh ds (output_id op)
      → contains ds x ≡ true
      → (c : Option (ℕ × String)) → as_const_str op ≡ c
      → get (note s c).replacements x ≡ get s.replacements x
  unfolding note
  note-stable ds s op x w h none e = refl
  note-stable ds s op x w h (some (o, v)) e =
      note_string-get s o v (get s.strings v) x
        (fresh_ne ds o x (subst (Fresh ds) (as_const_str-output op o v e) w) h)

  -- The replacement of a value that is defined does not change any more.
  pub scan-stable :
      (ds : List ℕ) (s : Seen) (ops : List (KirOp Z F)) (x : ℕ)
      → WellFormedFrom ds ops
      → contains ds x ≡ true
      → get (scan s ops).replacements x ≡ get s.replacements x
  unfolding scan
  scan-stable ds s [] x w h = refl
  scan-stable ds s (op ∷ ops) x w h =
      scan-stable (extend ds (output_id op)) (note s (as_const_str op)) ops x w.2
        (contains-extend ds (output_id op) x h)
      ∙ note-stable ds s op x w.1 h (as_const_str op) refl

module _ {Z F V : Type 0} (apply : KirOp Z F → List V → V) where
  -- The value of a string constant.
  abbrev pub text_value : String → V
  text_value v = apply (const_str 0 v) []

  -- After a prefix of the program: `env` belongs to the program, `env'` to the one made of it.
  pub record Inv (ds : List ℕ) (s : Seen) (env env' : Env apply) : Type 0 where
    pub agree : (x : ℕ) → contains ds x ≡ true → env' (replaced s.replacements x) ≡ env x
    pub strings :
        (v : String) (e : ℕ)
        → get s.strings v ≡ some e
        → (contains ds e ≡ true) × (env' e ≡ text_value v)
    pub into :
        (x y : ℕ) → get s.replacements x ≡ some y → (contains ds x ≡ true) × (contains ds y ≡ true)

  pub Inv-unreplaced :
      (ds : List ℕ) (s : Seen) (env env' : Env apply) (o : ℕ)
      → Inv ds s env env'
      → contains ds o ≡ false
      → get s.replacements o ≡ none
  Inv-unreplaced ds s env env' o i fresh = elim (Option-cases (get s.replacements o)) [
    | inl e ↦ e
    | inr (y, e) ↦ absurd (cc (i.into o y e).0)
  ]

  pub Inv-assign :
      (ds : List ℕ) (s : Seen) (env env' : Env apply) (o : ℕ) (w : V)
      → Inv ds s env env'
      → contains ds o ≡ false
      → Inv (o ∷ ds) s (assign apply env o w) (assign apply env' o w)
  unfolding contains
  Inv-assign ds s env env' o w i fresh = record {
    agree = λ x h. elim (Option-cases (get s.replacements x)) [
      | inl e ↦ ground (arith, e, i.agree x, nat_beq_iff o x)
      | inr (y, e) ↦ ground (
        arith,
        e,
        i.agree x,
        fresh_ne ds o y fresh (i.into x y e).1,
        fresh_ne ds o x fresh (i.into x y e).0,
      )
    ];
    strings = λ v e h.
        (ground (arith, i.strings v e h), ground (arith, i.strings v e h, nat_beq_iff o e));
    into = λ x y h. (ground (arith, i.into x y h), ground (arith, i.into x y h));
  }

  pub Inv-string :
      (ds : List ℕ) (s : Seen) (env env' : Env apply) (o : ℕ) (v : String)
      → Inv ds s env env'
      → contains ds o ≡ true
      → env' o ≡ text_value v
      → Inv ds (record s { strings = insert s.strings v o }) env env'
  Inv-string ds s env env' o v i known value = record {
    agree = i.agree;
    strings = λ u e h. elim (Bool-cases (v == u)) [
      | inl same ↦
          let at : o ≡ e = ground (arith, get-insert s.strings v u o) in
          let word : v ≡ u = (string_eq.test_iff v u).0 same in
          (rw at at known, rw at at (rw word at value))
      | inr other ↦ i.strings u e (ground (arith, get-insert s.strings v u o))
    ];
    into = i.into;
  }

  pub Inv-replace :
      (ds : List ℕ) (s : Seen) (env env' : Env apply) (o e : ℕ) (v : String)
      → Inv ds s env env'
      → contains ds o ≡ false
      → get s.strings v ≡ some e
      → Inv
          (o ∷ ds)
          (record s { replacements = insert s.replacements o e })
          (assign apply env o (text_value v))
          env'
  unfolding contains
  Inv-replace ds s env env' o e v i fresh known = record {
    agree = λ x h. elim (Bool-cases (nat_beq o x)) [
      | inl same ↦ ground (arith, same, get-insert s.replacements o x e, (i.strings v e known).1)
      | inr other ↦ ground (arith, other, get-insert s.replacements o x e, i.agree x)
    ];
    strings = λ u f h. (ground (arith, i.strings u f h), (i.strings u f h).1);
    into = λ x y h. elim (Bool-cases (nat_beq o x)) [
      | inl same ↦
          let at : e ≡ y = ground (arith, get-insert s.replacements o x e) in
          (ground arith, ground (arith, at, i.strings v e known))
      | inr other ↦
          let old = i.into x y (ground (arith, get-insert s.replacements o x e)) in
          (ground (arith, old), ground (arith, old))
    ];
  }

  -- The inputs of a rewritten operation have the values of the original's.
  pub rewritten_inputs :
      (ds : List ℕ) (s : Seen) (f : Map ℕ ℕ) (env env' : Env apply) (xs : List ℕ)
      → Inv ds s env env'
      → ((x : ℕ) → contains ds x ≡ true → get f x ≡ get s.replacements x)
      → All (Defined ds) xs
      → map env' (map (replaced f) xs) ≡ map env xs
  rewritten_inputs ds s f env env' [] i stable h = refl
  rewritten_inputs ds s f env env' (x ∷ xs) i stable h =
      ap₂ ◌∷◌ (ap (λ m. env' (or_self m x)) (stable x h.0) ∙ i.agree x h.0)
        (rewritten_inputs ds s f env env' xs i stable h.1)
