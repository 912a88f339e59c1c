-- ===== src/Tdxl/Optimizer/Strings.antt =====
-- About `eliminate_redundant_strings` of crates/tdxl/src/optimizer.rs.
use tordex.Prelude.{
  ℕ, ◌≡◌, refl, sym, ap, ap₂, subst, ◌∙◌, true, false, Option, some, none, String, string_eq,
  nat_eq, List, [], ◌∷◌, ◌++◌, map, nat_beq_iff, Option-cases, inl, inr, arith,
}
use tordex.Prelude.Map.{
  Map, get, insert, contains_key, get-insert, contains_key-get-some, get-none-contains_key,
}
use tordex.Tdxl.Kir.{KirOp, KirProgram, output_id, input_ids, contains, const_str}
use tordex.Tdxl.Meaning.{erase, Env, assign, after, effect, effects, final, result, meaning}
use tordex.Tdxl.WellFormed.{Fresh, extend, WellFormedFrom, defined_after, WellFormed, OutputDefined}
use tordex.Tdxl.Optimizer.{
  replaced, rewrite_inputs, as_const_str, Seen, note_string, note, skipped, scan, rewrite_all,
  map_output, eliminate_redundant_strings,
}
use tordex.Tdxl.Optimizer.Rewrite.{
  output_id-rewrite_inputs, input_ids-rewrite_inputs, erase-rewrite_inputs, as_const_str-some,
}
use tordex.Tdxl.Optimizer.Prefix.{
  scan-stable, Inv, text_value, Inv-unreplaced, Inv-assign, Inv-string, Inv-replace,
  rewritten_inputs,
}

contains_self : (o : ℕ) (ds : List ℕ) → contains (o ∷ ds) o ≡ true
unfolding contains
contains_self o ds = ground (arith, nat_beq_iff o o)

module _ {Z F V : Type 0} (apply : KirOp Z F → List V → V) where
  -- The rest of the program and what is made of it, under the replacements `f`: the effects are the
  -- same, and so are the values, at the replaced identifiers.
  abbrev Same : Map ℕ ℕ → List ℕ → Env apply → Env apply → List (KirOp Z F) → Type 0
  Same f ds env env' ops =
      (effects apply env' (rewrite_all f ops) ≡ effects apply env ops)
      × ((x : ℕ)
          → contains (defined_after ds ops) x ≡ true
          → final apply env' (rewrite_all f ops) (replaced f x) ≡ final apply env ops x)

  Continues : List ℕ → List (KirOp Z F) → Type 0
  Continues ds ops =
      (s : Seen) (env env' : Env apply)
      → Inv apply ds s env env'
      → Same (scan s ops).replacements ds env env' ops

  -- The effect of an operation, and of the operation that is made of it.
  effect-rewritten :
      (f : Map ℕ ℕ) (env env' : Env apply) (op : KirOp Z F)
      → map env' (map (replaced f) (input_ids op)) ≡ map env (input_ids op)
      → (o : Option ℕ) → effect apply env' (rewrite_inputs op f) o ≡ effect apply env op o
  effect-rewritten f env env' op e none =
      rw (erase-rewrite_inputs op f, input_ids-rewrite_inputs op f, e)
  effect-rewritten f env env' op e (some o) = refl

  after-rewritten :
      (f : Map ℕ ℕ) (ds : List ℕ) (s : Seen) (env env' : Env apply) (op : KirOp Z F)
      → map env' (map (replaced f) (input_ids op)) ≡ map env (input_ids op)
      → Inv apply ds s env env'
      → (o : Option ℕ) → Fresh ds o
      → Inv apply (extend ds o) s (after apply env op o) (after apply env' (rewrite_inputs op f) o)
  after-rewritten f ds s env env' op e i none w = i
  after-rewritten f ds s env env' op e i (some o) w =
      rw (erase-rewrite_inputs op f, input_ids-rewrite_inputs op f, e)
        (Inv-assign apply ds s env env' o (apply (erase op) (map env (input_ids op))) i w)

  kept_step :
      (f : Map ℕ ℕ) (ds : List ℕ) (env env' : Env apply) (op : KirOp Z F) (ops : List (KirOp Z F))
      → map env' (map (replaced f) (input_ids op)) ≡ map env (input_ids op)
      → skipped f (as_const_str op) ≡ false
      → Same f
          (extend ds (output_id op))
          (after apply env op (output_id op))
          (after apply env' (rewrite_inputs op f) (output_id op))
          ops
      → Same f ds env env' (op ∷ ops)
  unfolding effects final rewrite_all
  kept_step f ds env env' op ops e stays ih = (
    rw (stays, output_id-rewrite_inputs op f)
        (ap₂ ◌++◌ (effect-rewritten f env env' op e (output_id op)) ih.0),
    (λ x h. rw stays (
        ap
          (λ o.
            final apply (after apply env' (rewrite_inputs op f) o) (rewrite_all f ops)
              (replaced f x))
          (output_id-rewrite_inputs op f)
        ∙ ih.1 x h)),
  )

  other_step :
      (ds : List ℕ) (s : Seen) (env env' : Env apply) (op : KirOp Z F) (ops : List (KirOp Z F))
      → as_const_str op ≡ none
      → WellFormedFrom ds (op ∷ ops)
      → Inv apply ds s env env'
      → Continues (extend ds (output_id op)) ops
      → Same (scan s (op ∷ ops)).replacements ds env env' (op ∷ ops)
  unfolding scan note skipped Continues
  other_step ds s env env' op ops plain w i rest =
      let f = (scan s (op ∷ ops)).replacements in
      let e =
        rewritten_inputs apply ds s f env env' (input_ids op) i
          (λ x h. scan-stable ds s (op ∷ ops) x w h) w.0 in
      let same_scan : scan s ops ≡ scan (note s (as_const_str op)) ops = rw plain in
      kept_step f ds env env' op ops e (rw plain) (
        subst
          (λ r.
            Same r.replacements (extend ds (output_id op)) (after apply env op (output_id op))
              (after apply env' (rewrite_inputs op f) (output_id op)) ops)
          same_scan
          (rest s (after apply env op (output_id op))
            (after apply env' (rewrite_inputs op f) (output_id op))
            (after-rewritten f ds s env env' op e i (output_id op) w.1)))

  new_string_step :
      (ds : List ℕ) (s : Seen) (env env' : Env apply) (o : ℕ) (v : String) (ops : List (KirOp Z F))
      → get s.strings v ≡ none
      → WellFormedFrom ds (const_str o v ∷ ops)
      → Inv apply ds s env env'
      → Continues (o ∷ ds) ops
      → Same (scan s (const_str o v ∷ ops)).replacements ds env env' (const_str o v ∷ ops)
  unfolding Continues scan note note_string as_const_str skipped output_id input_ids erase
      rewrite_inputs
  new_string_step ds s env env' o v ops new w i rest =
      let s' : Seen = record s { strings = insert s.strings v o } in
      let f = (scan s' ops).replacements in
      let same_scan : scan s (const_str o v ∷ ops) ≡ scan s' ops = rw new in
      let unknown : get f o ≡ none =
        scan-stable (o ∷ ds) s' ops o w.2 (contains_self o ds)
        ∙ Inv-unreplaced apply ds s env env' o i w.1 in
      let value = text_value apply v in
      subst (λ r. Same r.replacements ds env env' (const_str o v ∷ ops)) (sym same_scan)
        (kept_step f ds env env' (const_str o v) ops refl (get-none-contains_key f o unknown) (
          rest s' (assign apply env o value) (assign apply env' o value) (
            Inv-string apply (o ∷ ds) s (assign apply env o value) (assign apply env' o value) o v
              (Inv-assign apply ds s env env' o value i w.1) (contains_self o ds)
              (ground (arith, nat_beq_iff o o)))))

  old_string_step :
      (ds : List ℕ) (s : Seen) (env env' : Env apply) (o e : ℕ) (v : String)
      (ops : List (KirOp Z F))
      → get s.strings v ≡ some e
      → WellFormedFrom ds (const_str o v ∷ ops)
      → Inv apply ds s env env'
      → Continues (o ∷ ds) ops
      → Same (scan s (const_str o v ∷ ops)).replacements ds env env' (const_str o v ∷ ops)
  unfolding Continues scan note note_string as_const_str skipped output_id input_ids erase effects
      final rewrite_all
  old_string_step ds s env env' o e v ops old w i rest =
      let s' : Seen = record s { replacements = insert s.replacements o e } in
      let f = (scan s' ops).replacements in
      let same_scan : scan s (const_str o v ∷ ops) ≡ scan s' ops = rw old in
      let known : get f o ≡ some e =
        scan-stable (o ∷ ds) s' ops o w.2 (contains_self o ds)
        ∙ ground (arith, get-insert s.replacements o o e, nat_beq_iff o o) in
      let gone : contains_key f o ≡ true = contains_key-get-some f o e known in
      let value = text_value apply v in
      let ih =
        rest s' (assign apply env o value) env' (Inv-replace apply ds s env env' o e v i w.1 old) in
      subst (λ r. Same r.replacements ds env env' (const_str o v ∷ ops)) (sym same_scan)
        (rw gone ih.0, λ x h. rw gone (ih.1 x h))

  string_step :
      (ds : List ℕ) (op : KirOp Z F) (ops : List (KirOp Z F)) (o : ℕ) (v : String)
      → op ≡ const_str o v
      → WellFormedFrom ds (op ∷ ops)
      → Continues (extend ds (output_id op)) ops
      → (s : Seen) (env env' : Env apply) → Inv apply ds s env env'
      → Same (scan s (op ∷ ops)).replacements ds env env' (op ∷ ops)
  unfolding output_id input_ids
  string_step ds op ops o v is w rest s env env' i =
      let w' : WellFormedFrom ds (const_str o v ∷ ops) =
        subst (λ c. WellFormedFrom ds (c ∷ ops)) is w in
      let rest' : Continues (o ∷ ds) ops =
        subst (λ c. Continues (extend ds (output_id c)) ops) is rest in
      subst (λ c. Same (scan s (c ∷ ops)).replacements ds env env' (c ∷ ops)) (sym is)
        (elim (Option-cases (get s.strings v)) [
          | inl new ↦ new_string_step ds s env env' o v ops new w' i rest'
          | inr (e, old) ↦ old_string_step ds s env env' o e v ops old w' i rest'
        ])

  continue_with :
      (ds : List ℕ) (op : KirOp Z F) (ops : List (KirOp Z F))
      → WellFormedFrom ds (op ∷ ops)
      → Continues (extend ds (output_id op)) ops
      → Continues ds (op ∷ ops)
  unfolding Continues
  continue_with ds op ops w rest s env env' i = elim (Option-cases (as_const_str op)) [
    | inl plain ↦ other_step ds s env env' op ops plain w i rest
    | inr ((o, v), e) ↦ string_step ds op ops o v (as_const_str-some op o v e) w rest s env env' i
  ]

  empty-Continues : (ds : List ℕ) → Continues ds []
  unfolding Continues effects final rewrite_all scan
  empty-Continues ds s env env' i = (refl, i.agree)

  continues : (ds : List ℕ) (ops : List (KirOp Z F)) → WellFormedFrom ds ops → Continues ds ops
  continues ds [] w = empty-Continues ds
  continues ds (op ∷ ops) w =
      continue_with ds op ops w (continues (extend ds (output_id op)) ops w.2)

  start : (env : Env apply) → Inv apply [] (record { strings = []; replacements = [] }) env env
  unfolding contains get
  start env = record {
    agree = λ x h. refl;
    strings = λ v e h. absurd (cc);
    into = λ x y h. absurd (cc);
  }

  same_result :
      (f : Map ℕ ℕ) (ds : List ℕ) (last last' : Env apply) (o : Option ℕ)
      → OutputDefined ds o
      → ((x : ℕ) → contains ds x ≡ true → last' (replaced f x) ≡ last x)
      → result apply last' (map_output f o) ≡ result apply last o
  same_result f ds last last' none w h = refl
  same_result f ds last last' (some o) w h = ap some (h o w)

  -- For every reading of the operations, a well-formed program and what `eliminate_redundant_strings`
  -- makes of it have the same effects, in the same order, and the same output.
  pub eliminate_redundant_strings-meaning :
      (env : Env apply) (p : KirProgram Z F)
      → WellFormed p
      → meaning apply env (eliminate_redundant_strings p) ≡ meaning apply env p
  unfolding meaning eliminate_redundant_strings Continues
  eliminate_redundant_strings-meaning env p w =
      let f = (scan (record { strings = []; replacements = [] }) p.ops).replacements in
      let same : Same f [] env env p.ops =
        continues [] p.ops w.ordered (record { strings = []; replacements = [] }) env env
          (start env) in
      ap₂ (λ a b. (a, b)) same.0
        (same_result f (defined_after [] p.ops) (final apply env p.ops)
          (final apply env (rewrite_all f p.ops)) p.output w.output_known same.1)
