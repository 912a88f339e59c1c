-- ===== src/Tdxl/Optimizer/DeadCode.antt =====
-- About `eliminate_dead_code` of crates/tdxl/src/optimizer.rs.
use tordex.Prelude.{
  ℕ, ◌≡◌, refl, ap, ap₂, ◌∙◌, true, false, ◌||◌, Option, some, none, List, [], ◌∷◌, ◌++◌, map, All,
  nat_beq_iff, Bool-cases, Option-cases, inl, inr, arith,
}
use tordex.Tdxl.Kir.{KirOp, KirProgram, output_id, input_ids, all_inputs, used_values, contains}
use tordex.Tdxl.Meaning.{erase, Env, after, effect, effects, final, result, meaning}
use tordex.Tdxl.Optimizer.{kept, keep_used, eliminate_dead_code}

contains-append : (xs ys : List ℕ) (x : ℕ) → contains (xs ++ ys) x ≡ contains xs x || contains ys x
unfolding contains
contains-append [] ys x = refl
contains-append (z ∷ xs) ys x = ground (arith, contains-append xs ys x)

in_used :
    (used xs : List ℕ)
    → ((x : ℕ) → contains xs x ≡ true → contains used x ≡ true)
    → All (λ x. contains used x ≡ true) xs
unfolding contains
in_used used [] h = tt
in_used used (x ∷ xs) h =
    (h x (ground (arith, nat_beq_iff x x)), in_used used xs (λ y u. h y (ground arith)))

contains_last : (xs : List ℕ) (x : ℕ) → contains (xs ++ x ∷ []) x ≡ true
unfolding contains
contains_last [] x = ground (arith, nat_beq_iff x x)
contains_last (y ∷ xs) x = ground (arith, contains_last xs x)

module _ {Z F : Type 0} where
  inputs_used :
      (p : KirProgram Z F) (x : ℕ)
      → contains (all_inputs p.ops) x ≡ true
      → contains (used_values p) x ≡ true
  unfolding used_values
  inputs_used p x u = elim (Option-cases p.output) [
    | inl e ↦ rw e u
    | inr (o, e) ↦ rw e (ground (arith, contains-append (all_inputs p.ops) (o ∷ []) x))
  ]

  output_used : (p : KirProgram Z F) (o : ℕ) → p.output ≡ some o → contains (used_values p) o ≡ true
  unfolding used_values
  output_used p o e = rw e (contains_last (all_inputs p.ops) o)

module _ {Z F V : Type 0} (apply : KirOp Z F → List V → V) (used : List ℕ) where
  -- The environments agree on what is used.
  abbrev Agree : Env apply → Env apply → Type 0
  Agree env env' = (x : ℕ) → contains used x ≡ true → env x ≡ env' x

  map-Agree :
      (env env' : Env apply) (xs : List ℕ)
      → Agree env env'
      → All (λ x. contains used x ≡ true) xs
      → map env xs ≡ map env' xs
  map-Agree env env' [] agree h = refl
  map-Agree env env' (x ∷ xs) agree h = ap₂ ◌∷◌ (agree x h.0) (map-Agree env env' xs agree h.1)

  abbrev AllUsed : List (KirOp Z F) → Type 0
  AllUsed ops = All (λ op. All (λ x. contains used x ≡ true) (input_ids op)) ops

  step-Agree :
      (env env' : Env apply) (op : KirOp Z F)
      → Agree env env'
      → All (λ x. contains used x ≡ true) (input_ids op)
      → (o : Option ℕ) → Agree (after apply env op o) (after apply env' op o)
  step-Agree env env' op agree h none = agree
  step-Agree env env' op agree h (some o) =
      λ x u. ground (arith, agree x, map-Agree env env' (input_ids op) agree h)

  skip-Agree :
      (env env' : Env apply) (op : KirOp Z F)
      → Agree env env'
      → (o : Option ℕ) → kept used o ≡ false
      → Agree (after apply env op o) env'
  unfolding kept
  skip-Agree env env' op agree none k = absurd (cc)
  skip-Agree env env' op agree (some o) k = λ x u. ground (arith, agree x, nat_beq_iff o x)

  effect-Agree :
      (env env' : Env apply) (op : KirOp Z F)
      → Agree env env'
      → All (λ x. contains used x ≡ true) (input_ids op)
      → (o : Option ℕ) → effect apply env op o ≡ effect apply env' op o
  effect-Agree env env' op agree h none =
      ap (λ vs. (erase op, vs) ∷ []) (map-Agree env env' (input_ids op) agree h)
  effect-Agree env env' op agree h (some o) = refl

  no_effect :
      (env : Env apply) (op : KirOp Z F) (o : Option ℕ)
      → kept used o ≡ false
      → effect apply env op o ≡ []
  unfolding kept
  no_effect env op none k = absurd (cc)
  no_effect env op (some o) k = refl

  keep_used-meaning :
      (env env' : Env apply) (ops : List (KirOp Z F))
      → Agree env env'
      → AllUsed ops
      → (effects apply env ops ≡ effects apply env' (keep_used used ops))
        × Agree (final apply env ops) (final apply env' (keep_used used ops))
  unfolding keep_used effects final
  keep_used-meaning env env' [] agree h = (refl, agree)
  keep_used-meaning env env' (op ∷ ops) agree h = elim (Bool-cases (kept used (output_id op))) [
    | inl stays ↦
        let ih =
          keep_used-meaning (after apply env op (output_id op)) (after apply env' op (output_id op))
            ops (step-Agree env env' op agree h.0 (output_id op)) h.1 in
        rw stays (ap₂ ◌++◌ (effect-Agree env env' op agree h.0 (output_id op)) ih.0, ih.1)
    | inr goes ↦
        let ih =
          keep_used-meaning (after apply env op (output_id op)) env' ops
            (skip-Agree env env' op agree (output_id op) goes) h.1 in
        rw goes (
          ap (λ e. e ++ effects apply (after apply env op (output_id op)) ops)
                (no_effect env op (output_id op) goes)
              ∙ ih.0,
          ih.1,
        )
  ]

All-used :
    {Z F : Type 0} (used : List ℕ) (ops : List (KirOp Z F))
    → ((x : ℕ) → contains (all_inputs ops) x ≡ true → contains used x ≡ true)
    → All (λ op. All (λ x. contains used x ≡ true) (input_ids op)) ops
unfolding all_inputs
All-used used [] h = tt
All-used used (op ∷ ops) h = (
  in_used used (input_ids op)
      (λ x u. h x (ground (arith, contains-append (input_ids op) (all_inputs ops) x))),
  All-used used ops
      (λ x u. h x (ground (arith, contains-append (input_ids op) (all_inputs ops) x))),
)

module _ {Z F V : Type 0} (apply : KirOp Z F → List V → V) (env : Env apply) where
  -- Whatever its operations compute, a program and what `eliminate_dead_code` leaves of it have the
  -- same effects, in the same order, and the same output.
  pub eliminate_dead_code-meaning :
      (p : KirProgram Z F) → meaning apply env (eliminate_dead_code p) ≡ meaning apply env p
  unfolding meaning eliminate_dead_code
  eliminate_dead_code-meaning p = by_output p.output refl
    where
      used : List ℕ
      used = used_values p

      covered : (x : ℕ) → contains (all_inputs p.ops) x ≡ true → contains used x ≡ true
      covered = inputs_used p

      both :
          (effects apply env p.ops ≡ effects apply env (keep_used used p.ops))
          × Agree apply used (final apply env p.ops) (final apply env (keep_used used p.ops))
      both = keep_used-meaning apply used env env p.ops (λ x u. refl) (All-used used p.ops covered)

      by_output :
          (o : Option ℕ)
          → p.output ≡ o
          → ◌≡◌ {A = List (KirOp Z F × List V) × Option V}
              (
                effects apply env (keep_used used p.ops),
                result apply (final apply env (keep_used used p.ops)) p.output,
              )
              (effects apply env p.ops, result apply (final apply env p.ops) p.output)
      by_output none e = cc both.0
      by_output (some o) e = cc (both.0, both.1 o (output_used p o e))
