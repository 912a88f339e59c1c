-- ===== src/Algorithms/WorkStealing/Progress.antt =====
-- What a worker of crates/algorithms/src/scheduling.rs runs, step by step and in the long run.
use mathlib.Core.List.{
  Perm, perm_middle, perm-append_left_iff, perm-append_right_iff, perm_append_singleton,
  append_assoc, append-nil,
}
use mathlib.Core.List.Perm
use tordex.Prelude.{
  ℕ, zero, suc, ◌+◌, ◌-◌, ◌%◌, ◌≤◌, ◌<◌, ◌≡◌, ◌≢◌, refl, sym, ap, ◌∙◌, Bool, true, false, Option,
  some, none, List, [], ◌∷◌, ◌++◌, length, set, ltb, ltb→lt, ltb→le, nat_beq, arith, Bool-cases,
  inl, inr, nat_beq_iff, ◌⊎◌, length-append, length-set,
}
use tordex.Prelude.Perms.{length-perm}
use tordex.Algorithms.WorkStealing.{
  WorkStealingScheduler, u64_mod, queue_at, pop_front, steal, steal_or_fail, try_execute_next,
  total_len, total_pending,
}
use tordex.Algorithms.WorkStealing.Steal.{Steals, steal-Steals, Steals-none}

module _ {A : Type 0} where
  abbrev counted : WorkStealingScheduler A → WorkStealingScheduler A
  counted s = record s { steal_attempts = (s.steal_attempts + 1) % u64_mod }

  -- What one call does, and which task it runs.
  pub data Executes (s : WorkStealingScheduler A) (worker : ℕ)
      (r : Bool × List A × WorkStealingScheduler A) : Type 0 where
    -- There is no such worker.
    out_of_range : length s.queues ≤ worker → r ≡ (false, [], s) → Executes s worker r
    -- The first task of the worker's own queue.
    own :
        (x : A) (xs : List A)
        → worker < length s.queues
        → queue_at s.queues worker ≡ x ∷ xs
        → r ≡ (true, x ∷ [], record s { queues = set s.queues worker xs })
        → Executes s worker r
    -- The last task of another queue, if the own one is empty.
    stolen :
        (x : A) (t : ℕ) (q : List A)
        → worker < length s.queues
        → queue_at s.queues worker ≡ []
        → t ≢ worker
        → t < length s.queues
        → queue_at s.queues t ≡ q ++ x ∷ []
        → r ≡ (
          true,
          x ∷ [],
          record (counted s) { queues = set s.queues t q; successes = (s.successes + 1) % u64_mod },
        )
        → Executes s worker r
    -- Every queue is empty.
    idle :
        worker < length s.queues
        → ((t : ℕ) → t < length s.queues → queue_at s.queues t ≡ [])
        → r ≡ (false, [], counted s)
        → Executes s worker r

  steal_or_fail-Executes :
      (s : WorkStealingScheduler A) (worker : ℕ)
      → worker < length s.queues
      → queue_at s.queues worker ≡ []
      → Executes s worker (steal_or_fail (counted s) worker)
  unfolding steal_or_fail
  steal_or_fail-Executes s worker inside empty =
      by_result (steal s.queues worker (length s.queues - 1) 1)
        (steal-Steals s.queues worker (length s.queues - 1) 1 (omega arith))
    where
      by_result :
          (o : Option (A × List (List A)))
          → Steals s.queues worker (length s.queues - 1) 1 o
          → Executes s worker (elim o [
            | none ↦ (false, [], counted s)
            | some (task, queues) ↦ (
              true,
              task ∷ [],
              record (counted s) { queues = queues; successes = (s.successes + 1) % u64_mod },
            )
          ])
      by_result none h =
          idle inside
            (λ t ht. elim (Bool-cases (nat_beq t worker)) [
              | inl same ↦ rw ((nat_beq_iff t worker).0 same) empty
              | inr other ↦
                  Steals-none s.queues worker t h inside ht (λ e. cc ((nat_beq_iff t worker).1 e))
            ])
            refl
      by_result (some (task, queues)) h =
          stolen task h.0 h.1 inside empty h.2 h.3 h.4 (rw (h.5) refl)

  -- A call for a worker out of range does nothing. Otherwise it runs the first task of the worker's
  -- own queue; if that is empty, the last task of some other queue, which is counted as a steal;
  -- and it runs nothing only if every queue is empty.
  pub try_execute_next-Executes :
      (s : WorkStealingScheduler A) (worker : ℕ) → Executes s worker (try_execute_next s worker)
  unfolding try_execute_next
  try_execute_next-Executes s worker = elim (Bool-cases (ltb worker (length s.queues))) [
    | inl inside ↦ rw inside (by_own (ltb→lt worker _ inside) (queue_at s.queues worker) refl)
    | inr outside ↦ rw outside (out_of_range (ltb→le worker _ outside) refl)
  ]
    where
      by_own :
          worker < length s.queues
          → (xs : List A) → queue_at s.queues worker ≡ xs
          → Executes s worker (elim (pop_front xs) [
            | none ↦ steal_or_fail (counted s) worker
            | some (task, queue) ↦
                (true, task ∷ [], record s { queues = set s.queues worker queue })
          ])
      by_own here [] e = steal_or_fail-Executes s worker here e
      by_own here (x ∷ xs) e = own x xs here e refl

  -- All tasks that wait, queue by queue.
  pub waiting : List (List A) → List A
  waiting [] = []
  waiting (q ∷ qs) = q ++ waiting qs

  total_len-waiting : (qs : List (List A)) → total_len qs ≡ length (waiting qs)
  unfolding total_len waiting
  total_len-waiting [] = refl
  total_len-waiting (q ∷ qs) = omega (arith, total_len-waiting qs, length-append q (waiting qs))

  total_pending-waiting :
      (s : WorkStealingScheduler A) → total_pending s ≡ length (waiting s.queues)
  unfolding total_pending
  total_pending-waiting s = total_len-waiting s.queues

  length_zero : (xs : List A) → length xs ≡ 0 → xs ≡ []
  length_zero [] h = refl
  length_zero (x ∷ xs) h = absurd (omega arith)

  set-waiting :
      (qs : List (List A)) (t : ℕ) (q : List A) (x : A)
      → t < length qs
      → Perm (x ∷ q) (queue_at qs t)
      → Perm (x ∷ waiting (set qs t q)) (waiting qs)
  unfolding waiting
  set-waiting [] t q x h p = absurd (omega arith)
  set-waiting (r ∷ qs) zero q x h p = (perm-append_right_iff (waiting qs)).1 p
  set-waiting (r ∷ qs) (suc t) q x h p =
      Perm.trans (Perm.symm (perm_middle {a = x} r (waiting (set qs t q))))
        ((perm-append_left_iff r).1 (set-waiting qs t q x (omega arith) p))

  waiting-nil :
      (qs : List (List A)) → ((t : ℕ) → t < length qs → queue_at qs t ≡ []) → waiting qs ≡ []
  unfolding waiting
  waiting-nil [] h = refl
  waiting-nil (q ∷ qs) h = rw (h 0 (omega arith)) (waiting-nil qs (λ t p. h (suc t) (omega arith)))

  -- A call loses no task and runs none that did not wait.
  pub record Conserves (s : WorkStealingScheduler A) (r : Bool × List A × WorkStealingScheduler A)
      : Type 0 where
    pub same : Perm (r.1 ++ waiting r.2.queues) (waiting s.queues)
    pub workers : length r.2.queues ≡ length s.queues
    pub busy : (r.0 ≡ false) ⊎ (length r.1 ≡ 1)
    pub answer : r.0 ≡ false → (r.1 ≡ []) × (r.2.queues ≡ s.queues)

  Executes-Conserves :
      (s : WorkStealingScheduler A) (worker : ℕ) (r : Bool × List A × WorkStealingScheduler A)
      → Executes s worker r
      → Conserves s r
  Executes-Conserves s worker r (out_of_range h e) =
      rw e
        (record { same = Perm.refl _; workers = refl; busy = inl refl; answer = λ _. (refl, refl) })
  Executes-Conserves s worker r (own x xs inside at e) = rw e (record {
    same = set-waiting s.queues worker xs x inside (rw at (Perm.refl _));
    workers = length-set s.queues worker xs;
    busy = inr refl;
    answer = λ f. absurd (cc);
  })
  Executes-Conserves s worker r (stolen x t q inside empty away inside_t at e) = rw e (record {
    same = set-waiting s.queues t q x inside_t (rw at (Perm.symm (perm_append_singleton x q)));
    workers = length-set s.queues t q;
    busy = inr refl;
    answer = λ f. absurd (cc);
  })
  Executes-Conserves s worker r (idle inside empty e) =
      rw e
        (record { same = Perm.refl _; workers = refl; busy = inl refl; answer = λ _. (refl, refl) })

  -- As long as a task waits anywhere, a worker within range runs one.
  Executes-busy :
      (s : WorkStealingScheduler A) (worker : ℕ) (r : Bool × List A × WorkStealingScheduler A)
      → Executes s worker r
      → worker < length s.queues
      → 0 < total_pending s
      → length r.1 ≡ 1
  unfolding total_pending
  Executes-busy s worker r (out_of_range h e) inside pos = absurd (omega arith)
  Executes-busy s worker r (own x xs inside at e) _ pos = rw e refl
  Executes-busy s worker r (stolen x t q inside empty away inside_t at e) _ pos = rw e refl
  Executes-busy s worker r (idle inside empty e) _ pos =
      let none_left = total_len-waiting s.queues ∙ ap length (waiting-nil s.queues empty) in
      absurd (omega arith)

  -- So many calls by one worker: the tasks that they run, and the scheduler after them.
  unfoldable pub run_worker : ℕ → WorkStealingScheduler A → ℕ → List A × WorkStealingScheduler A
  run_worker zero s worker = ([], s)
  run_worker (suc calls) s worker =
      let (ran, tasks, s') = try_execute_next s worker in
      let (later, end) = run_worker calls s' worker in (tasks ++ later, end)

  run_worker-Perm :
      (calls : ℕ) (s : WorkStealingScheduler A) (worker : ℕ)
      → Perm
          ((run_worker calls s worker).0 ++ waiting (run_worker calls s worker).1.queues)
          (waiting s.queues)
  unfolding run_worker
  run_worker-Perm zero s worker = Perm.refl _
  run_worker-Perm (suc calls) s worker =
      let r = try_execute_next s worker in
      let c = Executes-Conserves s worker r (try_execute_next-Executes s worker) in
      let later = run_worker-Perm calls r.2 worker in
      rw
        (append_assoc r.1 (run_worker calls r.2 worker).0
          (waiting (run_worker calls r.2 worker).1.queues))
        (Perm.trans ((perm-append_left_iff r.1).1 later) c.same)

  run_worker-empty :
      (calls : ℕ) (s : WorkStealingScheduler A) (worker : ℕ)
      → worker < length s.queues
      → total_pending s ≤ calls
      → total_pending (run_worker calls s worker).1 ≡ 0
  unfolding run_worker
  run_worker-empty zero s worker inside enough = omega arith
  run_worker-empty (suc calls) s worker inside enough =
      let r = try_execute_next s worker in
      let e = try_execute_next-Executes s worker in
      let c = Executes-Conserves s worker r e in
      run_worker-empty calls r.2 worker (omega (arith, c.workers)) (
        let size = length-perm c.same in
        let parts = length-append r.1 (waiting r.2.queues) in
        let before = total_pending-waiting s in
        let after = total_pending-waiting r.2 in
        elim (Bool-cases (ltb 0 (total_pending s))) [
          | inl more ↦ let one = Executes-busy s worker r e inside (ltb→lt _ _ more) in omega arith
          | inr done ↦ let nothing = ltb→le _ _ done in omega arith
        ])

  -- A worker within range that calls again and again runs every task that waits in any queue, each
  -- exactly as often as it waits, and after at most as many calls as there are tasks nothing is
  -- left.
  pub run_worker-all :
      (s : WorkStealingScheduler A) (worker : ℕ)
      → worker < length s.queues
      → let r = run_worker (total_pending s) s worker in
        Perm r.0 (waiting s.queues) × (total_pending r.1 ≡ 0)
  run_worker-all s worker inside =
      let n = total_pending s in
      let end = (run_worker n s worker).1 in
      let nothing = run_worker-empty n s worker inside (omega arith) in
      let left = length_zero (waiting end.queues) (sym (total_pending-waiting end) ∙ nothing) in
      let all = rw left at (run_worker-Perm n s worker) in
      (rw (append-nil (run_worker n s worker).0) at all, nothing)
