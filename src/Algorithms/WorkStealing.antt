-- ===== src/Algorithms/WorkStealing.antt =====
-- WorkStealingScheduler of crates/algorithms/src/scheduling.rs. A task is a closure of the caller;
-- `A` stands for the tasks, and a call answers which tasks it has run, in order.
pub mod Steal
pub mod Progress
use tordex.Prelude.{
  ℕ, zero, suc, ◌+◌, ◌-◌, ◌%◌, ◌^◌, Bool, true, false, Option, some, none, List, [], ◌∷◌, ◌++◌,
  length, set, get_or, take, ltb, nat_beq, if◌then◌else◌, replicate,
}
use tordex.Prelude.Vec.{but_last}

abbrev pub u64_mod : ℕ
u64_mod = 2 ^ 64

pub record WorkStealingScheduler (A : Type 0) : Type 0 where
  pub queues : List (List A)
  pub steal_attempts : ℕ
  pub successes : ℕ

module _ {A : Type 0} where
  pub new_scheduler : ℕ → WorkStealingScheduler A
  new_scheduler num_workers = record {
    queues = replicate num_workers [];
    steal_attempts = 0;
    successes = 0;
  }

  -- The queue of a worker within range.
  abbrev pub queue_at : List (List A) → ℕ → List A
  queue_at queues i = get_or queues i []

  pub submit : WorkStealingScheduler A → ℕ → A → WorkStealingScheduler A
  submit s worker task =
      if ltb worker (length s.queues)
      then record s { queues = set s.queues worker (queue_at s.queues worker ++ task ∷ []) }
      else s

  -- `pop_front` and `pop_back` of a `VecDeque`.
  abbrev pub pop_front : List A → Option (A × List A)
  pop_front [] = none
  pop_front (x ∷ xs) = some (x, xs)

  pub pop_back : List A → Option (A × List A)
  pop_back [] = none
  pop_back (x ∷ xs) = some (get_or (x ∷ xs) (length xs) x, but_last (x ∷ xs))

  -- What one round of the loop finds in the queue of its target.
  pub steal_from : List (List A) → ℕ → ℕ → Option (A × List A)
  unfolding pop_back
  steal_from queues worker target =
      if nat_beq target worker then none else pop_back (queue_at queues target)

  -- `for i in 1..queues.len()`, from round `i` on with so many rounds left: the task that is
  -- stolen, and the queues without it.
  pub steal : List (List A) → ℕ → ℕ → ℕ → Option (A × List (List A))
  unfolding steal_from
  steal queues worker zero i = none
  steal queues worker (suc rounds) i =
      let target = (worker + i) % length queues in
      let later = steal queues worker rounds (i + 1) in
      elim (steal_from queues worker target) [
        | none ↦ later
        | some (task, queue) ↦ some (task, set queues target queue)
      ]

  -- The loop and what follows it.
  pub steal_or_fail : WorkStealingScheduler A → ℕ → Bool × List A × WorkStealingScheduler A
  unfolding steal
  steal_or_fail s worker = elim (steal s.queues worker (length s.queues - 1) 1) [
    | none ↦ (false, [], s)
    | some (task, queues) ↦
        (true, task ∷ [], record s { queues = queues; successes = (s.successes + 1) % u64_mod })
  ]

  pub try_execute_next : WorkStealingScheduler A → ℕ → Bool × List A × WorkStealingScheduler A
  unfolding steal_or_fail
  try_execute_next s worker =
      if ltb worker (length s.queues)
      then (elim (pop_front (queue_at s.queues worker)) [
        | none ↦
            steal_or_fail (record s { steal_attempts = (s.steal_attempts + 1) % u64_mod }) worker
        | some (task, queue) ↦ (true, task ∷ [], record s { queues = set s.queues worker queue })
      ])
      else (false, [], s)

  pub queue_len : WorkStealingScheduler A → ℕ → ℕ
  queue_len s worker = length (queue_at s.queues worker)

  pub total_len : List (List A) → ℕ
  total_len [] = 0
  total_len (q ∷ qs) = length q + total_len qs

  pub total_pending : WorkStealingScheduler A → ℕ
  unfolding total_len
  total_pending s = total_len s.queues
