-- ===== src/Fabric/Queue/Stale.antt =====
-- About the indices of `by_id`, which `bubble_up` and `bubble_down` of crates/fabric/src/queue.rs do
-- not touch.
use tordex.Prelude.{
  ℕ, ◌<◌, ◌≡◌, ◌≢◌, [], ◌∷◌, map, string_eq, arith, Result, ok, refl, ◌==◌, true, false,
}
use tordex.Prelude.Tests.{beq_refl}
use tordex.Prelude.Outcome.{Outcome, Returns, ◌>>=◌, index}
use tordex.Prelude.Map.{get, insert, remove, contains_key}
use tordex.Prelude.Vec.{swap}
use tordex.Heap.{sift_up, sift_down}
use tordex.Fabric.Task.{CollectionTask, discriminant, less, FabricError}
use tordex.Fabric.Queue.{QueueInner, new, enqueue, cancel, bubble_up, bubble_down}

module _ {V : Type 0} where
  -- Two tasks are submitted to an empty queue, and the first one is cancelled.
  pub submit_two_cancel_first :
      CollectionTask V
      → CollectionTask V
      → ℕ
      → ℕ
      → Outcome (Result (Unit {0}) FabricError × QueueInner V)
  submit_two_cancel_first a b now later = do
    first ← enqueue new a now
    second ← enqueue first.1 b later
    cancel second.1 a.id

  module _ (a b : CollectionTask V) (now later : ℕ) (distinct : a.id ≢ b.id)
      (higher : discriminant b.priority < discriminant a.priority) where
    less_b :
        less {V = V}
          (record { task = b; submitted_at = later; seq = 1 })
          (record { task = a; submitted_at = now; seq = 0 })
        ≡ true
    unfolding less
    less_b = ground arith

    ab : (a.id == b.id) ≡ false
    ab = ground (arith, string_eq.test_iff a.id b.id)

    ba : (b.id == a.id) ≡ false
    ba = ground (arith, string_eq.test_iff b.id a.id)

    aa : (a.id == a.id) ≡ true
    aa = beq_refl a.id

    -- When the second task has the higher priority, the cancellation of the first one reports
    -- success, removes the second one and leaves the first one queued.
    pub submit_two_cancel_first-keeps_first :
        Returns
          (λ r. (r.0 ≡ ok tt) × (map (λ e. e.task) r.1.heap ≡ a ∷ []))
          (submit_two_cancel_first a b now later)
    unfolding submit_two_cancel_first new enqueue cancel bubble_up bubble_down sift_up sift_down
        index swap get insert remove contains_key
    submit_two_cancel_first-keeps_first = simp (ab, ba, less_b, aa) (refl, refl)
