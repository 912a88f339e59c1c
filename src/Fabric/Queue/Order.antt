-- ===== src/Fabric/Queue/Order.antt =====
-- The order of the queue's entries: by priority, then by the number of the submission.
use tordex.Prelude.{ℕ, ◌≤◌, ◌<◌, ◌≡◌, ◌⊎◌, true, arith}
use tordex.Heap.Order.{Le, IsOrder}
use tordex.Fabric.Task.{QueueEntry, less, discriminant}

module _ {V : Type 0} where
  -- The rank of an entry's priority, 0 being the highest.
  abbrev pub rank : QueueEntry V → ℕ
  rank e = discriminant e.task.priority

  -- `a` is to be served before or with `b`: a higher priority, or the same and no later submission.
  abbrev pub Before : QueueEntry V → QueueEntry V → Type 0
  Before a b = (rank a < rank b) ⊎ ((rank a ≡ rank b) × (a.seq ≤ b.seq))

  pub Le→Before : (a b : QueueEntry V) → Le less a b → Before a b
  unfolding less
  Le→Before a b h = ground arith

  pub Before→Le : (a b : QueueEntry V) → Before a b → Le less a b
  unfolding less
  Before→Le a b h = ground arith

  less_trans : (a b c : QueueEntry V) → Le less a b → Le less b c → Le less a c
  less_trans a b c h k = Before→Le a c (ground (arith, Le→Before a b h, Le→Before b c k))

  less_asym : (a b : QueueEntry V) → less a b ≡ true → Le less a b
  unfolding less
  less_asym a b h = ground arith

  less_irrefl : (a : QueueEntry V) → Le less a a
  unfolding less
  less_irrefl a = ground arith

  pub less-IsOrder : IsOrder (less {V = V})
  less-IsOrder = record { le_trans = less_trans; le_of_less = less_asym; le_refl = less_irrefl }
