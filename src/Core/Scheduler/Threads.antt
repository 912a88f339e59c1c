-- ===== src/Core/Scheduler/Threads.antt =====
-- Threads of crates/core/src/scheduler.rs that interleave: a step is one section under the mutex.
use tordex.Prelude.{
  ℕ, ◌≡◌, refl, sym, ap, subst, Option, some, none, Bool, true, false, [], nat_eq, ◌==◌,
  if◌then◌else◌, Bool-cases, inl, inr, ◌⊎◌,
}
use tordex.Prelude.Map.{Map, get, insert, get-insert}
use tordex.Core.Scheduler.{
  TaskStatus, pending, running, completed, cancelled, Statuses, is_cancelled, may_cancel, spawn,
  schedule_after, set_status, wake, complete, cancel, status,
}

-- What the thread of a task does: it sleeps before its task, works on it, has ended, or has died in
-- a panic of the task.
pub data Phase : Type 0 where
  sleeping working ended died : Phase

pub record World : Type 0 where
  pub statuses : Statuses
  pub threads : Map ℕ Phase

abbrev pub start : World
start = record { statuses = []; threads = [] }

pub data Step (w : World) : World → Type 0 where
  -- The identifiers of ulid are fresh.
  spawns :
      (id : ℕ)
      → get w.threads id ≡ none
      → Step w (record { statuses = spawn w.statuses id; threads = insert w.threads id working })
  schedules :
      (id : ℕ)
      → get w.threads id ≡ none
      → Step w (record {
        statuses = schedule_after w.statuses id;
        threads = insert w.threads id sleeping;
      })
  wakes :
      (id : ℕ)
      → get w.threads id ≡ some sleeping
      → Step w (record {
        statuses = (wake w.statuses id).1;
        threads = insert w.threads id (if (wake w.statuses id).0 then working else ended);
      })
  finishes :
      (id : ℕ)
      → get w.threads id ≡ some working
      → Step w (record { statuses = complete w.statuses id; threads = insert w.threads id ended })
  -- The panic of a task unwinds its thread past the last section.
  panics :
      (id : ℕ)
      → get w.threads id ≡ some working
      → Step w (record w { threads = insert w.threads id died })
  cancels : (id : ℕ) → Step w (record w { statuses = (cancel w.statuses id).1 })

pub data Reach (w : World) : World → Type 0 where
  here : Reach w w
  next : {u v : World} → Reach w u → Step u v → Reach w v

-- The statuses that a task can have while its thread is in a phase.
abbrev pub Fits : Option Phase → Option TaskStatus → Type 0
Fits none s = s ≡ none
Fits (some sleeping) s = (s ≡ some pending) ⊎ (s ≡ some cancelled)
Fits (some working) s = (s ≡ some running) ⊎ (s ≡ some cancelled)
Fits (some ended) s = (s ≡ some completed) ⊎ (s ≡ some cancelled)
Fits (some died) s = (s ≡ some running) ⊎ (s ≡ some cancelled)

abbrev pub Fit : World → Type 0
Fit w = (id : ℕ) → Fits (get w.threads id) (status w.statuses id)

-- A step writes one entry of each map at most.
writes-Fit :
    (m m' : Statuses) (t t' : Map ℕ Phase) (id : ℕ) (p : Option Phase) (s : Option TaskStatus)
    → ((j : ℕ) → Fits (get t j) (get m j))
    → ((j : ℕ) → get t' j ≡ (if id == j then p else get t j))
    → ((j : ℕ) → get m' j ≡ (if id == j then s else get m j))
    → Fits p s
    → (j : ℕ) → Fits (get t' j) (get m' j)
writes-Fit m m' t t' id p s fit law law' new j =
    rw (law j, law' j)
      (elim (Bool-cases (id == j)) [ inl mine ↦ rw mine new | inr other ↦ rw other (fit j) ])

-- An unchanged map, seen as a write of the old value.
get-unchanged {ℓ} :
    {V : Type ℓ} (m : Map ℕ V) (id j : ℕ) → get m j ≡ (if id == j then get m id else get m j)
get-unchanged m id j = elim (Bool-cases (id == j)) [
  | inl mine ↦ rw mine (ap (get m) (sym ((nat_eq.test_iff id j).0 mine)))
  | inr other ↦ rw other
]

-- A section that keeps the map, or writes one entry.
get-if_insert :
    (b : Bool) (m : Statuses) (id j : ℕ) (x : TaskStatus)
    → get (if b then insert m id x else m) j
      ≡ (if id == j then (if b then some x else get m id) else get m j)
get-if_insert true m id j x = get-insert m id j x
get-if_insert false m id j x = get-unchanged m id j

get-if_not_insert :
    (b : Bool) (m : Statuses) (id j : ℕ) (x : TaskStatus)
    → get (if b then m else insert m id x) j
      ≡ (if id == j then (if b then get m id else some x) else get m j)
get-if_not_insert true m id j x = get-unchanged m id j
get-if_not_insert false m id j x = get-insert m id j x

pub wake-get :
    (m : Statuses) (id j : ℕ)
    → get (wake m id).1 j
      ≡ (if id == j then (if is_cancelled (get m id) then get m id else some running) else get m j)
unfolding wake
wake-get m id j = elim (Bool-cases (is_cancelled (get m id))) [
  | inl stop ↦ rw stop (get-unchanged m id j)
  | inr go ↦ rw go (get-insert m id j running)
]

pub complete-get :
    (m : Statuses) (id j : ℕ)
    → get (complete m id) j ≡ (
        if id == j then (if is_cancelled (get m id) then get m id else some completed) else get m j)
unfolding complete
complete-get m id j = get-if_not_insert (is_cancelled (get m id)) m id j completed

pub cancel-get :
    (m : Statuses) (id j : ℕ)
    → get (cancel m id).1 j
      ≡ (if id == j then (if may_cancel (get m id) then some cancelled else get m id) else get m j)
unfolding cancel
cancel-get m id j = elim (Bool-cases (may_cancel (get m id))) [
  | inl stop ↦ rw stop (get-insert m id j cancelled)
  | inr no_stop ↦ rw no_stop (get-unchanged m id j)
]

wake-Fits :
    (m : Statuses) (id : ℕ)
    → Fits (some sleeping) (get m id)
    → Fits
        (some (if (wake m id).0 then working else ended))
        (if is_cancelled (get m id) then get m id else some running)
unfolding wake is_cancelled
wake-Fits m id (inl e) = rw e (inl refl)
wake-Fits m id (inr e) = rw e (inr refl)

complete-Fits :
    (o : Option TaskStatus)
    → Fits (some working) o
    → Fits (some ended) (if is_cancelled o then o else some completed)
unfolding is_cancelled
complete-Fits o (inl e) = rw e (inl refl)
complete-Fits o (inr e) = rw e (inr refl)

cancel-Fits :
    (p : Option Phase) (o : Option TaskStatus)
    → Fits p o
    → Fits p (if may_cancel o then some cancelled else o)
unfolding may_cancel
cancel-Fits none o h = rw h refl
cancel-Fits (some sleeping) o (inl e) = rw e (inr refl)
cancel-Fits (some sleeping) o (inr e) = rw e (inr refl)
cancel-Fits (some working) o (inl e) = rw e (inr refl)
cancel-Fits (some working) o (inr e) = rw e (inr refl)
cancel-Fits (some ended) o (inl e) = rw e (inl refl)
cancel-Fits (some ended) o (inr e) = rw e (inr refl)
cancel-Fits (some died) o (inl e) = rw e (inr refl)
cancel-Fits (some died) o (inr e) = rw e (inr refl)

-- What fits the phase that the thread of `id` is in.
pub at_phase :
    (w : World) {p : Option Phase} (id : ℕ)
    → get w.threads id ≡ p
    → Fit w
    → Fits p (get w.statuses id)
unfolding status
at_phase w id e fit = subst (λ q. Fits q (get w.statuses id)) e (fit id)

Step-Fit : {w v : World} → Step w v → Fit w → Fit v
unfolding status spawn schedule_after set_status
Step-Fit {w} (spawns id fresh) fit =
    writes-Fit w.statuses _ w.threads _ id _ _ fit (λ j. get-insert w.threads id j working)
      (λ j. get-insert w.statuses id j running) (inl refl)
Step-Fit {w} (schedules id fresh) fit =
    writes-Fit w.statuses _ w.threads _ id _ _ fit (λ j. get-insert w.threads id j sleeping)
      (λ j. get-insert w.statuses id j pending) (inl refl)
Step-Fit {w} (wakes id asleep) fit =
    writes-Fit w.statuses _ w.threads _ id _ _ fit (λ j. get-insert w.threads id j _)
      (wake-get w.statuses id) (wake-Fits w.statuses id (at_phase w id asleep fit))
Step-Fit {w} (finishes id busy) fit =
    writes-Fit w.statuses _ w.threads _ id _ _ fit (λ j. get-insert w.threads id j ended)
      (complete-get w.statuses id) (complete-Fits _ (at_phase w id busy fit))
Step-Fit {w} (panics id busy) fit =
    writes-Fit w.statuses w.statuses w.threads _ id _ _ fit (λ j. get-insert w.threads id j died)
      (get-unchanged w.statuses id) (at_phase w id busy fit)
Step-Fit {w} (cancels id) fit =
    writes-Fit w.statuses _ w.threads w.threads id _ _ fit (get-unchanged w.threads id)
      (cancel-get w.statuses id) (cancel-Fits _ _ (fit id))

-- In every interleaving of threads on a new scheduler, the status of each task fits the phase of
-- its thread: absent if there is none; pending or cancelled while it sleeps; running or cancelled
-- while it works and after a panic; completed or cancelled once it has ended. So no status is ever
-- a failure.
pub Reach-Fit : {w : World} → Reach start w → Fit w
unfolding status get
Reach-Fit here = λ id. refl
Reach-Fit (next r s) = Step-Fit s (Reach-Fit r)
