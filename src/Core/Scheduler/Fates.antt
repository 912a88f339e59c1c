-- ===== src/Core/Scheduler/Fates.antt =====
-- How the tasks of crates/core/src/scheduler.rs end.
use tordex.Prelude.{
  ℕ, ◌≡◌, refl, sym, ap, ◌∙◌, Option, some, none, false, nat_eq, ◌==◌, if◌then◌else◌, Bool-cases,
  inl, inr, ◌⊎◌,
}
use tordex.Prelude.Map.{Map, get, insert, get-insert}
use tordex.Core.Scheduler.{
  TaskStatus, pending, running, completed, cancelled, Statuses, is_cancelled, may_cancel, spawn,
  schedule_after, set_status, wake, status,
}
use tordex.Core.Scheduler.Threads.{
  Phase, sleeping, working, ended, died, World, start, Step, spawns, schedules, wakes, finishes,
  panics, cancels, Reach, here, next, Fits, Fit, at_phase, wake-get, complete-get, cancel-get,
  Reach-Fit,
}

abbrev pub IsFinal : TaskStatus → Type 0
IsFinal s = (s ≡ completed) ⊎ (s ≡ cancelled)

Reach-trans : {u v w : World} → Reach u v → Reach v w → Reach u w
Reach-trans r here = r
Reach-trans r (next q s) = next (Reach-trans r q) s

-- An entry survives a write that, at its own key, writes it again.
entry_stays {ℓ} :
    {V : Type ℓ} (m m' : Map ℕ V) (id j : ℕ) (new : Option V) (s : V)
    → ((j : ℕ) → get m' j ≡ (if id == j then new else get m j))
    → (id ≡ j → new ≡ some s)
    → get m j ≡ some s
    → get m' j ≡ some s
entry_stays m m' id j new s law same known = law j ∙ elim (Bool-cases (id == j)) [
  | inl mine ↦ rw mine (same ((nat_eq.test_iff id j).0 mine))
  | inr other ↦ rw other known
]

-- What the three sections leave of a final status, by what the thread's phase allows.
wake-final :
    (o : Option TaskStatus) (s : TaskStatus)
    → Fits (some sleeping) o
    → IsFinal s
    → o ≡ some s
    → (if is_cancelled o then o else some running) ≡ some s
unfolding is_cancelled
wake-final o s (inl e) (inl f) known = absurd (cc)
wake-final o s (inl e) (inr f) known = absurd (cc)
wake-final o s (inr e) final known = rw e (sym e ∙ known)

complete-final :
    (o : Option TaskStatus) (s : TaskStatus)
    → Fits (some working) o
    → IsFinal s
    → o ≡ some s
    → (if is_cancelled o then o else some completed) ≡ some s
unfolding is_cancelled
complete-final o s (inl e) (inl f) known = absurd (cc)
complete-final o s (inl e) (inr f) known = absurd (cc)
complete-final o s (inr e) final known = rw e (sym e ∙ known)

cancel-final :
    (o : Option TaskStatus) (s : TaskStatus)
    → IsFinal s
    → o ≡ some s
    → (if may_cancel o then some cancelled else o) ≡ some s
unfolding may_cancel
cancel-final o s (inl f) known = rw (known, f) refl
cancel-final o s (inr f) known = rw (known, f) refl

Step-final :
    {w v : World} (j : ℕ) (s : TaskStatus)
    → Fit w
    → Step w v
    → IsFinal s
    → get w.statuses j ≡ some s
    → get v.statuses j ≡ some s
unfolding spawn schedule_after set_status is_cancelled may_cancel
Step-final {w} j s fit (spawns id fresh) final known =
    entry_stays w.statuses _ id j (some running) s (λ i. get-insert w.statuses id i running)
      (λ same. let none_yet = at_phase w id fresh fit in absurd (cc)) known
Step-final {w} j s fit (schedules id fresh) final known =
    entry_stays w.statuses _ id j (some pending) s (λ i. get-insert w.statuses id i pending)
      (λ same. let none_yet = at_phase w id fresh fit in absurd (cc)) known
Step-final {w} j s fit (wakes id asleep) final known =
    entry_stays w.statuses _ id j _ s (wake-get w.statuses id)
      (λ same.
        let here_too = ap (get w.statuses) same in
        wake-final _ s (at_phase w id asleep fit) final (here_too ∙ known))
      known
Step-final {w} j s fit (finishes id busy) final known =
    entry_stays w.statuses _ id j _ s (complete-get w.statuses id)
      (λ same.
        let here_too = ap (get w.statuses) same in
        complete-final _ s (at_phase w id busy fit) final (here_too ∙ known))
      known
Step-final j s fit (panics id busy) final known = known
Step-final {w} j s fit (cancels id) final known =
    entry_stays w.statuses _ id j _ s (cancel-get w.statuses id)
      (λ same. cancel-final _ s final (ap (get w.statuses) same ∙ known)) known

-- In every interleaving on a new scheduler, a task whose status is completed or cancelled keeps
-- that status for ever.
pub Reach-final :
    {w v : World} (j : ℕ) (s : TaskStatus)
    → Reach start w
    → Reach w v
    → IsFinal s
    → status w.statuses j ≡ some s
    → status v.statuses j ≡ some s
unfolding status
Reach-final j s r here final known = known
Reach-final j s r (next q step) final known =
    Step-final j s (Reach-Fit (Reach-trans r q)) step final (Reach-final j s r q final known)

-- The thread of a task that never starts: it sleeps or has ended.
abbrev pub Quiet : Option Phase → Type 0
Quiet p = (p ≡ some sleeping) ⊎ (p ≡ some ended)

abbrev pub NeverStarts : ℕ → World → Type 0
NeverStarts j v = (status v.statuses j ≡ some cancelled) × Quiet (get v.threads j)

insert-Quiet :
    (t : Map ℕ Phase) (id j : ℕ) (p : Phase)
    → (id ≡ j → Quiet (some p))
    → Quiet (get t j)
    → Quiet (get (insert t id p) j)
insert-Quiet t id j p same quiet = rw (get-insert t id j p) (elim (Bool-cases (id == j)) [
  | inl mine ↦ rw mine (same ((nat_eq.test_iff id j).0 mine))
  | inr other ↦ rw other quiet
])

none-Quiet : {o : Option Phase} → o ≡ none → Quiet o → ⊥
none-Quiet e (inl q) = cc
none-Quiet e (inr q) = cc

working-Quiet : {o : Option Phase} → o ≡ some working → Quiet o → ⊥
working-Quiet e (inl q) = absurd (cc)
working-Quiet e (inr q) = absurd (cc)

wake-cancelled : (m : Statuses) (id : ℕ) → get m id ≡ some cancelled → (wake m id).0 ≡ false
unfolding wake is_cancelled
wake-cancelled m id e = rw e refl

Step-Quiet : {w v : World} (j : ℕ) → Step w v → NeverStarts j w → Quiet (get v.threads j)
unfolding status
Step-Quiet {w} j (spawns id fresh) h =
    insert-Quiet w.threads id j working
      (λ same. absurd (none-Quiet (ap (get w.threads) (sym same) ∙ fresh) h.1)) h.1
Step-Quiet {w} j (schedules id fresh) h =
    insert-Quiet w.threads id j sleeping (λ same. inl refl) h.1
Step-Quiet {w} j (wakes id asleep) h =
    insert-Quiet w.threads id j _
      (λ same.
        let stop = wake-cancelled w.statuses id (ap (get w.statuses) same ∙ h.0) in
        rw stop (inr refl))
      h.1
Step-Quiet {w} j (finishes id busy) h = insert-Quiet w.threads id j ended (λ same. inr refl) h.1
Step-Quiet {w} j (panics id busy) h =
    insert-Quiet w.threads id j died
      (λ same. absurd (working-Quiet (ap (get w.threads) (sym same) ∙ busy) h.1)) h.1
Step-Quiet j (cancels id) h = h.1

-- In every interleaving on a new scheduler, a task that is cancelled while its thread sleeps is
-- never started: it stays cancelled, and its thread sleeps or has ended.
pub Reach-NeverStarts :
    {w v : World} (j : ℕ)
    → Reach start w
    → Reach w v
    → status w.statuses j ≡ some cancelled
    → get w.threads j ≡ some sleeping
    → NeverStarts j v
Reach-NeverStarts j r here off asleep = (off, inl asleep)
Reach-NeverStarts j r (next q step) off asleep =
    let before = Reach-NeverStarts j r q off asleep in
    (
      Reach-final j cancelled (Reach-trans r q) (next here step) (inr refl) before.0,
      Step-Quiet j step before,
    )
