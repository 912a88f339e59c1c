-- ===== src/Fabric/Session/Machine.antt =====
-- The state machine of the sessions of crates/fabric/src/session.rs as a relation.
use tordex.Prelude.{◌≡◌, ◌⊎◌, ◌↔◌, refl, true, arith}
use tordex.Fabric.Session.{
  SessionState, queued, running, succeeded, failed, cancelled, allowed_transition,
}

-- The moves of a session.
pub data Move : SessionState → SessionState → Type 0 where
  start : Move queued running
  succeed : Move running succeeded
  fail : Move running failed
  retry : Move failed queued
  cancel_queued : Move queued cancelled
  cancel_running : Move running cancelled
  cancel_failed : Move failed cancelled

pub data Moves (s : SessionState) : SessionState → Type 0 where
  here : Moves s s
  next : {t u : SessionState} → Moves s t → Move t u → Moves s u

allowed→Move : (s t : SessionState) → allowed_transition s t ≡ true → Move s t
unfolding allowed_transition
allowed→Move queued running h = start
allowed→Move queued cancelled h = cancel_queued
allowed→Move running succeeded h = succeed
allowed→Move running failed h = fail
allowed→Move running cancelled h = cancel_running
allowed→Move failed queued h = retry
allowed→Move failed cancelled h = cancel_failed
allowed→Move queued queued h = absurd (cc)
allowed→Move queued succeeded h = absurd (cc)
allowed→Move queued failed h = absurd (cc)
allowed→Move running queued h = absurd (cc)
allowed→Move running running h = absurd (cc)
allowed→Move failed running h = absurd (cc)
allowed→Move failed succeeded h = absurd (cc)
allowed→Move failed failed h = absurd (cc)
allowed→Move succeeded t h = absurd (cc)
allowed→Move cancelled t h = absurd (cc)

Move→allowed : {s t : SessionState} → Move s t → allowed_transition s t ≡ true
unfolding allowed_transition
Move→allowed start = refl
Move→allowed succeed = refl
Move→allowed fail = refl
Move→allowed retry = refl
Move→allowed cancel_queued = refl
Move→allowed cancel_running = refl
Move→allowed cancel_failed = refl

-- The table of the code is the relation.
pub allowed_transition-Move : (s t : SessionState) → (allowed_transition s t ≡ true) ↔ Move s t
allowed_transition-Move s t = (allowed→Move s t, Move→allowed)

-- A session that has succeeded or was cancelled.
abbrev pub IsFinal : SessionState → Type 0
IsFinal s = (s ≡ succeeded) ⊎ (s ≡ cancelled)

pub Move-not-IsFinal : {s t : SessionState} → Move s t → ¬ (IsFinal s)
Move-not-IsFinal start f = ground arith
Move-not-IsFinal succeed f = ground arith
Move-not-IsFinal fail f = ground arith
Move-not-IsFinal retry f = ground arith
Move-not-IsFinal cancel_queued f = ground arith
Move-not-IsFinal cancel_running f = ground arith
Move-not-IsFinal cancel_failed f = ground arith
