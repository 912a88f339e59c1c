-- ===== src/Tests/Sessions.antt =====
-- Sessions that run, fail and succeed.
use tordex.Prelude.{ℕ, ◌≡◌, refl, inl, some, none, List, [], ◌∷◌, string_eq, arith}
use tordex.Prelude.Map.{get}
use tordex.Fabric.Session.{
  queued, running, succeeded, failed, cancelled, transition, CollectionSession, Sessions,
}
use tordex.Fabric.Session.Transition.{Transitioned, transition-Transitioned}
use tordex.Fabric.Session.Runs.{Call, creates, transitions, Sound, run, run-Sound, run-final}

abbrev done : CollectionSession ℕ
done = record {
  task_id = "t";
  target = "u";
  driver = "http";
  capability = "page";
  state = succeeded;
  attempt = 1;
  max_retries = 3;
  result = some 7;
  error = none;
  queued_at = 0;
  started_at = some 1;
  completed_at = some 2;
  metadata = [];
}

abbrev kept_sessions : Sessions ℕ
kept_sessions = ("t", done) ∷ []

abbrev busy_sessions : Sessions ℕ
busy_sessions = ("t", record done { state = running; completed_at = none }) ∷ kept_sessions

-- A session that runs fails.
transition-Transitioned_example :
    Transitioned busy_sessions "t" failed none
      (some "down")
      5
      (transition busy_sessions "t" failed none (some "down") 5)
transition-Transitioned_example =
    transition-Transitioned busy_sessions "t" failed none (some "down") 5

abbrev calls : List (Call ℕ)
calls =
    creates "t" "u" "http" "page" 3 [] 0
    ∷ transitions "t" running none none 1
    ∷ transitions "t" failed none (some "down") 2
    ∷ transitions "t" queued none none 3
    ∷ []

run-Sound_example : Sound 4 (run [] calls)
run-Sound_example = run-Sound calls (omega arith)

abbrev retries : List (Call ℕ)
retries = transitions "t" queued none none 3 ∷ transitions "t" cancelled none none 4 ∷ []

done_known : get kept_sessions "t" ≡ some done
unfolding get
done_known = refl

run-final_example : get (run kept_sessions retries) "t" ≡ some done
run-final_example = run-final kept_sessions retries "t" done (tt, (tt, tt)) done_known (inl refl)
