-- ===== src/Capabilities/Governed/Session.antt =====
-- Any sequence of executions, compensations and restarts over one journal.
use skifer.Prelude.{◌≤◌, ◌<◌, String, ◌≡◌, true, List, [], ◌∷◌, arith}
use skifer.Capabilities.Credentials.{new_broker}
use skifer.Capabilities.History.Rows.{has_request}
use skifer.Capabilities.Governed.{Host, World}
use skifer.Capabilities.Governed.Execute.{Request, execute}
use skifer.Capabilities.Governed.Compensate.{Compensation, compensate}
use skifer.Capabilities.Governed.Trace.{calls_for}
use skifer.Capabilities.Governed.Once.{IsSound, Distinct, execute_as-IsSound}
use skifer.Capabilities.Governed.Once.Compensated.{compensate-IsSound}

-- A restart of the process loses the broker, and keeps the journal.
pub data Operation : Type 0 where
  run : Request → Operation
  undo : Compensation → Operation
  restart : Operation

-- An empty journal, and nothing called.
abbrev pub start : (h : Host) → World h
start h = record { rows = []; broker = new_broker; tick = 0; calls = []; lookups = [] }

module _ {h : Host} where
  unfoldable pub step : Operation → World h → World h
  step (run r) w = (execute r w).1
  step (undo c) w = (compensate c w).1
  step restart w = record w { broker = new_broker }

  unfoldable pub session : List Operation → World h → World h
  session [] w = w
  session (o ∷ os) w = session os (step o w)

module _ {h : Host} (distinct : Distinct h) where
  step-IsSound : (o : Operation) (w : World h) → IsSound w → IsSound (step o w)
  unfolding step execute
  step-IsSound (run r) w s = execute_as-IsSound distinct r _ w s
  step-IsSound (undo c) w s = compensate-IsSound distinct c w s
  step-IsSound restart w s = record { issued = s.issued; once = s.once; known = s.known }

  session-IsSound : (os : List Operation) (w : World h) → IsSound w → IsSound (session os w)
  unfolding session
  session-IsSound [] w s = s
  session-IsSound (o ∷ os) w s = session-IsSound os (step o w) (step-IsSound o w s)

start-IsSound : (h : Host) → IsSound (start h)
unfolding calls_for
start-IsSound h = record {
  issued = tt;
  once = λ d. omega arith;
  known = λ d p. absurd (omega arith);
}

-- If `uuid4` gives no identity twice, then after any sequence of executions, compensations and
-- restarts from an empty journal, whatever the clocks, the executors and the other callables
-- answered, every request hash has been sent to an executor at most once, and the journal holds an
-- event for each request that was.
pub at_most_once :
    (h : Host) (distinct : Distinct h) (os : List Operation) (d : String)
    → (calls_for d (session os (start h)).calls ≤ 1)
      × (0 < calls_for d (session os (start h)).calls
          → has_request d (session os (start h)).rows ≡ true)
at_most_once h distinct os d =
    let s = session-IsSound distinct os (start h) (start-IsSound h) in (s.once d, s.known d)
