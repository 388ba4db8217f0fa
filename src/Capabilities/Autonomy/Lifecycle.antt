-- ===== src/Capabilities/Autonomy/Lifecycle.antt =====
-- The life of an `AutonomyStateMachine`: what its methods may do to it.
use skifer.Prelude.{
  ℕ, String, ◌≡◌, ◌⊎◌, inl, inr, refl, sym, ap, subst, true, Option, List, [], ◌∷◌, arith,
}
use skifer.Outcome.{transition_error, Result, ok, err}
use skifer.Capabilities.Executors.{Registry}
use skifer.Capabilities.Autonomy.Shadow.{record_shadow, SameLife, record_shadow-SameLife}
use skifer.Time.{DateTime}
use skifer.Json.{Value, JsonLibrary}
use skifer.Capabilities.Model.{CapabilityDefinition}
use skifer.Capabilities.Preconditions.{PreconditionReport}
use skifer.Capabilities.Autonomy.{allowed, ApprovalRecord}
use skifer.Capabilities.Autonomy.Machine.{
  Machine, is_proposed, commit, move, pass_preconditions, request_approval, check_given,
  write_given, record_approval, begin_execution, record_success, record_failure, record_compensated,
  begin_compensation,
}

-- The methods, with what they are called with.
pub data Call : Type 0 where
  pass : PreconditionReport → Call
  ask_approval : CapabilityDefinition → String → Value → Call
  give_approval : DateTime → ApprovalRecord → Call
  begin :
      DateTime
      → CapabilityDefinition
      → String
      → Value
      → Option PreconditionReport
      → Option ApprovalRecord
      → Option String
      → Call
  succeed fail undo_done : Call
  undo : CapabilityDefinition → Call
  shadow : Registry → ℕ → CapabilityDefinition → String → Value → Call

abbrev pub forget : {A : Type 0} → Result A × Machine → Result (Unit {0}) × Machine
forget (ok _, m) = (ok tt, m)
forget (err e, m) = (err e, m)

unfoldable pub invoke : JsonLibrary → Call → Machine → Result (Unit {0}) × Machine
invoke lib (pass report) m = pass_preconditions report m
invoke lib (ask_approval d s a) m = forget (request_approval lib d s a m)
invoke lib (give_approval now a) m = record_approval lib now a m
invoke lib (begin now d s args r a h) m = begin_execution lib now d s args r a h m
invoke lib succeed m = record_success m
invoke lib fail m = record_failure m
invoke lib undo_done m = record_compensated m
invoke lib (undo d) m = begin_compensation d m
invoke lib (shadow executors moment d s a) m = forget (record_shadow lib executors moment d s a m)

-- Calls one after another; the caller goes on behind an exception.
unfoldable pub invoke_all : JsonLibrary → List Call → Machine → Machine
invoke_all lib [] m = m
invoke_all lib (c ∷ cs) m = invoke_all lib cs (invoke lib c m).1

-- A call of any method but `record_shadow`: it raised and left the machine as it was, or it went along an allowed transition.
pub Passed : Machine → Result (Unit {0}) × Machine → Type 0
Passed m (ok _, m') = allowed m.state m'.state ≡ true
Passed m (err _, m') = m' ≡ m

-- A call: `record_shadow` is refused and changes nothing, or the machine is in PROPOSED, stays there,
-- and has another proposal and simulated result at most, whether the call raises or not.
pub Moved : Call → Machine → Result (Unit {0}) × Machine → Type 0
Moved (shadow executors moment d s a) m x =
    ((is_proposed m.state ≡ true) × SameLife m x.1) ⊎ (x ≡ (err transition_error, m))
Moved _ m x = Passed m x

Passed-record_success : (m : Machine) → Passed m (record_success m)
unfolding Passed record_success commit move
Passed-record_success m = ground arith

Passed-pass : (r : PreconditionReport) (m : Machine) → Passed m (pass_preconditions r m)
unfolding Passed pass_preconditions commit move
Passed-pass r m = ground arith

module _ (lib : JsonLibrary) where
  Passed-request_approval :
      (d : CapabilityDefinition) (s : String) (a : Value) (m : Machine)
      → Passed m (forget (request_approval lib d s a m))
  unfolding Passed request_approval move
  Passed-request_approval d s a m = ground arith

  Passed-record_approval :
      (now : DateTime) (a : ApprovalRecord) (m : Machine) → Passed m (record_approval lib now a m)
  unfolding Passed record_approval check_given write_given commit move allowed
  Passed-record_approval now a m = ground arith

  Passed-begin_execution :
      (now : DateTime) (d : CapabilityDefinition) (s : String) (args : Value)
      (r : Option PreconditionReport) (a : Option ApprovalRecord) (h : Option String) (m : Machine)
      → Passed m (begin_execution lib now d s args r a h m)
  unfolding Passed begin_execution commit move
  Passed-begin_execution now d s args r a h m = ground arith

  Moved-shadow :
      (executors : Registry) (moment : ℕ) (d : CapabilityDefinition) (s : String) (a : Value)
      (m : Machine)
      → Moved
          (shadow executors moment d s a)
          m
          (forget (record_shadow lib executors moment d s a m))
  unfolding Moved
  Moved-shadow executors moment d s a m =
      elim (record_shadow-SameLife lib executors moment d s a m) [
        | inl (state, same) ↦ inl (
          state,
          subst (SameLife m) (sym (forget_keeps (record_shadow lib executors moment d s a m))) same,
        )
        | inr refused ↦ inr (ap forget refused)
      ]
    where
      forget_keeps : {A : Type 0} (x : Result A × Machine) → (forget x).1 ≡ x.1
      forget_keeps (ok _, m) = refl
      forget_keeps (err _, m) = refl

  -- Whatever method is called, and however. One other than `record_shadow` raised and left the machine
  -- as it was, or the machine went along one allowed transition. `record_shadow` either raised
  -- TransitionError and left the machine as it was; or it found it in PROPOSED and left it there,
  -- with nothing changed, also where it raised, but the proposal and the simulated result.
  pub invoke-Moved : (c : Call) (m : Machine) → Moved c m (invoke lib c m)
  unfolding invoke Moved
  invoke-Moved (pass report) m = Passed-pass report m
  invoke-Moved (ask_approval d s a) m = Passed-request_approval d s a m
  invoke-Moved (give_approval now a) m = Passed-record_approval now a m
  invoke-Moved (begin now d s args r a h) m = Passed-begin_execution now d s args r a h m
  invoke-Moved succeed m = Passed-record_success m
  invoke-Moved fail m = unfold Passed record_failure commit move in ground arith
  invoke-Moved undo_done m = unfold Passed record_compensated commit move in ground arith
  invoke-Moved (undo d) m = unfold Passed begin_compensation commit move in ground arith
  invoke-Moved (shadow executors moment d s a) m = Moved-shadow executors moment d s a m
