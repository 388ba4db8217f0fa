-- ===== src/Capabilities/Autonomy/Shadow.antt =====
-- `AutonomyStateMachine.record_shadow` of autonomy.py: a proposal, and its simulation by a dry run.
use skifer.Prelude.{
  ℕ, String, ◌≡◌, ◌⊎◌, inl, inr, refl, true, Bool-cases, arith, Option, none, some, if◌then◌else◌,
}
use skifer.Outcome.{
  interrupted, type_error, transition_error, Result, ok, err, require, class_of, ◌>>=◌, ◌>>◌,
}
use skifer.Json.{Value, text, dict, end, field, name, is_mapping, JsonLibrary}
use skifer.Json.Copy.{copy_json_safe}
use skifer.Capabilities.Model.{CapabilityDefinition}
use skifer.Capabilities.Executors.{CallAnswer, returned, threw, Executor, Registry, get_executor}
use skifer.Capabilities.Autonomy.Machine.{Machine, is_proposed, copy_request}

-- `self._proposal`
unfoldable pub proposal_of : CapabilityDefinition → String → Value → String → Value
proposal_of definition subject copied digest = dict (
    field (name "capability_id") (text definition.id) (
      field (name "capability_version") (text definition.version) (
        field (name "subject") (text subject)
          (field (name "arguments") copied (field (name "request_hash") (text digest) end)))))

answer_output : CallAnswer → Result Value
answer_output (threw e) = err e
answer_output (returned raw) = do require (is_mapping raw) type_error; copy_json_safe raw

-- The body of the `try`.
unfoldable pub dry_run_output : Executor → ℕ → Value → Result Value
unfolding answer_output
dry_run_output executor moment copied =
    copy_json_safe copied >>= λ arguments. answer_output (executor.dry_run moment arguments)

-- `self._simulated_result` behind the `try`, whose handler takes an `Exception` only.
unfoldable pub simulated : Machine → Result Value → Result (Option Value) × Machine
simulated m (ok output) =
    let result =
      dict (field (name "status") (text "SIMULATED") (field (name "output") output end)) in
    (ok (some result), record m { simulated_result = some result })
simulated m (err interrupted) = (err interrupted, m)
simulated m (err e) =
    let result = dict (
      field (name "status") (text "SIMULATED")
        (field (name "output") (dict end) (field (name "error_type") (text (class_of e)) end))) in
    (ok (some result), record m { simulated_result = some result })

unfoldable pub simulate : ℕ → Value → Machine → Result Executor → Result (Option Value) × Machine
unfolding simulated dry_run_output
simulate moment copied m (err e) = (err e, m)
simulate moment copied m (ok executor) =
    if executor.supports_dry_run
    then simulated m (dry_run_output executor moment copied)
    else (ok none, m)

-- With the copy of the request: the proposal is written before the registry is asked, which may raise.
unfoldable pub shadow_with :
    Registry
    → ℕ
    → CapabilityDefinition
    → String
    → Machine
    → Result (Value × String)
    → Result (Option Value) × Machine
unfolding simulate proposal_of
shadow_with executors moment definition subject m (err e) = (err e, m)
shadow_with executors moment definition subject m (ok (copied, digest)) =
    simulate moment copied
      (record m { proposal = some (proposal_of definition subject copied digest) })
      (get_executor definition.executor executors)

unfoldable pub record_shadow :
    JsonLibrary
    → Registry
    → ℕ
    → CapabilityDefinition
    → String
    → Value
    → Machine
    → Result (Option Value) × Machine
unfolding shadow_with
record_shadow lib executors moment definition subject arguments m =
    if is_proposed m.state
    then shadow_with executors moment definition subject m
        (copy_request lib definition subject arguments)
    else (err transition_error, m)

-- A machine that differs from the first in its proposal and its simulated result at most.
unfoldable pub SameLife : Machine → Machine → Type 0
SameLife m m' = m' ≡ record m { proposal = m'.proposal; simulated_result = m'.simulated_result }

simulated-SameLife : (m : Machine) (r : Result Value) → SameLife m (simulated m r).1
unfolding SameLife simulated
simulated-SameLife m r = ground arith

module _ (lib : JsonLibrary) (executors : Registry) (moment : ℕ) (d : CapabilityDefinition)
    (subject : String) where
  simulate-SameLife :
      (copied : Value) (m : Machine) (x : Result Executor)
      → SameLife m (simulate moment copied m x).1
  unfolding simulate SameLife
  simulate-SameLife copied m (err e) = refl
  simulate-SameLife copied m (ok x) = elim (Bool-cases x.supports_dry_run) [
    | inl chosen ↦ rw chosen (simulated-SameLife m (dry_run_output x moment copied))
    | inr other ↦ rw other refl
  ]

  with-SameLife :
      (m : Machine) (r : Result (Value × String))
      → SameLife m (shadow_with executors moment d subject m r).1
  unfolding shadow_with SameLife
  with-SameLife m (err e) = refl
  with-SameLife m (ok (copied, digest)) =
      let written : Machine = record m { proposal = some (proposal_of d subject copied digest) } in
      let x = simulate-SameLife copied written (get_executor d.executor executors) in x

  -- What `record_shadow` does to a machine: nothing where it is refused at the start, and else it
  -- writes nothing but the proposal and the simulated result, of a machine in PROPOSED.
  pub record_shadow-SameLife :
      (arguments : Value) (m : Machine)
      → ((is_proposed m.state ≡ true)
          × SameLife m (record_shadow lib executors moment d subject arguments m).1)
        ⊎ (record_shadow lib executors moment d subject arguments m ≡ (err transition_error, m))
  unfolding record_shadow
  record_shadow-SameLife arguments m = elim (Bool-cases (is_proposed m.state)) [
    | inl chosen ↦ inl (chosen, rw chosen (with-SameLife m (copy_request lib d subject arguments)))
    | inr other ↦ inr (rw other refl)
  ]
