-- ===== src/Capabilities/Governed/Execute/Prior.antt =====
-- `_resolve_prior` and `_reconcile_lost_response` of executor.py.
use skifer.Prelude.{ℕ, ◌+◌, String, Option, none, some, leb}
use skifer.Outcome.{Result, ok, err, duplicate_request_error, lost_response_error, ok, err, refuse}
use skifer.Json.{Value}
use skifer.Json.Copy.{copy_json_safe}
use skifer.Capabilities.Model.{CapabilityDefinition}
use skifer.Capabilities.Autonomy.{ExecutionState, executing, executed}
use skifer.Capabilities.Executors.{CapabilityResult, LookupAnswer, get_executor}
use skifer.Capabilities.History.{CapabilityStateEvent, max_history_page_size}
use skifer.Capabilities.Governed.{Host}
use skifer.Capabilities.Governed.Effects.{
  M, ◌>>=◌, ◌>>◌, pure, lift, raise, look_up, read_events, attest,
}
use skifer.Capabilities.Governed.Checks.{
  recorded_result, attempt_detail, reconciliation_detail, count_attempts, looked_up_result,
  as_lost_response, reconciled_state,
}

module _ {h : Host} where
  -- The lookup itself, behind the recorded attempt, with the copy of the arguments.
  unfoldable pub ask_lookup :
      CapabilityDefinition
      → String
      → (ℕ → Value → LookupAnswer)
      → Result Value
      → M h CapabilityResult
  ask_lookup definition digest lookup (err _) = raise lost_response_error
  ask_lookup definition digest lookup (ok copied) = do
    raw ← look_up digest definition.executor (λ t. lookup t copied)
    lift (as_lost_response (looked_up_result definition raw))

  unfoldable pub reconcile_with :
      CapabilityDefinition
      → String
      → Value
      → String
      → Option (ℕ → Value → LookupAnswer)
      → M h CapabilityResult
  reconcile_with definition subject arguments digest none = raise lost_response_error
  reconcile_with definition subject arguments digest (some lookup) = do
    events ← read_events digest max_history_page_size
    let attempts = count_attempts events
    lift (refuse (leb h.max_retries attempts) lost_response_error)
    attest digest definition subject executing (attempt_detail (attempts + 1))
    result ← ask_lookup definition digest lookup (copy_json_safe arguments)
    attest digest definition subject (reconciled_state result) (reconciliation_detail result)
    pure result

  -- `_reconcile_lost_response`
  unfoldable pub reconcile_lost_response :
      CapabilityDefinition → String → Value → String → M h CapabilityResult
  reconcile_lost_response definition subject arguments digest = do
    executor ← lift (get_executor definition.executor h.executors)
    reconcile_with definition subject arguments digest executor.lookup

  unfoldable pub by_state :
      ExecutionState → CapabilityStateEvent → M h CapabilityResult → M h CapabilityResult
  by_state executed prior reconcile = lift (recorded_result prior)
  by_state executing prior reconcile = reconcile
  by_state _ prior reconcile = raise duplicate_request_error

  -- `_resolve_prior`
  unfoldable pub resolve_prior :
      CapabilityStateEvent → CapabilityDefinition → String → Value → String → M h CapabilityResult
  unfolding by_state
  resolve_prior prior definition subject arguments digest =
      by_state prior.state prior (reconcile_lost_response definition subject arguments digest)
