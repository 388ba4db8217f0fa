-- ===== src/Capabilities/Governed/Replay.antt =====
-- A request that the journal already knows.
use skifer.Prelude.{String, ◌≡◌, ◌≢◌, refl, sym, ◌∙◌, none, some, arith}
use skifer.Outcome.{Error, Result, ok, err}
use skifer.Outcome.Laws.{ok-injective}
use skifer.Capabilities.Autonomy.{ExecutionState, executing, executed}
use skifer.Capabilities.Executors.{CapabilityResult}
use skifer.Capabilities.History
use skifer.Capabilities.History.{CapabilityStateEvent}
use skifer.Capabilities.Governed.{Host, World}
use skifer.Capabilities.Governed.Effects.{lift, raise}
use skifer.Json.{Value}
use skifer.Capabilities.Governed.Chains.{lift_lem, read_latest_lem}
use skifer.Capabilities.Governed.Checks.{recorded_result}
use skifer.Capabilities.Governed.Execute.{Request, execute, execute_as, identity, dispatch}
use skifer.Capabilities.Governed.Execute.Prior.{resolve_prior, by_state, reconcile_lost_response}

-- Nothing changed, and a result is the one that the executed event recorded.
abbrev pub Replayed :
    {h : Host} → World h → CapabilityStateEvent → Result CapabilityResult × World h → Type 0
Replayed w prior x =
    (x.1 ≡ w)
    × ((result : CapabilityResult)
        → x.0 ≡ ok result
        → (prior.state ≡ executed) × (recorded_result prior ≡ ok result))

module _ {h : Host} (w : World h) (prior : CapabilityStateEvent) where
  refused : (e : Error) → Replayed w prior (err e, w)
  refused e = (refl, λ _ q. ground arith)

  resolve_prior-Replayed :
      (r : Request) (d : String) (copied : Value)
      → prior.state ≢ executing
      → Replayed w prior (resolve_prior {h = h} prior r.definition r.subject copied d w)
  unfolding resolve_prior by_state lift raise
  resolve_prior-Replayed r d copied s = by_state_lem prior.state refl
    where
      by_state_lem :
          (x : ExecutionState)
          → prior.state ≡ x
          → Replayed w prior
              (by_state {h = h} x prior (reconcile_lost_response r.definition r.subject copied d) w)
      by_state_lem executed p = (refl, λ _ q. (p, q))
      by_state_lem executing p = absurd (s p)
      by_state_lem x p = (refl, λ _ q. ground arith)

-- A request whose latest event is in a state other than EXECUTING changes nothing at all: no call,
-- no lookup, no event. If it returns, that event is EXECUTED and the result is the recorded one.
pub execute-Replayed :
    (h : Host) (r : Request) (w : World h) (d : String) (prior : CapabilityStateEvent)
    → identity h r none ≡ ok d
    → History.latest_state h.lib h.lower d w.rows ≡ ok (some prior)
    → prior.state ≢ executing
    → Replayed w prior (execute r w)
unfolding execute execute_as dispatch
execute-Replayed h r w d prior i l s = lift_lem P _ _ w no (λ _ _. lift_lem P _ _ w no (λ _ _.
    lift_lem P _ _ w no (λ x p. lift_lem P _ _ w no (λ copied _.
      read_latest_lem P x _ w (some prior) (rw (ok-injective (sym p ∙ i)) l)
        (lift_lem P _ _ w no (λ _ _. resolve_prior-Replayed w prior r x copied s))))))
  where
    P : Result CapabilityResult × World h → Type 0
    P = Replayed w prior

    no : {A : Type 0} {x : Result A} (e : Error) → x ≡ err e → P (err e, w)
    no e _ = refused w prior e
