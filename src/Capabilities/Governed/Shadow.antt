-- ===== src/Capabilities/Governed/Shadow.antt =====
-- SHADOW mode.
use skifer.Prelude.{String, ◌≡◌, refl, sym, ◌∙◌, Option, none, some, arith}
use skifer.Outcome.{Error, Result, ok, err}
use skifer.Outcome.Laws.{ok-injective}
use skifer.Json.{Value}
use skifer.Capabilities.Autonomy.{AutonomyMode, shadow_mode, resolve_autonomy_mode}
use skifer.Capabilities.Executors.{CapabilityResult, make_result}
use skifer.Capabilities.Lease.{CredentialLease}
use skifer.Capabilities.History
use skifer.Capabilities.Governed.{Host, World}
use skifer.Capabilities.Governed.Effects.{lift, raise}
use skifer.Capabilities.Governed.Chains.{lift_lem, read_latest_lem}
use skifer.Capabilities.Governed.Checks.{success, shadow_output}
use skifer.Capabilities.Governed.Execute.{
  Request, execute, execute_as, identity, dispatch, run_fresh, run_in_mode, propose,
}

-- Nothing changed, and a result came without a lease and says that the request was proposed.
abbrev pub Proposed : {h : Host} → Request → World h → Result CapabilityResult × World h → Type 0
Proposed r w x =
    (x.1 ≡ w)
    × ((result : CapabilityResult)
        → x.0 ≡ ok result
        → (r.lease ≡ none) × (make_result (success r.definition shadow_output) ≡ ok result))

propose-Proposed :
    {h : Host} (r : Request) (w : World h) (l : Option CredentialLease)
    → r.lease ≡ l
    → Proposed r w (propose r l w)
unfolding propose raise lift
propose-Proposed r w none p = (refl, λ _ q. (p, q))
propose-Proposed r w (some l) p = (refl, λ _ q. ground arith)

run_in_mode-Proposed :
    {h : Host} (r : Request) (w : World h) (d : String) (copied : Value) (mode : AutonomyMode)
    → mode ≡ shadow_mode
    → Proposed r w (run_in_mode r d copied mode w)
unfolding run_in_mode
run_in_mode-Proposed r w d copied mode p = rw p (propose-Proposed r w r.lease refl)

-- A request that the journal does not know, and whose effective mode is SHADOW, changes nothing at
-- all, whatever else is asked; it returns only without a lease, and its result is the proposal.
pub execute-Proposed :
    (h : Host) (r : Request) (w : World h) (d : String)
    → identity h r none ≡ ok d
    → History.latest_state h.lib h.lower d w.rows ≡ ok none
    → resolve_autonomy_mode r.definition (some r.mode) ≡ ok shadow_mode
    → Proposed r w (execute r w)
unfolding execute execute_as dispatch run_fresh run_in_mode
execute-Proposed h r w d i l s = lift_lem P _ _ w no λ _ _. lift_lem P _ _ w no λ _ _.
    lift_lem P _ _ w no λ x p. lift_lem P _ _ w no λ copied _.
      read_latest_lem P x _ w none (rw (ok-injective (sym p ∙ i)) l) (
        lift_lem P _ _ w no λ _ _.
          lift_lem P _ _ w no
            λ mode q. run_in_mode-Proposed r w x copied mode (ok-injective (sym q ∙ s)))
  where
    P : Result CapabilityResult × World h → Type 0
    P = Proposed r w

    no : {A : Type 0} {x : Result A} (e : Error) → x ≡ err e → P (err e, w)
    no e _ = (refl, λ _ q. ground arith)
