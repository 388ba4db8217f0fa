-- ===== src/Capabilities/Autonomy/Mode.antt =====
-- `resolve_autonomy_mode`: the stricter of two policies.
use skifer.Prelude.{◌≤◌, ◌≡◌, ◌⊎◌, ◌↔◌, Option, some, arith, or_else}
use skifer.Outcome.{ok, err, autonomy_error}
use skifer.Capabilities.Model.{CapabilityDefinition, guarded, irreversible}
use skifer.Capabilities.Autonomy.{
  AutonomyMode, shadow_mode, guarded_mode, declared_mode, rank, resolve_autonomy_mode,
}

-- The mode of the environment: what is configured, else SHADOW.
abbrev pub environment_mode : Option AutonomyMode → AutonomyMode
environment_mode configured = or_else configured shadow_mode

-- A resolved mode is one of the two policies, is at least as strict as each of them, and is never
-- GUARDED for an irreversible capability.
pub resolve_strictest :
    (d : CapabilityDefinition) (configured : Option AutonomyMode) (m : AutonomyMode)
    → resolve_autonomy_mode d configured ≡ ok m
    → ((m ≡ declared_mode d.approval) ⊎ (m ≡ environment_mode configured))
      × (rank (declared_mode d.approval) ≤ rank m)
      × (rank (environment_mode configured) ≤ rank m)
      × (d.reversibility ≡ irreversible → m ≡ guarded_mode → ⊥)
unfolding resolve_autonomy_mode
resolve_strictest d configured m h = ground arith

-- The only refusal: an irreversible capability that both policies would let run GUARDED.
pub resolve_refuses_iff :
    (d : CapabilityDefinition) (configured : Option AutonomyMode)
    → (resolve_autonomy_mode d configured ≡ err autonomy_error) ↔ (
        (d.reversibility ≡ irreversible)
        × (d.approval ≡ guarded)
        × (configured ≡ some guarded_mode))
unfolding resolve_autonomy_mode
resolve_refuses_iff d configured = (λ h. ground arith, λ h. ground arith)
