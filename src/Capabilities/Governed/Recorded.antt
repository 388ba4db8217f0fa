-- ===== src/Capabilities/Governed/Recorded.antt =====
-- What the journal's outcome of a call gives back.
use skifer.Prelude.{String, ◌≡◌, refl, Bool, Option, none, some}
use skifer.Outcome.{ok}
use skifer.Capabilities.Executors.{CapabilityResult, make_result, result_to_dict}
use skifer.Capabilities.Arguments.{get_field}
use skifer.Capabilities.History.{CapabilityStateEvent}
use skifer.Capabilities.Governed.Checks.{recorded_result, result_from, outcome_detail}

with_error_type :
    (e : CapabilityStateEvent) (r : CapabilityResult) (echo : Bool) (t : Option String)
    → make_result (record r { error_type = t }) ≡ ok (record r { error_type = t })
    → recorded_result (record e { detail = outcome_detail (record r { error_type = t }) echo })
      ≡ ok (record r { error_type = t })
unfolding recorded_result result_from result_to_dict get_field
with_error_type e r echo none p = rw p refl
with_error_type e r echo (some t) p = rw p refl

-- The recorded result of an event with the detail of an outcome is that outcome's result, whenever
-- that result can be made.
pub recorded_result-outcome_detail :
    (e : CapabilityStateEvent) (r : CapabilityResult) (echo : Bool)
    → make_result r ≡ ok r
    → recorded_result (record e { detail = outcome_detail r echo }) ≡ ok r
recorded_result-outcome_detail e r echo p = with_error_type e r echo r.error_type p
