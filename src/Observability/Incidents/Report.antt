-- ===== src/Observability/Incidents/Report.antt =====
-- The incidents of a report: `incidents_from_report`.
use skifer.Prelude.{
  String, ◌≡◌, refl, Bool, true, not, ◌&&◌, ◌==◌, eq_iff, eq_refl, none, List, [], ◌∷◌, map, elem,
  distinct, any, All, arith, Bool-cases, inl, inr,
}
use skifer.Time.{DateTime}
use skifer.Observability.Checks.{CheckResult, is_critical, incident_check_name}
use skifer.Observability.Incidents.{
  new, Incident, is_failure, collect_incidents, incidents_from_report,
}

abbrev pub names : List Incident → List String
names = map (λ i. i.check_name)

-- A failing result of this name.
abbrev pub fails : String → List CheckResult → Bool
fails name = any (λ r. is_failure r && incident_check_name r.contract == name)

-- The names that are raised: those of the failing results that were not seen before.
collect-names :
    (run target : String) (now : DateTime) (name : String) (rs : List CheckResult)
    (seen : List String)
    → elem name (names (collect_incidents run target now rs seen))
      ≡ (fails name rs && not (elem name seen))
unfolding collect_incidents
collect-names run target now name [] seen = refl
collect-names run target now name (r ∷ rs) seen =
    elim (Bool-cases (incident_check_name r.contract == name)) [
      | inl same ↦
          let e = (eq_iff (incident_check_name r.contract) name).0 same in
          ground (
            arith,
            same,
            e,
            collect-names run target now name rs seen,
            collect-names run target now name rs (incident_check_name r.contract ∷ seen),
          )
      | inr other ↦ ground (
        arith,
        other,
        collect-names run target now name rs seen,
        collect-names run target now name rs (incident_check_name r.contract ∷ seen),
      )
    ]

collect-distinct :
    (run target : String) (now : DateTime) (rs : List CheckResult) (seen : List String)
    → distinct (names (collect_incidents run target now rs seen)) ≡ true
unfolding collect_incidents
collect-distinct run target now [] seen = refl
collect-distinct run target now (r ∷ rs) seen =
    let name = incident_check_name r.contract in
    ground (
      arith,
      collect-names run target now name rs (name ∷ seen),
      eq_refl name,
      collect-distinct run target now rs seen,
      collect-distinct run target now rs (name ∷ seen),
    )

-- Newly opened by this run, for this target.
pub record IsOpening (run target : String) (now : DateTime) (i : Incident) : Type 0 where
  pub of_run : i.run_id ≡ run
  pub of_target : i.target_fqn ≡ target
  pub at_time : i.opened_at ≡ now
  pub critical : is_critical i.severity ≡ true
  pub is_new : i.status ≡ new
  pub unresolved : i.resolved_at ≡ none

collect-IsOpening :
    (run target : String) (now : DateTime) (rs : List CheckResult) (seen : List String)
    → All (IsOpening run target now) (collect_incidents run target now rs seen)
unfolding collect_incidents is_failure
collect-IsOpening run target now [] seen = tt
collect-IsOpening run target now (r ∷ rs) seen =
    elim (Bool-cases (is_failure r && not (elem (incident_check_name r.contract) seen))) [
      | inl p ↦ rw p (
        ground arith,
        collect-IsOpening run target now rs (incident_check_name r.contract ∷ seen),
      )
      | inr p ↦ rw p (collect-IsOpening run target now rs seen)
    ]

-- The incidents of a report are new, of this run, target and time, and critical; no two have the same check
-- name; and a name is that of an incident exactly if it is the name of a critical result that
-- neither passed nor was skipped.
pub incidents_from_report-IsOpening :
    (results : List CheckResult) (run target : String) (now : DateTime)
    → All (IsOpening run target now) (incidents_from_report results run target now)
      × (distinct (names (incidents_from_report results run target now)) ≡ true)
      × ((name : String)
          → elem name (names (incidents_from_report results run target now)) ≡ fails name results)
unfolding incidents_from_report
incidents_from_report-IsOpening results run target now = (
  collect-IsOpening run target now results [],
  collect-distinct run target now results [],
  λ name. ground (arith, collect-names run target now name results []),
)
