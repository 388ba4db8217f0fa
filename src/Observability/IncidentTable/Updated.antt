-- ===== src/Observability/IncidentTable/Updated.antt =====
-- Updates open no incident that was resolved.
use skifer.Prelude.{
  ◌≤◌, String, ◌≡◌, refl, sym, ap, ◌∙◌, subst, true, false, ◌==◌, eq_iff, inl, inr, Option, none,
  some, List, [], ◌∷◌, map, elem, distinct, arith, All, Bool-cases, Option-cases,
}
use skifer.Outcome.{ok}
use skifer.Outcome.Laws.{bind_ok, ok-injective}
use skifer.Time.{DateTime}
use skifer.Observability.Incidents.{IncidentStatus, resolved, Incident, allowed, transition}
use skifer.Observability.IncidentTable.{
  IncidentRows, is_open, get_incident, updated_row, update_rows, resolve_each, list_open_incidents,
  resolve_open_incidents, update_found, update_incident,
}
use skifer.Observability.IncidentTable.OpenCount.{count_open, ids, IsTable}

-- A row that the update opens was open.
abbrev Closes : Incident → Incident → Type 0
Closes u r = (r.id == u.id) ≡ true → is_open u ≡ true → is_open r ≡ true

count_open-updated :
    (target check : String) (u : Incident) (rows : IncidentRows)
    → All (Closes u) rows
    → count_open target check (map (updated_row u) rows) ≤ count_open target check rows
unfolding count_open updated_row
count_open-updated target check u [] c = omega arith
count_open-updated target check u (r ∷ rows) c =
    ground (arith, count_open-updated target check u rows c.1, c.0)

pub ids-updated : (u : Incident) (rows : IncidentRows) → ids (map (updated_row u) rows) ≡ ids rows
unfolding updated_row
ids-updated u [] = refl
ids-updated u (r ∷ rows) = elim (Bool-cases (r.id == u.id)) [
  | inl same ↦ rw same (ap (◌∷◌ r.id) (ids-updated u rows))
  | inr other ↦ rw other (ap (◌∷◌ r.id) (ids-updated u rows))
]

updated-IsTable :
    (u : Incident) (rows : IncidentRows)
    → All (Closes u) rows
    → IsTable rows
    → IsTable (map (updated_row u) rows)
updated-IsTable u rows c t = record {
  keys = rw (ids-updated u rows) t.keys;
  once =
      λ target check. omega (arith, count_open-updated target check u rows c, t.once target check);
}

resolved-Closes : (u : Incident) (rows : IncidentRows) → is_open u ≡ false → All (Closes u) rows
resolved-Closes u [] h = tt
resolved-Closes u (r ∷ rows) h = (λ same opened. cc, resolved-Closes u rows h)

absent-Closes :
    (u : Incident) (rows : IncidentRows) → elem u.id (ids rows) ≡ false → All (Closes u) rows
absent-Closes u [] h = tt
absent-Closes u (r ∷ rows) h =
    (λ same opened. ground (arith, h, same), absent-Closes u rows (ground (arith, h)))

found-Closes :
    (u current : Incident) (rows : IncidentRows)
    → distinct (ids rows) ≡ true
    → get_incident u.id rows ≡ some current
    → is_open current ≡ true
    → All (Closes u) rows
unfolding get_incident
found-Closes u current [] d h o = tt
found-Closes u current (r ∷ rows) d h o = elim (Bool-cases (r.id == u.id)) [
  | inl same ↦
      let p = (eq_iff r.id u.id).0 same in
      let absent : elem u.id (ids rows) ≡ false =
        subst (λ x. elem x (ids rows) ≡ false) p (ground (arith, d)) in
      (λ _ opened. ground (arith, h, same, o), absent-Closes u rows absent)
  | inr other ↦ (
    λ same opened. ground (arith, other, same),
    found-Closes u current rows (ground (arith, d)) (ground (arith, h, other)) o,
  )
]

update_rows-IsTable :
    (us : List Incident) (rows : IncidentRows)
    → All (λ u. is_open u ≡ false) us
    → IsTable rows
    → IsTable (update_rows us rows)
unfolding update_rows
update_rows-IsTable [] rows c t = t
update_rows-IsTable (u ∷ us) rows c t =
    update_rows-IsTable us (map (updated_row u) rows) c.1
      (updated-IsTable u rows (resolved-Closes u rows c.0) t)

pub resolve_each-resolved :
    (root_cause : String) (now : DateTime) (is us : List Incident)
    → resolve_each root_cause now is ≡ ok us
    → All (λ u. is_open u ≡ false) us
unfolding resolve_each transition allowed
resolve_each-resolved root_cause now [] us h = rw⁻¹ (ok-injective h) tt
resolve_each-resolved root_cause now (i ∷ is) us h =
    let (first, moved, later) = bind_ok (transition i resolved now none (some root_cause)) _ h in
    let (rest, all_moved, made) = bind_ok (resolve_each root_cause now is) _ later in
    let closed : is_open first ≡ false = ground (arith, moved) in
    subst (All (λ u. is_open u ≡ false)) (ok-injective made)
      (closed, resolve_each-resolved root_cause now is rest all_moved)

pub resolve-IsTable :
    (target root_cause : String) (now : DateTime) (rows : IncidentRows) (us : List Incident)
    (after : IncidentRows)
    → resolve_open_incidents target root_cause now rows ≡ ok (us, after)
    → IsTable rows
    → IsTable after
unfolding resolve_open_incidents
resolve-IsTable target root_cause now rows us after h t =
    let (updated, moved, made) =
      bind_ok (resolve_each root_cause now (list_open_incidents target rows)) _ h in
    subst IsTable (ap (λ p. p.1) (ok-injective made)) (
      update_rows-IsTable updated rows
        (resolve_each-resolved root_cause now (list_open_incidents target rows) updated moved) t)

transition-open :
    (i j : Incident) (new_status : IncidentStatus) (now : DateTime)
    (assignee root_cause : Option String)
    → transition i new_status now assignee root_cause ≡ ok j
    → (is_open i ≡ true) × (j.id ≡ i.id)
unfolding transition allowed
transition-open i j new_status now assignee root_cause h = (ground (arith, h), ground (arith, h))

get_incident-id :
    (id : String) (i : Incident) (rows : IncidentRows) → get_incident id rows ≡ some i → i.id ≡ id
unfolding get_incident
get_incident-id id i [] h = cc
get_incident-id id i (r ∷ rows) h = ground (arith, get_incident-id id i rows, (eq_iff r.id id).0)

pub update-IsTable :
    (id : String) (new_status : IncidentStatus) (now : DateTime)
    (assignee root_cause : Option String) (rows : IncidentRows) (u : Incident)
    (after : IncidentRows)
    → update_incident id new_status now assignee root_cause rows ≡ ok (u, after)
    → IsTable rows
    → IsTable after
unfolding update_incident update_found update_rows
update-IsTable id new_status now assignee root_cause rows u after h t =
    elim (Option-cases (get_incident id rows)) [
      | inl missing ↦ absurd (missing_refused missing)
      | inr (current, found) ↦
          let (updated, moved, made) =
            bind_ok (transition current new_status now assignee root_cause) _ (rw found at h) in
          let (opened, same) =
            transition-open current updated new_status now assignee root_cause moved in
          let named = same ∙ get_incident-id id current rows found in
          let closes =
            found-Closes updated current rows t.keys
              (subst (λ x. get_incident x rows ≡ some current) (sym named) found) opened in
          subst IsTable (ap (λ p. p.1) (ok-injective made)) (updated-IsTable updated rows closes t)
    ]
  where
    missing_refused : get_incident id rows ≡ none → ⊥
    missing_refused missing = ground (arith, h, missing)
