-- ===== src/Observability/IncidentTable/Resolved.antt =====
-- Resolving the open incidents of a target.
use skifer.Prelude.{
  String, Bool, ◌≡◌, refl, ap, subst, true, false, ◌&&◌, ◌||◌, ◌==◌, eq_refl, inl, inr, none, some,
  List, [], ◌∷◌, map, elem, distinct, All, map_All, zip_All, ltb, arith, Bool-cases, if◌then◌else◌,
}
use skifer.Outcome.{ok}
use skifer.Time.{DateTime}
use skifer.Observability.Incidents.{resolved, Incident, allowed, transition}
use skifer.Observability.IncidentTable.{
  IncidentRows, is_open, insert_newest, list_open_incidents, resolve_each, resolve_open_incidents,
}
use skifer.Observability.IncidentTable.OpenCount.{ids}
use skifer.Observability.IncidentTable.Patched.{
  patched, update_rows-map, recovered, IsSole, patched-hit, patched-miss, rows-IsSole,
}

-- An open incident of the target.
abbrev is_listed : String → Incident → Bool
is_listed target i = i.target_fqn == target && is_open i

-- A row as the resolution leaves it: an open incident of the target is resolved, at this time and for
-- this cause, and any other row is as it was.
unfoldable pub after_recovery : String → String → DateTime → Incident → Incident
after_recovery target root_cause now i =
    if is_listed target i then recovered root_cause now i else i

module _ (P : Incident → Type 0) where
  All-insert_newest :
      (i : Incident) (js : List Incident) → P i → All P js → All P (insert_newest i js)
  unfolding insert_newest
  All-insert_newest i [] p ps = (p, tt)
  All-insert_newest i (j ∷ js) p ps =
      elim (Bool-cases (ltb i.opened_at.instant j.opened_at.instant)) [
        | inl older ↦ rw older (ps.0, All-insert_newest i js p ps.1)
        | inr newer ↦ rw newer (p, ps)
      ]

  -- What holds of the rows of a table holds of those that are listed.
  All-list_open_incidents :
      (target : String) (rows : IncidentRows)
      → All (λ i. is_listed target i ≡ true → P i) rows
      → All P (list_open_incidents target rows)
  unfolding list_open_incidents
  All-list_open_incidents target [] ps = tt
  All-list_open_incidents target (i ∷ rows) ps = elim (Bool-cases (is_listed target i)) [
    | inl shown ↦ rw shown (
        All-insert_newest i (list_open_incidents target rows) (ps.0 shown)
          (All-list_open_incidents target rows ps.1))
    | inr hidden ↦ rw hidden (All-list_open_incidents target rows ps.1)
  ]

listed-IsListed :
    (target : String) (rows : IncidentRows)
    → All (λ i. is_listed target i ≡ true) (list_open_incidents target rows)
listed-IsListed target rows =
    All-list_open_incidents (λ i. is_listed target i ≡ true) target rows (all_rows rows)
  where
    all_rows :
        (is : IncidentRows) → All (λ i. is_listed target i ≡ true → is_listed target i ≡ true) is
    all_rows [] = tt
    all_rows (i ∷ is) = (λ h. h, all_rows is)

elem-insert_newest :
    (x : String) (i : Incident) (js : List Incident)
    → elem x (ids (insert_newest i js)) ≡ (i.id == x || elem x (ids js))
unfolding insert_newest
elem-insert_newest x i [] = refl
elem-insert_newest x i (j ∷ js) = ground (arith, elem-insert_newest x i js)

-- A row is listed if it is an open one of the target.
listed_here :
    (target : String) (i : Incident) (rows : IncidentRows)
    → is_listed target i ≡ true
    → elem i.id (ids (list_open_incidents target (i ∷ rows))) ≡ true
unfolding list_open_incidents
listed_here target i rows h =
    ground (arith, h, eq_refl i.id, elem-insert_newest i.id i (list_open_incidents target rows))

listed_later :
    (target x : String) (i : Incident) (rows : IncidentRows)
    → elem x (ids (list_open_incidents target rows)) ≡ true
    → elem x (ids (list_open_incidents target (i ∷ rows))) ≡ true
unfolding list_open_incidents
listed_later target x i rows h =
    ground (arith, h, elem-insert_newest x i (list_open_incidents target rows))

abbrev Covered : String → List Incident → Incident → Type 0
Covered target is r = is_listed target r ≡ true → elem r.id (ids is) ≡ true

covers :
    (target : String) (rows : IncidentRows)
    → All (Covered target (list_open_incidents target rows)) rows
covers target [] = tt
covers target (r ∷ rows) = (
  listed_here target r rows,
  map_All (Covered target (list_open_incidents target rows))
      (Covered target (list_open_incidents target (r ∷ rows)))
      (λ i c h. listed_later target i.id r rows (c h)) rows (covers target rows),
)

-- A row that is not listed shares its identity with none that is.
unlisted :
    (target : String) (r : Incident) (is : List Incident)
    → All (λ i. is_listed target i ≡ true) is
    → All (IsSole r) is
    → is_listed target r ≡ false
    → elem r.id (ids is) ≡ false
unlisted target r [] shown sole h = refl
unlisted target r (i ∷ is) shown sole h = elim (Bool-cases (i.id == r.id)) [
  | inl same ↦
      absurd (ground (arith, h, subst (λ j. is_listed target j ≡ true) (sole.0 same) shown.0))
  | inr other ↦ ground (arith, other, unlisted target r is shown.1 sole.1 h)
]

module _ (target root_cause : String) (now : DateTime) where
  transition_resolves :
      (i : Incident)
      → is_open i ≡ true
      → transition i resolved now none (some root_cause) ≡ ok (recovered root_cause now i)
  unfolding transition allowed
  transition_resolves i o = ground (arith, o)

  resolve_each-recovered :
      (is : List Incident)
      → All (λ i. is_listed target i ≡ true) is
      → resolve_each root_cause now is ≡ ok (map (recovered root_cause now) is)
  unfolding resolve_each
  resolve_each-recovered [] shown = refl
  resolve_each-recovered (i ∷ is) shown =
      rw (transition_resolves i (ground (arith, shown.0)))
        (rw (resolve_each-recovered is shown.1) refl)

  patched-after_recovery :
      (is : List Incident) (r : Incident)
      → All (λ i. is_listed target i ≡ true) is
      → Covered target is r
      → All (IsSole r) is
      → patched (map (recovered root_cause now) is) r ≡ after_recovery target root_cause now r
  unfolding after_recovery
  patched-after_recovery is r shown covered sole = elim (Bool-cases (is_listed target r)) [
    | inl listed ↦ rw listed (patched-hit root_cause now r is sole (covered listed))
    | inr hidden ↦
        rw hidden (patched-miss root_cause now r is (unlisted target r is shown sole hidden))
  ]

  after_recovery-closed :
      (rows : IncidentRows)
      → list_open_incidents target (map (after_recovery target root_cause now) rows) ≡ []
  unfolding list_open_incidents after_recovery
  after_recovery-closed [] = refl
  after_recovery-closed (r ∷ rows) = elim (Bool-cases (is_listed target r)) [
    | inl listed ↦ rw listed (ground (arith, after_recovery-closed rows))
    | inr hidden ↦ rw hidden (rw hidden (after_recovery-closed rows))
  ]

  -- In a table whose identities are distinct, resolving the open incidents of a target never raises.
  -- It returns those incidents, in the order in which they are listed, each resolved at this time and
  -- for this cause and otherwise as it was; in the table exactly their rows are changed, to what was
  -- returned; and behind it no incident of the target is open.
  pub resolve_open_incidents-recovered :
      (rows : IncidentRows)
      → distinct (ids rows) ≡ true
      → (resolve_open_incidents target root_cause now rows
          ≡ ok (
            map (recovered root_cause now) (list_open_incidents target rows),
            map (after_recovery target root_cause now) rows,
          ))
        × (list_open_incidents target (map (after_recovery target root_cause now) rows) ≡ [])
  unfolding resolve_open_incidents
  resolve_open_incidents-recovered rows d =
      let is = list_open_incidents target rows in
      let shown = listed-IsListed target rows in
      let sole : All (λ r. All (IsSole r) is) rows =
        map_All (λ r. All (IsSole r) rows) (λ r. All (IsSole r) is)
          (λ r all. All-list_open_incidents (IsSole r) target rows (
            map_All (IsSole r) (λ i. is_listed target i ≡ true → IsSole r i) (λ i s _. s) rows all))
          rows (rows-IsSole rows d) in
      let rows_after : All
          (λ r.
            patched (map (recovered root_cause now) is) r ≡ after_recovery target root_cause now r)
          rows =
        map_All (λ r. Covered target is r × All (IsSole r) is)
          (λ r.
            patched (map (recovered root_cause now) is) r ≡ after_recovery target root_cause now r)
          (λ r c. patched-after_recovery is r shown c.0 c.1) rows
          (zip_All (Covered target is) (λ r. All (IsSole r) is) rows (covers target rows) sole) in
      (
        rw (resolve_each-recovered is shown) (
            ap (λ after. ok (map (recovered root_cause now) is, after))
              (update_rows-map (map (recovered root_cause now) is)
                (after_recovery target root_cause now) rows rows_after)),
        after_recovery-closed rows,
      )
