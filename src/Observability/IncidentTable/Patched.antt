-- ===== src/Observability/IncidentTable/Patched.antt =====
-- What the updates of a resolution do to each row.
use skifer.Prelude.{
  String, ◌≡◌, refl, sym, ap, ◌∙◌, true, false, ◌==◌, eq_iff, inl, inr, some, List, [], ◌∷◌, map,
  elem, distinct, All, zip_All, arith, Bool-cases,
}
use skifer.Time.{DateTime}
use skifer.Observability.Incidents.{resolved, Incident}
use skifer.Observability.IncidentTable.{IncidentRows, updated_row, update_rows}
use skifer.Observability.IncidentTable.OpenCount.{ids}

-- What a sequence of updates does to one row.
unfoldable pub patched : List Incident → Incident → Incident
patched [] r = r
patched (u ∷ us) r = patched us (updated_row u r)

pub update_rows-map :
    (us : List Incident) (f : Incident → Incident) (rows : IncidentRows)
    → All (λ r. patched us r ≡ f r) rows
    → update_rows us rows ≡ map f rows
unfolding update_rows patched
update_rows-map [] f [] same = refl
update_rows-map (u ∷ us) f [] same = update_rows-map us f [] tt
update_rows-map us f (r ∷ rows) same =
    update_rows-cons us r rows
    ∙ ap (λ x. x ∷ update_rows us rows) same.0
    ∙ ap (λ xs. f r ∷ xs) (update_rows-map us f rows same.1)
  where
    update_rows-cons :
        (vs : List Incident) (r : Incident) (rows : IncidentRows)
        → update_rows vs (r ∷ rows) ≡ patched vs r ∷ update_rows vs rows
    update_rows-cons [] r rows = refl
    update_rows-cons (v ∷ vs) r rows =
        update_rows-cons vs (updated_row v r) (map (updated_row v) rows)

-- An incident as a resolution leaves it.
abbrev pub recovered : String → DateTime → Incident → Incident
recovered root_cause now i = record i {
  status = resolved;
  root_cause = some root_cause;
  resolved_at = some now;
}

-- No other incident has the identity of this row.
abbrev pub IsSole : Incident → Incident → Type 0
IsSole r i = (i.id == r.id) ≡ true → i ≡ r

turned : (a b : String) → (a == b) ≡ (b == a)
turned a b = elim (Bool-cases (a == b)) [
  | inl same ↦ same ∙ sym ((eq_iff b a).1 (sym ((eq_iff a b).0 same)))
  | inr other ↦ elim (Bool-cases (b == a)) [
    | inl same ↦ absurd (ground (arith, other, (eq_iff a b).1 (sym ((eq_iff b a).0 same))))
    | inr neither ↦ other ∙ sym neither
  ]
]

module _ (root_cause : String) (now : DateTime) where
  abbrev made : List Incident → List Incident
  made = map (recovered root_cause now)

  -- The update of a row whose identity it has, and which no other incident has.
  touched :
      (r i : Incident)
      → (r.id == i.id) ≡ true
      → IsSole r i
      → updated_row (recovered root_cause now i) r ≡ recovered root_cause now r
  unfolding updated_row
  touched r i same sole = rw same (rw (sole (sym (turned r.id i.id) ∙ same)) refl)

  -- A row that an update has changed is changed no further.
  touched_again :
      (r i : Incident)
      → IsSole r i
      → updated_row (recovered root_cause now i) (recovered root_cause now r)
        ≡ recovered root_cause now r
  unfolding updated_row
  touched_again r i sole = elim (Bool-cases (r.id == i.id)) [
    | inl same ↦ rw same (rw (sole (sym (turned r.id i.id) ∙ same)) refl)
    | inr other ↦ rw other refl
  ]

  patched-recovered :
      (r : Incident) (is : List Incident)
      → All (IsSole r) is
      → patched (made is) (recovered root_cause now r) ≡ recovered root_cause now r
  unfolding patched
  patched-recovered r [] sole = refl
  patched-recovered r (i ∷ is) sole =
      ap (patched (made is)) (touched_again r i sole.0) ∙ patched-recovered r is sole.1

  untouched : (u r : Incident) → (r.id == u.id) ≡ false → updated_row u r ≡ r
  unfolding updated_row
  untouched u r other = rw other refl

  pub patched-hit :
      (r : Incident) (is : List Incident)
      → All (IsSole r) is
      → elem r.id (ids is) ≡ true
      → patched (made is) r ≡ recovered root_cause now r
  unfolding patched
  patched-hit r [] sole h = cc
  patched-hit r (i ∷ is) sole h = elim (Bool-cases (r.id == i.id)) [
    | inl same ↦ ap (patched (made is)) (touched r i same sole.0) ∙ patched-recovered r is sole.1
    | inr other ↦
        ap (patched (made is)) (untouched (recovered root_cause now i) r other)
        ∙ patched-hit r is sole.1 (ground (arith, h, turned r.id i.id, other))
  ]

  pub patched-miss :
      (r : Incident) (is : List Incident) → elem r.id (ids is) ≡ false → patched (made is) r ≡ r
  unfolding patched
  patched-miss r [] h = refl
  patched-miss r (i ∷ is) h =
      let other : (r.id == i.id) ≡ false = ground (arith, h, turned r.id i.id) in
      ap (patched (made is)) (untouched (recovered root_cause now i) r other)
      ∙ patched-miss r is (ground (arith, h))

absent-IsSole :
    (r : Incident) (rows : IncidentRows) → elem r.id (ids rows) ≡ false → All (IsSole r) rows
absent-IsSole r [] h = tt
absent-IsSole r (i ∷ rows) h =
    (λ same. ground (arith, h, same), absent-IsSole r rows (ground (arith, h)))

apart :
    (r : Incident) (rows : IncidentRows) → elem r.id (ids rows) ≡ false → All (λ i. IsSole i r) rows
apart r [] h = tt
apart r (i ∷ rows) h =
    (λ same. ground (arith, h, same, turned r.id i.id), apart r rows (ground (arith, h)))

-- In a table whose identities are distinct each row is the only one of its identity.
pub rows-IsSole :
    (rows : IncidentRows) → distinct (ids rows) ≡ true → All (λ r. All (IsSole r) rows) rows
rows-IsSole [] d = tt
rows-IsSole (r ∷ rows) d =
    let absent : elem r.id (ids rows) ≡ false = ground (arith, d) in
    (
      (λ _. refl, absent-IsSole r rows absent),
      zip_All (λ i. IsSole i r) (λ i. All (IsSole i) rows) rows (apart r rows absent)
          (rows-IsSole rows (ground (arith, d))),
    )
