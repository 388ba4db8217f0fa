-- ===== src/Observability/IncidentTable/OpenCount.antt =====
-- How many incidents are open for a check of a target, and what `open_incident` does to their number.
use skifer.Prelude.{
  ℕ, suc, ◌+◌, ◌≤◌, String, ◌≡◌, ◌≢◌, refl, sym, subst, true, false, ◌&&◌, ◌||◌, ◌==◌, eq_iff, inl,
  inr, none, some, List, [], ◌∷◌, ◌++◌, map, elem, distinct, arith, if◌then◌else◌, Bool-cases,
  Option-cases,
}
use skifer.Observability.Incidents.{Incident}
use skifer.Observability.IncidentTable.{
  IncidentRows, is_open, newest_first, newest_open, get_open_incident, insert_incident, open_unless,
  open_incident,
}

-- How many open incidents there are for a check of a target.
unfoldable pub count_open : String → String → IncidentRows → ℕ
count_open target check [] = 0
count_open target check (i ∷ rows) =
    let rest = count_open target check rows in
    if i.target_fqn == target && i.check_name == check && is_open i then suc rest else rest

abbrev pub ids : IncidentRows → List String
ids = map (λ i. i.id)

newest_open-some :
    (target check : String) (i : Incident) (rows : IncidentRows)
    → newest_open target check (some i) rows ≢ none
unfolding newest_open newest_first
newest_open-some target check i [] p = cc
newest_open-some target check i (j ∷ rows) p =
    ground (arith, newest_open-some target check i rows, newest_open-some target check j rows)

pub count_open-eq-zero :
    (target check : String) (rows : IncidentRows)
    → newest_open target check none rows ≡ none
    → count_open target check rows ≡ 0
unfolding count_open newest_open newest_first
count_open-eq-zero target check [] p = refl
count_open-eq-zero target check (i ∷ rows) p =
    ground (arith, count_open-eq-zero target check rows, newest_open-some target check i rows)

count_open-append :
    (target check : String) (rows : IncidentRows) (i : Incident)
    → count_open target check (rows ++ i ∷ [])
      ≤ count_open target check rows
        + (if i.target_fqn == target && i.check_name == check then 1 else 0)
unfolding count_open
count_open-append target check [] i = ground arith
count_open-append target check (r ∷ rows) i = ground (arith, count_open-append target check rows i)

elem-append :
    (x : String) (rows : IncidentRows) (i : Incident)
    → elem x (ids (rows ++ i ∷ [])) ≡ (elem x (ids rows) || i.id == x)
elem-append x [] i = ground arith
elem-append x (r ∷ rows) i = ground (arith, elem-append x rows i)

==_sym : (a b : String) → (a == b) ≡ true → (b == a) ≡ true
==_sym a b h = (eq_iff b a).1 (sym ((eq_iff a b).0 h))

distinct-append :
    (rows : IncidentRows) (i : Incident)
    → distinct (ids rows) ≡ true
    → elem i.id (ids rows) ≡ false
    → distinct (ids (rows ++ i ∷ [])) ≡ true
distinct-append [] i d h = refl
distinct-append (r ∷ rows) i d h =
    ground (arith, distinct-append rows i, elem-append r.id rows i, ==_sym i.id r.id)

-- The table's invariant.
pub record IsTable (rows : IncidentRows) : Type 0 where
  pub keys : distinct (ids rows) ≡ true
  pub once : (target check : String) → count_open target check rows ≤ 1

pub open_incident-IsTable :
    (i : Incident) (rows : IncidentRows) → IsTable rows → IsTable (open_incident i rows).1
unfolding open_incident open_unless insert_incident get_open_incident
open_incident-IsTable i rows t =
    elim (Option-cases (newest_open i.target_fqn i.check_name none rows)) [
      | inr (existing, found) ↦ rw found t
      | inl nothing ↦ rw nothing (elim (Bool-cases (elem i.id (ids rows))) [
        | inl known ↦ rw known t
        | inr unknown ↦ rw unknown (record {
          keys = distinct-append rows i t.keys unknown;
          once = λ target check.
              elim (Bool-cases (i.target_fqn == target && i.check_name == check)) [
                | inl same ↦
                    let p = (eq_iff i.target_fqn target).0 (ground (arith, same)) in
                    let q = (eq_iff i.check_name check).0 (ground (arith, same)) in
                    let none_open = count_open-eq-zero i.target_fqn i.check_name rows nothing in
                    let here =
                      subst (λ c. count_open target c rows ≡ 0) q
                        (subst (λ g. count_open g i.check_name rows ≡ 0) p none_open) in
                    ground (arith, here, same, count_open-append target check rows i)
                | inr other ↦
                    ground
                      (arith, other, t.once target check, count_open-append target check rows i)
              ];
        })
      ])
    ]
