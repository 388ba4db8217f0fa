-- ===== src/Capabilities/History/Rows.antt =====
-- Facts about the journal's table: what an insertion keeps and adds, and what no answer means.
use skifer.Prelude.{
  String, ◌≡◌, refl, sym, ap, ◌∙◌, ◌≢◌, subst, Bool-cases, inl, inr, Bool, true, false, ◌||◌, ◌==◌,
  eq_refl, Option, none, some, List, [], ◌∷◌, ◌++◌, arith,
}
use mathlib.Core.List.{append-nil, append_assoc}
use skifer.Outcome.{Result, ok, err, ◌>>=◌}
use skifer.Outcome.Laws.{require_ok}
use skifer.Json.{JsonLibrary}
use skifer.Capabilities.History.{
  CapabilityStateEvent, make_event, Row, has_event, insert_or_ignore, rows_for, newest, newer,
  read_row, row_of, event_from_row, latest_state,
}

module _ {lib : JsonLibrary} where
  -- A row for the request is there.
  unfoldable pub has_request : String → List (Row lib) → Bool
  has_request d [] = false
  has_request d (r ∷ rs) = r.request_hash == d || has_request d rs

  has_request-append :
      (d : String) (rows : List (Row lib)) (r : Row lib)
      → has_request d (rows ++ r ∷ []) ≡ (has_request d rows || r.request_hash == d)
  unfolding has_request
  has_request-append d [] r = ground arith
  has_request-append d (s ∷ rs) r = ground (arith, has_request-append d rs r)

  pub has_request-insert_or_ignore :
      (d : String) (rows : List (Row lib)) (r : Row lib)
      → has_request d rows ≡ true
      → has_request d (insert_or_ignore r rows) ≡ true
  unfolding insert_or_ignore
  has_request-insert_or_ignore d rows r p = ground (arith, has_request-append d rows r)

  pub has_request-insert_new :
      (rows : List (Row lib)) (r : Row lib)
      → has_event r.event_id rows ≡ false
      → has_request r.request_hash (insert_or_ignore r rows) ≡ true
  unfolding insert_or_ignore
  has_request-insert_new rows r p =
      ground (arith, has_request-append r.request_hash rows r, eq_refl r.request_hash)

  pub rows_for-eq-nil :
      (d : String) (rows : List (Row lib)) → rows_for d rows ≡ [] → has_request d rows ≡ false
  unfolding rows_for has_request
  rows_for-eq-nil d [] p = refl
  rows_for-eq-nil d (r ∷ rs) p = ground (arith, rows_for-eq-nil d rs)

  newest-some : (r : Row lib) (rows : List (Row lib)) → newest (some r) rows ≢ none
  unfolding newest
  newest-some r [] = λ p. cc
  newest-some r (s ∷ rows) = newest-some (newer (some r) s) rows

  newest-eq-none : (rows : List (Row lib)) → newest none rows ≡ none → rows ≡ []
  unfolding newest
  newest-eq-none [] p = refl
  newest-eq-none (r ∷ rows) p = absurd (newest-some r rows p)

module _ (lib : JsonLibrary) (lower : String → String) where
  read_row-ne-none : (r : Row lib) → read_row lib lower (some r) ≢ ok none
  unfolding read_row
  read_row-ne-none r = go (event_from_row lib lower r)
    where
      go : (e : Result CapabilityStateEvent) → (e >>= λ x. ok (some x)) ≢ ok none
      go (ok e) p = cc
      go (err e) p = cc

  -- No latest state is the answer only where no row is there for the request.
  pub latest_state-none :
      (d : String) (rows : List (Row lib))
      → latest_state lib lower d rows ≡ ok none
      → has_request d rows ≡ false
  unfolding latest_state
  latest_state-none d rows p = rows_for-eq-nil d rows (newest-eq-none (rows_for d rows) (go _ refl))
    where
      go :
          (o : Option (Row lib))
          → newest none (rows_for d rows) ≡ o
          → newest none (rows_for d rows) ≡ none
      go none e = e
      go (some r) e = absurd (
          read_row-ne-none r (subst (λ x. read_row lib lower x ≡ ok none) e (require_ok _ _ _ p).1))

  -- The fields that the construction of an event and of its row keep.
  pub row_of_event :
      (e e' : CapabilityStateEvent) (row : Row lib)
      → make_event lib lower e ≡ ok e'
      → row_of lib lower e' ≡ ok row
      → (row.event_id ≡ e.event_id) × (row.request_hash ≡ e.request_hash)
  unfolding make_event row_of
  row_of_event e e' row p q = ground arith

-- The journal's rows stand, and others may follow.
abbrev pub Grown : {lib : JsonLibrary} → List (Row lib) → List (Row lib) → Type 0
Grown {lib} old now = (more : List (Row lib)) × (now ≡ old ++ more)

pub Grown-refl : {lib : JsonLibrary} (rows : List (Row lib)) → Grown rows rows
Grown-refl rows = ([], sym (append-nil rows))

pub Grown-trans : {lib : JsonLibrary} (a b c : List (Row lib)) → Grown a b → Grown b c → Grown a c
Grown-trans a b c p q = (p.0 ++ q.0, q.1 ∙ ap (λ x. x ++ q.0) p.1 ∙ append_assoc a p.0 q.0)

pub Grown-insert_or_ignore :
    {lib : JsonLibrary} (rows : List (Row lib)) (row : Row lib)
    → Grown rows (insert_or_ignore row rows)
unfolding insert_or_ignore
Grown-insert_or_ignore rows row = elim (Bool-cases (has_event row.event_id rows)) [
  | inl p ↦ rw p (Grown-refl rows)
  | inr p ↦ rw p (row ∷ [], refl)
]
