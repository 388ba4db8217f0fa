-- ===== src/Capabilities/Governed/Trace/Attest.antt =====
-- The journal's writes: `attest` calls nothing, and where it returns the request is known.
use skifer.Prelude.{
  ℕ, ◌+◌, ◌≤◌, String, ◌≡◌, refl, sym, ◌∙◌, subst, true, false, ◌==◌, eq_iff, List, [], ◌∷◌, arith,
  Bool-cases, inl, inr,
}
use skifer.Outcome.{Error, Result, ok, err, ◌>>=◌ as ◌>>=ᵣ◌}
use skifer.Time.{is_utc}
use skifer.Json.{Value, JsonLibrary}
use skifer.Capabilities.Model.{CapabilityDefinition}
use skifer.Capabilities.Autonomy.{ExecutionState}
use skifer.Capabilities.History
use skifer.Capabilities.History.{
  CapabilityStateEvent, Row, insert_or_ignore, has_event, make_event, row_of,
}
use skifer.Capabilities.History.Rows.{
  has_request, has_request-insert_or_ignore, has_request-insert_new, row_of_event, Grown-refl,
  Grown-insert_or_ignore,
}
use skifer.Capabilities.History.Detail.{copy_bounded_detail}
use skifer.Capabilities.Governed.{Host, World}
use skifer.Capabilities.Governed.Effects.{
  ◌>>=◌, continue, lift, pure, ask, write_rows, append, read_now, stamp, event, attest,
}
use skifer.Capabilities.Governed.Trace.{
  Issued, Issued-mono, Issued-append, Within, Within-refl, Quiet, no_call,
}

-- The event before its construction checks it.
abbrev pub draft :
    {h : Host}
    → String
    → CapabilityDefinition
    → String
    → ExecutionState
    → Value
    → World h
    → CapabilityStateEvent
draft {h} digest definition subject state bounded w = record {
  event_id = h.uuid w.tick;
  request_hash = digest;
  capability_id = definition.id;
  capability_version = definition.version;
  subject = subject;
  state = state;
  occurred_at = h.clock (w.tick + 1);
  detail = bounded;
}

module _ {lib : JsonLibrary} (uuid : ℕ → String) where
  -- An identity that is given out now is in no row yet.
  fresh_identity :
      (distinct : (s t : ℕ) → uuid s ≡ uuid t → s ≡ t)
      → (tick : ℕ) (rows : List (Row lib)) → Issued uuid tick rows
      → (n : ℕ) → tick ≤ n
      → has_event (uuid n) rows ≡ false
  unfolding has_event
  fresh_identity distinct tick [] p n le = refl
  fresh_identity distinct tick (r ∷ rows) p n le = elim (Bool-cases (r.event_id == uuid n)) [
    | inl q ↦
        absurd
          (omega (arith, distinct p.0.0 n (sym p.0.2 ∙ (eq_iff r.event_id (uuid n)).0 q), p.0.1))
    | inr q ↦ rw q (fresh_identity distinct tick rows p.1 n le)
  ]

  Issued-insert_or_ignore :
      (tick : ℕ) (rows : List (Row lib)) (r : Row lib)
      → r.event_id ≡ uuid tick
      → Issued uuid tick rows
      → Issued uuid (tick + 1 + 1) (insert_or_ignore r rows)
  unfolding insert_or_ignore
  Issued-insert_or_ignore tick rows r e p = elim (Bool-cases (has_event r.event_id rows)) [
    | inl q ↦ rw q (Issued-mono uuid tick (tick + 1 + 1) rows (omega arith) p)
    | inr q ↦ rw q (
        Issued-append uuid (tick + 1 + 1) rows r
          (Issued-mono uuid tick (tick + 1 + 1) rows (omega arith) p) (tick, omega arith, e))
  ]

-- From `w`: nothing is called, and if the action returned, the journal knows the request.
pub record Attested {h : Host} (d : String) (w v : World h) (r : Result (Unit {0})) : Type 0 where
  pub within : Within no_call w v
  pub known :
      ((s t : ℕ) → h.uuid s ≡ h.uuid t → s ≡ t)
      → Issued h.uuid w.tick w.rows
      → r ≡ ok tt
      → has_request d v.rows ≡ true

module _ {h : Host} (d : String) (definition : CapabilityDefinition) (subject : String)
    (state : ExecutionState) where
  stamp_lem :
      (b : Value) (w : World h)
      → ((stamp d definition subject state b w).1 ≡ record w { tick = w.tick + 1 + 1 })
        × ((e : CapabilityStateEvent)
            → (stamp d definition subject state b w).0 ≡ ok e
            → make_event h.lib h.lower (draft d definition subject state b w) ≡ ok e)
  unfolding stamp read_now ask lift pure ◌>>=◌
  stamp_lem b w = elim (Bool-cases (is_utc (h.clock (w.tick + 1)))) [
    | inl p ↦ rw p (refl, λ e q. q)
    | inr p ↦ rw p (refl, λ e q. cc)
  ]

  -- Time went on, and nothing was written.
  unwritten : (w : World h) (e : Error) → Attested d w (record w { tick = w.tick + 1 + 1 }) (err e)
  unwritten w e = record {
    within = record {
      calls = λ x. omega arith;
      kept = λ x p. p;
      later = omega arith;
      grown = Grown-refl w.rows;
      issued = λ p. Issued-mono h.uuid w.tick (w.tick + 1 + 1) w.rows (omega arith) p;
    };
    known = λ distinct p q. cc;
  }

  written :
      (w : World h) (row : Row h.lib)
      → row.event_id ≡ h.uuid w.tick
      → row.request_hash ≡ d
      → Attested d w
          (record w { tick = w.tick + 1 + 1; rows = insert_or_ignore row w.rows })
          (ok tt)
  written w row p q = record {
    within = record {
      calls = λ x. omega arith;
      kept = λ x k. has_request-insert_or_ignore x w.rows row k;
      later = omega arith;
      grown = Grown-insert_or_ignore w.rows row;
      issued = λ i. Issued-insert_or_ignore h.uuid w.tick w.rows row p i;
    };
    known = λ distinct i _.
        subst (λ x. has_request x (insert_or_ignore row w.rows) ≡ true) q
          (has_request-insert_new w.rows row
            (rw p (fresh_identity h.uuid distinct w.tick w.rows i w.tick (omega arith))));
  }

  appended :
      (b : Value) (w : World h) (e : CapabilityStateEvent)
      → make_event h.lib h.lower (draft d definition subject state b w) ≡ ok e
      → let r = append e (record w { tick = w.tick + 1 + 1 }) in Attested d w r.1 r.0
  unfolding append History.append
  appended b w e p = go (row_of h.lib h.lower e) refl
    where
      go :
          (row : Result (Row h.lib))
          → row_of h.lib h.lower e ≡ row
          → let r =
              write_rows
                (row >>=ᵣ λ x. ok (insert_or_ignore x w.rows))
                (record w { tick = w.tick + 1 + 1 }) in
            Attested d w r.1 r.0
      go (err x) q = unwritten w x
      go (ok row) q =
          let same = row_of_event h.lib h.lower (draft d definition subject state b w) e row p q in
          written w row same.0 same.1

  stamped :
      (b : Value) (w : World h)
      → let r = (stamp d definition subject state b >>= append) w in Attested d w r.1 r.0
  unfolding ◌>>=◌
  stamped b w = go (stamp d definition subject state b w).0 (stamp_lem b w).1
    where
      go :
          (r : Result CapabilityStateEvent)
          → ((e : CapabilityStateEvent)
              → r ≡ ok e
              → make_event h.lib h.lower (draft d definition subject state b w) ≡ ok e)
          → let x = continue r append (stamp d definition subject state b w).1 in
            Attested d w x.1 x.0
      go r p = rw (stamp_lem b w).0 (at r p)
        where
          at :
              (r : Result CapabilityStateEvent)
              → ((e : CapabilityStateEvent)
                  → r ≡ ok e
                  → make_event h.lib h.lower (draft d definition subject state b w) ≡ ok e)
              → let x = continue r append (record w { tick = w.tick + 1 + 1 }) in
                Attested d w x.1 x.0
          at (err e) p = unwritten w e
          at (ok e) p = appended b w e (p e refl)

  pub attest_lem :
      (detail : Value) (w : World h)
      → let r = attest d definition subject state detail w in Attested d w r.1 r.0
  unfolding attest event ◌>>=◌ lift
  attest_lem detail w = go (copy_bounded_detail h.lib h.lower h.max_detail_bytes detail)
    where
      go :
          (c : Result Value)
          → let x = continue c (stamp d definition subject state) w in
            let r = continue x.0 append x.1 in Attested d w r.1 r.0
      go (err e) = record { within = Within-refl w; known = λ _ _ q. cc }
      go (ok b) = stamped b w

  pub Quiet-attest : (detail : Value) → Quiet {h = h} (attest d definition subject state detail)
  Quiet-attest detail = record { at = λ w. (attest_lem detail w).within }
