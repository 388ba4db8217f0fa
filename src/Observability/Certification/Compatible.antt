-- ===== src/Observability/Certification/Compatible.antt =====
-- What a diff that does not break says of the two contracts.
use skifer.Prelude.{
  ℕ, ◌≤◌, String, ◌≡◌, ◌⊎◌, inl, inr, refl, sym, ap, ◌∙◌, Bool, true, false, not, ◌||◌, Option,
  none, some, All, arith, if◌then◌else◌,
}
use skifer.Observability.Certification.{
  ParsedSchema, DelayLibrary, Pair, compare_fields, missing_from, same_text, same_pair,
  security_tuple, sla_tuple, rank_of, lowered, diff_security_breaking, parse_delay, relaxed, longer,
  diff_sla_breaking, nonempty, same_texts, diff_contracts,
}
use skifer.Observability.Certification.Fields.{KeptIn, neither, not-false, kept_fields}

-- Of the pair, the second part is the same, and the first is a known level and no lower.
pub record IsNoLower (old new : Pair) : Type 0 where
  pub same_policy : same_text old.1 new.1 ≡ true
  pub old_rank : ℕ
  pub new_rank : ℕ
  pub old_known : rank_of old.0 ≡ some old_rank
  pub new_known : rank_of new.0 ≡ some new_rank
  pub no_lower : old_rank ≤ new_rank

not_lowered :
    (o n : Option ℕ)
    → lowered o n ≡ false
    → (i : ℕ) × (j : ℕ) × (o ≡ some i) × (n ≡ some j) × (i ≤ j)
not_lowered (some i) (some j) h = (i, j, refl, refl, ground (arith, h))
not_lowered none n h = cc
not_lowered (some i) none h = cc

-- The second part of a chain of two tests.
unbroken :
    (same kept worse : Bool) (r : Bool × Bool)
    → r ≡ (if same then (false, false) else if not kept then (true, true) else (true, worse))
    → r.1 ≡ false
    → (same ≡ true) ⊎ ((kept ≡ true) × (worse ≡ false))
unbroken true kept worse r e h = inl refl
unbroken false true worse r e h = inr (refl, sym (ap (λ p. p.1) e) ∙ h)
unbroken false false worse r e h = absurd (ground (arith, ap (λ p. p.1) e, h))

security_kept :
    (old new : Pair)
    → (diff_security_breaking old new).1 ≡ false
    → (same_pair old new ≡ true) ⊎ IsNoLower old new
unfolding diff_security_breaking
security_kept old new h =
    elim (unbroken (same_pair old new) (same_text old.1 new.1)
      (lowered (rank_of old.0) (rank_of new.0)) (diff_security_breaking old new) refl h) [
        | inl same ↦ inl same
        | inr (kept, better) ↦
            let (i, j, p, q, le) = not_lowered (rank_of old.0) (rank_of new.0) better in
            inr (record {
              same_policy = kept;
              old_rank = i;
              new_rank = j;
              old_known = p;
              new_known = q;
              no_lower = le;
            })
      ]

module _ (lib : DelayLibrary) where
  -- The same frequency, and latencies that both parse, the new one no longer than the old one.
  pub record IsNoLonger (old new : Pair) : Type 0 where
    pub same_frequency : same_text old.0 new.0 ≡ true
    pub old_text : String
    pub new_text : String
    pub old_delay : lib.Delay
    pub new_delay : lib.Delay
    pub old_given : old.1 ≡ some old_text
    pub new_given : new.1 ≡ some new_text
    pub old_parsed : parse_delay lib old_text ≡ some old_delay
    pub new_parsed : parse_delay lib new_text ≡ some new_delay
    pub no_longer : lib.exceeds new_delay old_delay ≡ false

  not_longer :
      (o n : Option lib.Delay)
      → longer lib o n ≡ false
      → (d : lib.Delay) × (e : lib.Delay) × (o ≡ some d) × (n ≡ some e) × (lib.exceeds e d ≡ false)
  unfolding longer
  not_longer (some d) (some e) h = (d, e, refl, refl, h)
  not_longer none n h = cc
  not_longer (some d) none h = cc

  not_relaxed :
      (old new : Pair)
      → same_text old.0 new.0 ≡ true
      → (o n : Option String) → old.1 ≡ o
      → new.1 ≡ n
      → relaxed lib o n ≡ false
      → IsNoLonger old new
  unfolding relaxed
  not_relaxed old new same (some s) (some t) p q h =
      let (d, e, parsed, parsed', shorter) = not_longer (parse_delay lib s) (parse_delay lib t) h in
      record {
        same_frequency = same;
        old_text = s;
        new_text = t;
        old_delay = d;
        new_delay = e;
        old_given = p;
        new_given = q;
        old_parsed = parsed;
        new_parsed = parsed';
        no_longer = shorter;
      }
  not_relaxed old new same none n p q h = cc
  not_relaxed old new same (some s) none p q h = cc

  sla_kept :
      (old new : Pair)
      → (diff_sla_breaking lib old new).1 ≡ false
      → (same_pair old new ≡ true) ⊎ IsNoLonger old new
  unfolding diff_sla_breaking
  sla_kept old new h =
      elim (unbroken (same_pair old new) (same_text old.0 new.0) (relaxed lib old.1 new.1)
        (diff_sla_breaking lib old new) refl h) [
          | inl same ↦ inl same
          | inr (kept, better) ↦ inr (not_relaxed old new kept old.1 new.1 refl refl better)
        ]

  -- Consumers of the old contract can go on with the new one.
  pub record IsCompatible (a b : ParsedSchema) : Type 0 where
    pub fields : All (KeptIn b.contract_output) a.contract_output
    pub grain : same_texts a.contract_grain b.contract_grain ≡ true
    pub sla :
        (same_pair (sla_tuple a.contract_sla) (sla_tuple b.contract_sla) ≡ true)
        ⊎ IsNoLonger (sla_tuple a.contract_sla) (sla_tuple b.contract_sla)
    pub security :
        (same_pair (security_tuple a.contract_security) (security_tuple b.contract_security) ≡ true)
        ⊎ IsNoLower (security_tuple a.contract_security) (security_tuple b.contract_security)

  breaking_parts :
      (a b : ParsedSchema)
      → (diff_contracts lib a b).breaking ≡ (
          nonempty (missing_from a.contract_output b.contract_output)
          || nonempty (compare_fields a.contract_output b.contract_output).retyped
          || (compare_fields a.contract_output b.contract_output).required_hardened
          || (compare_fields a.contract_output b.contract_output).unique_hardened
          || (compare_fields a.contract_output b.contract_output).classification_downgraded
          || not (same_texts a.contract_grain b.contract_grain)
          || (diff_sla_breaking lib (sla_tuple a.contract_sla) (sla_tuple b.contract_sla)).1
          || (diff_security_breaking
              (security_tuple a.contract_security)
              (security_tuple b.contract_security)).1)
  unfolding diff_contracts
  breaking_parts a b = refl

  -- Of a diff that is not breaking: each field of the old contract is in the new one, with the same
  -- type, neither newly required nor newly unique, and not of a lower classification; the grain is the
  -- same; the service level is the same, or has the same frequency and a latency that parses and is no
  -- longer; and the security is the same, or has the same policy and known levels, of which the new
  -- one is no lower.
  pub diff_contracts-IsCompatible :
      (a b : ParsedSchema) → (diff_contracts lib a b).breaking ≡ false → IsCompatible a b
  diff_contracts-IsCompatible a b h =
      let (h1, security) = neither _ _ (sym (breaking_parts a b) ∙ h) in
      let (h2, sla) = neither _ _ h1 in
      let (h3, grain) = neither _ _ h2 in
      let (h4, downgrade) = neither _ _ h3 in
      let (h5, unique) = neither _ _ h4 in
      let (h6, required) = neither _ _ h5 in
      let (missing, retyped) = neither _ _ h6 in
      record {
        fields = kept_fields b.contract_output a.contract_output (record {
          no_missing = missing;
          no_retyped = retyped;
          no_required = required;
          no_unique = unique;
          no_downgrade = downgrade;
        });
        grain = not-false (same_texts a.contract_grain b.contract_grain) grain;
        sla = sla_kept _ _ sla;
        security = security_kept _ _ security;
      }
