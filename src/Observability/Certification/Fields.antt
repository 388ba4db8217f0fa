-- ===== src/Observability/Certification/Fields.antt =====
-- Fields that break nothing are kept.
use skifer.Prelude.{
  ◌≤◌, String, ◌≡◌, inl, inr, refl, ap, Bool, true, false, not, ◌&&◌, ◌||◌, ◌==◌, eq_iff, none,
  some, List, [], ◌∷◌, any, All, ltb, arith, if◌then◌else◌, Bool-cases, Option-cases,
}
use skifer.Observability.Certification.{
  ParsedOutputField, text_or, flag, find_field, rank_or_zero, compare_field, compare_fields,
  missing_from, nonempty,
}

-- A field that consumers of the old one can go on with.
pub record IsKept (f g : ParsedOutputField) : Type 0 where
  pub same_type : text_or "" f.logical_type ≡ text_or "" g.logical_type
  pub required_before : flag g.required ≡ true → flag f.required ≡ true
  pub unique_before : flag g.unique ≡ true → flag f.unique ≡ true
  pub not_downgraded :
      rank_or_zero (text_or "public" f.classification)
      ≤ rank_or_zero (text_or "public" g.classification)

abbrev pub KeptIn : List ParsedOutputField → ParsedOutputField → Type 0
KeptIn gs f = (g : ParsedOutputField) × (find_field f.name gs ≡ some g) × IsKept f g

-- The fields break nothing.
pub record IsUnbroken (fs gs : List ParsedOutputField) : Type 0 where
  pub no_missing : nonempty (missing_from fs gs) ≡ false
  pub no_retyped : nonempty (compare_fields fs gs).retyped ≡ false
  pub no_required : (compare_fields fs gs).required_hardened ≡ false
  pub no_unique : (compare_fields fs gs).unique_hardened ≡ false
  pub no_downgrade : (compare_fields fs gs).classification_downgraded ≡ false

find_field-none :
    (name : String) (gs : List ParsedOutputField)
    → find_field name gs ≡ none
    → any (λ g. g.name == name) gs ≡ false
unfolding find_field
find_field-none name [] h = refl
find_field-none name (g ∷ gs) h = ground (arith, find_field-none name gs)

-- A list that only grows, and is empty, did not grow.
not_grown :
    {A : Type 0} (same : Bool) (x : A) (xs : List A)
    → nonempty (if same then xs else x ∷ xs) ≡ false
    → (same ≡ true) × (nonempty xs ≡ false)
not_grown true x xs h = (refl, h)
not_grown false x xs h = cc

pub neither : (a b : Bool) → (a || b) ≡ false → (a ≡ false) × (b ≡ false)
neither false b h = (refl, h)
neither true b h = cc

pub not-false : (a : Bool) → not a ≡ false → a ≡ true
not-false a h = ground arith

flag_before : (a b : Bool) → (not a && b) ≡ false → b ≡ true → a ≡ true
flag_before a b h p = ground arith

kept_rank :
    (a b : String)
    → (not (a == b) && ltb (rank_or_zero b) (rank_or_zero a)) ≡ false
    → rank_or_zero a ≤ rank_or_zero b
kept_rank a b h = elim (Bool-cases (a == b)) [
  | inl same ↦ let p = ap rank_or_zero ((eq_iff a b).0 same) in omega (arith, p)
  | inr other ↦ ground (arith, h, other)
]

module _ (gs : List ParsedOutputField) where
  -- A field that breaks nothing is kept, and the later fields break nothing.
  kept_field :
      (f g : ParsedOutputField) (fs : List ParsedOutputField)
      → find_field f.name gs ≡ some g
      → IsUnbroken (f ∷ fs) gs
      → IsKept f g × IsUnbroken fs gs
  unfolding compare_fields compare_field missing_from
  kept_field f g fs found u =
      let (present, later0) = not_grown _ f.name (missing_from fs gs) u.no_missing in
      let (same_type, later1) =
        not_grown _ _ (compare_fields fs gs).retyped (rw found at u.no_retyped) in
      let (required, later2) = neither _ _ (rw found at u.no_required) in
      let (unique, later3) = neither _ _ (rw found at u.no_unique) in
      let (rank, later4) = neither _ _ (rw found at u.no_downgrade) in
      (
        record {
          same_type = (eq_iff _ _).0 same_type;
          required_before = flag_before _ _ required;
          unique_before = flag_before _ _ unique;
          not_downgraded = kept_rank _ _ rank;
        },
        record {
          no_missing = later0;
          no_retyped = later1;
          no_required = later2;
          no_unique = later3;
          no_downgrade = later4;
        },
      )

  missing_breaks :
      (f : ParsedOutputField) (fs : List ParsedOutputField)
      → find_field f.name gs ≡ none
      → IsUnbroken (f ∷ fs) gs
      → ⊥
  unfolding missing_from
  missing_breaks f fs gone u =
      let (present, later) = not_grown _ f.name (missing_from fs gs) u.no_missing in
      ground (arith, present, find_field-none f.name gs gone)

  pub kept_fields : (fs : List ParsedOutputField) → IsUnbroken fs gs → All (KeptIn gs) fs
  kept_fields [] u = tt
  kept_fields (f ∷ fs) u = elim (Option-cases (find_field f.name gs)) [
    | inl gone ↦ absurd (missing_breaks f fs gone u)
    | inr (g, found) ↦
        let (kept, later) = kept_field f g fs found u in ((g, found, kept), kept_fields fs later)
  ]
