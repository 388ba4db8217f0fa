-- ===== src/Observability/Certification/Same.antt =====
-- The diff of a contract with itself.
use skifer.Prelude.{
  String, ◌≡◌, inl, inr, refl, Bool, true, false, not, ◌&&◌, ◌||◌, ◌==◌, eq_refl, Option, none,
  some, List, [], ◌∷◌, any, All, elem, map, distinct, arith, Option-cases,
}
use skifer.Observability.Certification.{
  ParsedOutputField, ParsedSchema, DelayLibrary, Pair, text_or, flag, same_flag, find_field,
  compare_field, compare_fields, missing_from, same_text, same_pair, security_tuple, sla_tuple,
  diff_security_breaking, diff_sla_breaking, same_texts, diff_contracts, unchanged,
}

abbrev pub names_of : List ParsedOutputField → List String
names_of = map (λ f. f.name)

same_flag_refl : (b : Bool) → same_flag b b ≡ true
same_flag_refl true = refl
same_flag_refl false = refl

not_hardened : (b : Bool) → ((not b && b) || false) ≡ false
not_hardened true = refl
not_hardened false = refl

same_text_refl : (o : Option String) → same_text o o ≡ true
same_text_refl none = refl
same_text_refl (some s) = eq_refl s

same_pair_refl : (p : Pair) → same_pair p p ≡ true
same_pair_refl p = rw (same_text_refl p.0) (same_text_refl p.1)

same_texts_refl : (xs : List String) → same_texts xs xs ≡ true
same_texts_refl [] = refl
same_texts_refl (x ∷ xs) = rw (eq_refl x) (same_texts_refl xs)

compare_field-same : (f : ParsedOutputField) → compare_field f (some f) unchanged ≡ unchanged
unfolding compare_field
compare_field-same f = rw (eq_refl (text_or "" f.logical_type)) (
    rw (eq_refl (text_or "" f.entity)) (
      rw (eq_refl (text_or "public" f.classification)) (
        rw (same_flag_refl (flag f.required)) (
          rw (same_flag_refl (flag f.unique))
            (rw (not_hardened (flag f.required)) (rw (not_hardened (flag f.unique)) refl))))))

-- The field is the one that its name finds.
abbrev Found : List ParsedOutputField → ParsedOutputField → Type 0
Found gs f = find_field f.name gs ≡ some f

compare_fields-same :
    (fs gs : List ParsedOutputField) → All (Found gs) fs → compare_fields fs gs ≡ unchanged
unfolding compare_fields
compare_fields-same [] gs found = refl
compare_fields-same (f ∷ fs) gs found =
    rw found.0 (rw (compare_fields-same fs gs found.1) (compare_field-same f))

find_field-any :
    (name : String) (f : ParsedOutputField) (gs : List ParsedOutputField)
    → find_field name gs ≡ some f
    → any (λ g. g.name == name) gs ≡ true
unfolding find_field
find_field-any name f [] h = cc
find_field-any name f (g ∷ gs) h = elim (Option-cases (find_field name gs)) [
  | inl gone ↦ ground (arith, gone, h)
  | inr (k, found) ↦ ground (arith, find_field-any name k gs found)
]

missing_from-same : (fs gs : List ParsedOutputField) → All (Found gs) fs → missing_from fs gs ≡ []
unfolding missing_from
missing_from-same [] gs found = refl
missing_from-same (f ∷ fs) gs found =
    rw (find_field-any f.name f gs found.0) (missing_from-same fs gs found.1)

find_field-absent :
    (name : String) (gs : List ParsedOutputField)
    → elem name (names_of gs) ≡ false
    → find_field name gs ≡ none
unfolding find_field
find_field-absent name [] h = refl
find_field-absent name (g ∷ gs) h = ground (arith, find_field-absent name gs)

Found-later :
    (f : ParsedOutputField) (gs fs : List ParsedOutputField)
    → All (Found gs) fs
    → All (Found (f ∷ gs)) fs
unfolding find_field
Found-later f gs [] found = tt
Found-later f gs (k ∷ fs) found = (rw found.0 refl, Found-later f gs fs found.1)

All-Found : (fs : List ParsedOutputField) → distinct (names_of fs) ≡ true → All (Found fs) fs
unfolding find_field
All-Found [] d = tt
All-Found (f ∷ fs) d = (
  ground (arith, find_field-absent f.name fs, d, eq_refl f.name),
  Found-later f fs fs (All-Found fs (ground (arith, d))),
)

diff_sla-same : (lib : DelayLibrary) (p : Pair) → diff_sla_breaking lib p p ≡ (false, false)
unfolding diff_sla_breaking
diff_sla-same lib p = rw (same_pair_refl p) refl

diff_security-same : (p : Pair) → diff_security_breaking p p ≡ (false, false)
unfolding diff_security_breaking
diff_security-same p = rw (same_pair_refl p) refl

-- The diff of a contract, no two of whose fields have the same name, with itself is empty and does not
-- break, whatever its delays.
pub diff_contracts-same :
    (lib : DelayLibrary) (a : ParsedSchema)
    → distinct (names_of a.contract_output) ≡ true
    → diff_contracts lib a a ≡ record {
      added = [];
      removed = [];
      changes = unchanged;
      grain_changed = none;
      sla_changed = false;
      security_changed = false;
      breaking = false;
    }
unfolding diff_contracts
diff_contracts-same lib a d =
    let found = All-Found a.contract_output d in
    let fs = a.contract_output in
    rw (missing_from-same fs fs found) (
      rw (compare_fields-same fs fs found) (
        rw (same_texts_refl a.contract_grain) (
          rw (diff_sla-same lib (sla_tuple a.contract_sla))
            (rw (diff_security-same (security_tuple a.contract_security)) refl))))
