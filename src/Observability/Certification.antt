-- ===== src/Observability/Certification.antt =====
-- certification.py: what changes between two versions of a contract, and whether it breaks consumers.
pub mod Fields
pub mod Compatible
pub mod Same
mod Examples
use skifer.Prelude.{
  ℕ, String, Bool, true, false, not, ◌&&◌, ◌||◌, ◌==◌, Option, none, some, List, [], ◌∷◌, ltb, any,
  if◌then◌else◌,
}
use skifer.Observability.Checks.{truthy}

pub record ParsedOutputField : Type 0 where
  pub name : String
  pub logical_type : Option String
  pub required : Option Bool
  pub unique : Option Bool
  pub classification : Option String
  pub entity : Option String

pub record ParsedSla : Type 0 where
  pub refresh_frequency : Option String
  pub max_latency : Option String

pub record ParsedSecurity : Type 0 where
  pub level : Option String
  pub access_policy : Option String

-- The parts of a `ParsedSchema` that are compared.
pub record ParsedSchema : Type 0 where
  pub contract_output : List ParsedOutputField
  pub contract_grain : List String
  pub contract_sla : Option ParsedSla
  pub contract_security : Option ParsedSecurity

-- Python's `str.strip`, `text[-1:]` with `text[:-1]`, and `timedelta(<unit>=float(text))`, which may raise, with its comparison.
pub record DelayLibrary : Type 1 where
  pub Delay : Type 0
  pub strip : String → String
  -- the text's last character, and what is before it
  pub last : String → Option (String × String)
  -- none where it raises ValueError; an amount that overflows, of which the source lets the
  -- OverflowError pass, is outside the model
  pub timedelta : String → String → Option Delay
  pub exceeds : Delay → Delay → Bool

-- `CLASSIFICATION_RANK`
unfoldable pub classification_rank : String → Option ℕ
classification_rank level =
    if level == "public"
    then some 0
    else if level == "internal"
    then some 1
    else if level == "confidential"
    then some 2
    else if level == "restricted"
    then some 3
    else if level == "pii"
    then some 4
    else none

-- `{field.name: field for field in fields}`: the last field of a name counts.
unfoldable pub find_field : String → List ParsedOutputField → Option ParsedOutputField
find_field name [] = none
find_field name (f ∷ fs) = elim (find_field name fs) [
  | some g ↦ some g
  | none ↦ if f.name == name then some f else none
]

-- `text or default`
abbrev pub text_or : String → Option String → String
text_or default o = elim (truthy o) [ none ↦ default | some s ↦ s ]

-- `bool(flag)`
abbrev pub flag : Option Bool → Bool
flag none = false
flag (some b) = b

abbrev pub same_flag : Bool → Bool → Bool
same_flag true b = b
same_flag false b = not b

-- `CLASSIFICATION_RANK.get(level, 0)`
unfoldable pub rank_or_zero : String → ℕ
unfolding classification_rank
rank_or_zero level = elim (classification_rank level) [ none ↦ 0 | some n ↦ n ]

-- The lists and the flags of the loop of `diff_contracts`.
pub record Changes : Type 0 where
  pub retyped : List (String × String × String)
  pub required_changed : List (String × Bool × Bool)
  pub classification_changed : List (String × String × String)
  pub unique_changed : List (String × Bool × Bool)
  pub entity_changed : List (String × String × String)
  pub required_hardened : Bool
  pub unique_hardened : Bool
  pub classification_downgraded : Bool

abbrev pub unchanged : Changes
unchanged = record {
  retyped = [];
  required_changed = [];
  classification_changed = [];
  unique_changed = [];
  entity_changed = [];
  required_hardened = false;
  unique_hardened = false;
  classification_downgraded = false;
}

-- What one field adds, in front of what the later fields add.
unfoldable pub compare_field : ParsedOutputField → Option ParsedOutputField → Changes → Changes
compare_field f none rest = rest
compare_field f (some g) rest =
    let type_a = text_or "" f.logical_type in
    let type_b = text_or "" g.logical_type in
    let entity_a = text_or "" f.entity in
    let entity_b = text_or "" g.entity in
    let class_a = text_or "public" f.classification in
    let class_b = text_or "public" g.classification in
    let required_a = flag f.required in
    let required_b = flag g.required in
    let unique_a = flag f.unique in
    let unique_b = flag g.unique in
    record {
      retyped = if type_a == type_b then rest.retyped else (f.name, type_a, type_b) ∷ rest.retyped;
      required_changed =
          if same_flag required_a required_b
          then rest.required_changed
          else (f.name, required_a, required_b) ∷ rest.required_changed;
      classification_changed =
          if class_a == class_b
          then rest.classification_changed
          else (f.name, class_a, class_b) ∷ rest.classification_changed;
      unique_changed =
          if same_flag unique_a unique_b
          then rest.unique_changed
          else (f.name, unique_a, unique_b) ∷ rest.unique_changed;
      entity_changed =
          if entity_a == entity_b
          then rest.entity_changed
          else (f.name, entity_a, entity_b) ∷ rest.entity_changed;
      required_hardened = (not required_a && required_b) || rest.required_hardened;
      unique_hardened = (not unique_a && unique_b) || rest.unique_hardened;
      classification_downgraded =
          (not (class_a == class_b) && ltb (rank_or_zero class_b) (rank_or_zero class_a))
          || rest.classification_downgraded;
    }

unfoldable pub compare_fields : List ParsedOutputField → List ParsedOutputField → Changes
unfolding compare_field find_field
compare_fields [] new_fields = unchanged
compare_fields (f ∷ fs) new_fields =
    compare_field f (find_field f.name new_fields) (compare_fields fs new_fields)

-- The names of the first fields that the second lack.
unfoldable pub missing_from : List ParsedOutputField → List ParsedOutputField → List String
missing_from [] others = []
missing_from (f ∷ fs) others =
    let rest = missing_from fs others in
    if any (λ g. g.name == f.name) others then rest else f.name ∷ rest

abbrev pub Pair : Type 0
Pair = Option String × Option String

abbrev pub same_text : Option String → Option String → Bool
same_text none none = true
same_text (some s) (some t) = s == t
same_text _ _ = false

abbrev pub same_pair : Pair → Pair → Bool
same_pair p q = same_text p.0 q.0 && same_text p.1 q.1

abbrev pub security_tuple : Option ParsedSecurity → Pair
security_tuple none = (none, none)
security_tuple (some s) = (s.level, s.access_policy)

abbrev pub rank_of : Option String → Option ℕ
rank_of none = none
rank_of (some level) = classification_rank level

abbrev pub lowered : Option ℕ → Option ℕ → Bool
lowered (some old_rank) (some new_rank) = ltb new_rank old_rank
lowered _ _ = true

-- Changed, and breaking.
unfoldable pub diff_security_breaking : Pair → Pair → Bool × Bool
diff_security_breaking old new =
    if same_pair old new
    then (false, false)
    else if not (same_text old.1 new.1)
    then (true, true)
    else (true, lowered (rank_of old.0) (rank_of new.0))

abbrev pub sla_tuple : Option ParsedSla → Pair
sla_tuple none = (none, none)
sla_tuple (some s) = (s.refresh_frequency, s.max_latency)

module _ (lib : DelayLibrary) where
  -- `FreshnessCheck._parse_delay`
  unfoldable pub parse_unit : Option (String × String) → Option lib.Delay
  parse_unit none = none
  parse_unit (some (body, unit)) =
      if unit == "h"
      then lib.timedelta "hours" body
      else if unit == "m"
      then lib.timedelta "minutes" body
      else if unit == "d"
      then lib.timedelta "days" body
      else if unit == "s"
      then lib.timedelta "seconds" body
      else none

  unfoldable pub parse_delay : String → Option lib.Delay
  unfolding parse_unit
  parse_delay text = parse_unit (lib.last (lib.strip text))

  unfoldable pub longer : Option lib.Delay → Option lib.Delay → Bool
  longer (some old_delay) (some new_delay) = lib.exceeds new_delay old_delay
  longer _ _ = true

  unfoldable pub relaxed : Option String → Option String → Bool
  unfolding longer parse_delay
  relaxed (some old_latency) (some new_latency) =
      longer (parse_delay old_latency) (parse_delay new_latency)
  relaxed _ _ = true

  unfoldable pub diff_sla_breaking : Pair → Pair → Bool × Bool
  diff_sla_breaking old new =
      if same_pair old new
      then (false, false)
      else if not (same_text old.0 new.0)
      then (true, true)
      else (true, relaxed old.1 new.1)

pub record ContractDiff : Type 0 where
  pub added : List String
  pub removed : List String
  pub changes : Changes
  pub grain_changed : Option (List String × List String)
  pub sla_changed : Bool
  pub security_changed : Bool
  pub breaking : Bool

abbrev pub nonempty : {A : Type 0} → List A → Bool
nonempty [] = false
nonempty (x ∷ xs) = true

abbrev pub same_texts : List String → List String → Bool
same_texts [] [] = true
same_texts (x ∷ xs) (y ∷ ys) = x == y && same_texts xs ys
same_texts _ _ = false

unfoldable pub diff_contracts : DelayLibrary → ParsedSchema → ParsedSchema → ContractDiff
diff_contracts lib a b =
    let removed = missing_from a.contract_output b.contract_output in
    let changes = compare_fields a.contract_output b.contract_output in
    let sla = diff_sla_breaking lib (sla_tuple a.contract_sla) (sla_tuple b.contract_sla) in
    let security =
      diff_security_breaking (security_tuple a.contract_security)
        (security_tuple b.contract_security) in
    record {
      added = missing_from b.contract_output a.contract_output;
      removed = removed;
      changes = changes;
      grain_changed =
          if same_texts a.contract_grain b.contract_grain
          then none
          else some (a.contract_grain, b.contract_grain);
      sla_changed = sla.0;
      security_changed = security.0;
      breaking =
          nonempty removed
          || nonempty changes.retyped
          || changes.required_hardened
          || changes.unique_hardened
          || changes.classification_downgraded
          || not (same_texts a.contract_grain b.contract_grain)
          || sla.1
          || security.1;
    }
