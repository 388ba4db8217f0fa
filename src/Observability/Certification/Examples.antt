-- ===== src/Observability/Certification/Examples.antt =====
-- A concrete contract and its next version.
use skifer.Prelude.{
  ltb, ◌≡◌, refl, true, false, ◌==◌, Option, none, some, [], ◌∷◌, ℕ, String, if◌then◌else◌,
}
use skifer.Observability.Certification.{
  ParsedOutputField, ParsedSchema, DelayLibrary, diff_contracts, unchanged, rank_or_zero,
  compare_fields, missing_from, diff_security_breaking, diff_sla_breaking, relaxed,
}
use skifer.Observability.Certification.Compatible.{IsCompatible, diff_contracts-IsCompatible}
use skifer.Observability.Certification.Same.{diff_contracts-same}

-- Delays of one digit, in seconds and in hours.
abbrev amount : String → Option ℕ
amount s = if s == "2" then some 2 else if s == "1" then some 1 else none

abbrev delays : DelayLibrary
delays = record {
  Delay = ℕ;
  strip = λ s. s;
  last = λ s. if s == "2h" then some ("2", "h") else if s == "1h" then some ("1", "h") else none;
  timedelta = λ unit text. amount text;
  exceeds = λ a b. ltb b a;
}

abbrev field : Option String → ParsedOutputField
field classification = record {
  name = "id";
  logical_type = some "string";
  required = some true;
  unique = none;
  classification = classification;
  entity = none;
}

abbrev old_contract : ParsedSchema
old_contract = record {
  contract_output = field (some "internal") ∷ [];
  contract_grain = "id" ∷ [];
  contract_sla = some (record { refresh_frequency = some "daily"; max_latency = some "2h" });
  contract_security = some (record { level = some "internal"; access_policy = none });
}

abbrev new_contract : ParsedSchema
new_contract = record {
  contract_output = field (some "pii") ∷ [];
  contract_grain = "id" ∷ [];
  contract_sla = some (record { refresh_frequency = some "daily"; max_latency = some "1h" });
  contract_security = some (record { level = some "pii"; access_policy = none });
}

tightened : (diff_contracts delays old_contract new_contract).breaking ≡ false
unfolding diff_contracts missing_from compare_fields rank_or_zero diff_sla_breaking relaxed
    diff_security_breaking
tightened = refl

-- The other way it breaks.
loosened : (diff_contracts delays new_contract old_contract).breaking ≡ true
unfolding diff_contracts missing_from compare_fields rank_or_zero
loosened = refl

diff_contracts-IsCompatible_example : IsCompatible delays old_contract new_contract
diff_contracts-IsCompatible_example =
    diff_contracts-IsCompatible delays old_contract new_contract tightened

diff_contracts-same_example : diff_contracts delays old_contract old_contract ≡ record {
  added = [];
  removed = [];
  changes = unchanged;
  grain_changed = none;
  sla_changed = false;
  security_changed = false;
  breaking = false;
}
diff_contracts-same_example = diff_contracts-same delays old_contract refl
