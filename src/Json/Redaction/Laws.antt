-- ===== src/Json/Redaction/Laws.antt =====
-- What redaction removes from a value, and what it keeps.
use mathlib.Core.Path.{ap₂}
use skifer.Prelude.{String, ◌≡◌, refl, ◌⊎◌, inl, inr, Bool, true, false, ◌||◌, arith, Bool-cases}
use skifer.Json.{
  Key, name, other_key, Value, null, bool, int, float, text, list, dict, opaque, Items, nil, cons,
  Fields, end, field,
}
use skifer.Json.Copy.Laws.{is_json, are_json, fields_are_json}
use skifer.Json.Redaction.{redacted_credential, echoes, redact, redact_items, redact_fields}

-- No text value, at any depth, holds the secret: each is free of it or is the marker.
abbrev pub IsClean : String → String → Type 0
IsClean secret s = (echoes secret s ≡ false) ⊎ (s ≡ redacted_credential)

abbrev mutual
  pub AllClean : String → Value → Type 0
  AllClean secret (text s) = IsClean secret s
  AllClean secret (list xs) = ItemsClean secret xs
  AllClean secret (dict fs) = FieldsClean secret fs
  AllClean secret _ = Unit

  pub ItemsClean : String → Items → Type 0
  ItemsClean secret nil = Unit
  ItemsClean secret (cons x xs) = AllClean secret x × ItemsClean secret xs

  pub FieldsClean : String → Fields → Type 0
  FieldsClean secret end = Unit
  FieldsClean secret (field k v fs) = AllClean secret v × FieldsClean secret fs

mutual
  unfolding redact

  redact_clean : (secret : String) (v : Value) → AllClean secret (redact secret v).0
  redact_clean secret (text s) = elim (Bool-cases (echoes secret s)) [
    | inl h ↦ rw h (inr refl)
    | inr h ↦ rw h (inl h)
  ]
  redact_clean secret (list xs) = redact_items_clean secret xs
  redact_clean secret (dict fs) = redact_fields_clean secret fs
  redact_clean secret null = tt
  redact_clean secret (bool b) = tt
  redact_clean secret (int n) = tt
  redact_clean secret (float b) = tt
  redact_clean secret (opaque s) = tt

  redact_items_clean : (secret : String) (xs : Items) → ItemsClean secret (redact_items secret xs).0
  redact_items_clean secret nil = tt
  redact_items_clean secret (cons x xs) = (redact_clean secret x, redact_items_clean secret xs)

  redact_fields_clean :
      (secret : String) (fs : Fields) → FieldsClean secret (redact_fields secret fs).0
  redact_fields_clean secret end = tt
  redact_fields_clean secret (field k v fs) = (redact_clean secret v, redact_fields_clean secret fs)

-- Some text value, at some depth, holds the secret.
mutual
  pub has_echo : String → Value → Bool
  has_echo secret (text s) = echoes secret s
  has_echo secret (list xs) = items_have_echo secret xs
  has_echo secret (dict fs) = fields_have_echo secret fs
  has_echo secret _ = false

  pub items_have_echo : String → Items → Bool
  items_have_echo secret nil = false
  items_have_echo secret (cons x xs) = has_echo secret x || items_have_echo secret xs

  pub fields_have_echo : String → Fields → Bool
  fields_have_echo secret end = false
  fields_have_echo secret (field k v fs) = has_echo secret v || fields_have_echo secret fs

-- The output where no text value holds the secret: unchanged, with the flag down; else the flag is up.
abbrev Reported : {A : Type 0} → Bool → A → A × Bool → Type 0
Reported echo v r = (r.1 ≡ echo) × (echo ≡ false → r.0 ≡ v)

or_false : (a b : Bool) → (a || b) ≡ false → (a ≡ false) × (b ≡ false)
or_false a b h = ground arith

-- The two parts of a node are redacted on their own.
Reported-node :
    {A B C : Type 0} (build : A → B → C) (e f : Bool) (a : A) (b : B) (p : A × Bool) (q : B × Bool)
    → Reported e a p
    → Reported f b q
    → Reported (e || f) (build a b) (build p.0 q.0, p.1 || q.1)
Reported-node build e f a b p q hp hq =
    (ap₂ ◌||◌ hp.0 hq.0, λ h. ap₂ build (hp.1 (or_false e f h).0) (hq.1 (or_false e f h).1))

mutual
  unfolding redact has_echo

  redact-Reported : (secret : String) (v : Value) → Reported (has_echo secret v) v (redact secret v)
  redact-Reported secret (text s) = ground arith
  redact-Reported secret (list xs) = ground (arith, redact_items-Reported secret xs)
  redact-Reported secret (dict fs) = ground (arith, redact_fields-Reported secret fs)
  redact-Reported secret null = (refl, λ _. refl)
  redact-Reported secret (bool b) = (refl, λ _. refl)
  redact-Reported secret (int n) = (refl, λ _. refl)
  redact-Reported secret (float b) = (refl, λ _. refl)
  redact-Reported secret (opaque s) = (refl, λ _. refl)

  redact_items-Reported :
      (secret : String) (xs : Items)
      → Reported (items_have_echo secret xs) xs (redact_items secret xs)
  redact_items-Reported secret nil = (refl, λ _. refl)
  redact_items-Reported secret (cons x xs) =
      Reported-node cons (has_echo secret x) (items_have_echo secret xs) x xs (redact secret x)
        (redact_items secret xs) (redact-Reported secret x) (redact_items-Reported secret xs)

  redact_fields-Reported :
      (secret : String) (fs : Fields)
      → Reported (fields_have_echo secret fs) fs (redact_fields secret fs)
  redact_fields-Reported secret end = (refl, λ _. refl)
  redact_fields-Reported secret (field k v fs) =
      Reported-node (field k) (has_echo secret v) (fields_have_echo secret fs) v fs
        (redact secret v) (redact_fields secret fs) (redact-Reported secret v)
        (redact_fields-Reported secret fs)

mutual
  unfolding redact is_json

  redact_json : (secret : String) (v : Value) → is_json (redact secret v).0 ≡ is_json v
  redact_json secret (text s) = ground arith
  redact_json secret (list xs) = redact_items_json secret xs
  redact_json secret (dict fs) = redact_fields_json secret fs
  redact_json secret null = refl
  redact_json secret (bool b) = refl
  redact_json secret (int n) = refl
  redact_json secret (float b) = refl
  redact_json secret (opaque s) = refl

  redact_items_json :
      (secret : String) (xs : Items) → are_json (redact_items secret xs).0 ≡ are_json xs
  redact_items_json secret nil = refl
  redact_items_json secret (cons x xs) =
      ground (arith, redact_json secret x, redact_items_json secret xs)

  redact_fields_json :
      (secret : String) (fs : Fields)
      → fields_are_json (redact_fields secret fs).0 ≡ fields_are_json fs
  redact_fields_json secret end = refl
  redact_fields_json secret (field other_key v fs) = refl
  redact_fields_json secret (field (name k) v fs) =
      ground (arith, redact_json secret v, redact_fields_json secret fs)

-- The second value is the first one with the marker in place of each text that holds the secret, at
-- its place; all else stands where it stood, keys included.
mutual
  pub data IsRedacted (secret : String) : Value → Value → Type 0 where
    marked :
        (s : String)
        → echoes secret s ≡ true
        → IsRedacted secret (text s) (text redacted_credential)
    kept : (v : Value) → has_echo secret v ≡ false → IsRedacted secret v v
    in_list : (xs ys : Items) → ItemsRedacted secret xs ys → IsRedacted secret (list xs) (list ys)
    in_dict : (fs gs : Fields) → FieldsRedacted secret fs gs → IsRedacted secret (dict fs) (dict gs)

  pub data ItemsRedacted (secret : String) : Items → Items → Type 0 where
    no_item : ItemsRedacted secret nil nil
    items :
        (x y : Value) (xs ys : Items)
        → IsRedacted secret x y
        → ItemsRedacted secret xs ys
        → ItemsRedacted secret (cons x xs) (cons y ys)

  pub data FieldsRedacted (secret : String) : Fields → Fields → Type 0 where
    no_field : FieldsRedacted secret end end
    fields :
        (k : Key) (v w : Value) (fs gs : Fields)
        → IsRedacted secret v w
        → FieldsRedacted secret fs gs
        → FieldsRedacted secret (field k v fs) (field k w gs)

mutual
  unfolding redact has_echo

  redact-IsRedacted : (secret : String) (v : Value) → IsRedacted secret v (redact secret v).0
  redact-IsRedacted secret (text s) = elim (Bool-cases (echoes secret s)) [
    | inl h ↦ rw h (marked s h)
    | inr h ↦ rw h (kept (text s) h)
  ]
  redact-IsRedacted secret (list xs) = in_list xs _ (redact-ItemsRedacted secret xs)
  redact-IsRedacted secret (dict fs) = in_dict fs _ (redact-FieldsRedacted secret fs)
  redact-IsRedacted secret null = kept null refl
  redact-IsRedacted secret (bool b) = kept (bool b) refl
  redact-IsRedacted secret (int n) = kept (int n) refl
  redact-IsRedacted secret (float b) = kept (float b) refl
  redact-IsRedacted secret (opaque s) = kept (opaque s) refl

  redact-ItemsRedacted :
      (secret : String) (xs : Items) → ItemsRedacted secret xs (redact_items secret xs).0
  redact-ItemsRedacted secret nil = no_item
  redact-ItemsRedacted secret (cons x xs) =
      items x _ xs _ (redact-IsRedacted secret x) (redact-ItemsRedacted secret xs)

  redact-FieldsRedacted :
      (secret : String) (fs : Fields) → FieldsRedacted secret fs (redact_fields secret fs).0
  redact-FieldsRedacted secret end = no_field
  redact-FieldsRedacted secret (field k v fs) =
      fields k v _ fs _ (redact-IsRedacted secret v) (redact-FieldsRedacted secret fs)

-- Redaction puts the marker in place of each text value that holds the secret, at any depth, and
-- leaves all else where it stands: the other items of a list, the keys of a mapping (also one that
-- holds the secret) and their other values. So every text value of the output is free of the secret
-- or is the marker; a value without such a text is unchanged; the flag is up exactly if there was
-- one; and JSON-native data stays JSON-native data.
pub redact_lem :
    (secret : String) (v : Value)
    → IsRedacted secret v (redact secret v).0
      × AllClean secret (redact secret v).0
      × ((redact secret v).1 ≡ has_echo secret v)
      × (has_echo secret v ≡ false → (redact secret v).0 ≡ v)
      × (is_json (redact secret v).0 ≡ is_json v)
redact_lem secret v = (
  redact-IsRedacted secret v,
  redact_clean secret v,
  (redact-Reported secret v).0,
  (redact-Reported secret v).1,
  redact_json secret v,
)
