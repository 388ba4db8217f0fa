-- ===== src/Json.antt =====
-- The Python values that cross the capability boundary, and the external JSON library and hash.
--
-- A mapping is the list of its items in iteration order. Floats are IEEE bit patterns: the modelled
-- code only asks whether one is finite. `opaque` is any other object, by its class name (a tuple, a
-- `CredentialLease`, ...). Cycles are not values of this type, so a check for them never fires.
pub mod Canonical
pub mod Copy
pub mod Redaction
mod Examples
use skifer.Prelude.{
  ℕ, ◌/◌, ◌%◌, ◌^◌, String, Bool, true, false, not, Option, none, some, if◌then◌else◌,
}
use Prim.Native.Nat.{compare, Ordering}
use Prim.Native.String.{compare as compare_text}

pub data ℤ : Type 0 where
  pos : ℕ → ℤ
  negsuc : ℕ → ℤ

pub data Key : Type 0 where
  name : String → Key
  -- a key that is no text
  other_key : Key

mutual
  pub data Value : Type 0 where
    null : Value
    bool : Bool → Value
    int : ℤ → Value
    float : ℕ → Value
    text : String → Value
    list : Items → Value
    dict : Fields → Value
    opaque : String → Value

  pub data Items : Type 0 where
    nil : Items
    cons : Value → Items → Items

  pub data Fields : Type 0 where
    end : Fields
    field : Key → Value → Fields → Fields

-- `math.isfinite`: the eleven bits of the exponent are not all ones.
unfoldable pub is_finite : ℕ → Bool
is_finite bits = elim (compare (bits / 2 ^ 52 % 2 ^ 11) 2047) [ Ordering.eq ↦ false | _ ↦ true ]

-- `isinstance(value, Mapping)`
abbrev pub is_mapping : Value → Bool
is_mapping (dict _) = true
is_mapping _ = false

-- `sorted(keys)`: the items of a mapping in the order of its keys, which are all text.
key_after : Key → Key → Bool
key_after (name a) (name b) = elim (compare_text a b) [ Ordering.gt ↦ true | _ ↦ false ]
key_after _ _ = false

insert_field : Key → Value → Fields → Fields
unfolding key_after
insert_field k v end = field k v end
insert_field k v (field j w fs) =
    let rest = insert_field k v fs in
    if key_after k j then field j w rest else field k v (field j w fs)

unfoldable pub sort_fields : Fields → Fields
unfolding insert_field
sort_fields end = end
sort_fields (field k v fs) = insert_field k v (sort_fields fs)

-- The standard library: `json.dumps` with sorted keys and the compact separators, `json.loads`
-- (`none` stands for a `JSONDecodeError`), the bytes of a text's UTF-8, and
-- `hashlib.sha256(...).hexdigest()`.
pub record JsonLibrary : Type 1 where
  pub Text : Type 0
  pub dumps : Value → Text
  pub loads : Text → Option Value
  pub byte_size : Text → ℕ
  pub sha256 : Text → String
