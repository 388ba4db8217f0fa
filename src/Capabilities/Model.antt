-- ===== src/Capabilities/Model.antt =====
-- models.py: the declaration of a capability. Values of these types have passed
-- `CapabilityDefinition.__post_init__`; the YAML validator behind it is not modelled.
use skifer.Prelude.{ℕ, String, Bool, true, false, Option, List}
use skifer.Json.{Value}

pub data CapabilityMode : Type 0 where
  read write : CapabilityMode

pub data ActingAs : Type 0 where
  service delegated_user : ActingAs

pub data Reversibility : Type 0 where
  reversible compensatable irreversible : Reversibility

pub data ApprovalMode : Type 0 where
  shadow supervised guarded : ApprovalMode

-- The closed input schema, as the validator leaves it. `enum` is there if it is declared.
mutual
  pub data Schema : Type 0 where
    object : Option (List Value) → Properties → List String → Schema
    array : Option (List Value) → Schema → ℕ → Schema
    string : Option (List Value) → ℕ → Schema
    boolean : Option (List Value) → Schema
    integer : Option (List Value) → Value → Value → Schema
    number : Option (List Value) → Value → Value → Schema

  pub data Properties : Type 0 where
    no_more : Properties
    property : String → Schema → Properties → Properties

pub record CapabilityDefinition : Type 0 where
  pub id : String
  pub version : String
  pub owner : String
  pub description : String
  pub mode : CapabilityMode
  pub executor : String
  pub acting_as : ActingAs
  pub required_scopes : List String
  pub input_schema : Schema
  pub preconditions : List String
  pub reversibility : Reversibility
  pub compensation : Option String
  pub approval : ApprovalMode
  pub idempotency_key : Option String
  pub policy_uri : String
  pub policy_hash : String

abbrev pub is_write : CapabilityMode → Bool
is_write write = true
is_write read = false

abbrev pub is_irreversible : Reversibility → Bool
is_irreversible irreversible = true
is_irreversible _ = false
