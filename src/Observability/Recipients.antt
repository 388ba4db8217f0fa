-- ===== src/Observability/Recipients.antt =====
-- incidents.py: `AlertRouter.resolve_recipients`. How the router finds an owner and the lineage edges
-- in the governance object that the application hands it is a parameter.
pub mod Notified
use skifer.Prelude.{
  ℕ, String, Bool, true, false, ◌&&◌, ◌==◌, Option, none, some, List, [], ◌∷◌, ◌++◌, any, or_else,
  if◌then◌else◌,
}
use skifer.Observability.Downstream.{Edge, bounded_downstream_datasets}

-- A value of an owner's payload that is truthy or a text.
pub data Entry : Type 0 where
  written : String → Entry
  other_object : Entry

-- An owner's payload. A contact that is no text, and another value that is falsy, is `none`.
pub record Owner : Type 0 where
  pub contact : Option String
  pub team : Option Entry
  pub steward : Option Entry
  pub via : Option Entry

-- `a or b`
abbrev or_entry : Option Entry → Option Entry → Option Entry
or_entry none b = b
or_entry (some other_object) b = some other_object
or_entry (some (written s)) b = if s == "" then b else some (written s)

-- `isinstance(value, str)`
abbrev entry_text : Option Entry → Option String
entry_text (some (written s)) = some s
entry_text _ = none

pub record Recipient : Type 0 where
  pub contact : String
  pub team : Option String
  pub via : String
  pub source_fqn : String

-- `str.strip`
abbrev pub Strip : Type 0
Strip = String → String

-- The stripped text, where something is left of it.
abbrev pub stripped : Strip → Option String → Option String
stripped strip none = none
stripped strip (some s) = if strip s == "" then none else some (strip s)

abbrev with_contact : Strip → Owner → String → Option String → Option Recipient
with_contact strip owner source none = none
with_contact strip owner source (some contact) = some (record {
  contact = contact;
  team = stripped strip (entry_text (or_entry owner.team owner.steward));
  via = or_else (stripped strip (entry_text (or_entry owner.via (some (written "email"))))) "email";
  source_fqn = source;
})

unfoldable pub recipient_from_owner : Strip → Option Owner → String → Option Recipient
recipient_from_owner strip none source = none
recipient_from_owner strip (some owner) source =
    with_contact strip owner source (stripped strip owner.contact)

-- The key under which a recipient is told once.
abbrev pub same_key : Recipient → Recipient → Bool
same_key r s = r.contact == s.contact && r.via == s.via

unfoldable pub add : Option Recipient → List Recipient → List Recipient
add none rs = rs
add (some r) rs = if any (λ s. same_key s r) rs then rs else rs ++ r ∷ []

unfoldable pub add_owners :
    Strip → (String → Option Owner) → List String → List Recipient → List Recipient
unfolding add recipient_from_owner
add_owners strip owner_for [] rs = rs
add_owners strip owner_for (fqn ∷ fqns) rs =
    add_owners strip owner_for fqns (add (recipient_from_owner strip (owner_for fqn) fqn) rs)

unfoldable pub resolve_recipients :
    Strip → (String → Option Owner) → List Edge → String → ℕ → List Recipient
unfolding add_owners
resolve_recipients strip owner_for edges target max_depth =
    add_owners strip owner_for (target ∷ bounded_downstream_datasets edges target max_depth) []
