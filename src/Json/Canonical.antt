-- ===== src/Json/Canonical.antt =====
-- `_canonical_state` of src/skifer/capabilities/preconditions.py.
use Prim.Native.String.{len, ◌++◌ as text_append}
use skifer.Prelude.{ℕ, zero, suc, ◌+◌, String, ltb, if◌then◌else◌}
use skifer.Outcome.{Result, ok, err, snapshot_invalid, snapshot_too_large, refuse, ◌>>=◌, ◌>>◌}
use skifer.Json.{
  name, other_key, Value, null, bool, int, float, text, list, dict, opaque, Items, nil, cons,
  Fields, end, field, is_finite, sort_fields, JsonLibrary,
}

abbrev pub max_state_bytes : ℕ
max_state_bytes = 65_536

abbrev pub max_state_nodes : ℕ
max_state_nodes = 4_096

abbrev pub max_state_depth : ℕ
max_state_depth = 16

-- The two counters of the copy.
pub record Budget : Type 0 where
  pub nodes : ℕ
  pub estimated_bytes : ℕ

abbrev pub fresh_budget : Budget
fresh_budget = record { nodes = 0; estimated_bytes = 0 }

unfoldable pub visit : Budget → Result Budget
visit b =
    if ltb max_state_nodes (b.nodes + 1)
    then err snapshot_too_large
    else ok (record b { nodes = b.nodes + 1 })

unfoldable pub charge : ℕ → Budget → Result Budget
charge n b =
    if ltb max_state_bytes (b.estimated_bytes + n)
    then err snapshot_too_large
    else ok (record b { estimated_bytes = b.estimated_bytes + n })

-- The first loop over a mapping's keys.
unfoldable pub scan_keys : Fields → Budget → Result Budget
scan_keys end b = ok b
scan_keys (field other_key v fs) b = do seen ← visit b; err snapshot_invalid
scan_keys (field (name k) v fs) b = do
  seen ← visit b
  charged ← charge (len k) seen
  scan_keys fs charged

-- The call of `copy` on a part.
abbrev pub Copier : Type 0
Copier = Value → Budget → Result (Value × Budget)

unfoldable pub copy_list : Copier → Items → Budget → Result (Items × Budget)
copy_list rec nil b = ok (nil, b)
copy_list rec (cons x xs) b = do
  first ← rec x b
  rest ← copy_list rec xs first.1
  ok (cons first.0 rest.0, rest.1)

unfoldable pub copy_mapping : Copier → Fields → Budget → Result (Fields × Budget)
copy_mapping rec end b = ok (end, b)
copy_mapping rec (field k v fs) b = do
  first ← rec v b
  rest ← copy_mapping rec fs first.1
  ok (field k first.0 rest.0, rest.1)

module _ (lib : JsonLibrary) where
  unfoldable pub copy_scalar : Value → Budget → Result (Value × Budget)
  copy_scalar v b = do charged ← charge (lib.byte_size (lib.dumps v)) b; ok (v, charged)

  -- The body of `copy` behind the tests of the depth and of the nodes.
  unfoldable pub copy_node : Copier → Value → Budget → Result (Value × Budget)
  copy_node rec (float bits) b =
      if is_finite bits then copy_scalar (float bits) b else err snapshot_invalid
  copy_node rec (list xs) b = do copied ← copy_list rec xs b; ok (list copied.0, copied.1)
  copy_node rec (dict fs) b = do
    scanned ← scan_keys fs b
    copied ← copy_mapping rec (sort_fields fs) scanned
    ok (dict copied.0, copied.1)
  copy_node rec (opaque s) b = err snapshot_invalid
  copy_node rec null b = copy_scalar null b
  copy_node rec (bool x) b = copy_scalar (bool x) b
  copy_node rec (int n) b = copy_scalar (int n) b
  copy_node rec (text s) b = copy_scalar (text s) b

  -- `copy`, on the levels left: `max_state_depth + 1 - depth`. At none left the code raises.
  unfoldable pub copy_state : ℕ → Value → Budget → Result (Value × Budget)
  copy_state zero v b = err snapshot_too_large
  copy_state (suc room) v b = do seen ← visit b; copy_node (copy_state room) v seen

  -- `f"sha256:v1:{digest}"`
  unfoldable pub digest_of : Value → String
  digest_of v = text_append "sha256:v1:" (lib.sha256 (lib.dumps v))

  finish_state : Value → Result (Value × String)
  finish_state copied = do
    refuse (ltb max_state_bytes (lib.byte_size (lib.dumps copied))) snapshot_too_large
    ok (copied, digest_of copied)

  unfoldable pub canonical_state : Value → Result (Value × String)
  unfolding finish_state
  canonical_state (dict fs) = do
    copied ← copy_state (suc max_state_depth) (dict fs) fresh_budget
    finish_state copied.0
  canonical_state _ = err snapshot_invalid
