-- ===== src/Capabilities/History/Detail.antt =====
-- `_copy_bounded_detail` of history.py, and `_is_secret_key` of validator.py.
use Prim.Native.Nat.{compare, Ordering}
use skifer.Prelude.{
  ℕ, zero, suc, ◌+◌, String, Bool, true, false, ◌&&◌, ◌||◌, List, [], ◌∷◌, ltb, leb, any,
  if◌then◌else◌,
}
use skifer.Prelude.Text.{codes}
use skifer.Outcome.{capability_history_error, Result, ok, err, require, refuse, ◌>>=◌, ◌>>◌}
use skifer.Json.{
  name, other_key, Value, null, bool, int, float, text, list, dict, opaque, Items, nil, cons,
  Fields, end, field, is_finite, is_mapping, JsonLibrary,
}

abbrev pub max_event_detail_bytes : ℕ
max_event_detail_bytes = 4_096

abbrev pub max_detail_depth : ℕ
max_detail_depth = 16

abbrev pub max_detail_nodes : ℕ
max_detail_nodes = 1_024

abbrev code_eq : ℕ → ℕ → Bool
code_eq a b = elim (compare a b) [ Ordering.eq ↦ true | _ ↦ false ]

begins_with : List ℕ → List ℕ → Bool
begins_with cs [] = true
begins_with [] (p ∷ ps) = false
begins_with (c ∷ cs) (p ∷ ps) = code_eq c p && begins_with cs ps

-- `part in text`
contains_codes : List ℕ → List ℕ → Bool
unfolding begins_with
contains_codes [] part = begins_with [] part
contains_codes (c ∷ cs) part = begins_with (c ∷ cs) part || contains_codes cs part

-- `re.sub(r"[^a-z0-9]", "", text)`
compact_codes : List ℕ → List ℕ
compact_codes [] = []
compact_codes (c ∷ cs) =
    let rest = compact_codes cs in
    if (leb b'a' c && leb c b'z') || (leb b'0' c && leb c b'9') then c ∷ rest else rest

-- `part.replace("_", "")`
drop_underscores : List ℕ → List ℕ
drop_underscores [] = []
drop_underscores (c ∷ cs) =
    let rest = drop_underscores cs in if code_eq c 95 then rest else c ∷ rest

abbrev pub secret_key_parts : List String
secret_key_parts =
    "token" ∷ "secret" ∷ "password" ∷ "passwd" ∷ "credential" ∷ "api_key" ∷ "apikey" ∷ "private_key"
    ∷ []

-- `_is_secret_key`; `lower` is Python's `str.lower`.
unfoldable pub is_secret_key : (String → String) → String → Bool
unfolding contains_codes compact_codes drop_underscores
is_secret_key lower key =
    let lowered = codes (lower key) in
    let compact = compact_codes lowered in
    any
      (λ part.
        contains_codes lowered (codes part)
        || contains_codes compact (drop_underscores (codes part)))
      secret_key_parts

-- The counter of the copy.
count_node : ℕ → Result ℕ
count_node nodes =
    if ltb max_detail_nodes (nodes + 1) then err capability_history_error else ok (nodes + 1)

abbrev DetailCopier : Type 0
DetailCopier = Value → ℕ → Result (Value × ℕ)

copy_items : DetailCopier → Items → ℕ → Result (Items × ℕ)
copy_items rec nil nodes = ok (nil, nodes)
copy_items rec (cons x xs) nodes = do
  first ← rec x nodes
  rest ← copy_items rec xs first.1
  ok (cons first.0 rest.0, rest.1)

copy_fields : (String → String) → DetailCopier → Fields → ℕ → Result (Fields × ℕ)
copy_fields lower rec end nodes = ok (end, nodes)
copy_fields lower rec (field other_key v fs) nodes = err capability_history_error
copy_fields lower rec (field (name k) v fs) nodes = do
  refuse (is_secret_key lower k) capability_history_error
  first ← rec v nodes
  rest ← copy_fields lower rec fs first.1
  ok (field (name k) first.0 rest.0, rest.1)

copy_node : (String → String) → DetailCopier → Value → ℕ → Result (Value × ℕ)
copy_node lower rec (float bits) nodes =
    if is_finite bits then ok (float bits, nodes) else err capability_history_error
copy_node lower rec (list xs) nodes = do
  copied ← copy_items rec xs nodes
  ok (list copied.0, copied.1)
copy_node lower rec (dict fs) nodes = do
  copied ← copy_fields lower rec fs nodes
  ok (dict copied.0, copied.1)
copy_node lower rec (opaque s) nodes = err capability_history_error
copy_node lower rec null nodes = ok (null, nodes)
copy_node lower rec (bool b) nodes = ok (bool b, nodes)
copy_node lower rec (int n) nodes = ok (int n, nodes)
copy_node lower rec (text s) nodes = ok (text s, nodes)

-- `copy`, on the levels left. A lease is an `opaque` object: it is refused like any other.
unfoldable pub copy_detail : (String → String) → ℕ → Value → ℕ → Result (Value × ℕ)
unfolding count_node copy_items copy_fields copy_node
copy_detail lower zero v nodes = err capability_history_error
copy_detail lower (suc room) v nodes = do
  counted ← count_node nodes
  copy_node lower (copy_detail lower room) v counted

unfoldable pub copy_bounded_detail : JsonLibrary → (String → String) → ℕ → Value → Result Value
copy_bounded_detail lib lower max_bytes detail = do
  require (is_mapping detail) capability_history_error
  require (leb 1 max_bytes && leb max_bytes max_event_detail_bytes) capability_history_error
  copied ← copy_detail lower (suc max_detail_depth) detail 0
  refuse (ltb max_bytes (lib.byte_size (lib.dumps copied.0))) capability_history_error
  ok copied.0
