-- ===== src/Prelude/Text.antt =====
-- Text as code points, and the fixed regular expressions that several components share.
use Prim.Native.Nat.{ℕ, compare, Ordering}
use Prim.Native.Char.{code}
use Prim.Native.String.{String}
use mathlib.Core.Bool.{Bool, true, false, ◌&&◌, ◌||◌}
use mathlib.Core.List.{List, [], ◌∷◌}
use mathlib.Core.Path.{◌≡◌, refl}
use mathlib.Core.Option.{Option, none, some}
use skifer.Prelude.Lists.{length, all, any}
use skifer.Prelude.Tests.{leb, if◌then◌else◌}

abbrev pub codes : String → List ℕ
codes String.[] = []
codes (String.◌∷◌ c s) = code c ∷ codes s

-- `len(text)`: the number of code points.
abbrev pub text_length : String → ℕ
text_length s = length (codes s)

abbrev code_eq : ℕ → ℕ → Bool
code_eq a b = elim (compare a b) [ Ordering.eq ↦ true | _ ↦ false ]

abbrev is_digit : ℕ → Bool
is_digit c = leb b'0' c && leb c b'9'

abbrev is_lower : ℕ → Bool
is_lower c = leb b'a' c && leb c b'z'

abbrev is_upper : ℕ → Bool
is_upper c = leb b'A' c && leb c b'Z'

abbrev is_underscore : ℕ → Bool
is_underscore c = code_eq c 95

-- What remains behind a prefix.
abbrev strip_prefix : List ℕ → List ℕ → Option (List ℕ)
strip_prefix [] cs = some cs
strip_prefix (p ∷ ps) [] = none
strip_prefix (p ∷ ps) (c ∷ cs) = if code_eq p c then strip_prefix ps cs else none

abbrev is_hex_64 : Option (List ℕ) → Bool
is_hex_64 none = false
is_hex_64 (some cs) =
    code_eq (length cs) 64 && all (λ c. is_digit c || (leb b'a' c && leb c b'f')) cs

-- `^sha256:v1:[0-9a-f]{64}$`, matched in full.
unfoldable pub is_hash : String → Bool
is_hash s = is_hex_64 (strip_prefix (codes "sha256:v1:") (codes s))

abbrev plain_name : List ℕ → Bool
plain_name [] = false
plain_name (c ∷ cs) = is_lower c && all (λ d. is_lower d || is_digit d || is_underscore d) cs

-- `^[a-z][a-z0-9_]*$`, matched in full.
unfoldable pub is_plain_name : String → Bool
is_plain_name s = plain_name (codes s)

abbrev class_name : List ℕ → Bool
class_name [] = false
class_name (c ∷ cs) =
    (is_lower c || is_upper c || is_underscore c)
    && all (λ d. is_lower d || is_upper d || is_digit d || is_underscore d) cs

-- `[A-Za-z_][A-Za-z0-9_]*`, matched in full.
unfoldable pub is_class_name : String → Bool
is_class_name s = class_name (codes s)

-- `[\x00-\x1f\x7f-\x9f]`, searched for.
unfoldable pub has_control : String → Bool
has_control s = any (λ c. leb c 31 || (leb 127 c && leb c 159)) (codes s)

is_hash_test :
    is_hash "sha256:v1:00000000000000000000000000000000000000000000000000000000000000af" ≡ true
unfolding is_hash
is_hash_test = refl

is_plain_name_test : is_plain_name "9a" ≡ false
unfolding is_plain_name
is_plain_name_test = refl
