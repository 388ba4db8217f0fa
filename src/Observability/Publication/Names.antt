-- ===== src/Observability/Publication/Names.antt =====
-- publication.py and quarantine.py: the names of the tables.
use Prim.Native.Char.{code, Char}
use Prim.Native.Nat.{compare, Ordering}
use Prim.Native.String.{◌++◌ as text_append}
use skifer.Prelude.{
  ℕ, String, Bool, true, false, not, ◌&&◌, ◌||◌, ◌==◌, ◌≡◌, refl, List, [], ◌∷◌, ◌++◌, all, leb,
  length, if◌then◌else◌,
}
use skifer.Prelude.Text.{codes}

abbrev is_char : ℕ → Char → Bool
is_char n c = elim (compare (code c) n) [ Ordering.eq ↦ true | _ ↦ false ]

abbrev push : Char → List String → List String
push c [] = String.◌∷◌ c "" ∷ []
push c (part ∷ parts) = String.◌∷◌ c part ∷ parts

-- `text.split(separator)`
split_on : ℕ → String → List String
split_on sep String.[] = "" ∷ []
split_on sep (String.◌∷◌ c s) =
    let rest = split_on sep s in if is_char sep c then "" ∷ rest else push c rest

-- `text.replace(separator, "")`
remove : ℕ → String → String
remove sep String.[] = ""
remove sep (String.◌∷◌ c s) =
    let rest = remove sep s in if is_char sep c then rest else String.◌∷◌ c rest

-- `".".join(parts)`
abbrev join_dots : List String → String
join_dots [] = ""
join_dots (part ∷ []) = part
join_dots (part ∷ more ∷ parts) = text_append part (text_append "." (join_dots (more ∷ parts)))

abbrev dot : ℕ
dot = 46

abbrev is_word : ℕ → Bool
is_word c =
    (leb b'a' c && leb c b'z')
    || (leb b'A' c && leb c b'Z')
    || (leb b'0' c && leb c b'9')
    || (leb 95 c && leb c 95)

is_part : String → Bool
is_part s = not (s == "") && all is_word (codes s)

-- `_FQN.fullmatch`
unfoldable pub is_fqn : String → Bool
unfolding split_on is_part
is_fqn s =
    let parts = split_on dot s in all is_part parts && leb 2 (length parts) && leb (length parts) 3

-- `target_fqn.replace("\`", "")`
unfoldable pub unquoted : String → String
unfolding remove
unquoted s = remove 96 s

abbrev last_part : List String → String
last_part [] = ""
last_part (part ∷ []) = part
last_part (part ∷ more ∷ parts) = last_part (more ∷ parts)

-- `parts[:1] if len(parts) == 3 else []`
abbrev catalog : List String → List String
catalog (a ∷ b ∷ c ∷ []) = a ∷ []
catalog _ = []

beside : List String → String → String → String
beside parts schema name = join_dots (catalog parts ++ schema ∷ name ∷ [])

unfoldable pub staging_name : String → String → String
unfolding split_on beside remove
staging_name target run =
    let parts = split_on dot target in
    beside parts "_skifer_staging" (text_append (last_part parts) (text_append "_" (remove 45 run)))

unfoldable pub quarantine_name : String → String
unfolding split_on beside
quarantine_name staging =
    let parts = split_on dot staging in
    beside parts "_skifer_quarantine" (text_append (last_part parts) "_snapshot")

staging_name_test : staging_name "main.sales.orders" "12-ab" ≡ "main._skifer_staging.orders_12ab"
unfolding staging_name
staging_name_test = refl

quarantine_name_test :
    quarantine_name "_skifer_staging.orders_12ab" ≡ "_skifer_quarantine.orders_12ab_snapshot"
unfolding quarantine_name
quarantine_name_test = refl

is_fqn_test : is_fqn "sales..orders" ≡ false
unfolding is_fqn
is_fqn_test = refl
