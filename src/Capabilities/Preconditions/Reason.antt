-- ===== src/Capabilities/Preconditions/Reason.antt =====
-- `_exception_reason` of preconditions.py: the reason code for a rule that raised.
use Prim.Native.Char.{Char, code}
use Prim.Native.String.{◌++◌ as text_append}
use skifer.Prelude.{ℕ, zero, suc, String, Bool, true, false, ◌&&◌, ◌||◌, ◌==◌, leb, if◌then◌else◌}

abbrev pub max_reason_code_length : ℕ
max_reason_code_length = 64

-- `[a-z0-9_]`
abbrev pub is_reason_char : ℕ → Bool
is_reason_char c =
    (leb b'a' c && leb c b'z') || (leb b'0' c && leb c b'9') || (leb 95 c && leb c 95)

abbrev pub is_underscore : ℕ → Bool
is_underscore c = leb 95 c && leb c 95

-- `re.sub(r"[^a-z0-9_]+", "_", s)`; the flag says that the character before was replaced.
unfoldable pub squeeze : Bool → String → String
squeeze in_run String.[] = ""
squeeze in_run (String.◌∷◌ c s) =
    let kept = String.◌∷◌ c (squeeze false s) in
    let dropped = squeeze true s in
    if is_reason_char (code c) then kept else if in_run then dropped else text_append "_" dropped

unfoldable pub lstrip_underscore : String → String
lstrip_underscore String.[] = ""
lstrip_underscore (String.◌∷◌ c s) =
    let rest = lstrip_underscore s in if is_underscore (code c) then rest else String.◌∷◌ c s

-- The character, unless nothing is left behind it and it is an underscore.
unfoldable pub keep_unless_last : Char → String → String
keep_unless_last c String.[] = if is_underscore (code c) then "" else String.◌∷◌ c ""
keep_unless_last c (String.◌∷◌ d s) = String.◌∷◌ c (String.◌∷◌ d s)

unfoldable pub rstrip_underscore : String → String
unfolding keep_unless_last
rstrip_underscore String.[] = ""
rstrip_underscore (String.◌∷◌ c s) = keep_unless_last c (rstrip_underscore s)

-- `s[:n]`
unfoldable pub take_text : ℕ → String → String
take_text zero s = ""
take_text (suc n) String.[] = ""
take_text (suc n) (String.◌∷◌ c s) = String.◌∷◌ c (take_text n s)

-- `lower` is Python's `str.lower`.
unfoldable pub exception_reason : (String → String) → String → String
unfolding squeeze lstrip_underscore rstrip_underscore take_text
exception_reason lower class_name =
    let stripped = rstrip_underscore (lstrip_underscore (squeeze false (lower class_name))) in
    let normalized = if stripped == "" then "exception" else stripped in
    rstrip_underscore (take_text max_reason_code_length (text_append "rule_error_" normalized))
