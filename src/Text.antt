-- ===== src/Text.antt =====
-- Rust's `str` as its list of code points, with the library calls that the sources make on it:
-- `trim`, `len`, `contains`, `strip_prefix`, `find`, `rfind`, `is_control`, `eq_ignore_ascii_case`.
pub mod Laws
pub mod Decimal
use Prim.Native.Char.{code}
use Prim.Native.String.{String}
use zju_connect_gui.Base.{
  ℕ, ◌+◌, List, [], ◌∷◌, Bool, true, false, ◌&&◌, ◌||◌, Option, none, some, ltb, leb, ◌==◌,
  if◌then◌else◌,
}

abbrev pub Text : Type 0
Text = List ℕ

-- The code points of a literal.
abbrev pub codes : String → Text
codes String.[] = []
codes (String.◌∷◌ c s) = code c ∷ codes s

-- `char::is_whitespace`: the Unicode property White_Space.
unfoldable pub is_whitespace : ℕ → Bool
is_whitespace c =
    (leb 9 c && leb c 13)
    || c == 32
    || c == 0x85
    || c == 0xa0
    || c == 0x1680
    || (leb 0x2000 c && leb c 0x200a)
    || c == 0x2028
    || c == 0x2029
    || c == 0x202f
    || c == 0x205f
    || c == 0x3000

-- `char::is_control`: the Unicode category Cc.
unfoldable pub is_control : ℕ → Bool
is_control c = ltb c 32 || (leb 127 c && leb c 159)

unfoldable pub is_empty : Text → Bool
is_empty [] = true
is_empty (c ∷ s) = false

unfoldable pub trim_start : Text → Text
trim_start [] = []
trim_start (c ∷ s) = if is_whitespace c then trim_start s else c ∷ s

-- A character in front of text whose end is trimmed.
unfoldable pub before_trimmed : ℕ → Text → Text
before_trimmed c [] = if is_whitespace c then [] else c ∷ []
before_trimmed c (d ∷ s) = c ∷ d ∷ s

unfoldable pub trim_end : Text → Text
unfolding before_trimmed
trim_end [] = []
trim_end (c ∷ s) = before_trimmed c (trim_end s)

unfoldable pub trim : Text → Text
unfolding trim_end trim_start
trim s = trim_end (trim_start s)

-- The bytes of a code point in UTF-8, and `str::len`.
unfoldable utf8_width : ℕ → ℕ
utf8_width c = if ltb c 0x80 then 1 else if ltb c 0x800 then 2 else if ltb c 0x10000 then 3 else 4

unfoldable pub byte_len : Text → ℕ
unfolding utf8_width
byte_len [] = 0
byte_len (c ∷ s) = utf8_width c + byte_len s

unfoldable pub text_eq : Text → Text → Bool
text_eq [] [] = true
text_eq (c ∷ s) (d ∷ t) = c == d && text_eq s t
text_eq _ _ = false

unfoldable pub strip_prefix : Text → Text → Option Text
strip_prefix [] s = some s
strip_prefix (p ∷ ps) [] = none
strip_prefix (p ∷ ps) (c ∷ s) = if c == p then strip_prefix ps s else none

unfoldable pub starts_with : Text → Text → Bool
starts_with [] s = true
starts_with (p ∷ ps) [] = false
starts_with (p ∷ ps) (c ∷ s) = c == p && starts_with ps s

-- `haystack.contains(needle)`, the needle first.
unfoldable pub contains : Text → Text → Bool
unfolding starts_with
contains needle [] = starts_with needle []
contains needle (c ∷ s) = starts_with needle (c ∷ s) || contains needle s

-- `s.contains(c)` for one character.
unfoldable pub contains_char : ℕ → Text → Bool
contains_char b [] = false
contains_char b (c ∷ s) = c == b || contains_char b s

unfoldable pub lower_ascii : ℕ → ℕ
lower_ascii c = if leb b'A' c && leb c b'Z' then c + 32 else c

unfoldable pub to_ascii_lowercase : Text → Text
unfolding lower_ascii
to_ascii_lowercase [] = []
to_ascii_lowercase (c ∷ s) = lower_ascii c ∷ to_ascii_lowercase s

unfoldable pub eq_ignore_ascii_case : Text → Text → Bool
unfolding lower_ascii
eq_ignore_ascii_case [] [] = true
eq_ignore_ascii_case (c ∷ s) (d ∷ t) = lower_ascii c == lower_ascii d && eq_ignore_ascii_case s t
eq_ignore_ascii_case _ _ = false

-- A character in front of the first part.
abbrev pub with_head : ℕ → Option (Text × Text) → Option (Text × Text)
with_head c none = none
with_head c (some (before, after)) = some (c ∷ before, after)

-- The parts before and behind the first occurrence of a character (`find`, `split_once`).
unfoldable pub split_once : ℕ → Text → Option (Text × Text)
split_once b [] = none
split_once b (c ∷ s) = if c == b then some ([], s) else with_head c (split_once b s)

-- Where the later text has no occurrence, the first character may be the last one.
abbrev or_here : Bool → Text → Option (Text × Text) → Option (Text × Text)
or_here true s none = some ([], s)
or_here false s none = none
or_here _ s (some parts) = some parts

-- The parts before and behind the last occurrence (`rfind`, `rsplit_once`).
unfoldable pub rsplit_once : ℕ → Text → Option (Text × Text)
rsplit_once b [] = none
rsplit_once b (c ∷ s) = or_here (c == b) s (with_head c (rsplit_once b s))

unfoldable pub strip_suffix_char : ℕ → Text → Option Text
strip_suffix_char b [] = none
strip_suffix_char b (c ∷ []) = if c == b then some [] else none
strip_suffix_char b (c ∷ d ∷ s) = elim (strip_suffix_char b (d ∷ s)) [
  | none ↦ none
  | some t ↦ some (c ∷ t)
]
