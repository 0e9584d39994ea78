-- ===== src/Text.antt =====
-- The operations of Rust's `str` that the program uses, over the native texts: a text is the list
-- of its characters.
pub mod Decimal
pub mod Laws
pub mod Order
pub mod Sorted
use Prim.Native.Char.{Char, code}
use Prim.Native.String.{[], ◌∷◌}
use mathlib.Core.List
use mathlib.Core.List.{List}
use rust_mcp_core.Common.{
  Bool, Option, String, false, if◌then◌else◌, leb, nat_eq, none, some, string_eq, true, ℕ, ◌&&◌,
  ◌+◌, ◌-◌, ◌<>◌, ◌==◌, ◌||◌,
}

-- `char::is_whitespace`: the code points of the Unicode property White_Space.
unfoldable pub is_whitespace : Char → Bool
is_whitespace ch =
    let c = code ch in
    (leb 9 c && leb c 13)
    || c == 32
    || c == 0x85
    || c == 0xa0
    || c == 0x1680
    || (leb 0x2000 c && leb c 0x200a)
    || c == 0x2028
    || c == 0x2029
    || c == 0x202f
    || c == 0x205f
    || c == 0x3000

-- `char::to_ascii_lowercase`, `char::to_ascii_uppercase`, as code points
unfoldable pub ascii_lower : ℕ → ℕ
ascii_lower c = if leb b'A' c && leb c b'Z' then c + 32 else c

unfoldable pub ascii_upper : ℕ → ℕ
ascii_upper c = if leb b'a' c && leb c b'z' then c - 32 else c

unfoldable pub is_empty : String → Bool
is_empty [] = true
is_empty (c ∷ s) = false

-- `trim_start_matches(p)`
unfoldable pub trim_start : (Char → Bool) → String → String
trim_start p [] = []
trim_start p (c ∷ s) = let rest = trim_start p s in if p c then rest else c ∷ s

abbrev pub cons_trimmed : (Char → Bool) → Char → String → String
cons_trimmed p c [] = if p c then [] else c ∷ []
cons_trimmed p c (d ∷ s) = c ∷ d ∷ s

-- `trim_end_matches(p)`
unfoldable pub trim_end : (Char → Bool) → String → String
trim_end p [] = []
trim_end p (c ∷ s) = cons_trimmed p c (trim_end p s)

-- `trim()`
unfoldable pub trim : String → String
unfolding trim_start trim_end is_whitespace
trim s = trim_end is_whitespace (trim_start is_whitespace s)

-- `strip_prefix(p)`, the prefix first
unfoldable pub strip_prefix : String → String → Option String
strip_prefix [] s = some s
strip_prefix (p ∷ ps) [] = none
strip_prefix (p ∷ ps) (c ∷ s) = if code p == code c then strip_prefix ps s else none

abbrev is_some {ℓ} : {A : Type ℓ} → Option A → Bool
is_some none = false
is_some (some a) = true

-- `starts_with(p)`, `contains(p)`, the pattern first
unfoldable pub starts_with : String → String → Bool
unfolding strip_prefix
starts_with p s = is_some (strip_prefix p s)

unfoldable pub contains : String → String → Bool
unfolding starts_with
contains p [] = starts_with p []
contains p (c ∷ s) = starts_with p (c ∷ s) || contains p s

-- `ends_with(c)` for a character
unfoldable pub ends_with_char : ℕ → String → Bool
ends_with_char k [] = false
ends_with_char k (c ∷ []) = code c == k
ends_with_char k (c ∷ d ∷ s) = ends_with_char k (d ∷ s)

unfoldable pub contains_char : ℕ → String → Bool
contains_char k [] = false
contains_char k (c ∷ s) = code c == k || contains_char k s

-- the text without its last character
unfoldable pub init : String → String
init [] = []
init (c ∷ []) = []
init (c ∷ d ∷ s) = c ∷ init (d ∷ s)

-- `strip_suffix(c)` for a character
unfoldable pub strip_suffix_char : ℕ → String → Option String
unfolding ends_with_char init
strip_suffix_char k s = if ends_with_char k s then some (init s) else none

-- `find(c)` for a character: what stands before it, and what stands behind it
unfoldable pub split_once_char : ℕ → String → Option (String × String)
split_once_char k [] = none
split_once_char k (c ∷ s) =
    let rest = split_once_char k s in
    if code c == k
    then some ([], s)
    else elim rest [ none ↦ none | some (before, after) ↦ some (c ∷ before, after) ]

abbrev push_head : Char → List String → List String
push_head c List.[] = List.◌∷◌ (c ∷ []) List.[]
push_head c (List.◌∷◌ w ws) = List.◌∷◌ (c ∷ w) ws

-- `split(c)` for a character: at least one part
unfoldable pub split_char : ℕ → String → List String
split_char k [] = List.◌∷◌ [] List.[]
split_char k (c ∷ s) =
    let rest = split_char k s in if code c == k then List.◌∷◌ [] rest else push_head c rest

abbrev push_word : String → List String → List String
push_word [] ws = ws
push_word (c ∷ w) ws = List.◌∷◌ (c ∷ w) ws

-- `split_whitespace()`: the words that stand between white space, none of them empty
unfoldable pub words_from : String → String → List String
unfolding is_whitespace
words_from word [] = push_word word List.[]
words_from word (c ∷ s) = elim (is_whitespace c) [
  | true ↦ push_word word (words_from [] s)
  | false ↦ words_from (word <> (c ∷ [])) s
]

unfoldable pub split_whitespace : String → List String
unfolding words_from
split_whitespace s = words_from [] s

-- `join(sep)`, the separator first
unfoldable pub join : String → List String → String
join sep List.[] = []
join sep (List.◌∷◌ w List.[]) = w
join sep (List.◌∷◌ w (List.◌∷◌ v ws)) = w <> (sep <> join sep (List.◌∷◌ v ws))

-- `eq_ignore_ascii_case`
unfoldable pub eq_ignore_ascii_case : String → String → Bool
unfolding ascii_lower
eq_ignore_ascii_case [] [] = true
eq_ignore_ascii_case [] (d ∷ t) = false
eq_ignore_ascii_case (c ∷ s) [] = false
eq_ignore_ascii_case (c ∷ s) (d ∷ t) =
    ascii_lower (code c) == ascii_lower (code d) && eq_ignore_ascii_case s t

-- `char::len_utf8` and `str::len`: bytes of the UTF-8 form
unfoldable pub len_utf8 : Char → ℕ
len_utf8 ch =
    let c = code ch in
    if leb c 0x7f then 1 else if leb c 0x7ff then 2 else if leb c 0xffff then 3 else 4

unfoldable pub len : String → ℕ
unfolding len_utf8
len [] = 0
len (c ∷ s) = len_utf8 c + len s
