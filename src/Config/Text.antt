-- ===== src/Config/Text.antt =====
-- What src/config/parser.rs uses of `str`: `lines`, `trim`, `split_once`, `split`,
-- `to_lowercase` and `eq_ignore_ascii_case`; and `starts_with` of other files.
use Prim.Native.Char.{Char, code}
use text.Mathlib.Text as Native
use secure_guard.Base.{
  ℕ, ◌+◌, Bool, true, false, ◌&&◌, ◌||◌, leb, ◌==◌, if◌then◌else◌, List, [], ◌∷◌, Option, none,
  some, String,
}

abbrev pub str_eq : String → String → Bool
str_eq s t = Native.◌==◌ s t

abbrev pub is_empty : String → Bool
is_empty String.[] = true
is_empty (String.◌∷◌ c s) = false

abbrev between : ℕ → ℕ → ℕ → Bool
between lo hi c = leb lo c && leb c hi

-- `char::is_whitespace`: the property White_Space of Unicode.
unfoldable pub is_whitespace : ℕ → Bool
is_whitespace c =
    between 9 13 c
    || (c == 32
        || (c == 133
            || (c == 160
                || (c == 5760
                    || (between 8192 8202 c
                        || (between 8232 8233 c || (c == 8239 || (c == 8287 || c == 12288))))))))

unfoldable pub trim_start : String → String
trim_start String.[] = ""
trim_start (String.◌∷◌ c s) =
    let rest = trim_start s in if is_whitespace (code c) then rest else String.◌∷◌ c s

unfoldable pub trim_end : String → String
trim_end String.[] = ""
trim_end (String.◌∷◌ c s) =
    let rest = trim_end s in
    if is_empty rest && is_whitespace (code c) then "" else String.◌∷◌ c rest

unfoldable pub trim : String → String
trim s = trim_end (trim_start s)

abbrev pub starts_with : ℕ → String → Bool
starts_with c String.[] = false
starts_with c (String.◌∷◌ d s) = code d == c

-- `s.starts_with(t)`.
unfoldable pub begins_with : String → String → Bool
begins_with String.[] s = true
begins_with (String.◌∷◌ d t) String.[] = false
begins_with (String.◌∷◌ d t) (String.◌∷◌ c s) = code d == code c && begins_with t s

-- A character in front of the first of some pieces.
abbrev pub extend : Char → List String → List String
extend c [] = String.◌∷◌ c "" ∷ []
extend c (piece ∷ pieces) = String.◌∷◌ c piece ∷ pieces

-- A line ends at `\n` or `\r\n`; an empty last line is none.
unfoldable pub lines : String → List String
lines String.[] = []
lines (String.◌∷◌ c s) =
    let rest = lines s in
    if code c == 10
    then "" ∷ rest
    else if code c == 13 && starts_with 10 s
    then rest
    else extend c rest

-- `split(c)`: always at least one piece.
unfoldable pub split : ℕ → String → List String
split d String.[] = "" ∷ []
split d (String.◌∷◌ c s) = let rest = split d s in if code c == d then "" ∷ rest else extend c rest

abbrev pub put_front : Char → Option (String × String) → Option (String × String)
put_front c none = none
put_front c (some (key, value)) = some (String.◌∷◌ c key, value)

-- `split_once(c)`.
unfoldable pub split_once : ℕ → String → Option (String × String)
split_once d String.[] = none
split_once d (String.◌∷◌ c s) =
    let rest = split_once d s in if code c == d then some ("", s) else put_front c rest

-- `c.to_lowercase()` for what it says of ASCII: of all other characters the Kelvin sign
-- alone has an ASCII letter as its lower case; the others stay, and stay outside ASCII.
abbrev pub to_lower : ℕ → ℕ
to_lower c = if between 65 90 c then c + 32 else if c == 8490 then 107 else c

abbrev pub to_ascii_lower : ℕ → ℕ
to_ascii_lower c = if between 65 90 c then c + 32 else c

-- Whether the characters of two texts are the same under a map of the first one's.
unfoldable pub matches : (ℕ → ℕ) → String → String → Bool
matches f String.[] String.[] = true
matches f String.[] (String.◌∷◌ d t) = false
matches f (String.◌∷◌ c s) String.[] = false
matches f (String.◌∷◌ c s) (String.◌∷◌ d t) = (f (code c) == code d) && matches f s t

-- `line.eq_ignore_ascii_case(word)`, for a `word` in lower case.
abbrev pub eq_ignore_ascii_case : String → String → Bool
eq_ignore_ascii_case line word = matches to_ascii_lower line word

-- `key.to_lowercase() == word`, for an ASCII `word`.
abbrev pub is_key : String → String → Bool
is_key key word = matches to_lower key word
