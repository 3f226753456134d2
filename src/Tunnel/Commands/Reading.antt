-- ===== src/Tunnel/Commands/Reading.antt =====
-- src/tunnel/mod.rs: what the code reads in the output of commands, with what it uses of `str`:
-- `split_whitespace`, `contains`, `lines`, `split`, `trim`.
use Prim.Native.Char.{code}
use secure_guard.Base.{
  Bool, false, not, ◌||◌, if◌then◌else◌, List, [], ◌∷◌, Option, none, some, String,
}
use secure_guard.Config.Text.{
  is_whitespace, is_empty, extend, lines, split, trim, str_eq, begins_with,
}
use mathlib.Core.Option

-- Whether a text goes on with a character that is no white space.
unfoldable pub goes_on : String → Bool
goes_on String.[] = false
goes_on (String.◌∷◌ c s) = not (is_whitespace (code c))

-- `split_whitespace`.
unfoldable pub words : String → List String
unfolding goes_on
words String.[] = []
words (String.◌∷◌ c s) =
    let rest = words s in
    if is_whitespace (code c)
    then rest
    else if goes_on s
    then extend c rest
    else String.◌∷◌ c "" ∷ rest

-- `s.contains(t)`.
unfoldable pub contains : String → String → Bool
contains t String.[] = is_empty t
contains t (String.◌∷◌ c s) = begins_with t (String.◌∷◌ c s) || contains t s

unfoldable pub any_word : String → List String → Bool
any_word name [] = false
any_word name (w ∷ ws) = str_eq w name || any_word name ws

abbrev second : List String → Option String
second [] = none
second (a ∷ []) = none
second (a ∷ b ∷ rest) = some b

-- `lines().find(|line| line.contains("gateway:"))`.
unfoldable pub find_line : List String → Option String
unfolding contains
find_line [] = none
find_line (line ∷ more) =
    let rest = find_line more in if contains "gateway:" line then some line else rest

-- The gateway in the output of `route -n get default`.
unfoldable pub gateway_line : String → Option String
unfolding find_line
gateway_line out = elim (find_line (lines out)) [
  | none ↦ none
  | some line ↦ Option.map trim (second (split b':' line))
]

-- `skip_while(|&s| s != "via").nth(1)`.
unfoldable pub after_via : List String → Option String
after_via [] = none
after_via (w ∷ ws) = let rest = after_via ws in if str_eq w "via" then second (w ∷ ws) else rest

-- The gateway in the output of `ip route show default`.
unfoldable pub gateway_word : String → Option String
unfolding words after_via
gateway_word out = after_via (words out)
