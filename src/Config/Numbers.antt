-- ===== src/Config/Numbers.antt =====
-- `str::parse::<u16>`, as src/config/parser.rs uses it.
use Prim.Native.Char.{code}
use secure_guard.Base.{ℕ, ◌+◌, ◌-◌, ◌*◌, ◌&&◌, leb, ◌==◌, if◌then◌else◌, Option, none, some, String}

-- The value of the decimal digits, after those that make `n`.
unfoldable pub digits : ℕ → String → Option ℕ
digits n String.[] = some n
digits n (String.◌∷◌ c s) =
    let rest = digits (n * 10 + (code c - 48)) s in
    if leb 48 (code c) && leb (code c) 57 then rest else none

abbrev pub unsigned : String → Option ℕ
unsigned String.[] = none
unsigned (String.◌∷◌ c s) = digits 0 (String.◌∷◌ c s)

-- One plus sign may stand before the digits.
abbrev pub without_plus : String → String
without_plus String.[] = ""
without_plus (String.◌∷◌ c s) = if code c == 43 then s else String.◌∷◌ c s

-- A value that does not fit is an error, as the empty text is.
unfoldable pub parse_u16 : String → Option ℕ
parse_u16 s = elim (unsigned (without_plus s)) [
  | none ↦ none
  | some n ↦ if leb n 65535 then some n else none
]
