-- ===== src/Messages/Layout.antt =====
-- Buffers filled by consecutive parts, as `to_bytes` does, and the slices that read them.
use mathlib.Core.List.{append-nil}
use secure_guard.Base.{
  ℕ, zero, suc, ◌+◌, ◌-◌, ◌≤◌, ◌<◌, ◌^◌, List, [], ◌∷◌, ◌++◌, length, length-append, slice, take,
  slice_here, slice_skip, ◌≡◌, refl, ap, subst, ◌∙◌, arith,
}
use secure_guard.Base.Words.{
  to_le_bytes, from_le_bytes, length-to_le_bytes, from_le_bytes-to_le_bytes,
}

-- Parts one behind the other.
abbrev pub join : List (List ℕ) → List ℕ → List ℕ
join [] rest = rest
join (b ∷ bs) rest = b ++ join bs rest

abbrev pub widths : List (List ℕ) → ℕ
widths [] = 0
widths (b ∷ bs) = length b + widths bs

-- The part behind `before` is read at its place.
pub slice-join :
    (before : List (List ℕ)) (p rest : List ℕ) (lo hi : ℕ)
    → widths before ≡ lo
    → lo + length p ≡ hi
    → slice (join before (p ++ rest)) lo hi ≡ p
slice-join [] p rest zero hi e f = slice_here hi p rest (omega arith)
slice-join [] p rest (suc lo) hi e f = absurd (omega arith)
slice-join (b ∷ bs) p rest lo hi e f =
    slice_skip (length b) lo hi b (join bs (p ++ rest)) refl (omega arith)
    ∙ slice-join bs p rest (lo - length b) (hi - length b) (omega arith) (omega arith)

pub slice-join_last :
    (before : List (List ℕ)) (p : List ℕ) (lo hi : ℕ)
    → widths before ≡ lo
    → lo + length p ≡ hi
    → slice (join before p) lo hi ≡ p
slice-join_last before p lo hi e f =
    subst (λ t. slice (join before t) lo hi ≡ p) (append-nil p) (slice-join before p [] lo hi e f)

pub u32_join :
    (before : List (List ℕ)) (n : ℕ) (rest : List ℕ) (lo : ℕ)
    → widths before ≡ lo
    → n < 2 ^ 32
    → from_le_bytes (slice (join before (to_le_bytes 4 n ++ rest)) lo (lo + 4)) ≡ n
u32_join before n rest lo e h =
    ap from_le_bytes
      (slice-join before (to_le_bytes 4 n) rest lo (lo + 4) e (rw (length-to_le_bytes 4 n)))
    ∙ from_le_bytes-to_le_bytes 4 n h

take_behind :
    (b rest : List ℕ) (n : ℕ) → length b ≤ n → take n (b ++ rest) ≡ b ++ take (n - length b) rest
take_behind [] rest n h = rw (let z : n - 0 ≡ n = omega arith in z)
take_behind (x ∷ b) rest zero h = absurd (omega arith)
take_behind (x ∷ b) rest (suc n) h =
    rw (let z : suc n - suc (length b) ≡ n - length b = omega arith in z)
      (ap (◌∷◌ x) (take_behind b rest n (omega arith)))

pub length-join :
    (before : List (List ℕ)) (rest : List ℕ)
    → length (join before rest) ≡ widths before + length rest
length-join [] rest = omega arith
length-join (b ∷ bs) rest = omega (arith, length-append b (join bs rest), length-join bs rest)

pub u64_join :
    (before : List (List ℕ)) (n : ℕ) (rest : List ℕ) (lo : ℕ)
    → widths before ≡ lo
    → n < 2 ^ 64
    → from_le_bytes (slice (join before (to_le_bytes 8 n ++ rest)) lo (lo + 8)) ≡ n
u64_join before n rest lo e h =
    ap from_le_bytes
      (slice-join before (to_le_bytes 8 n) rest lo (lo + 8) e (rw (length-to_le_bytes 8 n)))
    ∙ from_le_bytes-to_le_bytes 8 n h

-- Cutting at the end of a part.
pub take-join :
    (before : List (List ℕ)) (rest : List ℕ) (n : ℕ)
    → widths before ≡ n
    → take n (join before rest) ≡ join before []
take-join [] rest zero e = refl
take-join [] rest (suc n) e = absurd (omega arith)
take-join (b ∷ bs) rest n e =
    take_behind b (join bs rest) n (omega arith)
    ∙ ap (◌++◌ b) (take-join bs rest (n - length b) (omega arith))
