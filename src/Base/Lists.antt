-- ===== src/Base/Lists.antt =====
-- Lists measured and cut by native numbers, under the library's names.
use Prim.Native.Nat.{ℕ, zero, suc, ◌+◌, ◌-◌, ◌≤◌, min}
use mathlib.Core.Path.{◌≡◌, refl, ap}
use mathlib.Core.List.{List, [], ◌∷◌, ◌++◌}
use native.Mathlib.Omega.{arith}

module _ {ℓ} {A : Type ℓ} where
  abbrev pub length : List A → ℕ
  length [] = 0
  length (x ∷ xs) = suc (length xs)

  abbrev pub get_or : List A → ℕ → A → A
  get_or [] i d = d
  get_or (x ∷ xs) zero d = x
  get_or (x ∷ xs) (suc i) d = get_or xs i d

  abbrev pub take : ℕ → List A → List A
  take zero xs = []
  take (suc n) [] = []
  take (suc n) (x ∷ xs) = x ∷ take n xs

  abbrev pub drop : ℕ → List A → List A
  drop zero xs = xs
  drop (suc n) [] = []
  drop (suc n) (x ∷ xs) = drop n xs

  abbrev pub replicate : ℕ → A → List A
  replicate zero a = []
  replicate (suc n) a = a ∷ replicate n a

  pub length-append : (xs ys : List A) → length (xs ++ ys) ≡ length xs + length ys
  length-append [] ys = omega arith
  length-append (x ∷ xs) ys = omega (arith, length-append xs ys)

  pub length-take : (n : ℕ) (xs : List A) → length (take n xs) ≡ min n (length xs)
  length-take zero xs = omega arith
  length-take (suc n) [] = omega arith
  length-take (suc n) (x ∷ xs) = omega (arith, length-take n xs)

  pub length-drop : (n : ℕ) (xs : List A) → length (drop n xs) ≡ length xs - n
  length-drop zero xs = omega arith
  length-drop (suc n) [] = omega arith
  length-drop (suc n) (x ∷ xs) = omega (arith, length-drop n xs)

  pub length-replicate : (n : ℕ) (a : A) → length (replicate n a) ≡ n
  length-replicate zero a = refl
  length-replicate (suc n) a = ap suc (length-replicate n a)

  -- `&xs[lo..hi]`, cut short where `xs` ends.
  unfoldable pub slice : List A → ℕ → ℕ → List A
  slice xs lo hi = take (hi - lo) (drop lo xs)

  pub length-slice :
      (xs : List A) (lo hi : ℕ) → lo ≤ hi → hi ≤ length xs → length (slice xs lo hi) ≡ hi - lo
  unfolding slice
  length-slice xs lo hi p q = omega (arith, length-take (hi - lo) (drop lo xs), length-drop lo xs)

  take_front : (n : ℕ) (xs ys : List A) → length xs ≡ n → take n (xs ++ ys) ≡ xs
  take_front zero [] ys e = refl
  take_front zero (x ∷ xs) ys e = absurd (omega arith)
  take_front (suc n) [] ys e = absurd (omega arith)
  take_front (suc n) (x ∷ xs) ys e = ap (◌∷◌ x) (take_front n xs ys (omega arith))

  drop_front :
      (n lo : ℕ) (xs ys : List A) → length xs ≡ n → n ≤ lo → drop lo (xs ++ ys) ≡ drop (lo - n) ys
  drop_front zero lo [] ys e h = rw (let z : lo - 0 ≡ lo = omega arith in z)
  drop_front zero lo (x ∷ xs) ys e h = absurd (omega arith)
  drop_front (suc n) lo [] ys e h = absurd (omega arith)
  drop_front (suc n) zero (x ∷ xs) ys e h = absurd (omega arith)
  drop_front (suc n) (suc lo) (x ∷ xs) ys e h =
      rw (let z : suc lo - suc n ≡ lo - n = omega arith in z)
        (drop_front n lo xs ys (omega arith) (omega arith))

  -- A slice that is the first part.
  pub slice_here : (n : ℕ) (xs ys : List A) → length xs ≡ n → slice (xs ++ ys) 0 n ≡ xs
  unfolding slice
  slice_here n xs ys e = rw (let z : n - 0 ≡ n = omega arith in z) (take_front n xs ys e)

  -- A slice that lies behind the first part.
  pub slice_skip :
      (n lo hi : ℕ) (xs ys : List A)
      → length xs ≡ n
      → n ≤ lo
      → slice (xs ++ ys) lo hi ≡ slice ys (lo - n) (hi - n)
  unfolding slice
  slice_skip n lo hi xs ys e h =
      rw (drop_front n lo xs ys e h, let z : (hi - n) - (lo - n) ≡ hi - lo = omega arith in z)
