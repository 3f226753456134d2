-- ===== src/Base/Bits.antt =====
-- The bits of a number, and what `<<`, `|`, `&` and truncation to a width do to them.
use Prim.Native.Nat.{bit_and, bit_or, digits, bitwise, bit_and-bitwise, bit_or-bitwise}
use native.Mathlib.Nat.{
  pow-suc, le_refl, one-le-pow, mul-add-mod_self_right, mod-eq_of_lt, mod-lt, div-add-mod',
}
use secure_guard.Base.{
  ℕ, zero, suc, ◌+◌, ◌-◌, ◌*◌, ◌/◌, ◌%◌, ◌^◌, ◌≤◌, ◌<◌, min, max, ◌≡◌, refl, ap, ◌∙◌, arith, ltb,
  ◌==◌, if◌then◌else◌,
}

-- `bitwise` recurs on as much fuel as its left operand: more fuel changes nothing.
module _ (rest : ℕ → ℕ) (op : ℕ → ℕ → ℕ) where
  one_more : (fuel x y : ℕ) → x ≤ fuel → digits rest op (suc fuel) x y ≡ digits rest op fuel x y
  one_more zero zero y h = refl
  one_more (suc fuel) zero y h = refl
  one_more zero (suc x) y h = absurd (omega arith)
  one_more (suc fuel) (suc x) y h =
      ap (λ (t : ℕ). t * 2 + op (suc x % 2) (y % 2))
        (one_more fuel (suc x / 2) (y / 2) (omega arith))

  spare_fuel : (k x y : ℕ) → digits rest op (k + x) x y ≡ bitwise rest op x y
  spare_fuel zero x y = let same : 0 + x ≡ x = omega arith in rw same refl
  spare_fuel (suc k) x y =
      let same : suc k + x ≡ suc (k + x) = omega arith in
      rw same (one_more (k + x) x y (omega arith) ∙ spare_fuel k x y)

  lowest_digit :
      (x y : ℕ)
      → bitwise rest op (suc x) y ≡ bitwise rest op (suc x / 2) (y / 2) * 2 + op (suc x % 2) (y % 2)
  lowest_digit x y =
      let whole : x - suc x / 2 + suc x / 2 ≡ x = omega arith in
      ap (λ (t : ℕ). t * 2 + op (suc x % 2) (y % 2))
        (rw whole at (spare_fuel (x - suc x / 2) (suc x / 2) (y / 2)))

pub bit_or_step : (x y : ℕ) → bit_or x y ≡ bit_or (x / 2) (y / 2) * 2 + max (x % 2) (y % 2)
bit_or_step zero y = simp bit_or-bitwise (omega arith)
bit_or_step (suc n) y = simp bit_or-bitwise (lowest_digit (λ v. v) max n y)

pub bit_and_step : (x y : ℕ) → bit_and x y ≡ bit_and (x / 2) (y / 2) * 2 + min (x % 2) (y % 2)
bit_and_step zero y = simp bit_and-bitwise (omega arith)
bit_and_step (suc n) y = simp bit_and-bitwise (lowest_digit (λ v. 0) min n y)

-- Bit `k` of `n`, as 0 or 1.
unfoldable pub bit_at : ℕ → ℕ → ℕ
bit_at n zero = n % 2
bit_at n (suc k) = bit_at (n / 2) k

pub bit_at-le : (n k : ℕ) → bit_at n k ≤ 1
unfolding bit_at
bit_at-le n zero = omega arith
bit_at-le n (suc k) = bit_at-le (n / 2) k

pub bit_at-zero : (k : ℕ) → bit_at 0 k ≡ 0
unfolding bit_at
bit_at-zero zero = refl
bit_at-zero (suc k) = bit_at-zero k

pub bit_at-bit_or : (a b k : ℕ) → bit_at (bit_or a b) k ≡ max (bit_at a k) (bit_at b k)
unfolding bit_at
bit_at-bit_or a b zero = omega (arith, bit_or_step a b)
bit_at-bit_or a b (suc k) =
    let half : bit_or a b / 2 ≡ bit_or (a / 2) (b / 2) = omega (arith, bit_or_step a b) in
    rw half (bit_at-bit_or (a / 2) (b / 2) k)

bit_and-zero_below : (bound x : ℕ) → x ≤ bound → bit_and x 0 ≡ 0
bit_and-zero_below bound zero h = refl
bit_and-zero_below zero (suc x) h = absurd (omega arith)
bit_and-zero_below (suc bound) (suc x) h =
    let half : bit_and (suc x / 2) 0 ≡ 0 = bit_and-zero_below bound (suc x / 2) (omega arith) in
    omega (arith, half, bit_and_step (suc x) 0)

-- `a & (1 << k)` is the bit in its place.
pub bit_and-pow : (k a : ℕ) → bit_and a (2 ^ k) ≡ bit_at a k * 2 ^ k
unfolding bit_at
bit_and-pow zero a = omega (arith, bit_and_step a 1, bit_and-zero_below (a / 2) (a / 2) (le_refl _))
bit_and-pow (suc k) a =
    let e : 2 ^ suc k / 2 ≡ 2 ^ k = omega (arith, pow-suc 2 k) in
    let ih : bit_and (a / 2) (2 ^ suc k / 2) ≡ bit_at (a / 2) k * 2 ^ k =
      rw e (bit_and-pow k (a / 2)) in
    omega (
      arith,
      bit_and_step a (2 ^ suc k),
      ih,
      pow-suc 2 k,
      ap (λ (t : ℕ). bit_at (a / 2) k * t) (pow-suc 2 k),
    )

pub bit_at-pow : (j k : ℕ) → bit_at (2 ^ j) k ≡ (if j == k then 1 else 0)
unfolding bit_at
bit_at-pow zero zero = refl
bit_at-pow zero (suc k) = rw (bit_at-zero k) (ground arith)
bit_at-pow (suc j) zero = ground (arith, pow-suc 2 j)
bit_at-pow (suc j) (suc k) =
    let e : 2 ^ suc j / 2 ≡ 2 ^ j = omega (arith, pow-suc 2 j) in
    rw (e, bit_at-pow j k) (ground arith)

-- `a << s`: bit `k` comes from bit `k - s`.
pub bit_at-shl : (s a k : ℕ) → bit_at (a * 2 ^ s) k ≡ (if ltb k s then 0 else bit_at a (k - s))
unfolding bit_at
bit_at-shl zero a k =
    let e : a * 1 ≡ a = omega arith in let e' : k - 0 ≡ k = omega arith in rw (e, e') (ground arith)
bit_at-shl (suc s) a zero = ground (arith, ap (λ (t : ℕ). a * t) (pow-suc 2 s))
bit_at-shl (suc s) a (suc k) =
    let e : a * 2 ^ suc s / 2 ≡ a * 2 ^ s = omega (arith, ap (λ (t : ℕ). a * t) (pow-suc 2 s)) in
    let e' : suc k - suc s ≡ k - s = omega arith in rw (e, e', bit_at-shl s a k) (ground arith)

mod-double : (a m : ℕ) → 1 ≤ m → a % (m * 2) ≡ a / 2 % m * 2 + a % 2
mod-double a m h =
    ap (λ (t : ℕ). t % (m * 2)) split
    ∙ mul-add-mod_self_right (a / 2 / m) (m * 2) low
    ∙ mod-eq_of_lt (omega (arith, mod-lt (a / 2) h))
  where
    low : ℕ
    low = a / 2 % m * 2 + a % 2

    split : a ≡ a / 2 / m * (m * 2) + low
    split = omega (arith, ap (λ (t : ℕ). t * 2) (div-add-mod' (a / 2) m))

-- Truncation to `w` bits keeps the bits below `w`.
pub bit_at-mod : (w a k : ℕ) → k < w → bit_at (a % 2 ^ w) k ≡ bit_at a k
unfolding bit_at
bit_at-mod zero a k h = absurd (omega arith)
bit_at-mod (suc w) a zero h =
    rw pow-suc (omega (arith, mod-double a (2 ^ w) (one-le-pow w 2 (omega arith))))
bit_at-mod (suc w) a (suc k) h =
    let half : a % 2 ^ suc w / 2 ≡ a / 2 % 2 ^ w =
      rw (pow-suc 2 w) (omega (arith, mod-double a (2 ^ w) (one-le-pow w 2 (omega arith)))) in
    rw half (bit_at-mod w (a / 2) k (omega arith))
