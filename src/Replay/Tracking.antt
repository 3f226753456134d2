-- ===== src/Replay/Tracking.antt =====
-- What the window stands for: the set of all counters accepted so far, of which the bitmap
-- shows the last 128. One call of `check_and_update` in terms of that set.
use Prim.Native.Nat.{bit_and, bit_or}
use native.Mathlib.Nat.{one-le-pow}
use secure_guard.Base.{
  ℕ, ◌+◌, ◌-◌, ◌*◌, ◌^◌, ◌≤◌, ◌<◌, max, Bool, true, false, not, ◌&&◌, ◌||◌, ltb, leb, ◌==◌,
  if◌then◌else◌, List, [], ◌∷◌, ◌≡◌, refl, ◌⊎◌, inl, inr, Bool-cases, ltb→lt, ltb_false→le, ap, ◌∙◌,
  arith,
}
use secure_guard.Base.Bits.{
  bit_at, bit_at-le, bit_at-bit_or, bit_and-pow, bit_at-pow, bit_at-shl, bit_at-mod,
}
use secure_guard.Replay.{
  ReplayWindow, window_size, new, shl_u128, advance, look_back, check_and_update,
}

unfoldable pub contains : ℕ → List ℕ → Bool
contains c [] = false
contains c (x ∷ xs) = x == c || contains c xs

-- The greatest counter seen.
unfoldable pub highest_of : List ℕ → ℕ
highest_of [] = 0
highest_of (x ∷ xs) = max x (highest_of xs)

-- The rule of the protocol: a counter is fresh when it was not accepted before and lies less
-- than a window behind the greatest one. (With nothing seen the greatest is 0.)
unfoldable pub accepts : List ℕ → ℕ → Bool
accepts seen c = not (contains c seen) && ltb (highest_of seen) (c + window_size)

pub contains-le : (c : ℕ) (seen : List ℕ) → contains c seen ≡ true → c ≤ highest_of seen
unfolding contains highest_of
contains-le c [] h = ground arith
contains-le c (x ∷ xs) h = ground (arith, contains-le c xs)

above-not_contains : (c : ℕ) (seen : List ℕ) → highest_of seen < c → contains c seen ≡ false
above-not_contains c seen h = ground (arith, contains-le c seen)

-- The bitmap agrees with the set.
pub record Marks (w : ReplayWindow) (seen : List ℕ) : Type 0 where
  pub highest : w.highest ≡ highest_of seen
  pub lowest : bit_at w.bitmap 0 ≡ 1
  pub bits :
      (d : ℕ)
      → d < window_size
      → d ≤ w.highest
      → (bit_at w.bitmap d == 1) ≡ contains (w.highest - d) seen

-- Before the first packet the window is new, and then the bitmap tells what was seen.
abbrev pub Tracks : ReplayWindow → List ℕ → Type 0
Tracks w seen = ((w ≡ new) × (seen ≡ [])) ⊎ Marks w seen

bit_at-one : (d : ℕ) → bit_at 1 d ≡ (if 0 == d then 1 else 0)
bit_at-one d = bit_at-pow 0 d

first-Marks : (c : ℕ) → Marks (record { highest = c; bitmap = 1 }) (c ∷ [])
unfolding contains highest_of
first-Marks c = record {
  highest = omega arith;
  lowest = bit_at-one 0;
  bits = λ d small inside. ground (arith, bit_at-one d);
}

-- The bitmap after a new greatest counter: bit 0 is set, the others come from `shift` below.
pub advance_bit :
    (w : ReplayWindow) (c d : ℕ)
    → d < window_size
    → bit_at (advance w c).bitmap d ≡ (
        if 0 == d
        then 1
        else if ltb d (c - w.highest)
        then 0
        else bit_at w.bitmap (d - (c - w.highest)))
unfolding advance
advance_bit w c d small = elim (Bool-cases (leb window_size (c - w.highest))) [
  | inl far ↦ rw far (ground (arith, bit_at-one d))
  | inr near ↦ rw near (
      ground (
        arith,
        bit_at-bit_or (shl_u128 w.bitmap (c - w.highest)) 1 d,
        bit_at-mod 128 (w.bitmap * 2 ^ (c - w.highest)) d small,
        bit_at-shl (c - w.highest) w.bitmap d,
        bit_at-one d,
        bit_at-le w.bitmap (d - (c - w.highest)),
      ))
]

-- The bitmap after an old counter is marked.
pub look_back_bit : (b d k : ℕ) → bit_at (bit_or b (2 ^ d)) k ≡ (if d == k then 1 else bit_at b k)
look_back_bit b d k = ground (arith, bit_at-bit_or b (2 ^ d) k, bit_at-pow d k, bit_at-le b k)

-- The test of the bitmap is the test of the bit.
pub bit_and_test : (b d : ℕ) → (bit_and b (2 ^ d) == 0) ≡ not (bit_at b d == 1)
bit_and_test b d = ground (arith, bit_and-pow d b, bit_at-le b d, one-le-pow d 2)

module _ (w : ReplayWindow) (seen : List ℕ) (m : Marks w seen) (c : ℕ) where
  advance_bits :
      w.highest < c
      → (d : ℕ) → d < window_size
      → d ≤ c
      → (bit_at (advance w c).bitmap d == 1) ≡ contains (c - d) (c ∷ seen)
  unfolding contains
  advance_bits h d small inside =
      rw (advance_bit w c d small)
        (ground (arith, m.highest, above-not_contains (c - d) seen, m.bits (d - (c - w.highest))))

  advance-Marks : w.highest < c → Marks (advance w c) (c ∷ seen)
  unfolding highest_of
  advance-Marks h = record {
    highest = unfold advance in omega (arith, m.highest);
    lowest = rw (advance_bit w c 0 (omega arith)) refl;
    bits = unfold advance in advance_bits h;
  }

  look_back-Marks :
      c ≤ w.highest
      → w.highest - c < window_size
      → Marks (record w { bitmap = bit_or w.bitmap (2 ^ (w.highest - c)) }) (c ∷ seen)
  unfolding highest_of contains
  look_back-Marks h near = record {
    highest = omega (arith, m.highest);
    lowest = ground (arith, look_back_bit w.bitmap (w.highest - c) 0, m.lowest);
    bits = λ d small inside.
        ground (arith, look_back_bit w.bitmap (w.highest - c) d, m.bits d small inside);
  }

  marked-not_new : (w.highest == 0 && w.bitmap == 0) ≡ false
  unfolding bit_at
  marked-not_new = ground (arith, m.lowest)

  far-accepts : c + window_size ≤ w.highest → accepts seen c ≡ false
  unfolding accepts
  far-accepts h = ground (arith, m.highest)

  near-accepts : w.highest < c + window_size → accepts seen c ≡ not (contains c seen)
  unfolding accepts
  near-accepts h = ground (arith, m.highest)

  near_test :
      c ≤ w.highest
      → w.highest - c < window_size
      → (bit_and w.bitmap (2 ^ (w.highest - c)) == 0) ≡ not (contains c seen)
  near_test h near =
      let back : w.highest - (w.highest - c) ≡ c = omega arith in
      bit_and_test w.bitmap (w.highest - c)
      ∙ ap not (rw (m.bits (w.highest - c) near (omega arith), back))

  abbrev Follows : ReplayWindow × Bool → Type 0
  Follows r = (r.1 ≡ accepts seen c) × Marks r.0 (if accepts seen c then c ∷ seen else seen)

  look_back-Follows : c ≤ w.highest → Follows (look_back w c)
  unfolding look_back
  look_back-Follows h = elim (Bool-cases (leb window_size (w.highest - c))) [
    | inl far ↦ rw (far, far-accepts (ground arith)) (refl, m)
    | inr near ↦ elim (Bool-cases (contains c seen)) [
      | inl old ↦ rw (near, near-accepts (ground arith), near_test h (ground arith), old) (refl, m)
      | inr new ↦
          rw (near, near-accepts (ground arith), near_test h (ground arith), new)
            (refl, look_back-Marks h (ground arith))
    ]
  ]

  check_and_update-Follows : Follows (check_and_update w c)
  unfolding check_and_update
  check_and_update-Follows = elim (Bool-cases (ltb w.highest c)) [
    | inl above ↦
        let fresh : accepts seen c ≡ true =
          unfold accepts in ground (arith, m.highest, above-not_contains c seen) in
        rw (marked-not_new, above, fresh) (refl, advance-Marks (ltb→lt _ _ above))
    | inr below ↦ rw (marked-not_new, below) (look_back-Follows (ltb_false→le _ _ below))
  ]

first_packet : (c : ℕ) → check_and_update new c ≡ (record { highest = c; bitmap = 1 }, true)
unfolding check_and_update new
first_packet c = refl

first_accepts : (c : ℕ) → accepts [] c ≡ true
unfolding accepts contains highest_of
first_accepts c = ground arith

-- One call follows the rule: its verdict is that of `accepts` on the set seen so far, and the
-- new window stands for the set with the counter added if it was accepted.
pub check_and_update-Tracks :
    (w : ReplayWindow) (seen : List ℕ) (c : ℕ)
    → Tracks w seen
    → ((check_and_update w c).1 ≡ accepts seen c)
      × Tracks (check_and_update w c).0 (if accepts seen c then c ∷ seen else seen)
check_and_update-Tracks w seen c (inl (is_new, empty)) =
    rw (is_new, empty, first_packet c, first_accepts c) (refl, inr (first-Marks c))
check_and_update-Tracks w seen c (inr m) =
    let f = check_and_update-Follows w seen m c in (f.0, inr f.1)
