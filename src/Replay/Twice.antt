-- ===== src/Replay/Twice.antt =====
-- A counter is let through once, from whatever state the window is in.
use secure_guard.Base.{
  ℕ, ◌-◌, ◌≤◌, ◌<◌, true, false, ltb, ◌==◌, ◌≡◌, refl, inl, inr, ◌&&◌, Bool-cases, ltb_false→le,
  arith,
}
use secure_guard.Base.Bits.{bit_at, bit_at-zero}
use secure_guard.Replay.{ReplayWindow, window_size, advance, look_back, check_and_update}
use secure_guard.Replay.Tracking.{advance_bit, look_back_bit, bit_and_test}

-- The window has the counter in sight, and its bit is set.
abbrev HasSeen : ReplayWindow → ℕ → Type 0
HasSeen w c =
    (c ≤ w.highest) × (w.highest - c < window_size) × (bit_at w.bitmap (w.highest - c) ≡ 1)

advance-HasSeen : (w : ReplayWindow) (c : ℕ) → HasSeen (advance w c) c
advance-HasSeen w c =
    unfold advance in
    (
      omega arith,
      omega arith,
      let z : c - c ≡ 0 = omega arith in rw z (advance_bit w c 0 (omega arith)),
    )

look_back-HasSeen :
    (w : ReplayWindow) (c : ℕ)
    → c ≤ w.highest
    → (look_back w c).1 ≡ true
    → HasSeen (look_back w c).0 c
unfolding look_back
look_back-HasSeen w c h fresh =
    ground (arith, look_back_bit w.bitmap (w.highest - c) (w.highest - c))

first-HasSeen : (c : ℕ) → HasSeen (record { highest = c; bitmap = 1 }) c
unfolding bit_at
first-HasSeen c = (omega arith, omega arith, let z : c - c ≡ 0 = omega arith in rw z refl)

check_and_update-HasSeen :
    (w : ReplayWindow) (c : ℕ)
    → (check_and_update w c).1 ≡ true
    → HasSeen (check_and_update w c).0 c
unfolding check_and_update
check_and_update-HasSeen w c fresh = elim (Bool-cases (w.highest == 0 && w.bitmap == 0)) [
  | inl new ↦ rw new (first-HasSeen c)
  | inr old ↦ elim (Bool-cases (ltb w.highest c)) [
    | inl above ↦ rw (old, above) (advance-HasSeen w c)
    | inr below ↦
        rw (old, below) (look_back-HasSeen w c (ltb_false→le _ _ below) (rw (old, below) at fresh))
  ]
]

HasSeen-refused : (w : ReplayWindow) (c : ℕ) → HasSeen w c → (check_and_update w c).1 ≡ false
unfolding check_and_update look_back
HasSeen-refused w c (inside, near, bit) =
    ground (arith, bit_and_test w.bitmap (w.highest - c), bit_at-zero (w.highest - c))

-- In every state of the window, a counter that was let through is refused the next time.
pub check_and_update_twice :
    (w : ReplayWindow) (c : ℕ)
    → (check_and_update w c).1 ≡ true
    → (check_and_update (check_and_update w c).0 c).1 ≡ false
check_and_update_twice w c fresh =
    HasSeen-refused (check_and_update w c).0 c (check_and_update-HasSeen w c fresh)

-- A refused counter leaves the window as it was.
pub check_and_update_refused :
    (w : ReplayWindow) (c : ℕ) → (check_and_update w c).1 ≡ false → (check_and_update w c).0 ≡ w
unfolding check_and_update look_back
check_and_update_refused w c h = ground arith
