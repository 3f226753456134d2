-- ===== src/Replay/Order.antt =====
-- Counters that arrive in order are let through.
use secure_guard.Base.{ℕ, ◌<◌, true, ◌≡◌, refl, ◌⊎◌, inl, inr, arith}
use secure_guard.Replay.{ReplayWindow, new, check_and_update, advance}

-- The window has let through no counter from `c` on.
abbrev pub Before : ReplayWindow → ℕ → Type 0
Before w c = (w ≡ new) ⊎ (w.highest < c)

pub Before-fresh :
    (w : ReplayWindow) (c : ℕ)
    → Before w c
    → ((check_and_update w c).1 ≡ true) × ((check_and_update w c).0.highest ≡ c)
unfolding check_and_update new advance
Before-fresh w c (inl e) = rw e (refl, refl)
Before-fresh w c (inr h) = ground arith
