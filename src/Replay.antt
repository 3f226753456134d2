-- ===== src/Replay.antt =====
-- src/protocol/transport.rs: `ReplayWindow`, the window of received packet counters.
-- `highest` is a u64 and `bitmap` a u128, whose bit N stands for the counter `highest - N`.
pub mod Tracking
pub mod Refinement
pub mod Twice
pub mod Order
use Prim.Native.Nat.{bit_and, bit_or}
use secure_guard.Base.{
  ℕ, ◌+◌, ◌-◌, ◌*◌, ◌%◌, ◌^◌, Bool, true, false, ◌&&◌, ltb, leb, ◌==◌, if◌then◌else◌, List, [], ◌∷◌,
}

pub record ReplayWindow : Type 0 where
  pub highest : ℕ
  pub bitmap : ℕ

abbrev pub window_size : ℕ
window_size = 128

unfoldable pub new : ReplayWindow
new = record { highest = 0; bitmap = 0 }

-- `bitmap << shift` on a u128.
abbrev pub shl_u128 : ℕ → ℕ → ℕ
shl_u128 n s = n * 2 ^ s % 2 ^ 128

-- The branch of a counter above `highest`.
unfoldable pub advance : ReplayWindow → ℕ → ReplayWindow
advance w counter =
    let shift = counter - w.highest in
    record {
      highest = counter;
      bitmap = if leb window_size shift then 1 else bit_or (shl_u128 w.bitmap shift) 1;
    }

-- The branch of a counter at or behind `highest`.
unfoldable pub look_back : ReplayWindow → ℕ → ReplayWindow × Bool
look_back w counter =
    let diff = w.highest - counter in
    let bit = 2 ^ diff in
    if leb window_size diff
    then (w, false)
    else if bit_and w.bitmap bit == 0
    then (record w { bitmap = bit_or w.bitmap bit }, true)
    else (w, false)

unfoldable pub check_and_update : ReplayWindow → ℕ → ReplayWindow × Bool
check_and_update w counter =
    if w.highest == 0 && w.bitmap == 0
    then (record { highest = counter; bitmap = 1 }, true)
    else if ltb w.highest counter
    then (advance w counter, true)
    else look_back w counter

unfoldable pub would_accept : ReplayWindow → ℕ → Bool
would_accept w counter =
    if w.highest == 0 && w.bitmap == 0
    then true
    else if ltb w.highest counter
    then true
    else if leb window_size (w.highest - counter)
    then false
    else bit_and w.bitmap (2 ^ (w.highest - counter)) == 0

-- The verdicts on a sequence of counters, first to last.
pub verdicts : ReplayWindow → List ℕ → List Bool
verdicts w [] = []
verdicts w (c ∷ cs) = (check_and_update w c).1 ∷ verdicts (check_and_update w c).0 cs

-- The window after the sequence.
pub after : ReplayWindow → List ℕ → ReplayWindow
after w [] = w
after w (c ∷ cs) = after (check_and_update w c).0 cs
