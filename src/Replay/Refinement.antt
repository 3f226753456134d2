-- ===== src/Replay/Refinement.antt =====
-- `ReplayWindow` over whole histories of packets: it gives the verdicts of a receiver that
-- remembers every counter it ever accepted.
use secure_guard.Base.{
  ℕ, ◌+◌, ◌≤◌, Bool, true, ◌==◌, if◌then◌else◌, List, [], ◌∷◌, ◌≡◌, refl, inl, ap₂, arith,
}
use secure_guard.Replay.{
  ReplayWindow, new, look_back, check_and_update, would_accept, verdicts, after,
}
use secure_guard.Replay.Tracking.{Tracks, accepts, contains, check_and_update-Tracks}

-- The reference receiver: the set of accepted counters is its state.
unfoldable pub remember : List ℕ → ℕ → List ℕ
remember seen c = if accepts seen c then c ∷ seen else seen

pub spec_verdicts : List ℕ → List ℕ → List Bool
spec_verdicts seen [] = []
spec_verdicts seen (c ∷ cs) = accepts seen c ∷ spec_verdicts (remember seen c) cs

pub spec_after : List ℕ → List ℕ → List ℕ
spec_after seen [] = seen
spec_after seen (c ∷ cs) = spec_after (remember seen c) cs

verdicts-Tracks :
    (w : ReplayWindow) (seen cs : List ℕ)
    → Tracks w seen
    → (verdicts w cs ≡ spec_verdicts seen cs) × Tracks (after w cs) (spec_after seen cs)
unfolding verdicts spec_verdicts after spec_after remember
verdicts-Tracks w seen [] t = (refl, t)
verdicts-Tracks w seen (c ∷ cs) t =
    let step = check_and_update-Tracks w seen c t in
    let rest = verdicts-Tracks (check_and_update w c).0 (remember seen c) cs step.1 in
    (ap₂ ◌∷◌ step.0 rest.0, rest.1)

-- For every sequence of packet counters, the 128-bit window gives the verdicts of the receiver
-- that remembers all accepted counters and takes a counter exactly when it was not accepted
-- before and lies less than 128 behind the greatest one accepted.
pub verdicts-new : (cs : List ℕ) → verdicts new cs ≡ spec_verdicts [] cs
verdicts-new cs = (verdicts-Tracks new [] cs (inl (refl, refl))).0

-- The counters of a sequence that the window lets through.
pub passed : ReplayWindow → List ℕ → List ℕ
passed w [] = []
passed w (c ∷ cs) =
    let rest = passed (check_and_update w c).0 cs in
    if (check_and_update w c).1 then c ∷ rest else rest

pub count : ℕ → List ℕ → ℕ
count c [] = 0
count c (x ∷ xs) = (if x == c then 1 else 0) + count c xs

pub remember-contains :
    (seen : List ℕ) (c k : ℕ) → contains k seen ≡ true → contains k (remember seen c) ≡ true
unfolding remember contains
remember-contains seen c k h = ground arith

pub accepted-contains :
    (seen : List ℕ) (c k : ℕ)
    → (accepts seen c ≡ true) × (c ≡ k)
    → contains k (remember seen c) ≡ true
unfolding remember contains
accepted-contains seen c k (h, e) = ground arith

known_step :
    (w : ReplayWindow) (seen : List ℕ) (c : ℕ) (cs : List ℕ) (k : ℕ)
    → contains k seen ≡ true
    → (check_and_update w c).1 ≡ accepts seen c
    → count k (passed (check_and_update w c).0 cs) ≡ 0
    → count k (passed w (c ∷ cs)) ≡ 0
unfolding passed count accepts
known_step w seen c cs k h verdict later = ground arith

one_step :
    (w : ReplayWindow) (seen : List ℕ) (c : ℕ) (cs : List ℕ) (k : ℕ)
    → (check_and_update w c).1 ≡ accepts seen c
    → count k (passed (check_and_update w c).0 cs) ≤ 1
    → ((accepts seen c ≡ true) × (c ≡ k) → count k (passed (check_and_update w c).0 cs) ≡ 0)
    → count k (passed w (c ∷ cs)) ≤ 1
unfolding passed count
one_step w seen c cs k verdict later gone = ground arith

passed-known :
    (w : ReplayWindow) (seen cs : List ℕ) (k : ℕ)
    → Tracks w seen
    → contains k seen ≡ true
    → count k (passed w cs) ≡ 0
unfolding passed count
passed-known w seen [] k t h = refl
passed-known w seen (c ∷ cs) k t h =
    let step = check_and_update-Tracks w seen c t in
    let later =
      passed-known (check_and_update w c).0 (remember seen c) cs k (unfold remember in step.1)
        (remember-contains seen c k h) in
    known_step w seen c cs k h step.0 later

count-passed-le :
    (w : ReplayWindow) (seen cs : List ℕ) (k : ℕ) → Tracks w seen → count k (passed w cs) ≤ 1
unfolding passed count
count-passed-le w seen [] k t = omega arith
count-passed-le w seen (c ∷ cs) k t =
    let step = check_and_update-Tracks w seen c t in
    one_step w seen c cs k step.0
      (count-passed-le (check_and_update w c).0 (remember seen c) cs k (unfold remember in step.1))
      λ e.
        passed-known (check_and_update w c).0 (remember seen c) cs k (unfold remember in step.1)
          (accepted-contains seen c k e)

-- No replay: whatever the order in which packets arrive, no counter gets through twice.
pub no_replay : (cs : List ℕ) (k : ℕ) → count k (passed new cs) ≤ 1
no_replay cs k = count-passed-le new [] cs k (inl (refl, refl))

-- `would_accept` foretells `check_and_update`, in every state of the window.
pub would_accept-check_and_update :
    (w : ReplayWindow) (c : ℕ) → would_accept w c ≡ (check_and_update w c).1
unfolding would_accept check_and_update look_back
would_accept-check_and_update w c = ground arith
