-- ===== src/Client/Retry.antt =====
-- src/client.rs: the pauses of `connect_with_retry`.
use native.Mathlib.Nat.{pow-suc}
use secure_guard.Base.{
  ℕ, zero, suc, ◌*◌, ◌^◌, min, List, [], ◌∷◌, ◌++◌, none, some, ◌≡◌, refl, ap, ap₂, ◌∙◌, inl, inr,
  Option-cases, arith,
}
use secure_guard.Base.Result.{ok, err, Result-cases}
use secure_guard.Crypto.{Primitives}
use secure_guard.Session.{from_secs}
use secure_guard.Client.{
  WireGuardClient, Effect, create_tun, bind_udp, send_udp, write_tun, add_endpoint_bypass,
  add_route, sleep, cleanup_stale_routes,
}
use secure_guard.Client.Handshake.{
  Turn, complete, need_retry, begin_handshake, turn, perform_handshake, initial_retry_delay,
  max_retry_delay, retry_from, connect_with_retry,
}

-- The pauses among the effects, in order.
abbrev pub pauses : List Effect → List ℕ
pauses [] = []
pauses (sleep d ∷ es) = d ∷ pauses es
pauses (send_udp bytes to ∷ es) = pauses es
pauses (create_tun a n m ∷ es) = pauses es
pauses (bind_udp a ∷ es) = pauses es
pauses (write_tun bytes ∷ es) = pauses es
pauses (add_endpoint_bypass a ∷ es) = pauses es
pauses (add_route a n ∷ es) = pauses es
pauses (cleanup_stale_routes ∷ es) = pauses es

pauses-append : (xs ys : List Effect) → pauses (xs ++ ys) ≡ pauses xs ++ pauses ys
pauses-append [] ys = refl
pauses-append (sleep d ∷ es) ys = ap (◌∷◌ d) (pauses-append es ys)
pauses-append (send_udp bytes to ∷ es) ys = pauses-append es ys
pauses-append (create_tun a n m ∷ es) ys = pauses-append es ys
pauses-append (bind_udp a ∷ es) ys = pauses-append es ys
pauses-append (write_tun bytes ∷ es) ys = pauses-append es ys
pauses-append (add_endpoint_bypass a ∷ es) ys = pauses-append es ys
pauses-append (add_route a n ∷ es) ys = pauses-append es ys
pauses-append (cleanup_stale_routes ∷ es) ys = pauses-append es ys

-- 2 ^ k seconds, but a minute at most, for `n` values of `k` that follow one another.
abbrev pub backoff : ℕ → ℕ → List ℕ
backoff k zero = []
backoff k (suc n) = min (from_secs (2 ^ k)) (from_secs 60) ∷ backoff (suc k) n

pauses-turn : (p : Primitives) (s : WireGuardClient) (t : Turn) → pauses (turn p s t).effects ≡ []
unfolding turn
pauses-turn p s t = elim (Result-cases (begin_handshake p s t)) [
  | inr (e, bad) ↦ rw (bad, turn) refl
  | inl (made, good) ↦ elim (Option-cases t.send_error) [
    | inl e ↦ rw (good, e, turn) refl
    | inr (reason, e) ↦ rw (good, e, turn) refl
  ]
]

pauses-perform_handshake :
    (p : Primitives) (s : WireGuardClient) (turns : List Turn)
    → pauses (perform_handshake p s turns).1 ≡ []
unfolding perform_handshake
pauses-perform_handshake p s [] = refl
pauses-perform_handshake p s (t ∷ ts) =
    let quiet = pauses-turn p s t in
    let quiet' = pauses-perform_handshake p (turn p s t).client ts in
    elim (Result-cases (turn p s t).result) [
      | inr (e, f) ↦ rw (f, perform_handshake) quiet
      | inl (complete, f) ↦ rw (f, perform_handshake) quiet
      | inl (need_retry, f) ↦
          rw (f, perform_handshake)
            (pauses-append (turn p s t).effects (perform_handshake p (turn p s t).client ts).1
              ∙ rw (quiet, quiet') refl)
    ]

next_delay :
    (k delay : ℕ)
    → delay ≡ min (from_secs (2 ^ k)) (from_secs 60)
    → min (delay * 2) max_retry_delay ≡ min (from_secs (2 ^ suc k)) (from_secs 60)
next_delay k delay h = omega (arith, pow-suc 2 k)

module _ (p : Primitives) where
  -- How many of the attempts fail, one after the other, until one succeeds.
  pub failures : WireGuardClient → List (List Turn) → ℕ
  failures s [] = 0
  failures s (attempt ∷ attempts) =
      let (s', effects, ended) = perform_handshake p s attempt in
      let rest = failures s' attempts in
      elim ended [ none ↦ 0 | some (ok done) ↦ 0 | some (err e) ↦ suc rest ]

  retry_from-backoff :
      (s : WireGuardClient) (k delay : ℕ) (attempts : List (List Turn))
      → delay ≡ min (from_secs (2 ^ k)) (from_secs 60)
      → pauses (retry_from p s delay attempts).1 ≡ backoff k (failures s attempts)
  unfolding retry_from failures
  retry_from-backoff s k delay [] h = refl
  retry_from-backoff s k delay (attempt ∷ attempts) h =
      let s' = (perform_handshake p s attempt).0 in
      let effects = (perform_handshake p s attempt).1 in
      let rest = (retry_from p s' (min (delay * 2) max_retry_delay) attempts).1 in
      let quiet = pauses-perform_handshake p s attempt in
      let later =
        retry_from-backoff s' (suc k) (min (delay * 2) max_retry_delay) attempts
          (next_delay k delay h) in
      elim (Option-cases (perform_handshake p s attempt).2) [
        | inl e ↦ rw (e, quiet, retry_from, failures) refl
        | inr (ok done, e) ↦ rw (e, quiet, retry_from, failures) refl
        | inr (err why, e) ↦
            let split : pauses (effects ++ (sleep delay ∷ rest)) ≡ delay ∷ pauses rest =
              pauses-append effects (sleep delay ∷ rest) ∙ rw quiet refl in
            rw (e, split, retry_from, failures) (ap₂ ◌∷◌ h later)
      ]

-- The pauses of `connect_with_retry` are one for each attempt that fails until one succeeds: of 1,
-- 2, 4, 8, 16 and 32 seconds and then of a minute each, whatever goes wrong.
pub connect_with_retry-backoff :
    (p : Primitives) (s : WireGuardClient) (attempts : List (List Turn))
    → pauses (connect_with_retry p s attempts).1 ≡ backoff 0 (failures p s attempts)
unfolding connect_with_retry
connect_with_retry-backoff p s attempts =
    retry_from-backoff p s 0 initial_retry_delay attempts (omega arith)
