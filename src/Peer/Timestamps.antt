-- ===== src/Peer/Timestamps.antt =====
-- `validate_timestamp`: what a peer's time stamps have to do to be let through.
use secure_guard.Base.{
  ℕ, ◌<◌, false, ◌==◌, if◌then◌else◌, List, [], ◌∷◌, Option, none, some, ◌≡◌, ◌⊎◌, inl, inr,
  Bool-cases, arith,
}
use secure_guard.Peer.{PeerState, bytes_le, is_stale, validate_timestamp}

-- Strictly before, in the order of byte strings.
abbrev pub Below : List ℕ → List ℕ → Type 0
Below [] [] = ⊥
Below [] (y ∷ ys) = Unit
Below (x ∷ xs) [] = ⊥
Below (x ∷ xs) (y ∷ ys) = (x < y) ⊎ ((x ≡ y) × Below xs ys)

bytes_le-Below : (xs ys : List ℕ) → bytes_le ys xs ≡ false → Below xs ys
unfolding bytes_le
bytes_le-Below [] [] h = absurd (ground arith)
bytes_le-Below [] (y ∷ ys) h = tt
bytes_le-Below (x ∷ xs) [] h = absurd (ground arith)
bytes_le-Below (x ∷ xs) (y ∷ ys) h = elim (Bool-cases (y == x)) [
  | inl same ↦ inr (ground arith, bytes_le-Below xs ys (ground arith))
  | inr other ↦ inl (ground arith)
]

Below-trans : (xs ys zs : List ℕ) → Below xs ys → Below ys zs → Below xs zs
Below-trans [] [] zs h k = absurd h
Below-trans [] (y ∷ ys) [] h k = absurd k
Below-trans [] (y ∷ ys) (z ∷ zs) h k = tt
Below-trans (x ∷ xs) [] zs h k = absurd h
Below-trans (x ∷ xs) (y ∷ ys) [] h k = absurd k
Below-trans (x ∷ xs) (y ∷ ys) (z ∷ zs) (inl h) (inl k) = inl (omega arith)
Below-trans (x ∷ xs) (y ∷ ys) (z ∷ zs) (inl h) (inr k) = inl (omega (arith, k.0))
Below-trans (x ∷ xs) (y ∷ ys) (z ∷ zs) (inr h) (inl k) = inl (omega (arith, h.0))
Below-trans (x ∷ xs) (y ∷ ys) (z ∷ zs) (inr h) (inr k) =
    inr (omega (arith, h.0, k.0), Below-trans xs ys zs h.1 k.1)

abbrev pub AllAbove : List ℕ → List (List ℕ) → Type 0
AllAbove a [] = Unit
AllAbove a (t ∷ ts) = Below a t × AllAbove a ts

abbrev pub Ascending : List (List ℕ) → Type 0
Ascending [] = Unit
Ascending (t ∷ ts) = AllAbove t ts × Ascending ts

abbrev pub AllNew : Option (List ℕ) → List (List ℕ) → Type 0
AllNew none ts = Unit
AllNew (some last) ts = AllAbove last ts

AllAbove-Below : (a b : List ℕ) (ts : List (List ℕ)) → Below a b → AllAbove b ts → AllAbove a ts
AllAbove-Below a b [] h v = tt
AllAbove-Below a b (t ∷ ts) h v = (Below-trans a b t h v.0, AllAbove-Below a b ts h v.1)

AllNew-cons :
    (last : Option (List ℕ)) (t : List ℕ) (ts : List (List ℕ))
    → is_stale last t ≡ false
    → AllAbove t ts
    → AllNew last (t ∷ ts)
AllNew-cons none t ts new v = tt
AllNew-cons (some last) t ts new v =
    let above = bytes_le-Below last t new in (above, AllAbove-Below last t ts above v)

-- The time stamps that a peer lets through, of those that are offered to it one by one.
pub accepted : PeerState → List (List ℕ) → List (List ℕ)
accepted s [] = []
accepted s (t ∷ ts) =
    let rest = accepted (validate_timestamp s t).0 ts in
    if (validate_timestamp s t).1 then t ∷ rest else rest

-- Whatever time stamps are offered, each that is let through lies strictly above all that were
-- let through before it, as a byte string: so none passes twice.
pub accepted-Ascending :
    (s : PeerState) (ts : List (List ℕ))
    → AllNew s.last_timestamp (accepted s ts) × Ascending (accepted s ts)
unfolding accepted validate_timestamp
accepted-Ascending s [] = elim s.last_timestamp as (λ last. AllNew last [] × Unit) [
  | none ↦ (tt, tt)
  | some last ↦ (tt, tt)
]
accepted-Ascending s (t ∷ ts) = elim (Bool-cases (is_stale s.last_timestamp t)) [
  | inl stale ↦ rw stale (accepted-Ascending s ts)
  | inr new ↦
      let ih = accepted-Ascending (record s { last_timestamp = some t }) ts in
      rw new (AllNew-cons s.last_timestamp t _ new ih.0, ih)
]
