-- ===== src/Base/HashMap/Keys.antt =====
-- A `HashMap` has one entry for each key: so it is in the list that stands for it.
use secure_guard.Base.{[], ◌∷◌, none, ◌≡◌, refl, Bool-cases, inl, inr, arith}
use secure_guard.Base.HashMap.{HashMap, Eq, get, insert, remove, get-insert, get-remove}

module _ {ℓ κ} {K : Type ℓ} {V : Type κ} ⦃e : Eq K⦄ where
  abbrev pub UniqueKeys : HashMap K V → Type κ
  UniqueKeys [] = Unit
  UniqueKeys ((k, v) ∷ m) = (get k m ≡ none) × UniqueKeys m

  pub insert-UniqueKeys :
      (k : K) (v : V) (m : HashMap K V) → UniqueKeys m → UniqueKeys (insert k v m)
  unfolding insert get
  insert-UniqueKeys k v [] u = (refl, tt)
  insert-UniqueKeys k v ((j, w) ∷ m) u = elim (Bool-cases (e.beq j k)) [
    | inl same ↦ rw same (ground (arith, e.beq_iff j k, u.0), u.1)
    | inr other ↦ rw other (
      ground (arith, get-insert k j v m, e.beq_iff j k, e.beq_iff k j, u.0),
      insert-UniqueKeys k v m u.1,
    )
  ]

  pub remove-UniqueKeys : (k : K) (m : HashMap K V) → UniqueKeys m → UniqueKeys (remove k m)
  unfolding remove
  remove-UniqueKeys k [] u = tt
  remove-UniqueKeys k ((j, w) ∷ m) u = elim (Bool-cases (e.beq j k)) [
    | inl same ↦ rw same (remove-UniqueKeys k m u.1)
    | inr other ↦ rw other (ground (arith, get-remove k j m, u.0), remove-UniqueKeys k m u.1)
  ]
