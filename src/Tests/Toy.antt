-- ===== src/Tests/Toy.antt =====
-- Primitives that keep the laws, for the tests: they protect nothing.
use secure_guard.Base.{
  ℕ, ◌+◌, ◌-◌, List, [], ◌∷◌, ◌++◌, length, take, replicate, get_or, Option, some, ◌≡◌, refl, ap,
  length-append, arith,
}
use secure_guard.Crypto.{Primitives, PrimitiveLaws}

abbrev toy_seal : List ℕ → List ℕ → List ℕ → List ℕ → Option (List ℕ)
toy_seal key nonce text aad = some (text ++ replicate 16 (get_or key 0 0))

abbrev toy_unseal : List ℕ → List ℕ → List ℕ → List ℕ → Option (List ℕ)
toy_unseal key nonce sealed aad = some (take (length sealed - 16) sealed)

abbrev pub toy : Primitives
toy = record {
  blake2s = λ bytes. take 32 (bytes ++ replicate 32 0);
  blake2s_mac = λ key bytes. replicate 16 (get_or key 0 0 + get_or bytes 0 0);
  hmac_blake2s = λ key bytes. take 32 (bytes ++ replicate 32 0);
  seal = toy_seal;
  unseal = toy_unseal;
  xseal = toy_seal;
  xunseal = toy_unseal;
  derive_public = λ a. replicate 32 (get_or a 0 0);
  diffie_hellman = λ a b. replicate 32 (get_or a 0 0 + get_or b 0 0);
}

take_all : (xs ys : List ℕ) → take (length xs) (xs ++ ys) ≡ xs
take_all [] ys = refl
take_all (x ∷ xs) ys = ap (◌∷◌ x) (take_all xs ys)

opened :
    (text : List ℕ) (b : ℕ)
    → take (length (text ++ replicate 16 b) - 16) (text ++ replicate 16 b) ≡ text
opened text b =
    let z : length (text ++ replicate 16 b) - 16 ≡ length text =
      omega (arith, length-append text (replicate 16 b)) in
    rw z (take_all text (replicate 16 b))

some_inj : {xs ys : List ℕ} → ◌≡◌ {A = Option (List ℕ)} (some xs) (some ys) → ys ≡ xs
some_inj h = cc

pub toy_laws : PrimitiveLaws toy
toy_laws = record {
  unseal-seal =
      λ key nonce text aad sealed h. rw (some_inj h) (ap some (opened text (get_or key 0 0)));
  length-seal = λ key nonce text aad sealed h.
      rw (some_inj h) (length-append text (replicate 16 (get_or key 0 0)));
  seal_total = λ key nonce text aad h. (text ++ replicate 16 (get_or key 0 0), refl);
  dh_comm = λ a b.
      let z : get_or a 0 0 + get_or b 0 0 ≡ get_or b 0 0 + get_or a 0 0 = omega arith in
      ap (replicate 32) z;
  length-derive_public = λ a. refl;
  length-blake2s_mac = λ key bytes. refl;
}
