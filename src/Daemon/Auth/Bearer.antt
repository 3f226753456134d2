-- ===== src/Daemon/Auth/Bearer.antt =====
-- Which requests pass the check.
use Prim.Native.Char.{code}
use Prim.Native.String.{◌++◌ as append}
use Prim.Native.String.append as Append
use text.Mathlib.TextEquality.{Char-path, eq_iff}
use secure_guard.Base.{
  ℕ, suc, Bool, true, false, ◌&&◌, ◌==◌, ==_iff, Option, none, some, String, ◌≡◌, ◌↔◌, refl, sym,
  ap, ◌∙◌, ◌⊎◌, inl, inr, Bool-cases, arith,
}
use secure_guard.Base.Result.{ok, err}
use secure_guard.Config.Text.{trim, str_eq, begins_with}
use secure_guard.Daemon.Auth.{
  drop, auth_middleware, unauthorized, Disk, write_token_file, read_token_file,
}

and_true : (a b : Bool) → (a && b) ≡ true → (a ≡ true) × (b ≡ true)
and_true true b h = (refl, h)
and_true false b h = absurd (cc h)

-- As many characters as a text has.
length : String → ℕ
length String.[] = 0
length (String.◌∷◌ c s) = suc (length s)

begins_with-append : (t s : String) → begins_with t (append t s) ≡ true
unfolding begins_with
begins_with-append String.[] s = refl
begins_with-append (String.◌∷◌ c t) s =
    rw (Append.cons c t s) (ground (arith, ==_iff (code c) (code c), begins_with-append t s))

drop-append : (t s : String) → drop (length t) (append t s) ≡ s
unfolding drop length
drop-append String.[] s = Append.nil s
drop-append (String.◌∷◌ c t) s = rw (Append.cons c t s) (drop-append t s)

append-drop : (t s : String) → begins_with t s ≡ true → append t (drop (length t) s) ≡ s
unfolding begins_with drop length
append-drop String.[] s h = Append.nil s
append-drop (String.◌∷◌ d t) String.[] h = absurd (cc h)
append-drop (String.◌∷◌ d t) (String.◌∷◌ c s) h =
    let (same, rest) = and_true (code d == code c) (begins_with t s) h in
    let here : d ≡ c = Char-path d c ((==_iff (code d) (code c)).0 same) in
    Append.cons d t (drop (length t) s) ∙ rw here (ap (String.◌∷◌ c) (append-drop t s rest))

drop-append_bearer : (s : String) → drop 7 (append "Bearer " s) ≡ s
unfolding length
drop-append_bearer s = drop-append "Bearer " s

append-drop_bearer : (s : String) → begins_with "Bearer " s ≡ true → append "Bearer " (drop 7 s) ≡ s
unfolding length
append-drop_bearer s h = append-drop "Bearer " s h

module _ {ℓ} {A : Type ℓ} (token : String) (answer : A) where
  passes : auth_middleware token (some (append "Bearer " token)) answer ≡ ok answer
  unfolding auth_middleware
  passes =
      let left : begins_with "Bearer " (append "Bearer " token) ≡ true =
        begins_with-append "Bearer " token in
      let right : str_eq (drop 7 (append "Bearer " token)) token ≡ true =
        (eq_iff (drop 7 (append "Bearer " token)) token).1 (drop-append_bearer token) in
      rw (left, right) refl

  passed :
      (header : Option String)
      → auth_middleware token header answer ≡ ok answer
      → header ≡ some (append "Bearer " token)
  unfolding auth_middleware
  passed none h = absurd (cc h)
  passed (some header) h = elim (Bool-cases (begins_with "Bearer " header)) [
    | inr other ↦ absurd (cc (rw other at h))
    | inl bearer ↦ elim (Bool-cases (str_eq (drop 7 header) token)) [
      | inr wrong ↦ absurd (cc (rw (bearer, wrong) at h))
      | inl right ↦
          let rest : drop 7 header ≡ token = (eq_iff (drop 7 header) token).0 right in
          ap some (sym (append-drop_bearer header bearer) ∙ ap (append "Bearer ") rest)
    ]
  ]

  decided :
      (header : Option String)
      → (auth_middleware token header answer ≡ ok answer)
        ⊎ (auth_middleware token header answer ≡ err unauthorized)
  unfolding auth_middleware
  decided none = inr refl
  decided (some header) = elim (Bool-cases (begins_with "Bearer " header)) [
    | inr other ↦ inr (rw other refl)
    | inl bearer ↦ elim (Bool-cases (str_eq (drop 7 header) token)) [
      | inr wrong ↦ inr (rw (bearer, wrong) refl)
      | inl right ↦ inl (rw (bearer, right) refl)
    ]
  ]

-- A request passes the check exactly when its Authorization header is the word Bearer, a space and
-- the token of the daemon; any other request is answered by 401.
pub auth_middleware_iff {ℓ} :
    {A : Type ℓ} (token : String) (header : Option String) (answer : A)
    → ((auth_middleware token header answer ≡ ok answer) ↔ (header ≡ some (append "Bearer " token)))
      × ((auth_middleware token header answer ≡ ok answer)
          ⊎ (auth_middleware token header answer ≡ err unauthorized))
auth_middleware_iff token header answer =
    ((passed token answer header, λ h. rw h (passes token answer)), decided token answer header)

-- When the token was written to the file without error
-- and has no white space at its ends, a request whose Authorization header is the word Bearer, a
-- space and what is read from the file passes the check.
pub auth_middleware-read_token_file {ℓ} :
    {A : Type ℓ} (token : String) (disk : Disk) (old : Option String) (answer : A)
    → (write_token_file token disk old).1 ≡ ok tt
    → trim token ≡ token
    → (read : String) × (read_token_file (write_token_file token disk old).0 ≡ ok read)
      × (auth_middleware token (some (append "Bearer " read)) answer ≡ ok answer)
unfolding write_token_file read_token_file
auth_middleware-read_token_file token disk old answer written plain =
    let file : (write_token_file token disk old).0 ≡ some token = ground arith in
    (token, rw file (ap ok plain), passes token answer)
