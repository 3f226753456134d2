-- ===== src/Config/Parser/Outcomes.antt =====
-- Ways to speak of the results that the parser's steps are chained from.
use secure_guard.Base.{
  ℕ, Bool, true, false, if◌then◌else◌, Option, none, some, String, ◌≡◌, refl, subst,
}
use secure_guard.Base.Result.{Result, ok, err, ◌>>=◌, ok_or, fail_if}
use secure_guard.Error.{
  ConfigError, file_not_found, parse_error, invalid_key, invalid_address, missing_field,
  invalid_cidr, io,
}

-- What a good result yields has the property.
pub record Yields {ℓ κ} {A : Type ℓ} (P : A → Type κ) (r : Result A ConfigError)
    : Type (ℓ ⊔ κ) where
  pub yielded : (a : A) → r ≡ ok a → P a

pub Yields-ok {ℓ κ} : {A : Type ℓ} {P : A → Type κ} (a : A) → P a → Yields P (ok a)
Yields-ok {A = A} {P = P} a u = record { yielded = λ b h. subst P (ok_inj h) u }
  where
    ok_inj : {b : A} → ◌≡◌ {A = Result A ConfigError} (ok a) (ok b) → a ≡ b
    ok_inj h = cc

pub Yields-err {ℓ κ} : {A : Type ℓ} {P : A → Type κ} (e : ConfigError) → Yields P (err e)
Yields-err e = record { yielded = λ b h. absurd (cc) }

pub Yields-bind {ℓ κ μ} :
    {A : Type ℓ} {B : Type κ} {P : B → Type μ} (r : Result A ConfigError)
    (k : A → Result B ConfigError)
    → ((a : A) → r ≡ ok a → Yields P (k a))
    → Yields P (r >>= k)
Yields-bind (ok a) k v = v a refl
Yields-bind (err e) k v = Yields-err e

pub Yields-if {ℓ κ} :
    {A : Type ℓ} {P : A → Type κ} (b : Bool) (x y : Result A ConfigError)
    → Yields P x
    → Yields P y
    → Yields P (if b then x else y)
Yields-if true x y u v = u
Yields-if false x y u v = v

pub ruleset yields_rules = (Yields-ok, Yields-err, Yields-bind, Yields-if)

-- Where the result is the error of a line, the number of the line has the property.
pub record Numbered {ℓ} {A : Type ℓ} (P : ℕ → Type 0) (r : Result A ConfigError) : Type ℓ where
  pub numbered : (n : ℕ) (message : String) → r ≡ err (parse_error n message) → P n

-- Errors that name no line.
abbrev pub HasLine : ConfigError → Type 0
HasLine (parse_error n message) = Unit
HasLine (file_not_found path) = ⊥
HasLine (invalid_key field) = ⊥
HasLine (invalid_address value) = ⊥
HasLine (missing_field field) = ⊥
HasLine (invalid_cidr value) = ⊥
HasLine (io reason) = ⊥

module _ {P : ℕ → Type 0} where
  pub Numbered-ok {ℓ} : {A : Type ℓ} (a : A) → Numbered P (ok a)
  Numbered-ok a = record { numbered = λ n message h. absurd (cc) }

  pub Numbered-err {ℓ} :
      {A : Type ℓ} (e : ConfigError) → (HasLine e → ⊥) → Numbered {A = A} P (err e)
  Numbered-err {A = A} e quiet = record {
    numbered = λ n message h. absurd (quiet (at_line n message (cc)));
  }
    where
      at_line : (n : ℕ) (message : String) → e ≡ parse_error n message → HasLine e
      at_line n message h = rw h tt

  pub Numbered-here {ℓ} :
      {A : Type ℓ} (n : ℕ) (message : String)
      → P n
      → Numbered {A = A} P (err (parse_error n message))
  Numbered-here {A = A} n message here = record {
    numbered = λ m text h. subst P (same m text h) here;
  }
    where
      same :
          (m : ℕ) (text : String)
          → ◌≡◌ {A = Result A ConfigError} (err (parse_error n message)) (err (parse_error m text))
          → n ≡ m
      same m text h = cc

  pub Numbered-bind {ℓ κ} :
      {A : Type ℓ} {B : Type κ} (r : Result A ConfigError) (k : A → Result B ConfigError)
      → Numbered P r
      → ((a : A) → Numbered P (k a))
      → Numbered P (r >>= k)
  Numbered-bind {A = A} {B = B} (ok a) k u v = v a
  Numbered-bind {A = A} {B = B} (err e) k u v = record {
    numbered = λ n message h. u.numbered n message (passed n message h);
  }
    where
      passed :
          (n : ℕ) (message : String)
          → ◌≡◌ {A = Result B ConfigError} (err e) (err (parse_error n message))
          → ◌≡◌ {A = Result A ConfigError} (err e) (err (parse_error n message))
      passed n message h = cc

  pub Numbered-if {ℓ} :
      {A : Type ℓ} (b : Bool) (x y : Result A ConfigError)
      → Numbered P x
      → Numbered P y
      → Numbered P (if b then x else y)
  Numbered-if true x y u v = u
  Numbered-if false x y u v = v

  pub Numbered-ok_or {ℓ} :
      {A : Type ℓ} (o : Option A) (e : ConfigError)
      → Numbered {A = A} P (err e)
      → Numbered P (ok_or o e)
  Numbered-ok_or none e u = u
  Numbered-ok_or (some a) e u = Numbered-ok a

  pub Numbered-fail_if :
      (b : Bool) (e : ConfigError) → Numbered {A = Unit {0}} P (err e) → Numbered P (fail_if b e)
  Numbered-fail_if true e u = u
  Numbered-fail_if false e u = Numbered-ok tt

  pub Numbered-invalid_key {ℓ} :
      {A : Type ℓ} (s : String) → Numbered {A = A} P (err (invalid_key s))
  Numbered-invalid_key s = Numbered-err _ (λ has. has)

  pub Numbered-invalid_address {ℓ} :
      {A : Type ℓ} (s : String) → Numbered {A = A} P (err (invalid_address s))
  Numbered-invalid_address s = Numbered-err _ (λ has. has)

  pub Numbered-missing_field {ℓ} :
      {A : Type ℓ} (s : String) → Numbered {A = A} P (err (missing_field s))
  Numbered-missing_field s = Numbered-err _ (λ has. has)

  pub Numbered-invalid_cidr {ℓ} :
      {A : Type ℓ} (s : String) → Numbered {A = A} P (err (invalid_cidr s))
  Numbered-invalid_cidr s = Numbered-err _ (λ has. has)

pub ruleset numbered_rules = (
  Numbered-ok, Numbered-here, Numbered-bind, Numbered-if, Numbered-ok_or, Numbered-fail_if,
  Numbered-invalid_key, Numbered-invalid_address, Numbered-missing_field, Numbered-invalid_cidr,
)
