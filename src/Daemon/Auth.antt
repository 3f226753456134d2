-- ===== src/Daemon/Auth.antt =====
-- src/daemon/auth.rs: the token that the daemon writes to a file at its start, and the check of
-- the requests. The group that the file is given is left out.
pub mod Bearer
use Prim.Native.String.{◌++◌ as append}
use secure_guard.Base.{
  ℕ, zero, suc, Bool, true, false, if◌then◌else◌, List, Option, none, some, String,
}
use secure_guard.Base.Result.{Result, ok, err, ◌>>=◌, ok_or}
use secure_guard.Config.Text.{trim, str_eq, begins_with}

-- 32 random bytes in base64, which is the crate's.
abbrev pub generate_token : (List ℕ → String) → List ℕ → String
generate_token encode_base64 bytes = encode_base64 bytes

-- The content of the file after the token was written, or why it was not: the directory cannot be
-- made, the file cannot be written, or its permissions cannot be set.
pub record Disk : Type 0 where
  pub create_dir_error : Option String
  pub write_error : Option String
  pub permissions_error : Option String

unfoldable pub write_token_file :
    String → Disk → Option String → Option String × Result (Unit {0}) String
write_token_file token disk file = elim disk.create_dir_error [
  | some why ↦ (file, err why)
  | none ↦ elim disk.write_error [
    | some why ↦ (file, err why)
    | none ↦ elim disk.permissions_error [
      | some why ↦ (some token, err why)
      | none ↦ (some token, ok tt)
    ]
  ]
]

unfoldable pub read_token_file : Option String → Result String String
read_token_file file = do token ← ok_or file "No such file or directory"; ok (trim token)

-- `&s[n..]`, where the first `n` characters are ASCII.
unfoldable pub drop : ℕ → String → String
drop zero s = s
drop (suc n) String.[] = ""
drop (suc n) (String.◌∷◌ c s) = drop n s

abbrev pub unauthorized : ℕ
unauthorized = 401

-- `answer` is what the request is answered with behind the check; `header` is the Authorization
-- header, if there is one and it is a text.
unfoldable pub auth_middleware {ℓ} : {A : Type ℓ} → String → Option String → A → Result A ℕ
auth_middleware token none answer = err unauthorized
auth_middleware token (some header) answer =
    if begins_with "Bearer " header
    then if str_eq (drop 7 header) token then ok answer else err unauthorized
    else err unauthorized

unfoldable pub validate_token_from_query : Option String → String → Bool
validate_token_from_query none token = false
validate_token_from_query (some query_token) token = str_eq query_token token
