-- ===== src/Tests/Starts.antt =====
-- The clean-up after a crash, the bypass, and the check of the requests.
use secure_guard.Base.{ℕ, Bool, true, false, List, [], ◌∷◌, none, some, String, ◌≡◌, ◌↔◌, ◌⊎◌, refl}
use secure_guard.Base.Result.{ok, err}
use secure_guard.Config.Text.{trim, trim_start, trim_end, is_whitespace}
use secure_guard.Tunnel.{Operation, adds, bypasses, removes}
use secure_guard.Error.{tunnel, route_setup_failed}
use secure_guard.Tunnel.Commands.{
  System, Notation, ran, linux, gateway_query, read_gateway, add_bypass_command,
  add_endpoint_bypass_platform,
}
use secure_guard.Tunnel.Commands.Reading.{gateway_word, words, after_via, goes_on}
use secure_guard.Tunnel.Commands.Checked.{IsChecked, add_endpoint_bypass_platform-IsChecked}
use secure_guard.Daemon.Auth.{
  Disk, auth_middleware, unauthorized, write_token_file, read_token_file,
}
use secure_guard.Daemon.Auth.Bearer.{auth_middleware_iff, auth_middleware-read_token_file}
use Prim.Native.String.{◌++◌ as append}

-- A system on which every command fails.
abbrev failing : System
failing command = ran false "exit status: 1" ""

abbrev notation : Notation
notation = record {
  show_net = λ net. "10.0.0.0/24";
  show_ip = λ ip. "192.168.1.1";
  show_index = λ index. "7";
}

abbrev session : List Operation
session =
    bypasses "1" 3232235777 (ok tt)
    ∷ adds "2" (167772160, 24) (ok tt)
    ∷ adds "3" (167772416, 24) (ok tt)
    ∷ removes "4" (167772416, 24) (ok tt)
    ∷ []

auth_middleware_iff_example :
    ((auth_middleware {A = ℕ} "c2VjcmV0" (some "Bearer c2VjcmV0") 200 ≡ ok 200)
      ↔ (some "Bearer c2VjcmV0" ≡ some (append "Bearer " "c2VjcmV0")))
    × ((auth_middleware {A = ℕ} "c2VjcmV0" (some "Bearer c2VjcmV0") 200 ≡ ok 200)
        ⊎ (auth_middleware {A = ℕ} "c2VjcmV0" (some "Bearer c2VjcmV0") 200 ≡ err unauthorized))
auth_middleware_iff_example = auth_middleware_iff "c2VjcmV0" (some "Bearer c2VjcmV0") 200

abbrev writable : Disk
writable = record { create_dir_error = none; write_error = none; permissions_error = none }

written : (write_token_file "c2VjcmV0" writable none).1 ≡ ok tt
unfolding write_token_file
written = refl

plain : trim "c2VjcmV0" ≡ "c2VjcmV0"
unfolding trim trim_start trim_end is_whitespace
plain = refl

auth_middleware-read_token_file_example :
    (read : String) × (read_token_file (write_token_file "c2VjcmV0" writable none).0 ≡ ok read)
    × (auth_middleware {A = ℕ} "c2VjcmV0" (some (append "Bearer " read)) 200 ≡ ok 200)
auth_middleware-read_token_file_example =
    auth_middleware-read_token_file "c2VjcmV0" writable none 200 written plain

-- A system with a default route, on which every command succeeds.
abbrev routed : System
routed command = ran true "exit status: 0" "default via 192.168.1.254 dev eth0"

add_endpoint_bypass_platform-IsChecked_example :
    IsChecked routed
      (λ c.
        (gateway : String) × (success : Bool) × (status : String) × (out : String) × (routed
            (gateway_query linux)
          ≡ ran success status out)
        × (read_gateway linux out ≡ some gateway)
        × (c ≡ add_bypass_command notation linux 3232235777 gateway))
      (λ why. tunnel (route_setup_failed (notation.show_ip 3232235777) why))
      (add_endpoint_bypass_platform routed notation linux 3232235777)
add_endpoint_bypass_platform-IsChecked_example =
    add_endpoint_bypass_platform-IsChecked routed notation linux 3232235777

-- The gateway is the word after `via`.
add_endpoint_bypass_platform_routed :
    add_endpoint_bypass_platform routed notation linux 3232235777 ≡ (
      gateway_query linux ∷ add_bypass_command notation linux 3232235777 "192.168.1.254" ∷ [],
      ok tt,
    )
unfolding add_endpoint_bypass_platform gateway_word words after_via goes_on is_whitespace
add_endpoint_bypass_platform_routed = refl
