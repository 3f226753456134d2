-- ===== src/Error/Codes.antt =====
-- src/error.rs: `is_recoverable` and `exit_code`; src/main.rs: its own `exit_code`.
use secure_guard.Base.{ℕ, Bool, true, false, leb, if◌then◌else◌, ◌≡◌, refl}
use secure_guard.Error.{
  MinnowVpnError, TunnelError, config, crypto, protocol, network, tunnel, system, key_derivation,
  encryption, decryption, invalid_key_length, invalid_nonce, diffie_hellman, handshake_timeout,
  handshake_failed, invalid_message_type, invalid_message_length, mac_verification_failed,
  replay_detected, session_expired, no_session, invalid_sender_index, cookie_required,
  create_failed, read_failed, write_failed, route_setup_failed, route_cleanup_failed,
  insufficient_privileges, unsupported_platform,
}

unfoldable pub is_recoverable : MinnowVpnError → Bool
is_recoverable (config e) = false
is_recoverable (tunnel e) = false
is_recoverable (protocol (handshake_timeout seconds)) = true
is_recoverable (protocol session_expired) = true
is_recoverable (protocol no_session) = true
is_recoverable (protocol mac_verification_failed) = true
is_recoverable (protocol (replay_detected counter)) = true
is_recoverable (protocol (handshake_failed reason)) = false
is_recoverable (protocol (invalid_message_type msg_type)) = false
is_recoverable (protocol (invalid_message_length expected got)) = false
is_recoverable (protocol (invalid_sender_index index)) = false
is_recoverable (protocol cookie_required) = false
is_recoverable (network e) = true
is_recoverable (crypto decryption) = true
is_recoverable (crypto key_derivation) = false
is_recoverable (crypto encryption) = false
is_recoverable (crypto (invalid_key_length expected got)) = false
is_recoverable (crypto invalid_nonce) = false
is_recoverable (crypto diffie_hellman) = false
is_recoverable (system e) = false

abbrev tunnel_code : ℕ → ℕ → TunnelError → ℕ
tunnel_code privileges others (insufficient_privileges message) = privileges
tunnel_code privileges others (create_failed reason) = others
tunnel_code privileges others (read_failed reason) = others
tunnel_code privileges others (write_failed reason) = others
tunnel_code privileges others (route_setup_failed net reason) = others
tunnel_code privileges others (route_cleanup_failed net reason) = others
tunnel_code privileges others (unsupported_platform platform) = others
tunnel_code privileges others (TunnelError.io e) = others

unfoldable pub exit_code : MinnowVpnError → ℕ
exit_code (config e) = 1
exit_code (tunnel e) = tunnel_code 2 6 e
exit_code (network e) = 3
exit_code (protocol e) = 4
exit_code (crypto e) = 5
exit_code (system e) = 7

-- The one that the program ends with.
unfoldable pub main_exit_code : MinnowVpnError → ℕ
main_exit_code (config e) = 1
main_exit_code (tunnel e) = tunnel_code 2 255 e
main_exit_code (network e) = 3
main_exit_code (protocol e) = 4
main_exit_code (crypto e) = 5
main_exit_code (system e) = 255

-- The two `exit_code`s agree up to 5, and where the library's is 6 or 7 the program's is 255.
pub main_exit_code-exit_code :
    (e : MinnowVpnError) → main_exit_code e ≡ (if leb (exit_code e) 5 then exit_code e else 255)
unfolding main_exit_code exit_code
main_exit_code-exit_code (config e) = refl
main_exit_code-exit_code (network e) = refl
main_exit_code-exit_code (protocol e) = refl
main_exit_code-exit_code (crypto e) = refl
main_exit_code-exit_code (system e) = refl
main_exit_code-exit_code (tunnel (insufficient_privileges message)) = refl
main_exit_code-exit_code (tunnel (create_failed reason)) = refl
main_exit_code-exit_code (tunnel (read_failed reason)) = refl
main_exit_code-exit_code (tunnel (write_failed reason)) = refl
main_exit_code-exit_code (tunnel (route_setup_failed net reason)) = refl
main_exit_code-exit_code (tunnel (route_cleanup_failed net reason)) = refl
main_exit_code-exit_code (tunnel (unsupported_platform platform)) = refl
main_exit_code-exit_code (tunnel (TunnelError.io e)) = refl
