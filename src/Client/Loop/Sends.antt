-- ===== src/Client/Loop/Sends.antt =====
-- The datagrams among the effects of the client.
use secure_guard.Base.{ℕ, List, [], ◌∷◌, ◌++◌}
use secure_guard.Net.{SocketAddr}
use secure_guard.Client.{
  Effect, create_tun, bind_udp, send_udp, write_tun, add_endpoint_bypass, add_route, sleep,
  cleanup_stale_routes,
}

-- Every datagram has the property.
abbrev pub AllSent : (List ℕ → SocketAddr → Type 0) → List Effect → Type 0
AllSent P [] = Unit
AllSent P (send_udp bytes to ∷ es) = P bytes to × AllSent P es
AllSent P (create_tun a n m ∷ es) = AllSent P es
AllSent P (bind_udp a ∷ es) = AllSent P es
AllSent P (write_tun bytes ∷ es) = AllSent P es
AllSent P (add_endpoint_bypass a ∷ es) = AllSent P es
AllSent P (add_route a n ∷ es) = AllSent P es
AllSent P (sleep d ∷ es) = AllSent P es
AllSent P (cleanup_stale_routes ∷ es) = AllSent P es

pub AllSent-append :
    (P : List ℕ → SocketAddr → Type 0) (xs ys : List Effect)
    → AllSent P xs
    → AllSent P ys
    → AllSent P (xs ++ ys)
AllSent-append P [] ys u v = v
AllSent-append P (send_udp bytes to ∷ es) ys u v = (u.0, AllSent-append P es ys u.1 v)
AllSent-append P (create_tun a n m ∷ es) ys u v = AllSent-append P es ys u v
AllSent-append P (bind_udp a ∷ es) ys u v = AllSent-append P es ys u v
AllSent-append P (write_tun bytes ∷ es) ys u v = AllSent-append P es ys u v
AllSent-append P (add_endpoint_bypass a ∷ es) ys u v = AllSent-append P es ys u v
AllSent-append P (add_route a n ∷ es) ys u v = AllSent-append P es ys u v
AllSent-append P (sleep d ∷ es) ys u v = AllSent-append P es ys u v
AllSent-append P (cleanup_stale_routes ∷ es) ys u v = AllSent-append P es ys u v

abbrev pub Silent : List Effect → Type 0
Silent effects = AllSent (λ bytes to. ⊥) effects
