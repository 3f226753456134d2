-- ===== src/Net.antt =====
-- The address types of the standard library and of the crate ipnet. A v4 address is a number
-- below 2 ^ 32, a v6 address one below 2 ^ 128.
use secure_guard.Base.{ℕ, ◌==◌, Bool, true, false, ◌&&◌, ◌≡◌, arith}

pub data IpAddr : Type 0 where
  v4 v6 : ℕ → IpAddr

pub record SocketAddr : Type 0 where
  pub ip : IpAddr
  pub port : ℕ

-- A network: what `addr` and `prefix_len` say of it. Which addresses it contains is up to the
-- crate: `IpNet::contains` is a parameter where it is called.
pub data IpNet : Type 0 where
  v4_net v6_net : ℕ → ℕ → IpNet

abbrev pub ip_eq : IpAddr → IpAddr → Bool
ip_eq (v4 a) (v4 b) = a == b
ip_eq (v4 a) (v6 b) = false
ip_eq (v6 a) (v4 b) = false
ip_eq (v6 a) (v6 b) = a == b

unfoldable pub addr_eq : SocketAddr → SocketAddr → Bool
addr_eq a b = ip_eq a.ip b.ip && a.port == b.port

addr_eq_parts :
    (x y : IpAddr) (m n : ℕ)
    → addr_eq (record { ip = x; port = m }) (record { ip = y; port = n }) ≡ true
    → ◌≡◌ {A = SocketAddr} (record { ip = x; port = m }) (record { ip = y; port = n })
unfolding addr_eq
addr_eq_parts (v4 a) (v4 b) m n h = ground arith
addr_eq_parts (v4 a) (v6 b) m n h = ground arith
addr_eq_parts (v6 a) (v4 b) m n h = ground arith
addr_eq_parts (v6 a) (v6 b) m n h = ground arith

pub addr_eq-eq : (a b : SocketAddr) → addr_eq a b ≡ true → a ≡ b
unfolding addr_eq
addr_eq-eq a b h = addr_eq_parts a.ip b.ip a.port b.port h
