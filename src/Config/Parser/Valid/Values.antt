-- ===== src/Config/Parser/Valid/Values.antt =====
-- What the values of a section are sure to be, and a peer that is made of them.
use secure_guard.Base.{
  ℕ, ◌≤◌, List, [], ◌∷◌, ◌++◌, length, Option, none, some, String, ◌≡◌, refl, subst, inl, inr,
  Option-cases, Bool-cases, arith, ==_iff, if◌then◌else◌, ◌==◌, leb,
}
use secure_guard.Base.Result.{ok, err, ok_or}
use secure_guard.Error.{ConfigError, invalid_key}
use secure_guard.Net.{IpAddr, IpNet, SocketAddr}
use secure_guard.Config.{InterfaceConfig, PeerConfig}
use secure_guard.Config.Numbers.{parse_u16, unsigned, without_plus}
use secure_guard.Config.Parser.{Syntax, PeerBuilder, build, parse_key, interface_value, peer_value}
use secure_guard.Config.Parser.Outcomes.{Yields, Yields-ok, Yields-err, Yields-bind, yields_rules}

-- Where there is a value, it has the property.
abbrev pub AllSome {ℓ} : {A : Type ℓ} → (A → Type 0) → Option A → Type 0
AllSome P none = Unit
AllSome P (some a) = P a

abbrev pub IsKey : List ℕ → Type 0
IsKey key = length key ≡ 32

abbrev pub IsU16 : ℕ → Type 0
IsU16 n = n ≤ 65535

pub record IsValidInterface (i : InterfaceConfig) : Type 0 where
  pub private_key : IsKey i.private_key
  pub listen_port : AllSome IsU16 i.listen_port
  pub mtu : AllSome IsU16 i.mtu

pub record IsValidPeer (b : PeerConfig) : Type 0 where
  pub public_key : IsKey b.public_key
  pub preshared_key : AllSome IsKey b.preshared_key
  pub persistent_keepalive : AllSome IsU16 b.persistent_keepalive

abbrev pub AllPeers : List PeerConfig → Type 0
AllPeers [] = Unit
AllPeers (b ∷ bs) = IsValidPeer b × AllPeers bs

pub AllPeers-append : (xs ys : List PeerConfig) → AllPeers xs → AllPeers ys → AllPeers (xs ++ ys)
AllPeers-append [] ys u v = v
AllPeers-append (b ∷ bs) ys u v = (u.0, AllPeers-append bs ys u.1 v)

pub record IsValidBuilder (b : PeerBuilder) : Type 0 where
  pub public_key : AllSome IsKey b.public_key
  pub preshared_key : AllSome IsKey b.preshared_key
  pub persistent_keepalive : AllSome IsU16 b.persistent_keepalive

parse_key-IsKey :
    (x : Syntax) (value field_name : String) → Yields IsKey (parse_key x value field_name)
unfolding parse_key
parse_key-IsKey x value field_name =
    Yields-bind (ok_or (x.decode_base64 value) (invalid_key field_name)) _
      (λ bytes e. by_length bytes)
  where
    by_length :
        (bytes : List ℕ)
        → Yields IsKey (if length bytes == 32 then ok bytes else err (invalid_key field_name))
    by_length bytes = elim (Bool-cases (length bytes == 32)) [
      | inl e ↦ rw e (Yields-ok bytes ((==_iff (length bytes) 32).0 e))
      | inr e ↦ rw e (Yields-err _)
    ]

parse_u16-IsU16 : (value : String) (e : ConfigError) → Yields IsU16 (ok_or (parse_u16 value) e)
unfolding parse_u16
parse_u16-IsU16 value e = elim (Option-cases (unsigned (without_plus value))) [
  | inl f ↦ rw (f, parse_u16) (Yields-err e)
  | inr (n, f) ↦ elim (Bool-cases (leb n 65535)) [
    | inl small ↦ rw (f, small, parse_u16) (Yields-ok n (ground arith))
    | inr big ↦ rw (f, big, parse_u16) (Yields-err e)
  ]
]

parse_key-ok :
    (x : Syntax) (value field_name : String) (bytes : List ℕ)
    → parse_key x value field_name ≡ ok bytes
    → IsKey bytes
parse_key-ok x value field_name bytes e = (parse_key-IsKey x value field_name).yielded bytes e

parse_u16-ok :
    (value : String) (e : ConfigError) (n : ℕ) → ok_or (parse_u16 value) e ≡ ok n → IsU16 n
parse_u16-ok value e n h = (parse_u16-IsU16 value e).yielded n h

module _ (x : Syntax) (i : InterfaceConfig) (v : IsValidInterface i) where
  set_private_key : (k : List ℕ) → IsKey k → IsValidInterface (record i { private_key = k })
  set_private_key k h = record { private_key = h; listen_port = v.listen_port; mtu = v.mtu }

  set_address : (a : List (ℕ × ℕ)) → IsValidInterface (record i { address = a })
  set_address a = record { private_key = v.private_key; listen_port = v.listen_port; mtu = v.mtu }

  set_dns : (d : List IpAddr) → IsValidInterface (record i { dns = d })
  set_dns d = record { private_key = v.private_key; listen_port = v.listen_port; mtu = v.mtu }

  set_listen_port : (n : ℕ) → IsU16 n → IsValidInterface (record i { listen_port = some n })
  set_listen_port n h = record { private_key = v.private_key; listen_port = h; mtu = v.mtu }

  set_mtu : (n : ℕ) → IsU16 n → IsValidInterface (record i { mtu = some n })
  set_mtu n h = record { private_key = v.private_key; listen_port = v.listen_port; mtu = h }

  pub interface_value-Valid :
      (n : ℕ) (key value : String) → Yields IsValidInterface (interface_value x i n key value)
  unfolding interface_value
  interface_value-Valid n key value =
      search
        (
          yields_rules, parse_key-ok, parse_u16-ok, set_private_key, set_address, set_dns,
          set_listen_port, set_mtu,
        )
        depth 12

module _ (x : Syntax) (b : PeerBuilder) (v : IsValidBuilder b) where
  set_public_key : (k : List ℕ) → IsKey k → IsValidBuilder (record b { public_key = some k })
  set_public_key k h = record {
    public_key = h;
    preshared_key = v.preshared_key;
    persistent_keepalive = v.persistent_keepalive;
  }

  set_preshared_key : (k : List ℕ) → IsKey k → IsValidBuilder (record b { preshared_key = some k })
  set_preshared_key k h = record {
    public_key = v.public_key;
    preshared_key = h;
    persistent_keepalive = v.persistent_keepalive;
  }

  set_endpoint : (a : SocketAddr) → IsValidBuilder (record b { endpoint = some a })
  set_endpoint a = record {
    public_key = v.public_key;
    preshared_key = v.preshared_key;
    persistent_keepalive = v.persistent_keepalive;
  }

  set_allowed_ips : (nets : List IpNet) → IsValidBuilder (record b { allowed_ips = nets })
  set_allowed_ips nets = record {
    public_key = v.public_key;
    preshared_key = v.preshared_key;
    persistent_keepalive = v.persistent_keepalive;
  }

  set_keepalive : (n : ℕ) → IsU16 n → IsValidBuilder (record b { persistent_keepalive = some n })
  set_keepalive n h = record {
    public_key = v.public_key;
    preshared_key = v.preshared_key;
    persistent_keepalive = h;
  }

  pub peer_value-Valid :
      (n : ℕ) (key value : String) → Yields IsValidBuilder (peer_value x b n key value)
  unfolding peer_value
  peer_value-Valid n key value =
      search
        (
          yields_rules, parse_key-ok, parse_u16-ok, set_public_key, set_preshared_key, set_endpoint,
          set_allowed_ips, set_keepalive,
        )
        depth 12

pub build-Valid : (b : PeerBuilder) → IsValidBuilder b → Yields IsValidPeer (build b)
unfolding build
build-Valid b v = by_key b.public_key refl
  where
    by_key : (k : Option (List ℕ)) → b.public_key ≡ k → Yields IsValidPeer (build b)
    by_key none e = rw (e, build) (Yields-err _)
    by_key (some k) e =
        let good : AllSome IsKey (some k) = subst (AllSome IsKey) e v.public_key in
        rw (e, build)
          (Yields-ok _ (record {
            public_key = good;
            preshared_key = v.preshared_key;
            persistent_keepalive = v.persistent_keepalive;
          }))
