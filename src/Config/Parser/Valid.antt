-- ===== src/Config/Parser/Valid.antt =====
-- What a parsed configuration is sure to have.
pub mod Values
use secure_guard.Base.{
  ℕ, ◌≤◌, false, List, [], ◌∷◌, ◌++◌, length, Option, none, some, String, ◌≡◌, ◌≢◌, refl, subst,
  sym, ◌∙◌, ◌+◌, inl, inr, Option-cases, Bool-cases, arith, replicate, bytes_eq, bytes_eq_iff,
  ==_iff, if◌then◌else◌, ◌==◌, leb,
}
use secure_guard.Base.Result.{ok, err, ok_or}
use secure_guard.Error.{ConfigError, invalid_key}
use secure_guard.Net.{IpAddr, IpNet, SocketAddr}
use secure_guard.Config.{InterfaceConfig, PeerConfig, WireGuardConfig}
use secure_guard.Config.Text.{trim, lines, split_once}
use secure_guard.Config.Numbers.{parse_u16, unsigned, without_plus}
use secure_guard.Config.Parser.{
  Syntax, State, PeerBuilder, Section, interface, peer, start, new, build, save_peer, parse_key,
  interface_value, peer_value, process_pair, process_entry, process_line, process_lines, validate,
  finish, parse, empty_interface, copy_psk,
}
use secure_guard.Config.Parser.Outcomes.{Yields, Yields-ok, Yields-err, Yields-bind, yields_rules}
use secure_guard.Config.Parser.Valid.Values.{
  AllSome, IsKey, IsU16, IsValidInterface, IsValidPeer, AllPeers, AllPeers-append, IsValidBuilder,
  interface_value-Valid, peer_value-Valid, build-Valid,
}

record IsValidState (s : State) : Type 0 where
  interface : AllSome IsValidInterface s.interface
  peers : AllPeers s.peers
  current_peer : AllSome IsValidBuilder s.current_peer

save_peer-Valid : (s : State) → IsValidState s → Yields IsValidState (save_peer s)
unfolding save_peer
save_peer-Valid s v = elim (Option-cases s.current_peer) [
  | inl e ↦ rw (e, save_peer) (Yields-ok s v)
  | inr (b, e) ↦
      let good : AllSome IsValidBuilder (some b) =
        subst (AllSome IsValidBuilder) e v.current_peer in
      rw (e, save_peer)
        (Yields-bind (build b) _ (λ built made. Yields-ok _ (record {
          interface = v.interface;
          peers =
              AllPeers-append s.peers (built ∷ []) v.peers
                ((build-Valid b good).yielded built made, tt);
          current_peer = tt;
        })))
]

empty-Valid : IsValidInterface empty_interface
empty-Valid = record { private_key = refl; listen_port = tt; mtu = tt }

module _ (x : Syntax) where
  process_pair-Valid :
      (s : State) (n : ℕ) (key value : String)
      → IsValidState s
      → Yields IsValidState (process_pair x s n key value)
  unfolding process_pair
  process_pair-Valid s n key value v = in_section s.current_section refl
    where
      opened : Option InterfaceConfig → InterfaceConfig
      opened o = elim o [ none ↦ empty_interface | some i ↦ i ]

      opened-Valid :
          (o : Option InterfaceConfig) → AllSome IsValidInterface o → IsValidInterface (opened o)
      opened-Valid none u = empty-Valid
      opened-Valid (some i) u = u

      changed :
          (i : InterfaceConfig)
          → IsValidInterface i
          → IsValidState (record s { interface = some i })
      changed i u = record { interface = u; peers = v.peers; current_peer = v.current_peer }

      in_section :
          (section : Option Section)
          → s.current_section ≡ section
          → Yields IsValidState (process_pair x s n key value)
      in_section none e = rw (e, process_pair) (Yields-err _)
      in_section (some interface) e =
          rw (e, process_pair)
            (Yields-bind (interface_value x (opened s.interface) n key value) _ (λ i made.
              Yields-ok _ (
                changed i (
                  (interface_value-Valid x (opened s.interface)
                      (opened-Valid s.interface v.interface) n key value).yielded
                    i made))))
      in_section (some peer) e = elim (Option-cases s.current_peer) [
        | inl f ↦ rw (e, f, process_pair) (Yields-err _)
        | inr (b, f) ↦
            rw (e, f, process_pair)
              (Yields-bind (peer_value x b n key value) _ (λ b' made. Yields-ok _ (record {
                interface = v.interface;
                peers = v.peers;
                current_peer =
                    (peer_value-Valid x b (subst (AllSome IsValidBuilder) f v.current_peer) n key
                        value).yielded
                      b' made;
              })))
      ]

  opened_section :
      (s : State) (section : Section)
      → IsValidState s
      → IsValidState (record s { current_section = some section })
  opened_section s section v = record {
    interface = v.interface;
    peers = v.peers;
    current_peer = v.current_peer;
  }

  opened_peer :
      (s : State)
      → IsValidState s
      → IsValidState (record s { current_section = some peer; current_peer = some new })
  unfolding new
  opened_peer s v = record {
    interface = v.interface;
    peers = v.peers;
    current_peer = record { public_key = tt; preshared_key = tt; persistent_keepalive = tt };
  }

  save_peer-ok : (s s' : State) → IsValidState s → save_peer s ≡ ok s' → IsValidState s'
  save_peer-ok s s' v h = (save_peer-Valid s v).yielded s' h

  process_entry-Valid :
      (s : State) (n : ℕ) (line : String)
      → IsValidState s
      → Yields IsValidState (process_entry x s n line)
  unfolding process_entry
  process_entry-Valid s n line v = elim (Option-cases (split_once 61 line)) [
    | inl e ↦ rw (e, process_entry) (Yields-err _)
    | inr ((key, value), e) ↦
        rw (e, process_entry) (process_pair-Valid s n (trim key) (trim value) v)
  ]

  process_line-Valid :
      (s : State) (n : ℕ) (line : String)
      → IsValidState s
      → Yields IsValidState (process_line x s n line)
  unfolding process_line
  process_line-Valid s n line v =
      search (yields_rules, opened_section, opened_peer, save_peer-ok, process_entry-Valid) depth 9

  process_lines-Valid :
      (s : State) (n : ℕ) (all : List String)
      → IsValidState s
      → Yields IsValidState (process_lines x s n all)
  unfolding process_lines
  process_lines-Valid s n [] v = Yields-ok s v
  process_lines-Valid s n (line ∷ rest) v =
      Yields-bind (process_line x s n (trim line)) _ (λ s' made.
        process_lines-Valid s' (n + 1) rest
          ((process_line-Valid s n (trim line) v).yielded s' made))

-- The interface has the pre-shared key of the first peer.
abbrev pub FirstPsk : InterfaceConfig → List PeerConfig → Type 0
FirstPsk i [] = Unit
FirstPsk i (b ∷ bs) = i.preshared_key ≡ b.preshared_key

copy_psk-FirstPsk : (i : InterfaceConfig) (bs : List PeerConfig) → FirstPsk (copy_psk i bs) bs
copy_psk-FirstPsk i [] = tt
copy_psk-FirstPsk i (b ∷ bs) = refl

-- What `parse` is sure of: the private key has 32 bytes and is not all zeros, the keys of the
-- peers have 32 bytes, ports, MTU and intervals fit a u16, and the pre-shared key of the
-- interface is that of the first peer.
pub record IsValid (c : WireGuardConfig) : Type 0 where
  pub interface : IsValidInterface c.interface
  pub not_zero : c.interface.private_key ≢ replicate 32 0
  pub peers : AllPeers c.peers
  pub first_psk : FirstPsk c.interface c.peers

copy_psk-Valid :
    (i : InterfaceConfig) (bs : List PeerConfig)
    → IsValidInterface i
    → IsValidInterface (copy_psk i bs)
copy_psk-Valid i [] v = v
copy_psk-Valid i (b ∷ bs) v = record {
  private_key = v.private_key;
  listen_port = v.listen_port;
  mtu = v.mtu;
}

copy_psk-private_key :
    (i : InterfaceConfig) (bs : List PeerConfig) → (copy_psk i bs).private_key ≡ i.private_key
copy_psk-private_key i [] = refl
copy_psk-private_key i (b ∷ bs) = refl

finished-Valid :
    (s : State) (i : InterfaceConfig)
    → IsValidState s
    → s.interface ≡ some i
    → bytes_eq i.private_key (replicate 32 0) ≡ false
    → IsValid (record { interface = copy_psk i s.peers; peers = s.peers })
finished-Valid s i v e zero_key = record {
  interface = copy_psk-Valid i s.peers (subst (AllSome IsValidInterface) e v.interface);
  not_zero = λ h.
      let z =
        (bytes_eq_iff i.private_key (replicate 32 0)).1
          (sym (copy_psk-private_key i s.peers) ∙ h) in
      absurd (ground arith);
  peers = v.peers;
  first_psk = copy_psk-FirstPsk i s.peers;
}

validate-Valid : (s : State) → IsValidState s → Yields IsValid (validate s)
unfolding validate
validate-Valid s v = elim (Option-cases s.interface) [
  | inl e ↦ rw (e, validate) (Yields-err _)
  | inr (i, e) ↦ elim (Bool-cases (bytes_eq i.private_key (replicate 32 0))) [
    | inl zero_key ↦ rw (e, zero_key, validate) (Yields-err _)
    | inr nonzero ↦ rw (e, nonzero, validate) (Yields-ok _ (finished-Valid s i v e nonzero))
  ]
]

finish-Valid : (s : State) → IsValidState s → Yields IsValid (finish s)
unfolding finish
finish-Valid s v =
    Yields-bind (save_peer s) _
      (λ s' saved. validate-Valid s' ((save_peer-Valid s v).yielded s' saved))

-- A configuration that parses is fit for use: the private key has 32 bytes and is not all zeros,
-- the public and pre-shared keys of the peers have 32 bytes, ports, MTU and keepalive intervals
-- are u16s, and the pre-shared key of the interface is that of the first peer.
pub parse-IsValid :
    (x : Syntax) (content : String) (c : WireGuardConfig) → parse x content ≡ ok c → IsValid c
unfolding parse
parse-IsValid x content c h =
    (Yields-bind {P = IsValid} (process_lines x start 1 (lines content)) finish (λ s made.
        finish-Valid s (
          (process_lines-Valid x start 1 (lines content)
              (record { interface = tt; peers = tt; current_peer = tt })).yielded
            s made))).yielded
      c h
