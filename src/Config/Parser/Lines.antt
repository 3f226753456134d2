-- ===== src/Config/Parser/Lines.antt =====
-- Which line an error names.
use secure_guard.Base.{
  ℕ, ◌+◌, List, [], ◌∷◌, ◌++◌, length, Option, none, some, String, ◌≡◌, refl, sym, ap, ◌∙◌, inl,
  inr, Option-cases, arith,
}
use secure_guard.Base.Result.{ok, err, ok_or, Result-cases}
use secure_guard.Error.{parse_error, invalid_cidr, invalid_address}
use secure_guard.Net.{SocketAddr}
use secure_guard.Config.{InterfaceConfig}
use secure_guard.Config.Text.{is_empty, trim, lines, split_once}
use secure_guard.Config.Parser.{
  Syntax, State, PeerBuilder, Section, interface, peer, start, build, save_peer, parse_key,
  first_addr, parse_endpoint, parse_nets, parse_ips, interface_value, peer_value, process_pair,
  process_entry, process_line, process_lines, validate, finish, parse,
}
use secure_guard.Config.Parser.Outcomes.{
  Numbered, Numbered-if, Numbered-bind, Numbered-ok, numbered_rules,
}

module _ {P : ℕ → Type 0} where
  save_peer-Numbered : (s : State) → Numbered P (save_peer s)
  unfolding save_peer build
  save_peer-Numbered s = elim (Option-cases s.current_peer) [
    | inl e ↦ rw (e, save_peer) (search numbered_rules)
    | inr (b, e) ↦ rw (e, save_peer) (search numbered_rules)
  ]

  finish-Numbered : (s : State) → Numbered P (finish s)
  unfolding finish validate
  finish-Numbered s = search (numbered_rules, save_peer-Numbered) depth 9

module _ {P : ℕ → Type 0} (x : Syntax) where
  parse_key-Numbered : (value field_name : String) → Numbered P (parse_key x value field_name)
  unfolding parse_key
  parse_key-Numbered value field_name = search numbered_rules

  first_addr-Numbered :
      (value : String) (addrs : List SocketAddr) → Numbered P (first_addr value addrs)
  first_addr-Numbered value [] = search numbered_rules
  first_addr-Numbered value (addr ∷ addrs) = search numbered_rules

  parse_endpoint-Numbered : (value : String) → Numbered P (parse_endpoint x value)
  unfolding parse_endpoint
  parse_endpoint-Numbered value = elim (Option-cases (x.parse_socket value)) [
    | inr (addr, e) ↦ rw (e, parse_endpoint) (search numbered_rules)
    | inl e ↦ rw (e, parse_endpoint) (search (numbered_rules, first_addr-Numbered))
  ]

  parse_nets-Numbered : (pieces : List String) → Numbered P (parse_nets x pieces)
  unfolding parse_nets
  parse_nets-Numbered [] = search numbered_rules
  parse_nets-Numbered (piece ∷ pieces) =
      let rest = parse_nets-Numbered pieces in
      Numbered-if (is_empty (trim piece)) (parse_nets x pieces) _ rest (
        Numbered-bind (ok_or (x.parse_net (trim piece)) (invalid_cidr (trim piece))) _
          (search numbered_rules)
          (λ net. Numbered-bind (parse_nets x pieces) _ rest (λ nets. Numbered-ok _)))

  parse_ips-Numbered : (pieces : List String) → Numbered P (parse_ips x pieces)
  unfolding parse_ips
  parse_ips-Numbered [] = search numbered_rules
  parse_ips-Numbered (piece ∷ pieces) =
      Numbered-bind (ok_or (x.parse_ip (trim piece)) (invalid_address (trim piece))) _
        (search numbered_rules)
        (λ ip.
          Numbered-bind (parse_ips x pieces) _ (parse_ips-Numbered pieces) (λ ips. Numbered-ok _))

  ruleset value_rules = (
    numbered_rules, parse_key-Numbered, parse_endpoint-Numbered, parse_nets-Numbered,
    parse_ips-Numbered,
  )

  module _ (n : ℕ) (here : P n) where
    interface_value-Numbered :
        (iface : InterfaceConfig) (key value : String)
        → Numbered P (interface_value x iface n key value)
    unfolding interface_value
    interface_value-Numbered iface key value = search value_rules depth 12

    peer_value-Numbered :
        (b : PeerBuilder) (key value : String) → Numbered P (peer_value x b n key value)
    unfolding peer_value
    peer_value-Numbered b key value = search value_rules depth 12

    process_pair-Numbered :
        (s : State) (key value : String) → Numbered P (process_pair x s n key value)
    unfolding process_pair
    process_pair-Numbered s key value = in_section s.current_section refl
      where
        in_section :
            (section : Option Section)
            → s.current_section ≡ section
            → Numbered P (process_pair x s n key value)
        in_section none e = rw (e, process_pair) (search numbered_rules)
        in_section (some interface) e =
            rw (e, process_pair) (search (numbered_rules, interface_value-Numbered))
        in_section (some peer) e =
            rw (e, process_pair) (search (numbered_rules, peer_value-Numbered))

    process_entry-Numbered : (s : State) (line : String) → Numbered P (process_entry x s n line)
    unfolding process_entry
    process_entry-Numbered s line = elim (Option-cases (split_once 61 line)) [
      | inl e ↦ rw (e, process_entry) (search numbered_rules)
      | inr ((key, value), e) ↦
          rw (e, process_entry) (process_pair-Numbered s (trim key) (trim value))
    ]

    process_line-Numbered : (s : State) (line : String) → Numbered P (process_line x s n line)
    unfolding process_line
    process_line-Numbered s line =
        search (numbered_rules, save_peer-Numbered, process_entry-Numbered) depth 9

-- The error of a line names the line that failed.
pub record Fails (x : Syntax) (s : State) (first : ℕ) (all : List String) (n : ℕ) (message : String)
    : Type 0 where
  pub before : List String
  pub line : String
  pub after : List String
  pub state : State
  pub place : all ≡ before ++ line ∷ after
  pub number : n ≡ first + length before
  pub reached : process_lines x s first before ≡ ok state
  pub failed : process_line x state n (trim line) ≡ err (parse_error n message)

process_lines-ok :
    (x : Syntax) (s : State) (first : ℕ) (line : String) (s' : State)
    → process_line x s first (trim line) ≡ ok s'
    → (rest : List String)
    → process_lines x s first (line ∷ rest) ≡ process_lines x s' (first + 1) rest
unfolding process_lines
process_lines-ok x s first line s' good rest = rw (good, process_lines) refl

process_lines-Fails :
    (x : Syntax) (s : State) (first : ℕ) (all : List String) (n : ℕ) (message : String)
    → process_lines x s first all ≡ err (parse_error n message)
    → Fails x s first all n message
unfolding process_lines
process_lines-Fails x s first [] n message h = absurd (cc)
process_lines-Fails x s first (line ∷ rest) n message h =
    elim (Result-cases (process_line x s first (trim line))) [
      | inr (e, bad) ↦
          let same : e ≡ parse_error n message = ground arith in
          let bad' : process_line x s first (trim line) ≡ err (parse_error n message) =
            bad ∙ ap err same in
          let here : n ≡ first =
            (process_line-Numbered {P = λ m. m ≡ first} x first refl s (trim line)).numbered n
              message bad' in
          record {
            before = [];
            line = line;
            after = rest;
            state = s;
            place = refl;
            number = omega arith;
            reached = refl;
            failed = ap (λ k. process_line x s k (trim line)) here ∙ bad';
          }
      | inl (s', good) ↦
          let later =
            process_lines-Fails x s' (first + 1) rest n message
              (sym (process_lines-ok x s first line s' good rest) ∙ h) in
          record {
            before = line ∷ later.before;
            line = later.line;
            after = later.after;
            state = later.state;
            place = ap (◌∷◌ line) later.place;
            number = omega (arith, later.number);
            reached = process_lines-ok x s first line s' good later.before ∙ later.reached;
            failed = later.failed;
          }
    ]

-- An error with a line number names the line that failed: counted from one, the lines before it
-- were processed without error, and it is the line of that number on which the error arose.
pub parse-Fails :
    (x : Syntax) (content : String) (n : ℕ) (message : String)
    → parse x content ≡ err (parse_error n message)
    → Fails x start 1 (lines content) n message
unfolding parse
parse-Fails x content n message h = elim (Result-cases (process_lines x start 1 (lines content))) [
  | inr (e, bad) ↦
      let same : e ≡ parse_error n message = ground arith in
      process_lines-Fails x start 1 (lines content) n message (bad ∙ ap err same)
  | inl (s, good) ↦
      let late : finish s ≡ err (parse_error n message) = ground arith in
      absurd ((finish-Numbered {P = λ m. ⊥} s).numbered n message late)
]
