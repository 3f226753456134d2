-- ===== src/Config/Parser/Sections.antt =====
-- The sections of peers.
use secure_guard.Base.{
  ℕ, ◌+◌, Bool, false, if◌then◌else◌, List, [], ◌∷◌, length, Option, none, some, String, ◌≡◌, refl,
  inl, inr, Option-cases, Bool-cases, arith, replicate, bytes_eq, length-append,
}
use secure_guard.Base.Result.{ok}
use secure_guard.Config.{WireGuardConfig}
use secure_guard.Config.Text.{trim, lines, split_once, eq_ignore_ascii_case}
use secure_guard.Config.Parser.{
  Syntax, State, PeerBuilder, Section, interface, peer, start, build, save_peer, interface_value,
  peer_value, process_pair, is_skipped, process_entry, process_line, process_lines, validate,
  finish, parse, empty_interface,
}
use secure_guard.Config.Parser.Outcomes.{Yields, Yields-ok, Yields-err, Yields-bind}

-- The header `[Peer]`, in any case.
abbrev pub is_peer_header : String → Bool
is_peer_header line =
    if is_skipped line
    then false
    else if eq_ignore_ascii_case line "[interface]"
    then false
    else eq_ignore_ascii_case line "[peer]"

abbrev one_if : Bool → ℕ
one_if b = if b then 1 else 0

unfoldable pub peer_headers : List String → ℕ
peer_headers [] = 0
peer_headers (line ∷ rest) = one_if (is_peer_header (trim line)) + peer_headers rest

abbrev pending : Option PeerBuilder → ℕ
pending none = 0
pending (some b) = 1

-- The peers that were begun.
abbrev begun : State → ℕ
begun s = length s.peers + pending s.current_peer

Counts : State → ℕ → State → Type 0
Counts s n s' = begun s' ≡ begun s + n

-- The peer that was being read is among the others.
Saved : State → State → Type 0
Saved s s' = (length s'.peers ≡ begun s) × (s'.current_peer ≡ none)

save_peer-Saved : (s : State) → Yields (Saved s) (save_peer s)
unfolding save_peer Saved
save_peer-Saved s = elim (Option-cases s.current_peer) [
  | inl e ↦ rw (e, save_peer) (Yields-ok s (omega arith, e))
  | inr (b, e) ↦
      rw (e, save_peer)
        (Yields-bind (build b) _
          (λ built made. Yields-ok _ (length-append s.peers (built ∷ []), refl)))
]

module _ (x : Syntax) where
  process_pair-Counts :
      (s : State) (n : ℕ) (key value : String) → Yields (Counts s 0) (process_pair x s n key value)
  unfolding process_pair Counts
  process_pair-Counts s n key value = in_section s.current_section refl
    where
      in_section :
          (section : Option Section)
          → s.current_section ≡ section
          → Yields (Counts s 0) (process_pair x s n key value)
      in_section none e = rw (e, process_pair) (Yields-err _)
      in_section (some interface) e =
          rw (e, process_pair)
            (Yields-bind
              (interface_value x (elim s.interface [ none ↦ empty_interface | some i ↦ i ]) n key
                value)
              _ (λ i made. Yields-ok _ (omega arith)))
      in_section (some peer) e = elim (Option-cases s.current_peer) [
        | inl f ↦ rw (e, f, process_pair) (Yields-err _)
        | inr (b, f) ↦
            rw (e, f, process_pair)
              (Yields-bind (peer_value x b n key value) _ (λ b' made. Yields-ok _ (omega arith)))
      ]

  process_entry-Counts :
      (s : State) (n : ℕ) (line : String) → Yields (Counts s 0) (process_entry x s n line)
  unfolding process_entry
  process_entry-Counts s n line = elim (Option-cases (split_once 61 line)) [
    | inl e ↦ rw (e, process_entry) (Yields-err _)
    | inr ((key, value), e) ↦
        rw (e, process_entry) (process_pair-Counts s n (trim key) (trim value))
  ]

  process_line-Counts :
      (s : State) (n : ℕ) (line : String)
      → Yields (Counts s (one_if (is_peer_header line))) (process_line x s n line)
  unfolding process_line Counts Saved
  process_line-Counts s n line = elim (Bool-cases (is_skipped line)) [
    | inl a ↦ rw (a, process_line) (Yields-ok s (omega arith))
    | inr a ↦ elim (Bool-cases (eq_ignore_ascii_case line "[interface]")) [
      | inl b ↦
          rw (a, b, process_line)
            (Yields-bind (save_peer s) _ (λ s' saved.
              let (all, gone) = (save_peer-Saved s).yielded s' saved in
              Yields-ok _ (rw gone (omega (arith, all)))))
      | inr b ↦ elim (Bool-cases (eq_ignore_ascii_case line "[peer]")) [
        | inl c ↦
            rw (a, b, c, process_line)
              (Yields-bind (save_peer s) _ (λ s' saved.
                let (all, gone) = (save_peer-Saved s).yielded s' saved in
                Yields-ok _ (omega (arith, all))))
        | inr c ↦ rw (a, b, c, process_line) (process_entry-Counts s n line)
      ]
    ]
  ]

  process_lines-Counts :
      (s : State) (n : ℕ) (all : List String)
      → Yields (Counts s (peer_headers all)) (process_lines x s n all)
  unfolding process_lines peer_headers Counts
  process_lines-Counts s n [] = Yields-ok s (omega arith)
  process_lines-Counts s n (line ∷ rest) =
      Yields-bind (process_line x s n (trim line)) _ (λ s' made. record {
        yielded = λ t h. omega (
          arith,
          (process_line-Counts s n (trim line)).yielded s' made,
          (process_lines-Counts s' (n + 1) rest).yielded t h,
        );
      })

validate-peers : (s : State) → Yields (λ c. length c.peers ≡ length s.peers) (validate s)
unfolding validate
validate-peers s = elim (Option-cases s.interface) [
  | inl e ↦ rw (e, validate) (Yields-err _)
  | inr (i, e) ↦ elim (Bool-cases (bytes_eq i.private_key (replicate 32 0))) [
    | inl zero_key ↦ rw (e, zero_key, validate) (Yields-err _)
    | inr nonzero ↦ rw (e, nonzero, validate) (Yields-ok _ refl)
  ]
]

-- A configuration that parses has as many peers as the file has `[Peer]` headers: none is lost,
-- at the next header or at the end, and none is made up.
pub parse-peer_headers :
    (x : Syntax) (content : String) (c : WireGuardConfig)
    → parse x content ≡ ok c
    → length c.peers ≡ peer_headers (lines content)
unfolding parse finish Counts Saved
parse-peer_headers x content c h =
    (Yields-bind {P = λ d. length d.peers ≡ peer_headers (lines content)}
        (process_lines x start 1 (lines content)) finish
        (λ s made. Yields-bind (save_peer s) validate (λ s' saved. record {
          yielded = λ d g.
              let (all, gone) = (save_peer-Saved s).yielded s' saved in
              omega (
                arith,
                all,
                (process_lines-Counts x start 1 (lines content)).yielded s made,
                (validate-peers s').yielded d g,
              );
        }))).yielded
      c h
