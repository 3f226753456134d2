-- ===== src/Tunnel/History.antt =====
-- What is held after a sequence of calls, told from the calls and the system's answers alone,
-- and that the manager keeps account of it.
use secure_guard.Base.{
  ℕ, Bool, true, false, not, ◌&&◌, ◌||◌, ◌==◌, ==_iff, List, [], ◌∷◌, ◌++◌, Option, none, some,
  String, ◌≡◌, refl, ap, ap₂, ◌∙◌, arith,
}
use secure_guard.Base.Result.{ok, err}
use secure_guard.Tunnel.{
  Routing, save_state, add_endpoint_bypass, add_route, remove_route, retain_others, cleanup,
  Operation, bypasses, adds, removes, cleans, perform, perform_all,
}

abbrev pub same_net : ℕ × ℕ → ℕ × ℕ → Bool
same_net a b = a.0 == b.0 && a.1 == b.1

pub same_net-eq : (a b : ℕ × ℕ) → same_net a b ≡ true → a ≡ b
same_net-eq (a, b) (c, d) h =
    let first : a ≡ c = ground (arith, ==_iff a c) in
    let last : b ≡ d = ground (arith, ==_iff b d) in ap₂ (λ x y. (x, y)) first last

-- Whether the route of a network is held after a call, when `held` says whether it was before.
-- A clean-up gives up every route, also one that the system fails to remove.
abbrev held_after : ℕ × ℕ → Operation → Bool → Bool
held_after net (bypasses now endpoint answer) held = held
held_after net (adds now other (ok done)) held = held || same_net other net
held_after net (adds now other (err e)) held = held
held_after net (removes now other (ok done)) held = held && not (same_net other net)
held_after net (removes now other (err e)) held = held
held_after net cleans held = false

unfoldable pub holds_route : ℕ × ℕ → Bool → List Operation → Bool
holds_route net held [] = held
holds_route net held (o ∷ os) = holds_route net (held_after net o held) os

abbrev bypass_after : Operation → Option ℕ → Option ℕ
bypass_after (bypasses now endpoint (ok done)) held = some endpoint
bypass_after (bypasses now endpoint (err e)) held = held
bypass_after (adds now net answer) held = held
bypass_after (removes now net answer) held = held
bypass_after cleans held = none

unfoldable pub held_bypass : Option ℕ → List Operation → Option ℕ
held_bypass held [] = held
held_bypass held (o ∷ os) = held_bypass (bypass_after o held) os

-- Whether a network is among some.
unfoldable pub names_route : ℕ × ℕ → List (ℕ × ℕ) → Bool
names_route net [] = false
names_route net (r ∷ rs) = same_net r net || names_route net rs

names_route-append :
    (net other : ℕ × ℕ) (rs : List (ℕ × ℕ))
    → names_route net (rs ++ (other ∷ [])) ≡ names_route net rs || same_net other net
unfolding names_route
names_route-append net other [] = ground arith
names_route-append net other (r ∷ rs) = rw (names_route-append net other rs) (ground arith)

names_route-retain_others :
    (net other : ℕ × ℕ) (rs : List (ℕ × ℕ))
    → names_route net (retain_others other rs) ≡ names_route net rs && not (same_net other net)
unfolding names_route retain_others
names_route-retain_others net other [] = refl
names_route-retain_others (a, b) (c, d) ((e, f) ∷ rs) =
    let rest = names_route-retain_others (a, b) (c, d) rs in
    ground (arith, rest, ==_iff e a, ==_iff f b, ==_iff e c, ==_iff f d, ==_iff c a, ==_iff d b)

perform-held_after :
    (net : ℕ × ℕ) (o : Operation) (r : Routing)
    → names_route net (perform o r).0.manager.added_routes
      ≡ held_after net o (names_route net r.manager.added_routes)
unfolding perform add_endpoint_bypass add_route remove_route cleanup save_state names_route
perform-held_after net (bypasses now endpoint (ok done)) r = refl
perform-held_after net (bypasses now endpoint (err e)) r = refl
perform-held_after net (adds now other (ok done)) r =
    names_route-append net other r.manager.added_routes
perform-held_after net (adds now other (err e)) r = refl
perform-held_after net (removes now other (ok done)) r =
    names_route-retain_others net other r.manager.added_routes
perform-held_after net (removes now other (err e)) r = refl
perform-held_after net cleans r = refl

-- The manager has the routes that are held.
pub perform_all-holds_route :
    (net : ℕ × ℕ) (os : List Operation) (r : Routing)
    → names_route net (perform_all os r).manager.added_routes
      ≡ holds_route net (names_route net r.manager.added_routes) os
unfolding perform_all holds_route
perform_all-holds_route net [] r = refl
perform_all-holds_route net (o ∷ os) r =
    perform_all-holds_route net os (perform o r).0
    ∙ ap (λ held. holds_route net held os) (perform-held_after net o r)

perform-bypass_after :
    (o : Operation) (r : Routing)
    → (perform o r).0.manager.endpoint_bypass ≡ bypass_after o r.manager.endpoint_bypass
unfolding perform add_endpoint_bypass add_route remove_route cleanup save_state
perform-bypass_after (bypasses now endpoint (ok done)) r = refl
perform-bypass_after (bypasses now endpoint (err e)) r = refl
perform-bypass_after (adds now net (ok done)) r = refl
perform-bypass_after (adds now net (err e)) r = refl
perform-bypass_after (removes now net (ok done)) r = refl
perform-bypass_after (removes now net (err e)) r = refl
perform-bypass_after cleans r = refl

-- The manager has the bypass that is held.
pub perform_all-held_bypass :
    (os : List Operation) (r : Routing)
    → (perform_all os r).manager.endpoint_bypass ≡ held_bypass r.manager.endpoint_bypass os
unfolding perform_all held_bypass
perform_all-held_bypass [] r = refl
perform_all-held_bypass (o ∷ os) r =
    perform_all-held_bypass os (perform o r).0
    ∙ ap (λ held. held_bypass held os) (perform-bypass_after o r)

-- What no call changes.
abbrev pub Settings : Type 0
Settings = String × Option String × Option ℕ

abbrev pub settings : Routing → Settings
settings r = (r.manager.device_name, r.manager.default_gateway, r.manager.interface_index)

perform-settings : (o : Operation) (r : Routing) → settings (perform o r).0 ≡ settings r
unfolding perform add_endpoint_bypass add_route remove_route cleanup save_state
perform-settings (bypasses now endpoint (ok done)) r = refl
perform-settings (bypasses now endpoint (err e)) r = refl
perform-settings (adds now net (ok done)) r = refl
perform-settings (adds now net (err e)) r = refl
perform-settings (removes now net (ok done)) r = refl
perform-settings (removes now net (err e)) r = refl
perform-settings cleans r = refl

pub perform_all-settings :
    (os : List Operation) (r : Routing) → settings (perform_all os r) ≡ settings r
unfolding perform_all
perform_all-settings [] r = refl
perform_all-settings (o ∷ os) r = perform_all-settings os (perform o r).0 ∙ perform-settings o r
