-- ===== src/Tunnel/Commands/Checked.antt =====
-- What the success of a command says.
use Prim.Native.String.{◌++◌ as append}
use secure_guard.Base.{
  ℕ, Bool, true, false, List, [], ◌∷◌, some, String, ◌≡◌, refl, ◌⊎◌, inl, inr, Option-cases,
}
use secure_guard.Base.Result.{ok, err}
use secure_guard.Error.{MinnowVpnError, tunnel, route_setup_failed}
use secure_guard.Config.Text.{trim}
use secure_guard.Tunnel.Commands.{
  Platform, macos, linux, windows, Command, Ran, not_run, ran, System, Notation, Done, run_checked,
  with_if_index, add_failed, if_index_query, add_route_command, add_route_platform,
  add_bypass_command, gateway_query, read_gateway, add_endpoint_bypass_platform,
}

-- The system ran the command, which ended well.
abbrev pub Succeeds : System → Command → Type 0
Succeeds sys c = (status : String) × (out : String) × (sys c ≡ ran true status out)

-- The command was run last.
abbrev pub IsLast : Command → List Command → Type 0
IsLast c [] = ⊥
IsLast c (d ∷ []) = d ≡ c
IsLast c (d ∷ e ∷ ds) = IsLast c (e ∷ ds)

-- A success whose last command ended well, or an error of the given kind.
abbrev pub IsChecked : System → (Command → Type 0) → (String → MinnowVpnError) → Done → Type 0
IsChecked sys Asked failed done =
    (done.1 ≡ ok tt) × ((c : Command) × Asked c × IsLast c done.0 × Succeeds sys c)
    ⊎ ((why : String) × (done.1 ≡ err (failed why)))

Ran-cases :
    (r : Ran)
    → ((why : String) × (r ≡ not_run why))
      ⊎ ((status : String) × (out : String) × (r ≡ ran true status out))
      ⊎ ((status : String) × (out : String) × (r ≡ ran false status out))
Ran-cases (not_run why) = inl (why, refl)
Ran-cases (ran true status out) = inr (inl (status, out, refl))
Ran-cases (ran false status out) = inr (inr (status, out, refl))

Ran-any :
    (r : Ran)
    → ((why : String) × (r ≡ not_run why))
      ⊎ ((success : Bool) × (status : String) × (out : String) × (r ≡ ran success status out))
Ran-any (not_run why) = inl (why, refl)
Ran-any (ran success status out) = inr (success, status, out, refl)

module _ (sys : System) (failed : String → MinnowVpnError) (Asked : Command → Type 0) where
  run_checked-IsChecked :
      (c : Command) (reason : String → String)
      → Asked c
      → IsChecked sys Asked failed (run_checked sys c failed reason)
  run_checked-IsChecked c reason asked = elim (Ran-cases (sys c)) [
    | inl (why, eq) ↦ rw (run_checked, eq) (inr (why, refl))
    | inr (inl (status, out, eq)) ↦
        rw (run_checked, eq) (inl (refl, (c, asked, refl, (status, out, eq))))
    | inr (inr (status, out, eq)) ↦ rw (run_checked, eq) (inr (reason status, refl))
  ]

  IsLast-cons : (c d : Command) (ds : List Command) → IsLast c ds → IsLast c (d ∷ ds)
  IsLast-cons c d [] h = absurd h
  IsLast-cons c d (e ∷ ds) h = h

  IsChecked-cons :
      (d : Command) (done : Done)
      → IsChecked sys Asked failed done
      → IsChecked sys Asked failed (d ∷ done.0, done.1)
  IsChecked-cons d done (inl (success, (c, asked, last, succeeds))) =
      inl (success, (c, asked, IsLast-cons c d done.0 last, succeeds))
  IsChecked-cons d done (inr failure) = inr failure

  with_if_index-IsChecked :
      (device : String) (next : String → Done)
      → ((if_index : String) → IsChecked sys Asked failed (next if_index))
      → IsChecked sys Asked failed (with_if_index sys device failed next)
  with_if_index-IsChecked device next h =
      let query = if_index_query device in
      elim (Ran-any (sys query)) [
        | inl (why, eq) ↦ rw (with_if_index, eq) (inr (why, refl))
        | inr (success, status, out, eq) ↦
            rw (with_if_index, eq) (IsChecked-cons query (next (trim out)) (h (trim out)))
      ]

-- A route is reported as set only where the system ran, as the last command, the one of the
-- platform that adds it, and this one ended well; otherwise the error names the network.
pub add_route_platform-IsChecked :
    (sys : System) (n : Notation) (platform : Platform) (device : String) (net : ℕ × ℕ)
    → IsChecked sys
        (λ c. (via : String) × (c ≡ add_route_command n platform via net))
        (λ why. tunnel (route_setup_failed (n.show_net net) why))
        (add_route_platform sys n platform device net)
unfolding add_route_platform
add_route_platform-IsChecked sys n macos device net =
    run_checked-IsChecked sys _ _ (add_route_command n macos device net) _ (device, refl)
add_route_platform-IsChecked sys n linux device net =
    run_checked-IsChecked sys _ _ (add_route_command n linux device net) _ (device, refl)
add_route_platform-IsChecked sys n windows device net =
    let failed = λ (why : String). tunnel (route_setup_failed (n.show_net net) why) in
    let reason = append "netsh command exited with " in
    with_if_index-IsChecked sys failed _ device
      (λ index. run_checked sys (add_route_command n windows index net) failed reason)
      (λ index.
        run_checked-IsChecked sys failed _ (add_route_command n windows index net) reason
          (index, refl))

add_endpoint_bypass_platform-lem :
    (sys : System) (n : Notation) (platform : Platform) (endpoint : ℕ) (Asked : Command → Type 0)
    → ((gateway : String) (success : Bool) (status out : String)
        → sys (gateway_query platform) ≡ ran success status out
        → read_gateway platform out ≡ some gateway
        → Asked (add_bypass_command n platform endpoint gateway))
    → IsChecked sys Asked
        (λ why. tunnel (route_setup_failed (n.show_ip endpoint) why))
        (add_endpoint_bypass_platform sys n platform endpoint)
unfolding add_endpoint_bypass_platform
add_endpoint_bypass_platform-lem sys n platform endpoint Asked asked =
    let failed = λ (why : String). tunnel (route_setup_failed (n.show_ip endpoint) why) in
    let query = gateway_query platform in
    elim (Ran-any (sys query)) [
      | inl (why, eq) ↦
          rw (add_endpoint_bypass_platform, eq)
            (inr (append "Failed to get default gateway: " why, refl))
      | inr (success, status, out, eq) ↦ elim (Option-cases (read_gateway platform out)) [
        | inl unread ↦
            rw (add_endpoint_bypass_platform, eq, unread)
              (inr ("Could not parse default gateway", refl))
        | inr (gateway, read) ↦
            rw (add_endpoint_bypass_platform, eq, read)
              (IsChecked-cons sys failed Asked query
                (run_checked sys (add_bypass_command n platform endpoint gateway) failed
                  (λ shown. add_failed platform))
                (run_checked-IsChecked sys failed Asked
                  (add_bypass_command n platform endpoint gateway) (λ shown. add_failed platform)
                  (asked gateway success status out eq read)))
      ]
    ]

-- A bypass is reported as set only where the system ran, as the last command, the one of the
-- platform that adds it, by a gateway that the answer to the question for the default gateway
-- names, and this one ended well; otherwise the error names the endpoint.
pub add_endpoint_bypass_platform-IsChecked :
    (sys : System) (n : Notation) (platform : Platform) (endpoint : ℕ)
    → IsChecked sys
        (λ c.
          (gateway : String) × (success : Bool) × (status : String) × (out : String) × (sys
              (gateway_query platform)
            ≡ ran success status out)
          × (read_gateway platform out ≡ some gateway)
          × (c ≡ add_bypass_command n platform endpoint gateway))
        (λ why. tunnel (route_setup_failed (n.show_ip endpoint) why))
        (add_endpoint_bypass_platform sys n platform endpoint)
add_endpoint_bypass_platform-IsChecked sys n platform endpoint =
    add_endpoint_bypass_platform-lem sys n platform endpoint _
      (λ gateway success status out eq read. (gateway, success, status, out, eq, read, refl))
