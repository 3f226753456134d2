-- ===== src/Tunnel/Recorded.antt =====
-- The state file says what there is to clean up.
use secure_guard.Base.{ℕ, List, [], ◌∷◌, Option, none, some, String, false, ◌≡◌, refl, sym, ap, ◌∙◌}
use secure_guard.Base.Result.{ok, err}
use secure_guard.Tunnel.{
  RouteManager, RouteState, Routing, new, save_state, add_endpoint_bypass, add_route, remove_route,
  cleanup, Operation, bypasses, adds, removes, cleans, perform, perform_all,
}
use secure_guard.Tunnel.History.{
  holds_route, held_bypass, names_route, Settings, perform_all-holds_route, perform_all-held_bypass,
  perform_all-settings,
}

-- Without a file the manager has no routes and no bypass; with one the file has what the manager
-- has.
abbrev pub IsCopied : RouteManager → Option RouteState → Type 0
IsCopied m none = (m.added_routes ≡ []) × (m.endpoint_bypass ≡ none)
IsCopied m (some state) =
    (state.interface ≡ m.device_name)
    × (state.interface_index ≡ m.interface_index)
    × (state.default_gateway ≡ m.default_gateway)
    × (state.endpoint_bypass ≡ m.endpoint_bypass)
    × (state.routes ≡ m.added_routes)

perform-IsCopied :
    (o : Operation) (r : Routing)
    → IsCopied r.manager r.file
    → IsCopied (perform o r).0.manager (perform o r).0.file
unfolding perform add_endpoint_bypass add_route remove_route cleanup save_state
perform-IsCopied (bypasses now endpoint (ok done)) r v = (refl, refl, refl, refl, refl)
perform-IsCopied (bypasses now endpoint (err e)) r v = v
perform-IsCopied (adds now net (ok done)) r v = (refl, refl, refl, refl, refl)
perform-IsCopied (adds now net (err e)) r v = v
perform-IsCopied (removes now net (ok done)) r v = (refl, refl, refl, refl, refl)
perform-IsCopied (removes now net (err e)) r v = v
perform-IsCopied cleans r v = (refl, refl)

perform_all-kept :
    (os : List Operation) (r : Routing)
    → IsCopied r.manager r.file
    → IsCopied (perform_all os r).manager (perform_all os r).file
unfolding perform_all
perform_all-kept [] r v = v
perform_all-kept (o ∷ os) r v = perform_all-kept os (perform o r).0 (perform-IsCopied o r v)

pub perform_all-IsCopied :
    (device_name : String) (gateway : Option String) (index : Option ℕ) (os : List Operation)
    → let r = perform_all os (record { manager = new device_name gateway index; file = none }) in
      IsCopied r.manager r.file
unfolding new
perform_all-IsCopied device_name gateway index os = perform_all-kept os _ (refl, refl)

-- The file says of the device, of one network and of the bypass what is held after some calls;
-- without a file there is neither.
abbrev pub IsRecorded : Settings → ℕ × ℕ → List Operation → Option RouteState → Type 0
IsRecorded (device_name, gateway, index) net os none =
    (holds_route net false os ≡ false) × (held_bypass none os ≡ none)
IsRecorded (device_name, gateway, index) net os (some state) =
    (state.interface ≡ device_name)
    × (state.interface_index ≡ index)
    × (state.default_gateway ≡ gateway)
    × (state.endpoint_bypass ≡ held_bypass none os)
    × (names_route net state.routes ≡ holds_route net false os)

IsCopied-IsRecorded :
    (given : Settings) (net : ℕ × ℕ) (os : List Operation) (m : RouteManager)
    (file : Option RouteState)
    → IsCopied m file
    → (m.device_name, m.default_gateway, m.interface_index) ≡ given
    → names_route net m.added_routes ≡ holds_route net false os
    → m.endpoint_bypass ≡ held_bypass none os
    → IsRecorded given net os file
unfolding names_route
IsCopied-IsRecorded given net os m none (no_routes, no_bypass) same routes bypass =
    (sym (rw no_routes at routes), sym bypass ∙ no_bypass)
IsCopied-IsRecorded given net os m (some state) (interface, index, gateway, bypass, routes) same
      held held' =
    (
      interface ∙ ap (λ g. g.0) same,
      index ∙ ap (λ g. g.2) same,
      gateway ∙ ap (λ g. g.1) same,
      bypass ∙ held',
      ap (names_route net) routes ∙ held,
    )

-- From a new manager without a state file on, whatever is asked of it in whatever order and
-- whatever the system answers, the state file, as long as it can be written, names the device, its
-- index and the gateway, it names a network exactly when a call added its route with success and no
-- later call removed it with success or cleaned up, and it names the bypass that was added with
-- success last, if no clean-up came after it. A clean-up gives up every route and the bypass, also
-- those that the system fails to remove. Where there is no file each of them was removed or given up.
pub perform_all-IsRecorded :
    (device_name : String) (gateway : Option String) (index : Option ℕ) (os : List Operation)
    (net : ℕ × ℕ)
    → let r = perform_all os (record { manager = new device_name gateway index; file = none }) in
      IsRecorded (device_name, gateway, index) net os r.file
unfolding new names_route
perform_all-IsRecorded device_name gateway index os net =
    let start : Routing = record { manager = new device_name gateway index; file = none } in
    let r = perform_all os start in
    IsCopied-IsRecorded (device_name, gateway, index) net os r.manager r.file
      (perform_all-IsCopied device_name gateway index os) (perform_all-settings os start)
      (perform_all-holds_route net os start) (perform_all-held_bypass os start)
