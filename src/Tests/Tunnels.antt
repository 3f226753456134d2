-- ===== src/Tests/Tunnels.antt =====
-- Routes that come and go.
use secure_guard.Base.{List, [], ◌∷◌, none}
use secure_guard.Base.Result.{ok, err}
use secure_guard.Error.{system}
use secure_guard.Tunnel.{Operation, bypasses, adds, removes, perform_all, new}
use secure_guard.Tunnel.Recorded.{IsRecorded, perform_all-IsRecorded}

abbrev operations : List Operation
operations =
    bypasses "1" 3232235777 (ok tt)
    ∷ adds "2" (167772160, 24) (ok tt)
    ∷ adds "3" (167772416, 24) (err (system "exists"))
    ∷ removes "4" (167772160, 24) (ok tt)
    ∷ []

perform_all-IsRecorded_example :
    let r = perform_all operations (record { manager = new "tun0" none none; file = none }) in
    IsRecorded ("tun0", none, none) (167772160, 24) operations r.file
perform_all-IsRecorded_example = perform_all-IsRecorded "tun0" none none operations (167772160, 24)
