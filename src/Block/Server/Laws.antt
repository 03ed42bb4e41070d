-- ===== src/Block/Server/Laws.antt =====
-- driver/blockstorage/server.go: the run of the driver.
use csi_bizflycloud.Base.{List, Option, String, inl, inr, none, refl, some, ◌≡◌, ◌≢◌, ◌⊎◌}
use csi_bizflycloud.Base.Go.{Result, err, ok}
use csi_bizflycloud.Server.{
  Abort, Events, Goroutine, Host, MainGoroutine, Process, ServerGoroutine, Serving, absent,
  accepting, begun, ended, entered, entry, main_goroutine, moves, moves_main, moves_server,
  returned, runnable, server_goroutine, start, wait, waiting,
}
use csi_bizflycloud.Server.Laws.{schedule-keeps}
use csi_bizflycloud.Block.Server.{Servers, after_serve, run, run_server}

-- Before Start, or in Wait with one goroutine counted.
abbrev IsWaiting : Process → Type 0
IsWaiting p = ((p.main ≡ entered) × (p.wg ≡ 0)) ⊎ ((p.main ≡ waiting) × (p.wg ≡ 1))

begun-IsWaiting :
    (before : Serving) (host : Host) (r : Result Abort (Unit {0}) × Events) (p : Process)
    → IsWaiting p
    → IsWaiting (begun before (after_serve host) host r p)
begun-IsWaiting before host (ok tt, t) p h = h
begun-IsWaiting before host (err a, t) p h = h

server-IsWaiting :
    (before : Serving) (host : Host) (g : ServerGoroutine) (p : Process)
    → IsWaiting p
    → IsWaiting (moves_server before (after_serve host) host g p)
server-IsWaiting before host absent p h = h
server-IsWaiting before host runnable p h = begun-IsWaiting before host (before p.trace) p h
server-IsWaiting before host accepting p h = h
server-IsWaiting before host ended p h = h

main-IsWaiting :
    (before : Serving) (host : Host) (g : MainGoroutine) (p : Process)
    → p.main ≡ g
    → IsWaiting p
    → IsWaiting (moves_main before (after_serve host) host g p)
unfolding start wait
main-IsWaiting before host entered p e (inl (m, w)) = inr (refl, rw w refl)
main-IsWaiting before host entered p e (inr (m, w)) = cc
main-IsWaiting before host waiting p e (inl (m, w)) = cc
main-IsWaiting before host waiting p e (inr (m, w)) = rw w (inr (m, refl))
main-IsWaiting before host returned p e h = h

moves-IsWaiting :
    (before : Serving) (host : Host) (a : Option Abort) (g : Goroutine) (p : Process)
    → IsWaiting p
    → IsWaiting (moves before (after_serve host) host a g p)
moves-IsWaiting before host (some a) g p h = h
moves-IsWaiting before host none main_goroutine p h = main-IsWaiting before host p.main p refl h
moves-IsWaiting before host none server_goroutine p h = server-IsWaiting before host p.server p h

module _ {Client : Type 0} (host : Host) (endpoint : String) (d : Servers Client) where
  -- Run never returns, whatever the schedule of its goroutines is, and even where server.Serve has
  -- returned.
  pub run-ne-returned : (gs : List Goroutine) → (run host endpoint d gs).main ≢ returned
  unfolding run
  run-ne-returned gs h =
      elim (schedule-keeps (run_server host endpoint d) (after_serve host) host IsWaiting
        (λ g p. moves-IsWaiting (run_server host endpoint d) host p.aborted g p) gs entry
        (inl (refl, refl))) [ inl (m, w) ↦ cc | inr (m, w) ↦ cc ]
