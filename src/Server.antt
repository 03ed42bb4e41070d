-- ===== src/Server.antt =====
-- What the two drivers' servers share: the calls of os, net and grpc, interface values, and the two
-- goroutines of a server with its wait group (Start, Wait and serve of driver/blockstorage/server.go
-- and of driver/filestorage/driver.go).
pub mod Laws
use csi_bizflycloud.Base.{
  Bool, List, Option, String, [], false, if◌then◌else◌, nat_eq, none, some, true, ℕ, ◌+◌, ◌-◌, ◌∷◌,
}
use csi_bizflycloud.Base.Go.{Exec, GoError, Result, err, map_err, ok, pure}

-- csi.IdentityServer, csi.ControllerServer, csi.NodeServer
pub data Service : Type 0 where
  identity_service controller_service node_service : Service

-- A value of an interface type: nil, or a pointer of some type, which is nil or not itself.
pub data Interface (A : Type 0) : Type 0 where
  nil_interface : Interface A
  holding : Option A → Interface A

-- `x != nil` for an `x` of an interface type.
abbrev pub is_set : {A : Type 0} → Interface A → Bool
is_set nil_interface = false
is_set (holding p) = true

-- What a server does: os.Remove of a path, net.Listen, the registration of a service, server.Serve.
pub data Event : Type 0 where
  removed : String → Event
  listened : String → String → Event
  registered : Service → Event
  serving : Event

abbrev pub Events : Type 0
Events = List Event

-- The answer of os.Remove, as os.IsNotExist tells the errors apart.
pub data Removal : Type 0 where
  done not_there not_done : Removal

-- The host, as functions of what was done before; `on_serve` is what server.Serve returns once the
-- server stops.
pub record Host : Type 0 where
  pub on_remove : Events → String → Removal
  pub on_listen : Events → String → String → Result GoError (Unit {0})
  pub on_serve : Events → Result GoError (Unit {0})

-- How a process ends before its time: klog.Fatal with a text, or a run-time panic.
pub data Abort : Type 0 where
  fatal : String → Abort
  crashed : Abort

abbrev pub Serving : Type 0
Serving = Exec Events Abort (Unit {0})

module _ (host : Host) where
  abbrev pub no_socket : String → Removal → Result Abort (Unit {0})
  no_socket text done = ok tt
  no_socket text not_there = ok tt
  no_socket text not_done = err (fatal text)

  -- `os.Remove(addr)` with the test of its error.
  abbrev pub remove_socket : String → String → Serving
  remove_socket text addr t = (no_socket text (host.on_remove t addr), removed addr ∷ t)

  abbrev pub listen : String → String → String → Serving
  listen text proto addr t =
      (map_err (λ _. fatal text) (host.on_listen t proto addr), listened proto addr ∷ t)

abbrev pub register_service : Service → Serving
register_service s t = (ok tt, registered s ∷ t)

-- `if x != nil { csi.RegisterXServer(server, x) }`
abbrev pub register_if : {A : Type 0} → Service → Interface A → Serving
register_if s x = if is_set x then register_service s else pure tt

-- The goroutine of Run: before Start, in Wait, after Wait.
pub data MainGoroutine : Type 0 where
  entered waiting returned : MainGoroutine

-- The goroutine of serve: not started, before server.Serve, in it, and at its end.
pub data ServerGoroutine : Type 0 where
  absent runnable accepting ended : ServerGoroutine

-- A process that runs a server: its goroutines, the counter of the wait group, what was done, and how
-- it was aborted.
pub record Process : Type 0 where
  pub main : MainGoroutine
  pub server : ServerGoroutine
  pub wg : ℕ
  pub trace : Events
  pub aborted : Option Abort

abbrev pub abort : Abort → Process → Process
abort a p = record {
  main = p.main;
  server = p.server;
  wg = p.wg;
  trace = p.trace;
  aborted = some a;
}

abbrev pub with_server : ServerGoroutine → Events → Process → Process
with_server g t p = record { main = p.main; server = g; wg = p.wg; trace = t; aborted = p.aborted }

-- Run before its first call.
abbrev pub entry : Process
entry = record { main = entered; server = absent; wg = 0; trace = []; aborted = none }

-- Start: `s.wg.Add(1)`, and the goroutine of serve.
unfoldable pub start : Process → Process
start p = record {
  main = waiting;
  server = runnable;
  wg = p.wg + 1;
  trace = p.trace;
  aborted = p.aborted;
}

-- Wait returns where the counter is 0, and blocks where it is not.
unfoldable pub wait : Process → Process
wait p =
    if nat_eq p.wg 0
    then record {
      main = returned;
      server = p.server;
      wg = p.wg;
      trace = p.trace;
      aborted = p.aborted;
    }
    else p

-- `s.wg.Done()`, which panics below 0.
unfoldable pub wg_done : Process → Process
wg_done p = if nat_eq p.wg 0 then abort crashed p else record {
  main = p.main;
  server = ended;
  wg = p.wg - 1;
  trace = p.trace;
  aborted = p.aborted;
}

-- Who moves next.
pub data Goroutine : Type 0 where
  main_goroutine server_goroutine : Goroutine

-- The two parts of a serve: up to server.Serve, and what follows its return.
module _ (before : Serving) (after : Result GoError (Unit {0}) → Process → Process)
    (host : Host) where
  abbrev pub begun : Result Abort (Unit {0}) × Events → Process → Process
  begun (ok tt, t) p = with_server accepting (serving ∷ t) p
  begun (err a, t) p = abort a (with_server ended t p)

  abbrev pub moves_server : ServerGoroutine → Process → Process
  moves_server absent p = p
  moves_server runnable p = begun (before p.trace) p
  moves_server accepting p = after (host.on_serve p.trace) p
  moves_server ended p = p

  abbrev pub moves_main : MainGoroutine → Process → Process
  moves_main entered p = start p
  moves_main waiting p = wait p
  moves_main returned p = p

  abbrev pub moves : Option Abort → Goroutine → Process → Process
  moves (some a) g p = p
  moves none main_goroutine p = moves_main p.main p
  moves none server_goroutine p = moves_server p.server p

  -- A schedule from its first step on; a goroutine that is blocked does not move.
  unfoldable pub schedule : List Goroutine → Process → Process
  schedule [] p = p
  schedule (g ∷ gs) p = schedule gs (moves p.aborted g p)
