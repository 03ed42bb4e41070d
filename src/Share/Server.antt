-- ===== src/Share/Server.antt =====
-- driver/filestorage/driver.go: the run of the driver, and its server.
pub mod Laws
pub mod Services
use csi_bizflycloud.Base.{Bool, List, Option, String, false, if◌then◌else◌, none, some, true, ◌==◌}
use csi_bizflycloud.Base.Go.{Exec, GoError, Result, err, fail, ok, pure, ◌>>=◌, ◌>>◌}
use csi_bizflycloud.Server.{
  Abort, Events, Goroutine, Host, Interface, Process, Serving, abort, controller_service, crashed,
  entry, fatal, holding, identity_service, listen, node_service, register_if, remove_socket,
  schedule, wg_done,
}
use csi_bizflycloud.Share.Util.{parse_grpc_endpoint}
use csi_bizflycloud.Share.Driver.{Driver}
use csi_bizflycloud.Share.Node.{NodeServer}

module _ (host : Host) where
  abbrev pub prepared : String → String → Serving
  prepared proto addr =
      if proto == "unix"
      then remove_socket host "failed to remove an existing socket file %s: %v" addr
      else pure tt

  abbrev pub parsed :
      Option (Result GoError (String × String)) → Exec Events Abort (String × String)
  parsed none = fail crashed
  parsed (some (err e)) = fail (fatal "couldn't parse GRPC server endpoint address %s: %v")
  parsed (some (ok parts)) = pure parts

  module _ {A B C : Type 0} where
    -- serve, up to server.Serve.
    unfoldable pub serve : String → Interface A → Interface B → Interface C → Serving
    serve endpoint ids cs ns = do
      (proto, addr) ← parsed (parse_grpc_endpoint endpoint)
      prepared proto addr
      listen host "listen failed for GRPC server: %v" proto addr
      register_if identity_service ids
      register_if controller_service cs
      register_if node_service ns

-- An error of server.Serve is fatal; else the deferred Done runs.
abbrev pub after_serve : Result GoError (Unit {0}) → Process → Process
after_serve (ok tt) p = wg_done p
after_serve (err e) p = abort (fatal "GRPC server failure: %v") p

-- The pointers of a Driver to its controller and its node server; NewDriver has set the identity server.
pub record Servers (Client : Type 0) : Type 0 where
  pub cs : Option Client
  pub ns : Option NodeServer

module _ (host : Host) {Client : Type 0} where
  -- Each pointer becomes the value of an interface.
  unfoldable pub run_server : Driver → Servers Client → Serving
  run_server d s = serve host d.server_endpoint (holding (some d)) (holding s.cs) (holding s.ns)

  abbrev pub neither : Option Client → Option NodeServer → Bool
  neither none none = true
  neither _ _ = false

  -- Run, under a schedule of its two goroutines.
  unfoldable pub run : Driver → Servers Client → List Goroutine → Process
  run d s gs =
      if neither s.cs s.ns
      then abort (fatal "No CSI services initialized") entry
      else schedule (run_server d s) after_serve host gs entry
