-- ===== src/Block/Server.antt =====
-- driver/blockstorage/server.go, and the set-up and the run of the driver in driver.go.
pub mod Laws
pub mod Services
use csi_bizflycloud.Base.{List, Option, String, if◌then◌else◌, none, some, ◌<>◌, ◌==◌}
use csi_bizflycloud.Base.Go.{Exec, GoError, Result, err, fail, ok, pure, ◌>>=◌, ◌>>◌}
use csi_bizflycloud.Server.{
  Abort, Events, Goroutine, Host, Interface, Process, Serving, controller_service, crashed, ended,
  entry, fatal, holding, identity_service, listen, node_service, register_if, remove_socket,
  schedule, with_server,
}
use csi_bizflycloud.Block.Driver.{parse_endpoint}

-- The pointers of a VolumeDriver to its three servers; a server is told by its client, if it has one.
pub record Servers (Client : Type 0) : Type 0 where
  pub ids : Option (Unit {0})
  pub cs : Option Client
  pub ns : Option (Unit {0})

-- NewIdentityServer, NewControllerServer and NewNodeServer give pointers that are not nil.
abbrev new_identity_server : Option (Unit {0})
new_identity_server = some tt

abbrev new_controller_server : {Client : Type 0} → Client → Option Client
new_controller_server client = some client

abbrev new_node_server : Option (Unit {0})
new_node_server = some tt

-- The interceptor logs a call, and passes its result on.
abbrev log_grpc : {S E A : Type 0} → Exec S E A → Exec S E A
log_grpc handler = handler

module _ {Client : Type 0} where
  -- NewDriver leaves the pointers nil.
  abbrev pub no_servers : Servers Client
  no_servers = record { ids = none; cs = none; ns = none }

  unfoldable pub setup_control_driver : Client → Servers Client → Servers Client
  setup_control_driver client d = record {
    ids = new_identity_server;
    cs = new_controller_server client;
    ns = d.ns;
  }

  unfoldable pub setup_node_driver : Servers Client → Servers Client
  setup_node_driver d = record { ids = new_identity_server; cs = d.cs; ns = new_node_server }

module _ (host : Host) where
  abbrev pub socket : String → Exec Events Abort String
  socket path = do remove_socket host "Failed to remove %s, error: %s" path; pure path

  -- The address of a socket starts at the root; another protocol's is left.
  abbrev pub prepared : String → String → Exec Events Abort String
  prepared proto addr = if proto == "unix" then socket ("/" <> addr) else pure addr

  abbrev pub parsed :
      Option (Result GoError (String × String)) → Exec Events Abort (String × String)
  parsed none = fail crashed
  parsed (some (err e)) = fail (fatal "invalid endpoint: %v")
  parsed (some (ok parts)) = pure parts

  module _ {A B C : Type 0} where
    -- serve, up to server.Serve.
    unfoldable pub serve : String → Interface A → Interface B → Interface C → Serving
    serve endpoint ids cs ns = do
      (proto, addr) ← parsed (parse_endpoint endpoint)
      address ← prepared proto addr
      listen host "Failed to listen: %v" proto address
      register_if identity_service ids
      register_if controller_service cs
      register_if node_service ns

  -- The error of server.Serve is not looked at, and the counter of the wait group stays.
  abbrev pub after_serve : Result GoError (Unit {0}) → Process → Process
  after_serve r p = with_server ended p.trace p

  module _ {Client : Type 0} where
    -- Each pointer becomes the value of an interface.
    unfoldable pub run_server : String → Servers Client → Serving
    run_server endpoint d = serve endpoint (holding d.ids) (holding d.cs) (holding d.ns)

    -- Run, under a schedule of its two goroutines.
    unfoldable pub run : String → Servers Client → List Goroutine → Process
    run endpoint d gs = schedule (run_server endpoint d) after_serve host gs entry
