-- ===== src/Share/Command.antt =====
-- cmd/csi-fs-bizflycloud/main.go: the command of the file storage driver.
pub mod Exits
use Prim.Native.Char.{Char}
use csi_bizflycloud.Base.{Bool, List, Option, String, [], false, lookup, none, some, true, ℕ}
use csi_bizflycloud.Base.Go.{Exec, GoError, Result, err, fail, ok, pure, wrap_err, ◌>>=◌, ◌>>◌}
use csi_bizflycloud.Server.{Abort, Goroutine, Host, Process, abort, crashed, entry, fatal}
use csi_bizflycloud.Login.{Account, Given, Gobizfly, account_of, exit_code, given_or, log_in}
use csi_bizflycloud.Share.Driver.{Driver, DriverOpts, new_driver, setup_node_service}
use csi_bizflycloud.Share.Server.{Servers, run}
use csi_bizflycloud.Share.Node.{NodeServer}
use csi_bizflycloud.Share.Plugin.{Plugin, Trace}

pub record Flags : Type 0 where
  pub opts : DriverOpts
  pub account : Account
  pub provide_controller_service : Bool
  pub provide_node_service : Bool

abbrev pub flags_with : Given → Option String → Option Flags
flags_with g none = none
flags_with g (some fwd) = some (record {
  opts = record {
    driver_name = given_or "fs.csi.bizflycloud.vn" (lookup "drivername" g.texts);
    share_proto = given_or "NFS" (lookup "share-protocol-selector" g.texts);
    server_csi_endpoint = given_or "unix://tmp/csi.sock" (lookup "endpoint" g.texts);
    fwd_csi_endpoint = fwd;
  };
  account = account_of g;
  provide_controller_service = given_or true (lookup "provide-controller-service" g.switches);
  provide_node_service = given_or true (lookup "provide-node-service" g.switches);
})

-- The flags with their defaults; cobra refuses to run without the required one.
unfoldable pub flags : Given → Option Flags
flags g = flags_with g (lookup "fwdendpoint" g.texts)

module _ {Client Token : Type 0} (gobizfly : Gobizfly Client Token) (plugin : Plugin)
    (upper : Char → Char) where
  -- The driver of NewDriver; `none` is a run-time panic.
  abbrev pub made : Option (Result GoError Driver) → Exec Trace Abort Driver
  made none = fail crashed
  made (some (err e)) = fail (fatal "Driver initialization failed: %v")
  made (some (ok d)) = pure d

  abbrev pub logged_in : Result String Client → Exec Trace Abort (Option Client)
  logged_in (err text) = fail (fatal text)
  logged_in (ok client) = pure (some client)

  -- SetupControllerService keeps the client, and returns no error.
  abbrev pub controller_if : Bool → Account → Exec Trace Abort (Option Client)
  controller_if false a = pure none
  controller_if true a = logged_in (log_in gobizfly a)

  abbrev pub node_if : Bool → Driver → Exec Trace Abort (Option NodeServer)
  node_if false d = pure none
  node_if true d = do
    ns ←
        wrap_err (λ _. fatal "Node service initialization failed: %v") (setup_node_service plugin d)
    pure (some ns)

  -- handle, up to Run.
  unfoldable pub set_up : Flags → Exec Trace Abort (Driver × Servers Client)
  set_up f = do
    d ← made (new_driver upper f.opts)
    cs ← controller_if f.provide_controller_service f.account
    ns ← node_if f.provide_node_service d
    pure (d, record { cs = cs; ns = ns })

  module _ (host : Host) where
    abbrev pub running : Result Abort (Driver × Servers Client) → List Goroutine → Process
    running (err a) gs = abort a entry
    running (ok (d, s)) gs = run host d s gs

    -- handle, under a schedule of the goroutines of Run.
    unfoldable pub handle : Flags → List Goroutine → Process
    handle f gs = running (set_up f []).0 gs

    -- main: the exit code, once the process has ended.
    abbrev pub executed : Option Flags → List Goroutine → Option ℕ
    executed none gs = some 1
    executed (some f) gs = exit_code (handle f gs)

    unfoldable pub main_exit : Given → List Goroutine → Option ℕ
    main_exit g gs = executed (flags g) gs
