-- ===== src/Tests/ShareServers.antt =====
-- The properties of the server and the command of the file storage driver.
use Prim.Native.Char.{Char}
use csi_bizflycloud.Base.{String, [], false, none, refl, some, true, ◌++◌, ◌↔◌, ◌∷◌, ◌≡◌}
use csi_bizflycloud.Base.Go.{calls}
use csi_bizflycloud.Base.Text.{strip_prefix}
use csi_bizflycloud.Server.{returned, schedule, server_goroutine, start, wait, wg_done}
use csi_bizflycloud.Login.{exit_code, log_in}
use csi_bizflycloud.Share.Util.{parse_grpc_endpoint}
use csi_bizflycloud.Share.Driver.{Driver, DriverOpts, new_driver, to_upper}
use csi_bizflycloud.Share.Driver.Setup.{IsConfigured, new_driver-IsConfigured}
use csi_bizflycloud.Share.Server.{Servers, run, run_server, serve}
use csi_bizflycloud.Share.Server.Laws.{IsServed, rest, run-returned_iff}
use csi_bizflycloud.Share.Server.Services.{Prepared, run_server-Prepared}
use csi_bizflycloud.Share.Command.{Flags, handle, set_up}
use csi_bizflycloud.Share.Command.Exits.{IsComplete, handle-exits_zero}
use csi_bizflycloud.Tests.Hosts.{api, calm, root_account, turns}
use csi_bizflycloud.Tests.Plugins.{obliging}

abbrev options : DriverOpts
options = record {
  driver_name = "";
  share_proto = "";
  server_csi_endpoint = "unix://tmp/csi.sock";
  fwd_csi_endpoint = "unix:///csi/csi-nfs.sock";
}

abbrev controller_only : Flags
controller_only = record {
  opts = options;
  account = root_account;
  provide_controller_service = true;
  provide_node_service = false;
}

abbrev same : Char → Char
same c = c

abbrev its_driver : Driver
its_driver = record {
  name = "fs.csi.bizflycloud.vn";
  version = "0.1.0";
  share_proto = "NFS";
  server_endpoint = "unix:///tmp/csi.sock";
  fwd_endpoint = "unix:///csi/csi-nfs.sock";
}

abbrev its_servers : Servers String
its_servers = record { cs = some "root"; ns = none }

its_driver-IsConfigured : IsConfigured its_driver
unfolding new_driver to_upper parse_grpc_endpoint strip_prefix
its_driver-IsConfigured = new_driver-IsConfigured same options its_driver refl

run-returned_iff_example :
    (run calm its_driver its_servers (server_goroutine ∷ [] ++ rest)).main ≡ returned
    ↔ IsServed (run_server calm its_driver its_servers) calm
run-returned_iff_example = run-returned_iff calm its_driver its_servers refl (server_goroutine ∷ [])

run_server-Prepared_example :
    Prepared its_driver-IsConfigured.server.addr (run_server calm its_driver its_servers [])
run_server-Prepared_example =
    run_server-Prepared calm its_driver its_servers its_driver-IsConfigured []

handle-exits_zero_example :
    (d : Driver) × (s : Servers String) × IsComplete api obliging same controller_only d s
    × IsServed (run_server calm d s) calm
unfolding exit_code handle set_up log_in new_driver to_upper parse_grpc_endpoint strip_prefix run
    run_server serve schedule start wait wg_done calls
handle-exits_zero_example = handle-exits_zero api obliging same calm controller_only turns refl
