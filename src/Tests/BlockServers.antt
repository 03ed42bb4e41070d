-- ===== src/Tests/BlockServers.antt =====
-- The properties of the server and the command of the block storage driver.
use csi_bizflycloud.Base.{String, [], none, some, true, ◌↔◌, ◌≡◌, ◌≢◌}
use csi_bizflycloud.Base.Go.{err}
use csi_bizflycloud.Server.{returned}
use csi_bizflycloud.Login.{exit_code, log_in}
use csi_bizflycloud.Block.Server.{Servers, run, run_server}
use csi_bizflycloud.Block.Server.Laws.{run-ne-returned}
use csi_bizflycloud.Block.Server.Services.{Registered, run_server-Registered}
use csi_bizflycloud.Block.Command.{Flags, handle}
use csi_bizflycloud.Block.Command.Exits.{handle-exits_zero_iff}
use csi_bizflycloud.Tests.Hosts.{calm, refusing, root_account, turns}

abbrev control_plane : Flags
control_plane = record {
  endpoint = "unix://csi.sock";
  is_control_plane = true;
  cluster = "";
  account = root_account;
}

abbrev node_only : Servers String
node_only = record { ids = some tt; cs = none; ns = some tt }

run-ne-returned_example : (run calm "unix://csi.sock" node_only turns).main ≢ returned
run-ne-returned_example = run-ne-returned calm "unix://csi.sock" node_only turns

run_server-Registered_example :
    Registered "unix://csi.sock" (run_server calm "unix://csi.sock" node_only [])
run_server-Registered_example = run_server-Registered calm "unix://csi.sock" node_only []

handle-exits_zero_iff_example :
    exit_code (handle refusing calm control_plane []) ≡ some 0
    ↔ (control_plane.is_control_plane ≡ true)
      × (text : String) × (log_in refusing control_plane.account ≡ err text)
handle-exits_zero_iff_example = handle-exits_zero_iff refusing calm control_plane []
