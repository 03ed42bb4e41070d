-- ===== src/Tests/Capabilities.antt =====
-- The requests of the block storage controller that its capabilities offer.
use csi_bizflycloud.Base.{[], false, refl, some, ◌≡◌, ◌≢◌}
use csi_bizflycloud.Base.Go.{panicked}
use csi_bizflycloud.Base.Answers.{is_unimplemented}
use csi_bizflycloud.Csi.{single_node_writer}
use csi_bizflycloud.Block.Driver.{new_driver}
use csi_bizflycloud.Block.Controller.Service.{publishing, serve}
use csi_bizflycloud.Block.Controller.Capabilities.{serve-offered}
use csi_bizflycloud.Tests.Samples.{memory, no_time, polling, rounding}

serve-offered_example :
    (is_unimplemented
        (serve memory polling no_time rounding single_node_writer (publishing "disk" "node") []).0
      ≡ false)
    × ((serve memory polling no_time rounding single_node_writer (publishing "disk" "node") []).0
        ≢ some panicked)
unfolding new_driver
serve-offered_example =
    serve-offered memory polling no_time rounding "unix://csi.sock" "" single_node_writer
      (publishing "disk" "node") [] refl
