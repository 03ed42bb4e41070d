-- ===== src/Tests/Services.antt =====
-- The promises for volumes and the requests of the file storage controller, on services in memory.
use csi_bizflycloud.Base.{List, [], arith, none, not, some, ◌∷◌, ◌≡◌, ◌≢◌}
use csi_bizflycloud.Base.Int.{pos}
use csi_bizflycloud.Base.Go.{panicked}
use csi_bizflycloud.Base.Answers.{is_unimplemented}
use csi_bizflycloud.Csi.{CreateVolumeRequest}
use csi_bizflycloud.Cloud.Volumes.{IsDistinct}
use csi_bizflycloud.Cloud.Views.{view}
use csi_bizflycloud.Block.Controller.Promises.{
  PromisedAll, VolumeOp, creating, deleting, expanding, operate_all,
}
use csi_bizflycloud.Block.Controller.Promises.Refinement.{operate_all-refines}
use csi_bizflycloud.Share.Controller.Pending.{World}
use csi_bizflycloud.Share.Controller.Service.{creating_volume, serve}
use csi_bizflycloud.Share.Controller.Service.Capabilities.{
  is_offered, serve-pending, serve-unimplemented,
}
use csi_bizflycloud.Tests.Samples.{memory, memory-IsVolumeStore, polling, rounding, stored}
use csi_bizflycloud.Tests.Shares.{shares}

abbrev disk : CreateVolumeRequest
disk = record {
  name = "disk";
  capacity_range = some (record { required_bytes = pos 10737418241; limit_bytes = pos 0 });
  volume_capabilities = some [];
  parameters = [];
  content_source = none;
  accessibility_requirements = none;
}

-- A volume is made, asked for again, grown, and deleted.
abbrev journey : List VolumeOp
journey =
    creating disk
    ∷ creating disk
    ∷ expanding (record {
      volume_id = "disk";
      capacity_range = some (record { required_bytes = pos 21474836480; limit_bytes = pos 0 });
    })
    ∷ deleting "disk"
    ∷ []

nothing-IsDistinct : IsDistinct []
nothing-IsDistinct name = omega arith

operate_all-refines_example :
    let (replies, after) = operate_all memory rounding journey [] in
    PromisedAll rounding journey (view []) replies (view (stored after)) × IsDistinct (stored after)
operate_all-refines_example =
    operate_all-refines memory rounding stored memory-IsVolumeStore journey [] nothing-IsDistinct

abbrev quiet : World
quiet = record { pending = "other" ∷ []; calls_made = [] }

serve-unimplemented_example :
    (is_unimplemented (serve shares polling "NFS" (creating_volume disk) quiet).0
      ≡ not (is_offered (creating_volume disk)))
    × ((serve shares polling "NFS" (creating_volume disk) quiet).0 ≢ some panicked)
serve-unimplemented_example = serve-unimplemented shares polling "NFS" (creating_volume disk) quiet

serve-pending_example :
    (serve shares polling "NFS" (creating_volume disk) quiet).1.pending ≡ "other" ∷ []
serve-pending_example = serve-pending shares polling "NFS" (creating_volume disk) quiet
