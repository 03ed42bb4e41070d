-- ===== src/Block/Controller/Service.antt =====
-- driver/blockstorage/server.go and controller.go: the controller service as gRPC registers it, one
-- request dispatched to its handler. The answer is kept as far as it is an error or none.
use csi_bizflycloud.Base.{Option, String}
use csi_bizflycloud.Base.Go.{Failure, error_of}
use csi_bizflycloud.Csi.{
  CreateVolumeRequest, ExpandRequest, ListSnapshotsRequest, Mode, ValidateRequest,
}
use csi_bizflycloud.Wait.{Wait}
use csi_bizflycloud.Cloud.{Cloud, History}
use csi_bizflycloud.Block.Controller.Volumes.{RoundUp, Rpc, create_volume, delete_volume}
use csi_bizflycloud.Block.Controller.Publish.{
  controller_publish_volume, controller_unpublish_volume,
}
use csi_bizflycloud.Block.Controller.Snapshots.{
  Timestamps, create_snapshot, delete_snapshot, list_snapshots,
}
use csi_bizflycloud.Block.Controller.Queries.{
  controller_expand_volume, controller_get_volume, get_capacity, list_volumes_rpc,
  validate_volume_capabilities,
}

pub data Request : Type 0 where
  creating_volume : CreateVolumeRequest → Request
  deleting_volume : String → Request
  publishing : String → String → Request
  unpublishing : String → String → Request
  listing_volumes : Request
  creating_snapshot : String → String → Request
  deleting_snapshot : String → Request
  listing_snapshots : ListSnapshotsRequest → Request
  validating : ValidateRequest → Request
  asking_capacity : Request
  expanding : ExpandRequest → Request
  getting_volume : String → Request

abbrev pub answer : {A : Type 0} → Rpc A → History → Option Failure × History
answer m h = (error_of (m h).0, (m h).1)

module _ (cloud : Cloud) (wait : Wait) (times : Timestamps) (round_up : RoundUp) (mode : Mode) where
  unfoldable pub serve : Request → History → Option Failure × History
  serve (creating_volume r) = answer (create_volume cloud round_up r)
  serve (deleting_volume v) = answer (delete_volume cloud v)
  serve (publishing v server) = answer (controller_publish_volume cloud wait v server)
  serve (unpublishing v server) = answer (controller_unpublish_volume cloud wait v server)
  serve listing_volumes = answer (list_volumes_rpc cloud)
  serve (creating_snapshot name v) = answer (create_snapshot cloud wait times name v)
  serve (deleting_snapshot i) = answer (delete_snapshot cloud i)
  serve (listing_snapshots r) = answer (list_snapshots cloud times r)
  serve (validating r) = answer (validate_volume_capabilities cloud mode r)
  serve asking_capacity = answer get_capacity
  serve (expanding r) = answer (controller_expand_volume cloud round_up r)
  serve (getting_volume v) = answer (controller_get_volume cloud v)
