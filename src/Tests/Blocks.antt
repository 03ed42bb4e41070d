-- ===== src/Tests/Blocks.antt =====
-- The properties of the block storage driver, on the cloud in memory.
use csi_bizflycloud.Base.{
  ◌*◌, All, String, [], arith, false, if◌then◌else◌, is_empty, none, refl, some, tally, true, ℕ,
  ◌+◌, ◌<>◌, ◌<◌, ◌↔◌, ◌∷◌, ◌≡◌, ◌≤◌,
}
use csi_bizflycloud.Base.Int.{gib, pos, wrap64}
use csi_bizflycloud.Base.Text.{has_prefix_folded, split_once, strip_prefix}
use csi_bizflycloud.Base.Go.{calls, format, ok}
use csi_bizflycloud.Csi.{
  CapacityRange, CreateVolumeRequest, CsiVolume, ExpandRequest, ExpandResponse, ValidateRequest,
  VolumeCapability, block, confirmed, get_mode, no_access_type, single_node_writer,
}
use csi_bizflycloud.Cloud.{
  History, VolumeCreateRequest, attaches, server_got, volume_attached, volume_created,
  volume_deleted, volume_extended, volume_got, volumes_listed,
}
use csi_bizflycloud.Block.Client.{
  disk_is_attached, get_attachment_disk_path, get_volumes_by_name, is_detached, wait_disk_attached,
  wait_disk_detached,
}
use csi_bizflycloud.Block.Client.Waits.{LastSaw}
use csi_bizflycloud.Block.Controller.Volumes.{
  bytes_of_gib, create_volume, get_create_volume_response, topology_key, volume_request,
}
use csi_bizflycloud.Block.Controller.Publish.{
  attach_and_find, controller_publish_volume, controller_unpublish_volume, volume_in_server,
}
use csi_bizflycloud.Block.Controller.Queries.{
  controller_expand_volume, over_limit, validate_volume_capabilities,
}
use csi_bizflycloud.Block.Controller.Service.{publishing, serve}
use csi_bizflycloud.Block.Controller.Attachment.{
  HasDevice, controller_publish-attaches, controller_publish-device,
}
use csi_bizflycloud.Block.Controller.Detachment.{Settled, controller_unpublish-Settled}
use csi_bizflycloud.Block.Controller.Retry.{create_volume-retry}
use csi_bizflycloud.Block.Controller.Sizes.{
  controller_expand-calls, controller_expand-near_limit, create_volume-capacity,
}
use csi_bizflycloud.Block.Controller.Reads.{validate-confirmed_iff}
use csi_bizflycloud.Block.Controller.Guards.{serve-invalid_argument}
use csi_bizflycloud.Block.Driver.{parse_endpoint}
use csi_bizflycloud.Block.Driver.Endpoints.{parse_endpoint-joins}
use csi_bizflycloud.Block.Controller.Republish.{controller_publish-again}
use csi_bizflycloud.Tests.Samples.{
  made_volume, memory, memory-IsQuiet, memory-IsStore, no_time, polling, rounding,
  rounding-IsRoundUp, stored,
}

-- A request of 10 GiB and one byte.
abbrev wanted : CreateVolumeRequest
wanted = record {
  name = "disk";
  capacity_range = some (record { required_bytes = pos 10737418241; limit_bytes = pos 0 });
  volume_capabilities = some [];
  parameters = ("type", "SSD") ∷ [];
  content_source = none;
  accessibility_requirements = none;
}

abbrev wanted_range : CapacityRange
wanted_range = record { required_bytes = pos 10737418241; limit_bytes = pos 0 }

abbrev disk_request : VolumeCreateRequest
disk_request = record {
  name = "disk";
  size = pos 11;
  volume_type = "SSD";
  availability_zone = "";
  snapshot_id = "";
  volume_category = "";
  description = "";
}

-- One volume, not attached; and the same volume attached to a server.
abbrev bare : History
bare = volume_created disk_request ∷ []

abbrev in_use : History
in_use = volume_attached "disk" "node" ∷ bare

abbrev answered : CsiVolume
answered = record {
  volume_id = "disk";
  capacity_bytes = pos 11811160064;
  volume_context = [];
  accessible_topology = ((topology_key, "HN1") ∷ []) ∷ [];
  content_source = none;
}

abbrev created : History
created = (create_volume memory rounding wanted []).1

create_volume-retry_example :
    create_volume memory rounding wanted created ≡ (ok answered, volumes_listed ∷ created)
unfolding create_volume calls get_volumes_by_name volume_request get_create_volume_response
    bytes_of_gib wrap64
create_volume-retry_example =
    create_volume-retry memory stored memory-IsStore rounding wanted [] answered refl

create_volume-capacity_example :
    (c : ℕ) × (answered.capacity_bytes ≡ pos c) × (10737418241 ≤ c) × (c < 10737418241 + gib)
unfolding create_volume calls get_volumes_by_name volume_request get_create_volume_response
    bytes_of_gib wrap64
create_volume-capacity_example =
    create_volume-capacity memory stored memory-IsStore rounding rounding-IsRoundUp wanted
      wanted_range 10737418241 [] answered refl refl (omega arith) refl

controller_publish-device_example :
    LastSaw memory "disk"
      (HasDevice "node" "/dev/vdb")
      (controller_publish_volume memory polling "disk" "node" bare).1
unfolding controller_publish_volume attach_and_find volume_in_server wait_disk_attached
    disk_is_attached get_attachment_disk_path calls
controller_publish-device_example =
    controller_publish-device memory polling "disk" "node" bare "/dev/vdb" refl

controller_publish-attaches_example :
    tally attaches (controller_publish_volume memory polling "disk" "node" bare).1
    ≡ tally attaches bare + (if volume_in_server "disk" [] then 0 else 1)
controller_publish-attaches_example =
    controller_publish-attaches memory polling "disk" "node" bare (made_volume disk_request) [] refl
      refl refl refl

controller_unpublish-Settled_example :
    Settled memory "disk" "node" in_use
      (controller_unpublish_volume memory polling "disk" "node" in_use).1
unfolding controller_unpublish_volume volume_in_server wait_disk_detached is_detached
    disk_is_attached calls
controller_unpublish-Settled_example =
    controller_unpublish-Settled memory polling "disk" "node" in_use refl

serve-invalid_argument_example :
    (serve memory polling no_time rounding single_node_writer (publishing "" "node") bare).1 ≡ bare
unfolding serve controller_publish_volume calls
serve-invalid_argument_example =
    serve-invalid_argument memory polling no_time rounding single_node_writer (publishing "" "node")
      bare (format "ControllerPublishVolume Volume ID must be provided") refl

abbrev writer : VolumeCapability
writer = record { access_mode = some single_node_writer; access_type = block }

abbrev validation_request : ValidateRequest
validation_request = record { volume_id = "disk"; volume_capabilities = writer ∷ [] }

validate-confirmed_iff_example :
    ((validate_volume_capabilities memory single_node_writer validation_request bare).0
      ≡ ok (
          confirmed
            (record { access_mode = some single_node_writer; access_type = no_access_type } ∷ [])))
    ↔ All (λ c. get_mode c ≡ single_node_writer) (writer ∷ [])
validate-confirmed_iff_example =
    validate-confirmed_iff memory single_node_writer validation_request bare
      (made_volume disk_request) refl refl refl

-- 12 GiB and a half, with a limit that the 13 GiB of the rounding pass.
abbrev grown_range : CapacityRange
grown_range = record { required_bytes = pos 13421772800; limit_bytes = pos 13421772900 }

abbrev grown : ExpandRequest
grown = record { volume_id = "disk"; capacity_range = some grown_range }

abbrev grown_answer : ExpandResponse
grown_answer = record { capacity_bytes = pos 13421772800; node_expansion_required = true }

controller_expand-calls_example :
    (over_limit grown_range ≡ false)
    × ((controller_expand_volume memory rounding grown bare).1
        ≡ volume_extended "disk" (pos 13) ∷ volume_got "disk" ∷ bare)
    × (grown_answer.capacity_bytes ≡ pos 13421772800)
    × (grown_answer.node_expansion_required ≡ true)
unfolding controller_expand_volume calls
controller_expand-calls_example =
    controller_expand-calls memory rounding grown grown_range bare grown_answer refl refl

controller_expand-near_limit_example :
    (13421772800 ≤ 13421772900)
    × ((r : ℕ) × ((controller_expand_volume memory rounding grown bare).1
          ≡ volume_extended "disk" (pos r) ∷ volume_got "disk" ∷ bare)
        × (13421772800 ≤ r * gib)
        × (r * gib < 13421772900 + gib))
unfolding controller_expand_volume calls
controller_expand-near_limit_example =
    controller_expand-near_limit memory rounding grown grown_range bare rounding-IsRoundUp
      13421772800 13421772900 grown_answer refl refl refl (omega arith) (omega arith) refl

-- The 13 GiB of this expansion are more bytes than its limit.
grown_past_limit :
    (controller_expand_volume memory rounding grown bare
      ≡ (ok grown_answer, volume_extended "disk" (pos 13) ∷ volume_got "disk" ∷ bare))
    × (13421772900 < 13 * gib)
unfolding controller_expand_volume calls
grown_past_limit = (refl, omega arith)

abbrev gone : History
gone = volume_deleted "disk" ∷ bare

parse_endpoint-joins_example :
    (◌≡◌ {A = String} "Unix://csi/csi.sock" ("Unix" <> "://" <> "csi/csi.sock"))
    × (is_empty "csi/csi.sock" ≡ false)
unfolding parse_endpoint has_prefix_folded split_once strip_prefix
parse_endpoint-joins_example = parse_endpoint-joins "Unix://csi/csi.sock" "Unix" "csi/csi.sock" refl

controller_publish-again_example :
    let h1 = (controller_publish_volume memory polling "disk" "node" bare).1 in
    controller_publish_volume memory polling "disk" "node" h1
    ≡ (ok "/dev/vdb", volume_got "disk" ∷ server_got "node" ∷ volume_got "disk" ∷ h1)
unfolding controller_publish_volume attach_and_find volume_in_server wait_disk_attached
    disk_is_attached get_attachment_disk_path calls
controller_publish-again_example =
    controller_publish-again memory polling "disk" "node" memory-IsQuiet bare "/dev/vdb" refl
