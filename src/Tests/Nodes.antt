-- ===== src/Tests/Nodes.antt =====
-- The properties of the block storage node service, on a host in memory, and of the handlers of the
-- file storage driver that run at once.
use text.Mathlib.TextPositions.{eq_refl}
use csi_bizflycloud.Base.{
  Bool, String, [], false, if◌then◌else◌, is_empty, not, refl, some, true, ◌==◌, ◌∷◌, ◌≡◌, ◌≤◌,
}
use csi_bizflycloud.Base.Go.{calls, err, ok, plain}
use csi_bizflycloud.Csi.{VolumeCapability, mount, single_node_writer}
use csi_bizflycloud.Metadata.{Metadata}
use csi_bizflycloud.Block.Node.HostCalls.{
  Acts, Host, device_sought, formatted, mount_point_asked, mounted, unmounted,
}
use csi_bizflycloud.Block.Node.{
  MountRequest, get_device_path, node_publish_volume_for_block, node_stage_volume,
}
use csi_bizflycloud.Block.Node.Staging.{IsMountTable, stage-again}
use csi_bizflycloud.Block.Node.Blocks.{Published, publish_for_block-Published}
use csi_bizflycloud.Share.Controller.Pending.{load_or_store}
use csi_bizflycloud.Share.Controller.Interleaving.{
  Calling, Reachable, begins, running-exclusive, starts, steps, times_in,
}

abbrev is_mounted : Acts → String → Bool
is_mounted [] path = false
is_mounted (formatted device target fs options ∷ h) path =
    let rest = is_mounted h path in if target == path then true else rest
is_mounted (mounted device target fs options ∷ h) path =
    let rest = is_mounted h path in if target == path then true else rest
is_mounted (unmounted target ∷ h) path =
    let rest = is_mounted h path in if target == path then false else rest
is_mounted (c ∷ h) path = is_mounted h path

-- A host whose mounts succeed, but for those of block devices.
abbrev host : Host
host = record {
  on_device_path = λ h volume. "/dev/vdb";
  on_not_mount_point = λ h path. ok (not (is_mounted h path));
  on_mount = λ h source target fs options. if is_empty fs then err (plain "busy") else ok tt;
  on_format_and_mount = λ h device target fs options. ok tt;
  on_unmount = λ h path. ok tt;
  on_exists = λ h path. ok false;
  on_make_dir = λ h path. ok tt;
  on_make_file = λ h path. ok tt;
  on_remove = λ h path. ok tt;
  on_stats = λ h path. err (plain "no stats");
  on_findmnt = λ h path. ok "/dev/vdb\n";
  on_rescan = λ h device path size. ok tt;
  on_resize = λ h device path. ok tt;
  dir = λ path. "/pods";
}

abbrev metadata : Metadata
metadata = record {
  instance_id = ok "node";
  availability_zone = ok "HN1";
  device_path = λ volume. "";
}

host-IsMountTable : IsMountTable host is_mounted
host-IsMountTable = record {
  asked = λ h path. refl;
  mounts = λ h device target fs options e. rw (eq_refl target) refl;
  ask_keeps = λ h path target. refl;
  seek_keeps = λ h volume target. refl;
  device_stays = λ h c volume. refl;
}

abbrev ext4 : VolumeCapability
ext4 = record { access_mode = some single_node_writer; access_type = mount "" [] }

abbrev request : MountRequest
request = record {
  volume_id = "disk";
  staging_target_path = "/staging";
  target_path = "/pods/target";
  volume_capability = some ext4;
  readonly = false;
}

abbrev staged_once : Acts
staged_once =
    formatted "/dev/vdb" "/staging" "ext4" []
    ∷ mount_point_asked "/staging"
    ∷ device_sought "disk"
    ∷ []

stage-again_example :
    node_stage_volume host metadata request (node_stage_volume host metadata request []).1 ≡ (
      ok tt,
      mount_point_asked "/staging"
          ∷ device_sought "disk"
          ∷ (node_stage_volume host metadata request []).1,
    )
unfolding node_stage_volume get_device_path calls
stage-again_example =
    stage-again host metadata is_mounted host-IsMountTable request ext4 [] refl refl refl refl refl
      refl

publish_for_block-Published_example :
    Published host request 0 (node_publish_volume_for_block host metadata request [])
publish_for_block-Published_example = publish_for_block-Published host metadata request []

abbrev idle : Calling
idle = record { pending = []; running = [] }

abbrev busy : Calling
busy = record { pending = "data" ∷ []; running = "data" ∷ [] }

busy-Reachable : Reachable busy
unfolding load_or_store
busy-Reachable = steps {s = idle} {t = busy} starts (begins "data" idle refl)

running-exclusive_example :
    (times_in "data" busy.running ≡ times_in "data" busy.pending)
    × (times_in "data" busy.running ≤ 1)
running-exclusive_example = running-exclusive {s = busy} "data" busy-Reachable
