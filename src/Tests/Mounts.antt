-- ===== src/Tests/Mounts.antt =====
-- The mounts of the block storage node service, on a host whose mounts succeed.
use csi_bizflycloud.Base.{
  Bool, Bool-cases, List, String, [], arith, eq_iff, false, if◌then◌else◌, inl, inr, leb, none, not,
  refl, some, true, ◌+◌, ◌-◌, ◌==◌, ◌∷◌, ◌≡◌, ◌≤◌,
}
use csi_bizflycloud.Base.Go.{calls, err, ok, plain}
use csi_bizflycloud.Csi.{block}
use csi_bizflycloud.Metadata.{Metadata}
use csi_bizflycloud.Block.Node.HostCalls.{
  Acts, Host, HostCall, device_measured, device_sought, dir_made, file_made, file_removed,
  findmnt_run, formatted, fs_resized, mount_point_asked, mounted, path_asked, rescanned, unmounted,
}
use csi_bizflycloud.Block.Node.{
  MountRequest, get_device_path, node_publish_volume, node_publish_volume_for_block,
  node_stage_volume, node_unpublish_volume,
}
use csi_bizflycloud.Block.Node.Mounts.{
  Clears, IsTable, NodeOp, PromisedAll, Table, is_quiet, node_operate_all, publishing, staging,
  succeeded, unpublishing,
}
use csi_bizflycloud.Block.Node.Mounts.Refinement.{node_operate_all-refines}

abbrev mount_count : Acts → Table
mount_count [] path = 0
mount_count (formatted device target fs options ∷ h) path =
    let rest = mount_count h path in if target == path then rest + 1 else rest
mount_count (mounted device target fs options ∷ h) path =
    let rest = mount_count h path in if target == path then rest + 1 else rest
mount_count (unmounted target ∷ h) path =
    let rest = mount_count h path in if target == path then rest - 1 else rest
mount_count (c ∷ h) path = mount_count h path

-- Whether the query finds a mount: one of a device, that was not unmounted since.
abbrev is_seen : Acts → String → Bool
is_seen [] path = false
is_seen (formatted device target fs options ∷ h) path =
    let rest = is_seen h path in if target == path then true else rest
is_seen (unmounted target ∷ h) path =
    let rest = is_seen h path in if target == path then false else rest
is_seen (c ∷ h) path = is_seen h path

-- An unmount fails where another mount is left below.
abbrev willing : Host
willing = record {
  on_device_path = λ h volume. "/dev/vdb";
  on_not_mount_point = λ h path. ok (not (is_seen h path));
  on_mount = λ h source target fs options. ok tt;
  on_format_and_mount = λ h device target fs options. ok tt;
  on_unmount = λ h path.
      if leb (mount_count h path) 1 then ok tt else err (plain "failed to unmount path %v");
  on_exists = λ h path. ok false;
  on_make_dir = λ h path. ok tt;
  on_make_file = λ h path. ok tt;
  on_remove = λ h path. ok tt;
  on_stats = λ h path. err (plain "no stats");
  on_findmnt = λ h path. ok "/dev/vdb\n";
  on_rescan = λ h device path size. ok tt;
  on_resize = λ h device path. ok tt;
  dir = λ path. "/pods";
}

count-quiet : (h : Acts) (c : HostCall) → is_quiet c ≡ true → mount_count (c ∷ h) ≡ mount_count h
count-quiet h (device_sought v) q = refl
count-quiet h (mount_point_asked p) q = refl
count-quiet h (mounted s t f o) q = cc
count-quiet h (formatted s t f o) q = cc
count-quiet h (unmounted p) q = cc
count-quiet h (path_asked p) q = refl
count-quiet h (dir_made p) q = refl
count-quiet h (file_made p) q = refl
count-quiet h (file_removed p) q = refl
count-quiet h (device_measured p) q = refl
count-quiet h (findmnt_run p) q = refl
count-quiet h (rescanned d p n) q = refl
count-quiet h (fs_resized d p) q = refl

-- Where the query finds a mount, there is one.
seen-mounted : (h : Acts) (path : String) → is_seen h path ≡ true → 1 ≤ mount_count h path
seen-mounted [] path e = cc
seen-mounted (formatted d t f o ∷ h) path e = ground (arith, seen-mounted h path)
seen-mounted (unmounted t ∷ h) path e = ground (arith, seen-mounted h path)
seen-mounted (mounted s t f o ∷ h) path e = ground (arith, seen-mounted h path)
seen-mounted (device_sought v ∷ h) path e = seen-mounted h path e
seen-mounted (mount_point_asked p ∷ h) path e = seen-mounted h path e
seen-mounted (path_asked p ∷ h) path e = seen-mounted h path e
seen-mounted (dir_made p ∷ h) path e = seen-mounted h path e
seen-mounted (file_made p ∷ h) path e = seen-mounted h path e
seen-mounted (file_removed p ∷ h) path e = seen-mounted h path e
seen-mounted (device_measured p ∷ h) path e = seen-mounted h path e
seen-mounted (findmnt_run p ∷ h) path e = seen-mounted h path e
seen-mounted (rescanned d p n ∷ h) path e = seen-mounted h path e
seen-mounted (fs_resized d p ∷ h) path e = seen-mounted h path e

asked-mounted :
    (h : Acts) (path : String)
    → willing.on_not_mount_point h path ≡ ok false
    → 1 ≤ mount_count h path
asked-mounted h path e = elim (Bool-cases (is_seen h path)) [
  | inl b ↦ seen-mounted h path b
  | inr b ↦ cc (rw b at e)
]

at_path : (path : String) → (path == path) ≡ true
at_path path = (eq_iff path path).1 refl

unmounted-Clears :
    (h : Acts) (path : String)
    → Clears (succeeded (willing.on_unmount h path)) (mount_count h path) (mount_count h path - 1)
unmounted-Clears h path = elim (Bool-cases (leb (mount_count h path) 1)) [
  | inl b ↦ rw b (ground arith)
  | inr b ↦ rw b (inr refl)
]

willing-IsTable : IsTable willing mount_count
willing-IsTable = record {
  asked = asked-mounted;
  mounts = λ h source target fs options. record {
    there = rw (at_path target) refl;
    elsewhere = λ p b. rw b refl;
  };
  formats = λ h source target fs options. record {
    there = rw (at_path target) refl;
    elsewhere = λ p b. rw b refl;
  };
  unmounts = λ h path. record {
    there = rw (at_path path) (unmounted-Clears h path);
    elsewhere = λ p b. rw b refl;
  };
  quiet = count-quiet;
}

abbrev no_metadata : Metadata
no_metadata = record {
  instance_id = ok "node";
  availability_zone = ok "HN1";
  device_path = λ volume. "";
}

abbrev block_request : MountRequest
block_request = record {
  volume_id = "disk";
  staging_target_path = "/staging";
  target_path = "/target";
  volume_capability = some (record { access_mode = none; access_type = block });
  readonly = false;
}

-- A block device is staged, published, published again, and unpublished once.
abbrev days : List NodeOp
days =
    staging block_request
    ∷ publishing block_request
    ∷ publishing block_request
    ∷ unpublishing "disk" "/target"
    ∷ []

node_operate_all-refines_example :
    let (answers, after) = node_operate_all willing no_metadata days [] in
    PromisedAll days (mount_count []) answers (mount_count after)
node_operate_all-refines_example =
    node_operate_all-refines willing no_metadata mount_count willing-IsTable days []

-- The unpublication fails, and one of the two mounts is left.
stacked :
    let (answers, after) = node_operate_all willing no_metadata days [] in
    (answers ≡ true ∷ true ∷ true ∷ false ∷ []) × (mount_count after "/target" ≡ 1)
unfolding node_operate_all node_stage_volume node_publish_volume node_publish_volume_for_block
    node_unpublish_volume get_device_path calls
stacked = (refl, refl)
