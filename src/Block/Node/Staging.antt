-- ===== src/Block/Node/Staging.antt =====
-- driver/blockstorage/nodeserver.go: NodeStageVolume over a table of mounts.
use csi_bizflycloud.Base.{
  Bool, List, String, ap, arith, false, if◌then◌else◌, inl, inr, is_empty, not, refl, some, tally,
  true, ◌+◌, ◌∙◌, ◌∷◌, ◌≡◌,
}
use csi_bizflycloud.Base.Go.{Failure, Result, Result-cases, calls, ok, wrap_err}
use csi_bizflycloud.Csi.{AccessType, VolumeCapability, block, mount, no_access_type}
use csi_bizflycloud.Metadata.{Metadata}
use csi_bizflycloud.Block.Node.HostCalls.{
  Acts, Host, HostCall, device_sought, formats, formatted, mount_point_asked,
}
use csi_bizflycloud.Block.Node.{
  MountRequest, format_if, fs_type, get_device_path, mount_flags, node_stage_volume, stage_as,
  stage_mount,
}

-- What the documentation of the mount library promises: what was formatted and mounted is a mount
-- point, a query changes nothing, and the device of a volume stays.
pub record IsMountTable (host : Host) (is_mounted : Acts → String → Bool) : Type 0 where
  pub asked :
      (h : Acts) (path : String) → host.on_not_mount_point h path ≡ ok (not (is_mounted h path))
  pub mounts :
      (h : Acts) (device target fs : String) (options : List String)
      → host.on_format_and_mount h device target fs options ≡ ok tt
      → is_mounted (formatted device target fs options ∷ h) target ≡ true
  pub ask_keeps :
      (h : Acts) (path target : String)
      → is_mounted (mount_point_asked path ∷ h) target ≡ is_mounted h target
  pub seek_keeps :
      (h : Acts) (volume target : String)
      → is_mounted (device_sought volume ∷ h) target ≡ is_mounted h target
  pub device_stays :
      (h : Acts) (c : HostCall) (volume : String)
      → host.on_device_path (c ∷ h) volume ≡ host.on_device_path h volume

-- The device of a volume: what the mount library finds, or the metadata service.
abbrev pub device_of : Host → Metadata → Acts → String → String
device_of host metadata h volume =
    if is_empty (host.on_device_path h volume)
    then metadata.device_path volume
    else host.on_device_path h volume

abbrev pub is_block_type : AccessType → Bool
is_block_type block = true
is_block_type _ = false

-- Every access type but a block device.
abbrev pub IsMount : AccessType → Type 0
IsMount t = is_block_type t ≡ false

module _ (host : Host) (metadata : Metadata) where
  stage_as-mount :
      (device target : String) (t : AccessType)
      → IsMount t
      → stage_as host metadata device target t ≡ stage_mount host metadata device target t
  stage_as-mount device target (mount fs flags) m = refl
  stage_as-mount device target no_access_type m = refl
  stage_as-mount device target block m = cc

  -- The stage of a valid request, from the query of the mount point on.
  stage_runs :
      (req : MountRequest) (c : VolumeCapability) (h : Acts)
      → is_empty req.volume_id ≡ false
      → is_empty req.staging_target_path ≡ false
      → req.volume_capability ≡ some c
      → IsMount c.access_type
      → is_empty (device_of host metadata h req.volume_id) ≡ false
      → node_stage_volume host metadata req h
        ≡ stage_mount host metadata
            (device_of host metadata h req.volume_id)
            req.staging_target_path
            c.access_type
            (device_sought req.volume_id ∷ h)
  unfolding node_stage_volume get_device_path calls
  stage_runs req c h v s k m d = rw (v, s, k, d, stage_as-mount _ _ c.access_type m)

  tally-format_if :
      (free : Bool) (device target : String) (t : AccessType) (h : Acts)
      → tally formats (format_if host metadata free device target t h).1
        ≡ tally formats h + (if free then 1 else 0)
  unfolding wrap_err
  tally-format_if true device target t h = omega arith
  tally-format_if false device target t h = omega arith

  -- The stage of a valid request for a volume with a file system and a device path, where the
  -- mount point query succeeds, formats the device once if nothing is mounted at the staging
  -- path, and not at all if something is.
  pub stage-formats :
      (req : MountRequest) (c : VolumeCapability) (h : Acts) (free : Bool)
      → is_empty req.volume_id ≡ false
      → is_empty req.staging_target_path ≡ false
      → req.volume_capability ≡ some c
      → IsMount c.access_type
      → is_empty (device_of host metadata h req.volume_id) ≡ false
      → host.on_not_mount_point (device_sought req.volume_id ∷ h) req.staging_target_path ≡ ok free
      → tally formats (node_stage_volume host metadata req h).1
        ≡ tally formats h + (if free then 1 else 0)
  stage-formats req c h free v s k m d a =
      rw (stage_runs req c h v s k m d)
        (unfold calls in rw a (tally-format_if free _ _ c.access_type _))

  module _ (is_mounted : Acts → String → Bool) (table : IsMountTable host is_mounted) where
    format_if-mounts :
        (device target : String) (t : AccessType) (h : Acts) (b : Bool)
        → is_mounted h target ≡ b
        → (format_if host metadata (not b) device target t h).0 ≡ ok tt
        → is_mounted (format_if host metadata (not b) device target t h).1 target ≡ true
    unfolding wrap_err
    format_if-mounts device target t h true e p = e
    format_if-mounts device target t h false e p =
        elim (Result-cases (host.on_format_and_mount h device target (fs_type t) (mount_flags t))) [
          | inl (tt, r) ↦ table.mounts h device target _ _ r
          | inr (x, r) ↦ cc (rw r at p)
        ]

    stage_mount-mounts :
        (device target : String) (t : AccessType) (h : Acts)
        → (stage_mount host metadata device target t h).0 ≡ ok tt
        → is_mounted (stage_mount host metadata device target t h).1 target ≡ true
    unfolding calls
    stage_mount-mounts device target t h p = rw (table.asked h target) (
        format_if-mounts device target t _ (is_mounted h target) (table.ask_keeps h target target)
          (rw (table.asked h target) at p))

    -- A query of the mount point where it is mounted.
    stage_mount-mounted :
        (device target : String) (t : AccessType) (h : Acts)
        → is_mounted h target ≡ true
        → stage_mount host metadata device target t h ≡ (ok tt, mount_point_asked target ∷ h)
    unfolding calls
    stage_mount-mounted device target t h e = rw (table.asked h target, e)

    format_if-device :
        (b : Bool) (device target volume : String) (t : AccessType) (h : Acts)
        → host.on_device_path (format_if host metadata b device target t h).1 volume
          ≡ host.on_device_path h volume
    unfolding wrap_err
    format_if-device true device target volume t h = table.device_stays h _ volume
    format_if-device false device target volume t h = refl

    stage_mount-device :
        (device target volume : String) (t : AccessType) (h : Acts)
        → host.on_device_path (stage_mount host metadata device target t h).1 volume
          ≡ host.on_device_path h volume
    unfolding calls
    stage_mount-device device target volume t h = rw (table.asked h target) (
        format_if-device (not (is_mounted h target)) device target volume t _
        ∙ table.device_stays h (mount_point_asked target) volume)

    -- On a host whose mount table is as documented: a stage of a valid request for a volume
    -- with a file system and a device path, if it succeeded, is done again without a format.
    -- The second call succeeds after its two queries.
    pub stage-again :
        (req : MountRequest) (c : VolumeCapability) (h : Acts)
        → is_empty req.volume_id ≡ false
        → is_empty req.staging_target_path ≡ false
        → req.volume_capability ≡ some c
        → IsMount c.access_type
        → is_empty (device_of host metadata h req.volume_id) ≡ false
        → (node_stage_volume host metadata req h).0 ≡ ok tt
        → let after = (node_stage_volume host metadata req h).1 in
          node_stage_volume host metadata req after
          ≡ (ok tt, mount_point_asked req.staging_target_path ∷ device_sought req.volume_id ∷ after)
    stage-again req c h v s k m d p =
        let runs = stage_runs req c h v s k m d in
        let before = device_sought req.volume_id ∷ h in
        let device = device_of host metadata h req.volume_id in
        let same =
          ap (λ (r : Result Failure (Unit {0}) × Acts). host.on_device_path r.1 req.volume_id) runs
          ∙ stage_mount-device device req.staging_target_path req.volume_id c.access_type before
          ∙ table.device_stays h (device_sought req.volume_id) req.volume_id in
        let mounts =
          stage_mount-mounts device req.staging_target_path c.access_type before (rw runs at p) in
        let done =
          ap (λ (r : Result Failure (Unit {0}) × Acts). is_mounted r.1 req.staging_target_path) runs
          ∙ mounts in
        stage_runs req c _ v s k m (rw same d)
        ∙ stage_mount-mounted _ req.staging_target_path c.access_type _
            (table.seek_keeps _ req.volume_id req.staging_target_path ∙ done)
