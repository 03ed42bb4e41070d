-- ===== src/Block/Controller/Queries.antt =====
-- driver/blockstorage/controller.go: ListVolumes, ControllerGetVolume, ValidateVolumeCapabilities,
-- ControllerExpandVolume.
use csi_bizflycloud.Base.{
  String, Bool, true, false, not, ◌&&◌, Option, none, some, List, [], ◌∷◌, map, any, is_empty,
  if◌then◌else◌,
}
use csi_bizflycloud.Base.Int.{ℤ, pos, ltℤ, gib}
use csi_bizflycloud.Base.Go.{
  invalid_argument, internal, out_of_range, unimplemented, status, format, pure, fail, fail_if,
  wrap_err, as_status, ◌>>=◌, ◌>>◌,
}
use csi_bizflycloud.Csi.{
  Mode, mode_eq, get_mode, no_access_type, VolumeCapability, CapacityRange, CsiVolume,
  ExpandRequest, ExpandResponse, Validation, confirmed, refused, ValidateRequest, GetVolumeResponse,
}
use csi_bizflycloud.Cloud.{Cloud, Volume, Attachment, list_volumes, get_volume, extend_volume}
use csi_bizflycloud.Block.Controller.Volumes.{Rpc, RoundUp, bytes_of_gib}
use csi_bizflycloud.Block.Controller.Publish.{not_found_or_internal}

abbrev pub is_nil_list {ℓ} : {A : Type ℓ} → List A → Bool
is_nil_list [] = true
is_nil_list (x ∷ xs) = false

-- The entry of a volume in the answer of ListVolumes.
unfoldable pub volume_entry : Volume → CsiVolume
volume_entry v = record {
  volume_id = v.id;
  capacity_bytes = bytes_of_gib v.size;
  volume_context = [];
  accessible_topology = [];
  content_source = none;
}

-- `vcap` holds the driver's access modes, of which the first is the one that is supported; it is
-- not empty once the driver is made.
abbrev pub judge : Mode → List VolumeCapability → Validation
judge mode caps =
    if any (λ c. not (mode_eq (get_mode c) mode)) caps
    then refused "Requested Volume Capabilty not supported"
    else confirmed (record { access_mode = some mode; access_type = no_access_type } ∷ [])

-- `maxVolSize > 0 && maxVolSize < volSizeBytes`, on the size before it is rounded up.
abbrev pub over_limit : CapacityRange → Bool
over_limit r = ltℤ (pos 0) r.limit_bytes && ltℤ r.limit_bytes r.required_bytes

module _ (cloud : Cloud) where
  unfoldable pub list_volumes_rpc : Rpc (List CsiVolume)
  list_volumes_rpc = do
    volumes ← wrap_err (as_status internal "ListVolumes failed with error %v") (list_volumes cloud)
    pure (map volume_entry volumes)

  unfoldable pub controller_get_volume : String → Rpc GetVolumeResponse
  controller_get_volume volume = do
    fail_if (is_empty volume) (status invalid_argument (format "Volume ID not provided"))
    v ←
        wrap_err (not_found_or_internal "Volume not found" "GetVolume failed with error %v")
          (get_volume cloud volume)
    pure (record {
      volume_id = volume;
      capacity_bytes = bytes_of_gib v.size;
      published_node_ids = map (λ (a : Attachment). a.server_id) v.attachments;
    })

  unfoldable pub validate_volume_capabilities : Mode → ValidateRequest → Rpc Validation
  validate_volume_capabilities mode req = do
    fail_if (is_nil_list req.volume_capabilities) (
        status invalid_argument
          (format "ValidateVolumeCapabilities Volume Capabilities must be provided"))
    fail_if (is_empty req.volume_id)
        (status invalid_argument (format "ValidateVolumeCapabilities Volume ID must be provided"))
    wrap_err
        (not_found_or_internal "ValidateVolumeCapabiltites Volume %s not found"
          "ValidateVolumeCapabiltites %v")
        (get_volume cloud req.volume_id)
    pure (judge mode req.volume_capabilities)

  abbrev pub expand_in : RoundUp → String → Option CapacityRange → Rpc ExpandResponse
  expand_in round_up volume none =
      fail (status invalid_argument (format "Capacity range not provided"))
  expand_in round_up volume (some range) = do
    fail_if (over_limit range)
        (status out_of_range (format "After round-up, volume size exceeds the limit specified"))
    wrap_err (not_found_or_internal "Volume not found" "GetVolume failed with error %v")
        (get_volume cloud volume)
    wrap_err (as_status internal "Could not resize volume %q to size %v: %v")
        (extend_volume cloud volume (round_up range.required_bytes gib))
    pure (record { capacity_bytes = range.required_bytes; node_expansion_required = true })

  unfoldable pub controller_expand_volume : RoundUp → ExpandRequest → Rpc ExpandResponse
  controller_expand_volume round_up req = do
    fail_if (is_empty req.volume_id) (status invalid_argument (format "Volume ID not provided"))
    expand_in round_up req.volume_id req.capacity_range

-- GetCapacity
unfoldable pub get_capacity : Rpc ℤ
get_capacity = fail (status unimplemented (format "GetCapacity is not yet implemented"))
