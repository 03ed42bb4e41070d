-- ===== src/Share/Controller/Volumes.antt =====
-- driver/filestorage/controllerserver.go: CreateVolume, DeleteVolume, ControllerExpandVolume,
-- ValidateVolumeCapabilities.
use csi_bizflycloud.Base.{
  Dict, List, Option, String, [], false, if◌then◌else◌, index, insert, is_empty, lookup, none, some,
  ◌∷◌,
}
use csi_bizflycloud.Base.Int.{eqℤ, gib, leℤ, pos, ℤ}
use csi_bizflycloud.Base.Go.{
  Exec, Failure, GoError, Result, already_exists, as_status, err, err_not_found, error_text,
  errors_is, fail, format, internal, invalid_argument, not_found, ok, panicked, pure, status,
  unimplemented, wrap_err, ◌>>=◌, ◌>>◌,
}
use csi_bizflycloud.Csi.{
  CreateVolumeRequest, CsiVolume, ExpandRequest, ExpandResponse, ValidateRequest, Validation,
  VolumeCapability, block, confirmed, mount, no_access_type, refused, required_of,
}
use csi_bizflycloud.Wait.{Wait}
use csi_bizflycloud.Share.Api.{CreateShareRequest, FileStorage, Share}
use csi_bizflycloud.Share.Util.{
  bytes_to_gib, parse_export_location, share_bytes, share_description,
  validate_controller_expand_volume_request, validate_create_volume_request,
  validate_delete_volume_request, validate_validate_volume_capabilities_request,
}
use csi_bizflycloud.Share.Shares.{delete_share, get_or_create_share, get_share_by_id, resize_share}
use csi_bizflycloud.Share.Controller.Pending.{World, exclusively, on_calls}

abbrev pub Rpc : Type 0 → Type 0
Rpc A = Exec World Failure A

abbrev pub topology_key : String
topology_key = "topology.fs.csi.bizflycloud.vn/zone"

-- The value of a parameter, or the default where it is empty or not there.
abbrev pub or_default : String → String → String
or_default value default = if is_empty value then default else value

-- The required bytes, 1 GiB for none.
abbrev pub requested_size : CreateVolumeRequest → ℤ
requested_size req =
    let bytes = required_of req.capacity_range in if eqℤ bytes (pos 0) then pos gib else bytes

-- `gobizfly.CreateShareRequest{…}`; the first argument is the driver's share protocol.
unfoldable pub share_request : String → CreateVolumeRequest → CreateShareRequest
unfolding lookup
share_request proto req = record {
  name = req.name;
  size = bytes_to_gib (requested_size req);
  share_protocol = or_default (index req.parameters "share_protocol") proto;
  share_type = index req.parameters "share_type";
  network_id = index req.parameters "network_id";
  subnet_id = index req.parameters "subnet_id";
  zone = index req.parameters "zone";
  description = share_description;
  access =
      record {
        access_to = or_default (index req.parameters "nfs-shareClient") "0.0.0.0/0";
        access_level = "rw";
        access_type = "ip";
      }
      ∷ [];
}

-- The volume context of a share, with the server and the path if the location parses.
abbrev pub located : Result GoError (String × String) → Dict String → Dict String
located (err e) ctx = ctx
located (ok (server, path)) ctx = insert "share" path (insert "server" server ctx)

unfoldable pub share_context : Share → String → Dict String
unfolding insert
share_context s location =
    located (parse_export_location location)
      (insert "shareProtocol" s.share_protocol (insert "shareID" s.id []))

abbrev pub share_volume : Share → Dict String → CsiVolume
share_volume s ctx = record {
  volume_id = s.id;
  capacity_bytes = share_bytes s.size;
  volume_context = ctx;
  accessible_topology = if is_empty s.zone then [] else ((topology_key, s.zone) ∷ []) ∷ [];
  content_source = none;
}

-- Only the first export location is read.
abbrev pub exported : Share → List String → Rpc CsiVolume
exported s [] = fail (status internal (format "failed to get export location for volume %s"))
exported s (location ∷ more) = pure (share_volume s (share_context s location))

-- What CreateVolume makes of the share; a nil share is a run-time panic.
abbrev pub share_answer : ℤ → Option Share → Rpc CsiVolume
share_answer size none = fail panicked
share_answer size (some s) =
    if eqℤ s.size size
    then exported s s.export_locations
    else fail (
        status already_exists
          (format "volume %s already exists with different capacity: wanted %d GiB, got %d GiB"))

-- `if err := validate(req); err != nil { return nil, status.Error(codes.InvalidArgument, …) }`
abbrev pub validated : {A : Type 0} → Result GoError (Unit {0}) → Rpc A → Rpc A
validated (ok u) m = m
validated (err e) m = fail (status invalid_argument (error_text e))

abbrev pub not_found_or_internal : GoError → Failure
not_found_or_internal e =
    if errors_is e err_not_found
    then status not_found (format "volume %s not found")
    else status internal (format "failed to get volume %s: %v")

abbrev pub capacity_of : Option Share → Rpc ExpandResponse
capacity_of none = fail panicked
capacity_of (some s) =
    pure (record { capacity_bytes = share_bytes s.size; node_expansion_required = false })

-- The loop over the capabilities.
abbrev pub refusal : List VolumeCapability → Option String
refusal [] = none
refusal (c ∷ more) =
    let rest = refusal more in
    elim c.access_type [
      | block ↦ some "block access type is not allowed for file storage"
      | no_access_type ↦ some "volume must be accessible via filesystem API"
      | mount fs flags ↦ rest
    ]

abbrev pub validation : List VolumeCapability → Validation
validation caps = elim (refusal caps) [ none ↦ confirmed caps | some text ↦ refused text ]

module _ (api : FileStorage) where
  unfoldable pub delete_volume : String → Rpc (Unit {0})
  delete_volume id = validated (validate_delete_volume_request id) (
      wrap_err (as_status internal "failed to delete volume %s: %v")
        (on_calls (delete_share api id)))

  unfoldable pub validate_volume_capabilities : ValidateRequest → Rpc Validation
  validate_volume_capabilities req = validated (validate_validate_volume_capabilities_request req) (
      wrap_err not_found_or_internal (on_calls (get_share_by_id api req.volume_id))
      >> pure (validation req.volume_capabilities))

module _ (api : FileStorage) (wait : Wait) where
  unfoldable pub create_body : String → CreateVolumeRequest → Rpc CsiVolume
  create_body proto req = do
    s ←
        wrap_err (as_status internal "failed to create volume %s: %v")
          (on_calls (get_or_create_share api wait (share_request proto req)))
    share_answer (share_request proto req).size s

  unfoldable pub create_volume : String → CreateVolumeRequest → Rpc CsiVolume
  create_volume proto req =
      validated (validate_create_volume_request req) (exclusively req.name (create_body proto req))

  abbrev pub grow : ℤ → Share → Rpc ExpandResponse
  grow size s =
      if leℤ size s.size
      then capacity_of (some s)
      else (wrap_err (as_status internal "failed to expand volume %s: %v")
            (on_calls (resize_share api wait s.id size))
          >>= capacity_of)

  unfoldable pub expand_body : ExpandRequest → Rpc ExpandResponse
  expand_body req = do
    s ← wrap_err not_found_or_internal (on_calls (get_share_by_id api req.volume_id))
    grow (bytes_to_gib (required_of req.capacity_range)) s

  unfoldable pub controller_expand_volume : ExpandRequest → Rpc ExpandResponse
  controller_expand_volume req =
      validated (validate_controller_expand_volume_request req)
        (exclusively req.volume_id (expand_body req))

-- The handlers that are not implemented: ControllerPublishVolume, ControllerUnpublishVolume,
-- ListVolumes, GetCapacity, CreateSnapshot, DeleteSnapshot, ListSnapshots, ControllerGetVolume.
abbrev pub unimplemented_rpc : {A : Type 0} → Rpc A
unimplemented_rpc = fail (status unimplemented (format ""))
