-- ===== src/Block/Controller/Volumes.antt =====
-- driver/blockstorage/controller.go: CreateVolume, DeleteVolume and their helpers.
use csi_bizflycloud.Base.{
  ℕ, String, ◌<>◌, Bool, true, false, Option, none, some, List, [], ◌∷◌, Dict, lookup, index,
  or_else, is_empty, if◌then◌else◌,
}
use csi_bizflycloud.Base.Int.{ℤ, pos, eqℤ, timesℤ, wrap64, gib}
use csi_bizflycloud.Base.Go.{
  GoError, err_not_found, errors_is, invalid_argument, already_exists, internal, Failure, status,
  format, Result, ok, err, Exec, pure, fail, fail_if, attempt, wrap_err, as_status, ◌>>=◌, ◌>>◌,
}
use csi_bizflycloud.Csi.{
  CreateVolumeRequest, CsiVolume, CapacityRange, TopologyRequirement, ContentSource, of_snapshot,
  of_volume,
}
use csi_bizflycloud.Cloud.{
  Cloud, History, Volume, VolumeCreateRequest, create_volume_api, delete_volume_api,
}
use csi_bizflycloud.Block.Client.{get_volumes_by_name}

-- A handler over the history of API calls.
abbrev pub Rpc : Type 0 → Type 0
Rpc A = Exec History Failure A

-- util.RoundUpSize of k8s.io/cloud-provider-openstack, which the repository does not hold.
abbrev pub RoundUp : Type 0
RoundUp = ℤ → ℕ → ℤ

abbrev pub topology_key : String
topology_key = "topology.volume.csi.bizflycloud.vn/zone"

-- The first zone that a list of topologies names.
abbrev pub zone_in : List (Dict String) → Option String
zone_in [] = none
zone_in (t ∷ ts) =
    let rest = zone_in ts in elim (lookup topology_key t) [ some zone ↦ some zone | none ↦ rest ]

unfoldable pub get_az_from_topology : TopologyRequirement → String
get_az_from_topology r = elim (zone_in r.preferred) [
  | some zone ↦ zone
  | none ↦ or_else "" (zone_in r.requisite)
]

-- `int64(size * 1024 * 1024 * 1024)`, each product wrapped.
unfoldable pub bytes_of_gib : ℤ → ℤ
bytes_of_gib size = wrap64 (timesℤ (wrap64 (timesℤ (wrap64 (timesℤ size 1024)) 1024)) 1024)

unfoldable pub get_create_volume_response : Volume → CsiVolume
get_create_volume_response v = record {
  volume_id = v.id;
  capacity_bytes = bytes_of_gib v.size;
  volume_context = [];
  accessible_topology = ((topology_key, v.availability_zone) ∷ []) ∷ [];
  content_source = if is_empty v.snapshot_id then none else some (of_snapshot v.snapshot_id);
}

-- The size in bytes, 1 GiB without a capacity range.
abbrev pub size_bytes : Option CapacityRange → ℤ
size_bytes none = pos gib
size_bytes (some r) = r.required_bytes

abbrev pub requested_zone : CreateVolumeRequest → String
requested_zone req = elim req.accessibility_requirements [
  | none ↦ ""
  | some t ↦ get_az_from_topology t
]

abbrev pub availability : CreateVolumeRequest → String
availability req =
    let zone = requested_zone req in
    if is_empty zone then index req.parameters "availability" else zone

abbrev pub snapshot_source : Option ContentSource → String
snapshot_source (some (of_snapshot i)) = i
snapshot_source (some (of_volume i)) = ""
snapshot_source none = ""

-- `gobizfly.VolumeCreateRequest{…}`
unfoldable pub volume_request : RoundUp → CreateVolumeRequest → VolumeCreateRequest
unfolding lookup get_az_from_topology
volume_request round_up req = record {
  name = req.name;
  size = round_up (size_bytes req.capacity_range) gib;
  volume_type = index req.parameters "type";
  availability_zone = availability req;
  snapshot_id = snapshot_source req.content_source;
  volume_category = index req.parameters "category";
  description =
      or_else "unknown" (lookup "csi.storage.k8s.io/pvc/namespace" req.parameters)
      <> "/"
      <> or_else "unknown" (lookup "csi.storage.k8s.io/pvc/name" req.parameters)
      <> " by csi-bizflycloud";
}

abbrev pub is_nil {ℓ} : {A : Type ℓ} → Option A → Bool
is_nil none = true
is_nil (some a) = false

-- The volume that was found, or the call of Create. A failure to list counts as none found.
abbrev pub reuse_or_create : Cloud → VolumeCreateRequest → Result GoError Volume → Rpc CsiVolume
reuse_or_create cloud vcr (ok v) =
    if eqℤ vcr.size v.size
    then pure (get_create_volume_response v)
    else fail (
        status already_exists
          (format "Volume Already exists with same name and different capacity"))
reuse_or_create cloud vcr (err e) = do
  v ←
      wrap_err (as_status internal "CreateVolume failed with error %v")
        (create_volume_api cloud vcr)
  pure (get_create_volume_response v)

unfoldable pub create_volume : Cloud → RoundUp → CreateVolumeRequest → Rpc CsiVolume
unfolding get_volumes_by_name
create_volume cloud round_up req = do
  fail_if (is_empty req.name)
      (status invalid_argument (format "CreateVolume request missing Volume Name"))
  fail_if (is_nil req.volume_capabilities)
      (status invalid_argument (format "CreateVolume request missing Volume capability"))
  found ← attempt (get_volumes_by_name cloud req.name)
  reuse_or_create cloud (volume_request round_up req) found

-- An error that says that the object is not there counts as success.
abbrev pub forgive_not_found : (GoError → Failure) → Result GoError (Unit {0}) → Rpc (Unit {0})
forgive_not_found failure (ok u) = pure tt
forgive_not_found failure (err e) = if errors_is e err_not_found then pure tt else fail (failure e)

unfoldable pub delete_volume : Cloud → String → Rpc (Unit {0})
delete_volume cloud volume = do
  fail_if (is_empty volume)
      (status invalid_argument (format "DeleteVolume Volume ID must be provided"))
  done ← attempt (delete_volume_api cloud volume)
  forgive_not_found (as_status internal "DeleteVolume failed with error %v") done
