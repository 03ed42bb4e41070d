-- ===== src/Block/Controller/Reads.antt =====
-- driver/blockstorage/controller.go: the handlers that only ask, the validation of capabilities, and
-- DeleteVolume.
use csi_bizflycloud.Base.{
  All, Bool-cases, List, String, [], any, arith, false, inl, inr, is_empty, not, refl, some, tally,
  true, ℕ, ◌↔◌, ◌∷◌, ◌≡◌,
}
use csi_bizflycloud.Base.Go.{GoError, Result, calls, err, ok}
use csi_bizflycloud.Base.Post.{Keeps, keeps_rules}
use csi_bizflycloud.Csi.{
  ListSnapshotsRequest, Mode, ValidateRequest, VolumeCapability, confirmed, get_mode, mode_eq,
  no_access_type,
}
use csi_bizflycloud.Cloud.{
  Cloud, History, Snapshot, Volume, get_snapshot, get_volume, list_snapshots_api, list_volumes,
  volume_deleted, writes,
}
use csi_bizflycloud.Cloud.Store.{DeleteForgets}
use csi_bizflycloud.Block.Client.{get_snapshot_by_name_and_volume_id}
use csi_bizflycloud.Block.Controller.Volumes.{delete_volume}
use csi_bizflycloud.Block.Controller.Snapshots.{Timestamps, list_snapshots, one_snapshot}
use csi_bizflycloud.Block.Controller.Queries.{
  controller_get_volume, is_nil_list, list_volumes_rpc, validate_volume_capabilities,
}

-- No call that changes the cloud so far but n.
abbrev Unwritten : ℕ → History → Type 0
Unwritten n h = tally writes h ≡ n

module _ (cloud : Cloud) (n : ℕ) where
  list_reads : Keeps (Unwritten n) (list_volumes cloud)
  list_reads = record { at = λ s e. e }

  get_reads : (volume : String) → Keeps (Unwritten n) (get_volume cloud volume)
  get_reads volume = record { at = λ s e. e }

  snapshots_read : Keeps (Unwritten n) (list_snapshots_api cloud)
  snapshots_read = record { at = λ s e. e }

  snapshot_read : (id : String) → Keeps (Unwritten n) (get_snapshot cloud id)
  snapshot_read id = record { at = λ s e. e }

  filtered_read :
      (volume name : String)
      → Keeps (Unwritten n) (get_snapshot_by_name_and_volume_id cloud volume name)
  unfolding get_snapshot_by_name_and_volume_id
  filtered_read volume name = search (keeps_rules, snapshots_read)

  one_read :
      (times : Timestamps) (r : Result GoError Snapshot)
      → Keeps (Unwritten n) (one_snapshot cloud times r)
  one_read times (err e) = search keeps_rules
  one_read times (ok s) = record { at = λ t e. ground (arith, e) }

  list_snapshots_reads :
      (times : Timestamps) (req : ListSnapshotsRequest)
      → Keeps (Unwritten n) (list_snapshots cloud times req)
  unfolding list_snapshots
  list_snapshots_reads times req =
      search (keeps_rules, snapshots_read, snapshot_read, filtered_read, one_read) depth 8

-- ListVolumes, ControllerGetVolume, ValidateVolumeCapabilities and ListSnapshots make no call that
-- changes the cloud, whatever the answers.
pub queries_write_nothing :
    (cloud : Cloud) (times : Timestamps) (mode : Mode) (volume : String) (req : ValidateRequest)
    (sreq : ListSnapshotsRequest) (h : History)
    → (tally writes (list_volumes_rpc cloud h).1 ≡ tally writes h)
      × (tally writes (controller_get_volume cloud volume h).1 ≡ tally writes h)
      × (tally writes (validate_volume_capabilities cloud mode req h).1 ≡ tally writes h)
      × (tally writes (list_snapshots cloud times sreq h).1 ≡ tally writes h)
unfolding list_volumes_rpc controller_get_volume validate_volume_capabilities
queries_write_nothing cloud times mode volume req sreq h = (
  listing.at h refl,
  getting.at h refl,
  validating.at h refl,
  (list_snapshots_reads cloud (tally writes h) times sreq).at h refl,
)
  where
    P : History → Type 0
    P = Unwritten (tally writes h)

    listing : Keeps P (list_volumes_rpc cloud)
    listing = search (keeps_rules, list_reads)

    getting : Keeps P (controller_get_volume cloud volume)
    getting = search (keeps_rules, get_reads)

    validating : Keeps P (validate_volume_capabilities cloud mode req)
    validating = search (keeps_rules, get_reads)

mode_eq→eq : (a b : Mode) → mode_eq a b ≡ true → a ≡ b
mode_eq→eq a b h = ground arith

-- `any` of a failed test is false exactly where every capability has the mode.
no_other_mode :
    (mode : Mode) (caps : List VolumeCapability)
    → (any (λ c. not (mode_eq (get_mode c) mode)) caps ≡ false) ↔ All (λ c. get_mode c ≡ mode) caps
no_other_mode mode [] = (λ h. tt, λ h. refl)
no_other_mode mode (c ∷ caps) =
    let (to, from) = no_other_mode mode caps in
    (λ h. ground (arith, mode_eq→eq (get_mode c) mode), λ h. ground arith)

-- For a request with capabilities and an id, of a volume that is there: the driver's access mode
-- is confirmed exactly if every capability has that mode.
pub validate-confirmed_iff :
    (cloud : Cloud) (mode : Mode) (req : ValidateRequest) (h : History) (v : Volume)
    → is_nil_list req.volume_capabilities ≡ false
    → is_empty req.volume_id ≡ false
    → cloud.on_volume_get h req.volume_id ≡ ok v
    → ((validate_volume_capabilities cloud mode req h).0
        ≡ ok (confirmed (record { access_mode = some mode; access_type = no_access_type } ∷ [])))
      ↔ All (λ c. get_mode c ≡ mode) req.volume_capabilities
unfolding validate_volume_capabilities calls
validate-confirmed_iff cloud mode req h v e f g =
    let (to, from) = no_other_mode mode req.volume_capabilities in
    rw (e, f, g)
      (
        λ p.
            elim (Bool-cases (any (λ c. not (mode_eq (get_mode c) mode)) req.volume_capabilities)) [
              | inl b ↦ cc (rw b at p)
              | inr b ↦ to b
            ],
        λ a. rw (from a),
      )

-- On a cloud where a volume that was deleted is not found by the next Delete: where Delete
-- removes the volume of an id that is not empty, DeleteVolume succeeds, and succeeds when it is
-- called again.
delete_volume-retry :
    (cloud : Cloud) (law : DeleteForgets cloud) (volume : String) (h : History)
    → is_empty volume ≡ false
    → cloud.on_volume_delete h volume ≡ ok tt
    → (delete_volume cloud volume h ≡ (ok tt, volume_deleted volume ∷ h))
      × (delete_volume cloud volume (volume_deleted volume ∷ h)
          ≡ (ok tt, volume_deleted volume ∷ volume_deleted volume ∷ h))
unfolding delete_volume calls
delete_volume-retry cloud law volume h e f =
    let (x, g, missing) = law.deleted h volume f in (rw (e, f), rw (e, g, missing))
