-- ===== src/Cloud.antt =====
-- github.com/bizflycloud/gobizfly, which the repository does not hold: the cloud server API that
-- the block storage driver calls, as a parameter. An answer may be any function of the calls made
-- so far, so also what other clients do between two calls is covered.
pub mod Store
pub mod Volumes
pub mod Views
pub mod Snapshots
use csi_bizflycloud.Base.{String, Bool, true, false, List, ◌∷◌}
use csi_bizflycloud.Base.Int.{ℤ}
use csi_bizflycloud.Base.Go.{GoError, Result, Exec}

-- gobizfly.VolumeAttachment
pub record Attachment : Type 0 where
  pub server_id : String
  pub device : String

-- gobizfly.Volume
pub record Volume : Type 0 where
  pub id : String
  pub name : String
  pub size : ℤ
  pub state : String
  pub availability_zone : String
  pub snapshot_id : String
  pub attachments : List Attachment

-- gobizfly.Snapshot
pub record Snapshot : Type 0 where
  pub id : String
  pub name : String
  pub volume_id : String
  pub size : ℤ
  pub state : String
  pub create_at : String

-- gobizfly.VolumeCreateRequest
pub record VolumeCreateRequest : Type 0 where
  pub name : String
  pub size : ℤ
  pub volume_type : String
  pub availability_zone : String
  pub snapshot_id : String
  pub volume_category : String
  pub description : String

-- gobizfly.SnapshotCreateRequest
pub record SnapshotCreateRequest : Type 0 where
  pub name : String
  pub volume_id : String
  pub force : Bool

-- The calls, and the calls made so far with the last one first.
pub data Call : Type 0 where
  volumes_listed : Call
  volume_got : String → Call
  volume_created : VolumeCreateRequest → Call
  volume_deleted : String → Call
  volume_attached : String → String → Call
  volume_detached : String → String → Call
  volume_extended : String → ℤ → Call
  server_got : String → Call
  snapshots_listed : Call
  snapshot_got : String → Call
  snapshot_created : SnapshotCreateRequest → Call
  snapshot_deleted : String → Call

abbrev pub History : Type 0
History = List Call

-- The answers. A server is the list of the ids of its attached volumes.
pub record Cloud : Type 0 where
  pub on_volumes_list : History → Result GoError (List Volume)
  pub on_volume_get : History → String → Result GoError Volume
  pub on_volume_create : History → VolumeCreateRequest → Result GoError Volume
  pub on_volume_delete : History → String → Result GoError (Unit {0})
  pub on_volume_attach : History → String → String → Result GoError (Unit {0})
  pub on_volume_detach : History → String → String → Result GoError (Unit {0})
  pub on_volume_extend : History → String → ℤ → Result GoError (Unit {0})
  pub on_server_get : History → String → Result GoError (List String)
  pub on_snapshots_list : History → Result GoError (List Snapshot)
  pub on_snapshot_get : History → String → Result GoError Snapshot
  pub on_snapshot_create : History → SnapshotCreateRequest → Result GoError Snapshot
  pub on_snapshot_delete : History → String → Result GoError (Unit {0})

-- A call of the API over the history.
abbrev pub Api : Type 0 → Type 0
Api A = Exec History GoError A

module _ (cloud : Cloud) where
  abbrev pub list_volumes : Api (List Volume)
  list_volumes h = (cloud.on_volumes_list h, volumes_listed ∷ h)

  abbrev pub get_volume : String → Api Volume
  get_volume v h = (cloud.on_volume_get h v, volume_got v ∷ h)

  abbrev pub create_volume_api : VolumeCreateRequest → Api Volume
  create_volume_api r h = (cloud.on_volume_create h r, volume_created r ∷ h)

  abbrev pub delete_volume_api : String → Api (Unit {0})
  delete_volume_api v h = (cloud.on_volume_delete h v, volume_deleted v ∷ h)

  abbrev pub attach_volume : String → String → Api (Unit {0})
  attach_volume v server h = (cloud.on_volume_attach h v server, volume_attached v server ∷ h)

  abbrev pub detach_volume : String → String → Api (Unit {0})
  detach_volume v server h = (cloud.on_volume_detach h v server, volume_detached v server ∷ h)

  abbrev pub extend_volume : String → ℤ → Api (Unit {0})
  extend_volume v n h = (cloud.on_volume_extend h v n, volume_extended v n ∷ h)

  abbrev pub get_server : String → Api (List String)
  get_server server h = (cloud.on_server_get h server, server_got server ∷ h)

  abbrev pub list_snapshots_api : Api (List Snapshot)
  list_snapshots_api h = (cloud.on_snapshots_list h, snapshots_listed ∷ h)

  abbrev pub get_snapshot : String → Api Snapshot
  get_snapshot i h = (cloud.on_snapshot_get h i, snapshot_got i ∷ h)

  abbrev pub create_snapshot_api : SnapshotCreateRequest → Api Snapshot
  create_snapshot_api r h = (cloud.on_snapshot_create h r, snapshot_created r ∷ h)

  abbrev pub delete_snapshot_api : String → Api (Unit {0})
  delete_snapshot_api i h = (cloud.on_snapshot_delete h i, snapshot_deleted i ∷ h)

-- Which calls attach a volume, and which change the cloud.
abbrev pub attaches : Call → Bool
attaches (volume_attached v server) = true
attaches _ = false

abbrev pub writes : Call → Bool
writes volumes_listed = false
writes (volume_got v) = false
writes (server_got server) = false
writes snapshots_listed = false
writes (snapshot_got i) = false
writes _ = true
