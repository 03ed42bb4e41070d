-- ===== src/Block/Controller/SnapshotPromises.antt =====
-- driver/blockstorage/controller.go: what CreateSnapshot, DeleteSnapshot and ListSnapshots promise, as
-- steps of a list of snapshots without their states, and the handlers as they run one after the other.
pub mod Distinct
pub mod Refinement
use csi_bizflycloud.Base.{List, String, [], length, map, true, ◌&&◌, ◌==◌, ◌∷◌, ◌≡◌, ◌≤◌}
use csi_bizflycloud.Base.Go.{Failure, Result, err, ok}
use csi_bizflycloud.Csi.{CsiSnapshot}
use csi_bizflycloud.Wait.{Wait}
use csi_bizflycloud.Cloud.{Cloud, History, Snapshot}
use csi_bizflycloud.Cloud.Snapshots.{lasting, without}
use csi_bizflycloud.Block.Client.{snapshots_of}
use csi_bizflycloud.Block.Controller.Volumes.{Rpc}
use csi_bizflycloud.Block.Controller.Snapshots.{
  Timestamps, create_snapshot, delete_snapshot, list_snapshots, snapshot_entry,
}

-- ListSnapshots is asked for all of them.
pub data SnapshotOp : Type 0 where
  taking : String → String → SnapshotOp
  dropping : String → SnapshotOp
  listing : SnapshotOp

pub data SnapshotReply : Type 0 where
  taken : Result Failure CsiSnapshot → SnapshotReply
  dropped : Result Failure (Unit {0}) → SnapshotReply
  listed_all : Result Failure (List CsiSnapshot) → SnapshotReply

abbrev pub Catalogue : Type 0
Catalogue = List Snapshot

abbrev pub IsWanted : String → String → Snapshot → Type 0
IsWanted volume name s = (s.volume_id == volume && s.name == name) ≡ true

-- The promise. CreateSnapshot answers the one snapshot of the name and the volume, and makes a new one
-- only where there is none; where it fails, it has made one at most, and only where there was none.
-- DeleteSnapshot leaves no snapshot of the id, or fails and changes nothing. ListSnapshots answers all.
pub data Promised (times : Timestamps)
    : SnapshotOp → Catalogue → SnapshotReply → Catalogue → Type 0 where
  retakes :
      (name volume : String) (a : Catalogue) (s : Snapshot)
      → snapshots_of volume name a ≡ s ∷ []
      → Promised times (taking name volume) a (taken (ok (snapshot_entry times s))) a
  takes :
      (name volume : String) (a : Catalogue) (s : Snapshot)
      → snapshots_of volume name a ≡ []
      → IsWanted volume name s
      → Promised times (taking name volume) a (taken (ok (snapshot_entry times s))) (lasting s ∷ a)
  takes_late :
      (name volume : String) (a : Catalogue) (s : Snapshot) (f : Failure)
      → snapshots_of volume name a ≡ []
      → IsWanted volume name s
      → Promised times (taking name volume) a (taken (err f)) (lasting s ∷ a)
  taking_fails :
      (name volume : String) (a : Catalogue) (f : Failure)
      → Promised times (taking name volume) a (taken (err f)) a
  drops :
      (id : String) (a : Catalogue)
      → Promised times (dropping id) a (dropped (ok tt)) (without id a)
  dropping_fails :
      (id : String) (a : Catalogue) (f : Failure)
      → Promised times (dropping id) a (dropped (err f)) a
  lists :
      (a : Catalogue) → Promised times listing a (listed_all (ok (map (snapshot_entry times) a))) a

-- The promise for operations one after the other.
pub data PromisedAll (times : Timestamps)
    : List SnapshotOp → Catalogue → List SnapshotReply → Catalogue → Type 0 where
  nothing : (a : Catalogue) → PromisedAll times [] a [] a
  then :
      (op : SnapshotOp) (ops : List SnapshotOp) (reply : SnapshotReply)
      (replies : List SnapshotReply) (a b c : Catalogue)
      → Promised times op a reply b
      → PromisedAll times ops b replies c
      → PromisedAll times (op ∷ ops) a (reply ∷ replies) c

-- No two snapshots of one volume have the same name.
abbrev pub IsDistinct : Catalogue → Type 0
IsDistinct a = (volume name : String) → length (snapshots_of volume name a) ≤ 1

module _ (cloud : Cloud) (wait : Wait) (times : Timestamps) where
  abbrev pub replied :
      {A : Type 0} → (Result Failure A → SnapshotReply) → Rpc A → History → SnapshotReply × History
  replied f m h = (f (m h).0, (m h).1)

  abbrev pub operate : SnapshotOp → History → SnapshotReply × History
  operate (taking name volume) = replied taken (create_snapshot cloud wait times name volume)
  operate (dropping id) = replied dropped (delete_snapshot cloud id)
  operate listing =
      replied listed_all
        (list_snapshots cloud times (record { snapshot_id = ""; source_volume_id = "" }))

  unfoldable pub operate_all : List SnapshotOp → History → List SnapshotReply × History
  operate_all [] h = ([], h)
  operate_all (op ∷ ops) h =
      let (reply, h1) = operate op h in
      let (replies, h2) = operate_all ops h1 in (reply ∷ replies, h2)
