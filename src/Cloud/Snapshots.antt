-- ===== src/Cloud/Snapshots.antt =====
-- Snapshots without their states: what the cloud keeps of them, for the block storage controller.
use csi_bizflycloud.Base.{
  Bool, Bool-cases, List, String, [], false, inl, inr, map, not, refl, select, true, ◌&&◌, ◌==◌,
  ◌∷◌, ◌≡◌,
}
use csi_bizflycloud.Base.Go.{GoError, err, err_not_found, errors_is, ok}
use csi_bizflycloud.Cloud.{
  Call, Cloud, History, Snapshot, SnapshotCreateRequest, snapshot_created, snapshot_deleted, writes,
}

-- A snapshot without its state.
abbrev pub lasting : Snapshot → Snapshot
lasting s = record {
  id = s.id;
  name = s.name;
  volume_id = s.volume_id;
  size = s.size;
  state = "";
  create_at = s.create_at;
}

-- What the cloud promises to one client with the project to itself: List gives the snapshots; a query
-- changes no more of them than their states; a snapshot that is available stays so; and one that is
-- made has the name and the volume that were asked for, and is listed from then on.
pub record IsSnapshotStore (cloud : Cloud) (snapshots : History → List Snapshot) : Type 0 where
  pub listed : (h : History) → cloud.on_snapshots_list h ≡ ok (snapshots h)
  pub quiet :
      (q : Call) (h : History)
      → writes q ≡ false
      → map lasting (snapshots (q ∷ h)) ≡ map lasting (snapshots h)
  pub stays :
      (q : Call) (h : History) (id : String) (s : Snapshot)
      → writes q ≡ false
      → cloud.on_snapshot_get h id ≡ ok s
      → (s.state == "available") ≡ true
      → cloud.on_snapshot_get (q ∷ h) id ≡ ok s
  pub created :
      (h : History) (r : SnapshotCreateRequest) (s : Snapshot)
      → cloud.on_snapshot_create h r ≡ ok s
      → ((s.volume_id == r.volume_id && s.name == r.name) ≡ true)
        × (map lasting (snapshots (snapshot_created r ∷ h)) ≡ map lasting (s ∷ snapshots h))

-- A deletion of an id.
abbrev pub without : String → List Snapshot → List Snapshot
without id = select (λ s. not (s.id == id))

-- What it promises further: a call that fails changes no more than the states; Delete removes the
-- snapshots of an id, and says that it is not found only if there is none.
pub record IsSnapshotCloud (cloud : Cloud) (snapshots : History → List Snapshot) : Type 0 where
  pub store : IsSnapshotStore cloud snapshots
  pub create_fails :
      (h : History) (r : SnapshotCreateRequest) (e : GoError)
      → cloud.on_snapshot_create h r ≡ err e
      → map lasting (snapshots (snapshot_created r ∷ h)) ≡ map lasting (snapshots h)
  pub delete_removes :
      (h : History) (id : String)
      → cloud.on_snapshot_delete h id ≡ ok tt
      → map lasting (snapshots (snapshot_deleted id ∷ h)) ≡ map lasting (without id (snapshots h))
  pub delete_fails :
      (h : History) (id : String) (e : GoError)
      → cloud.on_snapshot_delete h id ≡ err e
      → map lasting (snapshots (snapshot_deleted id ∷ h)) ≡ map lasting (snapshots h)
  pub delete_missing :
      (h : History) (id : String) (e : GoError)
      → cloud.on_snapshot_delete h id ≡ err e
      → errors_is e err_not_found ≡ true
      → without id (snapshots h) ≡ snapshots h

-- A selection by the lasting parts.
pub lasting-select :
    (p : Snapshot → Bool) (ss : List Snapshot)
    → ((s : Snapshot) → p (lasting s) ≡ p s)
    → map lasting (select p ss) ≡ select p (map lasting ss)
lasting-select p [] same = refl
lasting-select p (s ∷ ss) same = elim (Bool-cases (p s)) [
  | inl b ↦ rw (same s, b, lasting-select p ss same) refl
  | inr b ↦ rw (same s, b, lasting-select p ss same) refl
]
