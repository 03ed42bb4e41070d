-- ===== src/Tests/Snapshots.antt =====
-- Snapshots in memory, and CreateSnapshot of driver/blockstorage/controller.go run on them.
use csi_bizflycloud.Base.{
  Bool-cases, List, String, [], any, ap, arith, eq_iff, false, first, if◌then◌else◌, inl, inr, map,
  none, not, refl, select, true, ◌&&◌, ◌==◌, ◌∷◌, ◌≡◌, ◌≢◌,
}
use csi_bizflycloud.Base.Int.{pos, wrap64}
use csi_bizflycloud.Base.Go.{
  GoError, already_exists, calls, err, err_not_found, format, ok, ok-injective, sentinel, status,
}
use csi_bizflycloud.Csi.{CsiSnapshot, ListSnapshotsRequest}
use csi_bizflycloud.Cloud.{
  Call, Cloud, History, Snapshot, SnapshotCreateRequest, server_got, snapshot_created,
  snapshot_deleted, snapshot_got, snapshots_listed, volume_attached, volume_created, volume_deleted,
  volume_detached, volume_extended, volume_got, volumes_listed, writes,
}
use csi_bizflycloud.Cloud.Snapshots.{IsSnapshotCloud, IsSnapshotStore, lasting, without}
use csi_bizflycloud.Block.Client.{get_snapshot_by_name_and_volume_id, is_ready, wait_snapshot_ready}
use csi_bizflycloud.Block.Client.SnapshotWait.{LastReady}
use csi_bizflycloud.Block.Controller.Volumes.{bytes_of_gib}
use csi_bizflycloud.Block.Controller.Snapshots.{
  create_snapshot, finish_snapshot, list_snapshots, snapshot_entry,
}
use csi_bizflycloud.Block.Controller.SnapshotLaws.{
  create_snapshot-ne-conflict, create_snapshot-ready, list_snapshots-source_nil,
}
use csi_bizflycloud.Block.Controller.SnapshotRetry.{create_snapshot-again}
use csi_bizflycloud.Block.Controller.SnapshotPromises.{
  IsDistinct, PromisedAll, SnapshotOp, dropping, listing, operate_all, taking,
}
use csi_bizflycloud.Block.Controller.SnapshotPromises.Refinement.{snapshot_operate_all-refines}
use csi_bizflycloud.Tests.Samples.{found, memory, no_time, polling, taken_snapshot}

-- The snapshots that the calls have left, the last one first.
abbrev kept : History → List Snapshot
kept [] = []
kept (snapshot_created r ∷ h) = taken_snapshot r.name r.volume_id ∷ kept h
kept (snapshot_deleted id ∷ h) = select (λ s. not (s.id == id)) (kept h)
kept (_ ∷ h) = kept h

abbrev shelf : Cloud
shelf = record {
  on_volumes_list = memory.on_volumes_list;
  on_volume_get = memory.on_volume_get;
  on_volume_create = memory.on_volume_create;
  on_volume_delete = memory.on_volume_delete;
  on_volume_attach = memory.on_volume_attach;
  on_volume_detach = memory.on_volume_detach;
  on_volume_extend = memory.on_volume_extend;
  on_server_get = memory.on_server_get;
  on_snapshots_list = λ h. ok (kept h);
  on_snapshot_get = λ h id. found (first (λ s. s.id == id) (kept h));
  on_snapshot_create = λ h r. ok (taken_snapshot r.name r.volume_id);
  on_snapshot_delete = λ h id.
      if any (λ (s : Snapshot). s.id == id) (kept h) then ok tt else err (sentinel err_not_found);
}

-- A query leaves them as they were.
kept-query : (q : Call) (h : History) → writes q ≡ false → kept (q ∷ h) ≡ kept h
kept-query volumes_listed h e = refl
kept-query (volume_got v) h e = refl
kept-query (volume_created r) h e = refl
kept-query (volume_deleted v) h e = refl
kept-query (volume_attached v server) h e = refl
kept-query (volume_detached v server) h e = refl
kept-query (volume_extended v n) h e = refl
kept-query (server_got server) h e = refl
kept-query snapshots_listed h e = refl
kept-query (snapshot_got id) h e = refl
kept-query (snapshot_created r) h e = cc
kept-query (snapshot_deleted id) h e = cc

made-wanted :
    (r : SnapshotCreateRequest) (s : Snapshot)
    → taken_snapshot r.name r.volume_id ≡ s
    → (s.volume_id == r.volume_id && s.name == r.name) ≡ true
made-wanted r s e =
    rw (← e, (eq_iff r.volume_id r.volume_id).1 refl, (eq_iff r.name r.name).1 refl) refl

shelf-IsSnapshotStore : IsSnapshotStore shelf kept
shelf-IsSnapshotStore = record {
  listed = λ h. refl;
  quiet = λ q h e. ap (map lasting) (kept-query q h e);
  stays = λ q h id s e g a. rw (kept-query q h e) g;
  created = λ h r s e. (
    made-wanted r s (ok-injective e),
    ap (λ t. lasting t ∷ map lasting (kept h)) (ok-injective e),
  );
}

abbrev monday : CsiSnapshot
monday = record {
  snapshot_id = "monday";
  size_bytes = pos 10737418240;
  source_volume_id = "disk";
  creation_time = none;
  ready_to_use = true;
}

create_snapshot-again_example :
    create_snapshot shelf polling no_time "monday" "disk" (
      snapshot_got "monday"
      ∷ snapshot_created (record { name = "monday"; volume_id = "disk"; force = true })
      ∷ snapshots_listed
      ∷ [])
    ≡ (
      ok monday,
      snapshot_got "monday"
          ∷ snapshots_listed
          ∷ snapshot_got "monday"
          ∷ snapshot_created (record { name = "monday"; volume_id = "disk"; force = true })
          ∷ snapshots_listed
          ∷ [],
    )
unfolding create_snapshot finish_snapshot get_snapshot_by_name_and_volume_id wait_snapshot_ready
    is_ready snapshot_entry bytes_of_gib wrap64 calls
create_snapshot-again_example =
    create_snapshot-again shelf polling no_time kept shelf-IsSnapshotStore "monday" "disk" [] monday
      refl

create_snapshot-ready_example :
    LastReady memory "monday" (create_snapshot memory polling no_time "monday" "disk" []).1
unfolding create_snapshot finish_snapshot get_snapshot_by_name_and_volume_id wait_snapshot_ready
    is_ready snapshot_entry bytes_of_gib wrap64 calls
create_snapshot-ready_example =
    create_snapshot-ready memory polling no_time "monday" "disk" [] monday refl

create_snapshot-ne-conflict_example :
    (create_snapshot memory polling no_time "monday" "other" []).0
    ≢ err (
        status already_exists
          (format "Snapshot with given name already exists, with different source volume ID"))
create_snapshot-ne-conflict_example =
    create_snapshot-ne-conflict memory polling no_time "monday" "other" []
      (format "Snapshot with given name already exists, with different source volume ID")

abbrev by_source : ListSnapshotsRequest
by_source = record { snapshot_id = ""; source_volume_id = "disk" }

list_snapshots-source_nil_example :
    list_snapshots memory no_time by_source [] ≡ (ok [], snapshots_listed ∷ [])
list_snapshots-source_nil_example =
    list_snapshots-source_nil memory no_time by_source (taken_snapshot "monday" "disk" ∷ []) [] refl
      refl refl (refl, tt)

without-missing :
    (id : String) (ss : List Snapshot)
    → any (λ (s : Snapshot). s.id == id) ss ≡ false
    → without id ss ≡ ss
without-missing id [] e = refl
without-missing id (s ∷ ss) e = elim (Bool-cases (s.id == id)) [
  | inl b ↦ cc (rw b at e)
  | inr b ↦ rw b (ap (λ rest. s ∷ rest) (without-missing id ss (rw b at e)))
]

missing :
    (id : String) (ss : List Snapshot) (e : GoError)
    → (if any (λ (s : Snapshot). s.id == id) ss then ok tt else err (sentinel err_not_found))
      ≡ err e
    → without id ss ≡ ss
missing id ss e p = elim (Bool-cases (any (λ (s : Snapshot). s.id == id) ss)) [
  | inl b ↦ cc (rw b at p)
  | inr b ↦ without-missing id ss b
]

shelf-IsSnapshotCloud : IsSnapshotCloud shelf kept
shelf-IsSnapshotCloud = record {
  store = shelf-IsSnapshotStore;
  create_fails = λ h r e p. cc;
  delete_removes = λ h id p. refl;
  delete_fails = λ h id e p. ap (map lasting) (missing id (kept h) e p);
  delete_missing = λ h id e p q. missing id (kept h) e p;
}

-- A snapshot is taken, taken again, one of another volume is taken, all are listed, and the first is
-- deleted twice.
abbrev week : List SnapshotOp
week =
    taking "monday" "disk"
    ∷ taking "monday" "disk"
    ∷ taking "tuesday" "other"
    ∷ listing
    ∷ dropping "monday"
    ∷ dropping "monday"
    ∷ []

nothing-IsDistinct : IsDistinct []
nothing-IsDistinct volume name = omega arith

snapshot_operate_all-refines_example :
    let (replies, after) = operate_all shelf polling no_time week [] in
    PromisedAll no_time week [] replies (map lasting (kept after))
    × IsDistinct (map lasting (kept after))
snapshot_operate_all-refines_example =
    snapshot_operate_all-refines shelf polling no_time kept shelf-IsSnapshotCloud week []
      nothing-IsDistinct
