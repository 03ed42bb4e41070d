-- ===== src/Block/Controller/Snapshots.antt =====
-- driver/blockstorage/controller.go: CreateSnapshot, DeleteSnapshot and ListSnapshots.
use csi_bizflycloud.Base.{
  String, true, Option, none, some, List, [], ◌∷◌, map, is_empty, ◌==◌, if◌then◌else◌,
}
use csi_bizflycloud.Base.Int.{ℤ}
use csi_bizflycloud.Base.Go.{
  GoError, invalid_argument, already_exists, internal, status, raw, format, Result, ok, err, pure,
  fail, fail_if, attempt, wrap_err, as_status, ◌>>=◌, ◌>>◌,
}
use csi_bizflycloud.Csi.{CsiSnapshot, ListSnapshotsRequest}
use csi_bizflycloud.Wait.{Wait}
use csi_bizflycloud.Cloud.{
  Cloud, Snapshot, get_snapshot, list_snapshots_api, create_snapshot_api, delete_snapshot_api,
}
use csi_bizflycloud.Block.Client.{get_snapshot_by_name_and_volume_id, wait_snapshot_ready}
use csi_bizflycloud.Block.Controller.Volumes.{Rpc, bytes_of_gib, forgive_not_found}

-- `time.Parse(RFC3339MilliNoZ, …)`, whose error is dropped, then `ptypes.TimestampProto`.
abbrev pub Timestamps : Type 0
Timestamps = String → Result GoError ℤ

abbrev pub time_of : Result GoError ℤ → Option ℤ
time_of (ok t) = some t
time_of (err e) = none

-- `csi.Snapshot{…}`, always ready to use.
unfoldable pub snapshot_entry : Timestamps → Snapshot → CsiSnapshot
snapshot_entry times s = record {
  snapshot_id = s.id;
  size_bytes = bytes_of_gib s.size;
  source_volume_id = s.volume_id;
  creation_time = time_of (times s.create_at);
  ready_to_use = true;
}

-- `return &csi.ListSnapshotsResponse{Entries: entries}, err`, with the error of the conversion.
abbrev pub stamped : Result GoError ℤ → CsiSnapshot → Rpc (List CsiSnapshot)
stamped (ok t) entry = pure (entry ∷ [])
stamped (err e) entry = fail (raw e)

module _ (cloud : Cloud) where
  -- A failure to list counts as no snapshot.
  abbrev pub pick_snapshot : String → String → Result GoError (List Snapshot) → Rpc Snapshot
  pick_snapshot name volume (ok (s ∷ [])) =
      if s.volume_id == volume
      then pure s
      else fail (
          status already_exists
            (format "Snapshot with given name already exists, with different source volume ID"))
  pick_snapshot name volume (ok (s ∷ t ∷ more)) =
      fail (status internal (format "Multiple snapshots reported by Cinder with same name"))
  pick_snapshot name volume _ =
      wrap_err (as_status internal "CreateSnapshot failed with error %v")
        (create_snapshot_api cloud (record { name = name; volume_id = volume; force = true }))

  unfoldable pub delete_snapshot : String → Rpc (Unit {0})
  delete_snapshot id = do
    fail_if (is_empty id)
        (status invalid_argument (format "Snapshot ID must be provided in DeleteSnapshot request"))
    done ← attempt (delete_snapshot_api cloud id)
    forgive_not_found (as_status internal "DeleteSnapshot failed with error %v") done

  -- The source volume's id is handed over as the name, and the empty text as the volume's id.
  abbrev pub listed : String → Rpc (List Snapshot)
  listed source = wrap_err (as_status internal "ListSnapshots get snapshot failed with error %v") (
      if is_empty source
      then list_snapshots_api cloud
      else get_snapshot_by_name_and_volume_id cloud "" source)

module _ (cloud : Cloud) (times : Timestamps) where
  -- The answer by id: a failure of the query gives no entries and no error.
  abbrev pub one_snapshot : Result GoError Snapshot → Rpc (List CsiSnapshot)
  one_snapshot (err e) = pure []
  one_snapshot (ok s) = stamped (times s.create_at) (snapshot_entry times s)

  abbrev pub all_snapshots : String → Rpc (List CsiSnapshot)
  all_snapshots source = do
    snapshots ← listed cloud source
    pure (map (snapshot_entry times) snapshots)

  abbrev pub one_by_id : String → Rpc (List CsiSnapshot)
  one_by_id id = do s ← attempt (get_snapshot cloud id); one_snapshot s

  unfoldable pub list_snapshots : ListSnapshotsRequest → Rpc (List CsiSnapshot)
  list_snapshots req =
      if is_empty req.snapshot_id
      then all_snapshots req.source_volume_id
      else one_by_id req.snapshot_id

module _ (cloud : Cloud) (wait : Wait) (times : Timestamps) where
  -- The wait for the snapshot, and the answer.
  unfoldable pub finish_snapshot : Snapshot → Rpc CsiSnapshot
  finish_snapshot snap = do
    wrap_err (as_status internal "CreateSnapshot failed with error %v")
        (wait_snapshot_ready cloud wait snap.id)
    pure (snapshot_entry times snap)

  unfoldable pub create_snapshot : String → String → Rpc CsiSnapshot
  create_snapshot name volume = do
    fail_if (is_empty name) (
        status invalid_argument (format "Snapshot name must be provided in CreateSnapshot request"))
    fail_if (is_empty volume)
        (status invalid_argument (format "VolumeID must be provided in CreateSnapshot request"))
    found ← attempt (get_snapshot_by_name_and_volume_id cloud volume name)
    snap ← pick_snapshot cloud name volume found
    finish_snapshot snap
