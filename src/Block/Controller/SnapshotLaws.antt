-- ===== src/Block/Controller/SnapshotLaws.antt =====
-- driver/blockstorage/controller.go: CreateSnapshot and ListSnapshots.
use csi_bizflycloud.Base.{
  All, Bool-cases, List, String, [], ap, arith, false, inl, inr, is_empty, refl, subst, true, ◌==◌,
  ◌∷◌, ◌≡◌, ◌≢◌,
}
use csi_bizflycloud.Base.Go.{
  Failure, GoError, Message, Result, already_exists, as_status, calls, continue, err, internal,
  map_err, ok, ok-injective, status,
}
use csi_bizflycloud.Base.Post.{Ends, Ends-bind, Ends-then}
use csi_bizflycloud.Csi.{CsiSnapshot, ListSnapshotsRequest}
use csi_bizflycloud.Wait.{Wait}
use csi_bizflycloud.Cloud.{Cloud, History, Snapshot, snapshots_listed}
use csi_bizflycloud.Block.Client.{
  get_snapshot_by_name_and_volume_id, snapshots_of, wait_snapshot_ready,
}
use csi_bizflycloud.Block.Client.SnapshotWait.{LastReady, wait_snapshot_ready_sound}
use csi_bizflycloud.Block.Controller.Snapshots.{
  Timestamps, create_snapshot, finish_snapshot, list_snapshots, pick_snapshot, snapshot_entry,
}

abbrev pub OfVolume : String → Snapshot → Type 0
OfVolume volume s = (s.volume_id == volume) ≡ true

pub snapshots_of-OfVolume :
    (volume name : String) (ss : List Snapshot)
    → All (OfVolume volume) (snapshots_of volume name ss)
snapshots_of-OfVolume volume name [] = tt
snapshots_of-OfVolume volume name (s ∷ ss) = ground (arith, snapshots_of-OfVolume volume name ss)

-- A filter on a volume id that no snapshot has finds nothing.
snapshots_of-eq-nil :
    (volume name : String) (ss : List Snapshot)
    → All (λ s. (s.volume_id == volume) ≡ false) ss
    → snapshots_of volume name ss ≡ []
snapshots_of-eq-nil volume name [] h = refl
snapshots_of-eq-nil volume name (s ∷ ss) h = ground (arith, snapshots_of-eq-nil volume name ss h.1)

internal_no_conflict :
    (text : String) (r : Result GoError Snapshot) (m : Message)
    → map_err (as_status internal text) r ≢ err (status already_exists m)
internal_no_conflict text (ok s) m p = cc
internal_no_conflict text (err x) m p = ground arith

module _ (cloud : Cloud) where
  pick_no_conflict :
      (name volume : String) (xs : List Snapshot) (h : History)
      → All (OfVolume volume) xs
      → (m : Message)
      → (pick_snapshot cloud name volume (ok xs) h).0 ≢ err (status already_exists m)
  unfolding calls
  pick_no_conflict name volume [] h a m e = ground arith
  pick_no_conflict name volume (s ∷ []) h a m e = ground arith
  pick_no_conflict name volume (s ∷ t ∷ xs) h a m e = ground arith

module _ (cloud : Cloud) (times : Timestamps) where
  -- Where the request has a source volume and no snapshot id, and List succeeds with snapshots
  -- that each have the id of a volume, ListSnapshots answers no entry.
  pub list_snapshots-source_nil :
      (req : ListSnapshotsRequest) (ss : List Snapshot) (h : History)
      → is_empty req.snapshot_id ≡ true
      → is_empty req.source_volume_id ≡ false
      → cloud.on_snapshots_list h ≡ ok ss
      → All (λ s. is_empty s.volume_id ≡ false) ss
      → list_snapshots cloud times req h ≡ (ok [], snapshots_listed ∷ h)
  unfolding list_snapshots calls get_snapshot_by_name_and_volume_id
  list_snapshots-source_nil req ss h e f l a =
      rw (e, f, l, snapshots_of-eq-nil "" req.source_volume_id ss a)

module _ (cloud : Cloud) (wait : Wait) (times : Timestamps) where
  finish_answer :
      (s : Snapshot) (h : History) (r : CsiSnapshot) (x : Result GoError (Unit {0}))
      → (wait_snapshot_ready cloud wait s.id h).0 ≡ x
      → (finish_snapshot cloud wait times s h).0 ≡ ok r
      → LastReady cloud r.snapshot_id (finish_snapshot cloud wait times s h).1
  unfolding finish_snapshot calls snapshot_entry
  finish_answer s h r (ok tt) e p =
      let same : s.id ≡ r.snapshot_id =
        ap (λ (c : CsiSnapshot). c.snapshot_id) (ok-injective (rw e at p)) in
      rw e (
        subst (λ i. LastReady cloud i (wait_snapshot_ready cloud wait s.id h).1) same
          (wait_snapshot_ready_sound cloud wait s.id h e))
  finish_answer s h r (err y) e p = cc (rw e at p)

  -- A CreateSnapshot that succeeds ends with a query that shows the answered snapshot
  -- available.
  pub create_snapshot-ready :
      (name volume : String) (h : History) (resp : CsiSnapshot)
      → (create_snapshot cloud wait times name volume h).0 ≡ ok resp
      → LastReady cloud resp.snapshot_id (create_snapshot cloud wait times name volume h).1
  unfolding create_snapshot
  create_snapshot-ready name volume h resp e = chain.at h resp e
    where
      Answer : CsiSnapshot → History → Type 0
      Answer r = LastReady cloud r.snapshot_id

      chain : Ends Answer (create_snapshot cloud wait times name volume)
      chain = Ends-then Answer _ _ (
          Ends-then Answer _ _ (
            Ends-bind Answer _ _ λ found.
              Ends-bind Answer _ _ λ s. record { at = λ h r e. finish_answer s h r _ refl e }))

  finish_no_conflict :
      (s : Snapshot) (h : History) (m : Message) (x : Result GoError (Unit {0}))
      → (wait_snapshot_ready cloud wait s.id h).0 ≡ x
      → (finish_snapshot cloud wait times s h).0 ≢ err (status already_exists m)
  unfolding finish_snapshot calls
  finish_no_conflict s h m (ok u) e p = cc (rw e at p)
  finish_no_conflict s h m (err y) e p = cc (rw e at p)

  after_pick :
      (r : Result Failure Snapshot) (h : History) (m : Message)
      → r ≢ err (status already_exists m)
      → (continue r (finish_snapshot cloud wait times) h).0 ≢ err (status already_exists m)
  after_pick (ok s) h m n p = finish_no_conflict s h m _ refl p
  after_pick (err e) h m n p = n (cc)

  after_list :
      (name volume : String) (h s : History) (x : Result GoError (List Snapshot)) (m : Message)
      → cloud.on_snapshots_list h ≡ x
      → let found = get_snapshot_by_name_and_volume_id cloud volume name h in
        (continue
          (pick_snapshot cloud name volume found.0 s).0
          (finish_snapshot cloud wait times)
          (pick_snapshot cloud name volume found.0 s).1).0
        ≢ err (status already_exists m)
  unfolding get_snapshot_by_name_and_volume_id calls
  after_list name volume h s (ok ss) m e = rw e (
      after_pick _ _ m (
        pick_no_conflict cloud name volume (snapshots_of volume name ss) s
          (snapshots_of-OfVolume volume name ss) m))
  after_list name volume h s (err x) m e = rw e (after_pick _ _ m (internal_no_conflict _ _ m))

  -- CreateSnapshot never answers AlreadyExists, although it tests for a snapshot of that name with
  -- another source volume.
  pub create_snapshot-ne-conflict :
      (name volume : String) (h : History) (m : Message)
      → (create_snapshot cloud wait times name volume h).0 ≢ err (status already_exists m)
  unfolding create_snapshot calls
  create_snapshot-ne-conflict name volume h m = elim (Bool-cases (is_empty name)) [
    | inl b ↦ rw b (λ p. cc)
    | inr b ↦ elim (Bool-cases (is_empty volume)) [
      | inl c ↦ rw (b, c) (λ p. cc)
      | inr c ↦ rw (b, c) (after_list name volume h _ _ m refl)
    ]
  ]
