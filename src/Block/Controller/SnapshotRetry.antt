-- ===== src/Block/Controller/SnapshotRetry.antt =====
-- driver/blockstorage/controller.go: CreateSnapshot, called again.
use csi_bizflycloud.Base.{
  All, Bool-cases, List, String, [], ap, false, inl, inr, is_empty, map, refl, subst, sym, true,
  ◌==◌, ◌∙◌, ◌∷◌, ◌≡◌,
}
use csi_bizflycloud.Base.Go.{Failure, Result, Result-cases, calls, continue, ok, ok-injective}
use csi_bizflycloud.Csi.{CsiSnapshot}
use csi_bizflycloud.Wait.{Wait}
use csi_bizflycloud.Cloud.{
  Call, Cloud, History, Snapshot, SnapshotCreateRequest, snapshot_created, snapshot_got,
  snapshots_listed, writes,
}
use csi_bizflycloud.Cloud.Snapshots.{IsSnapshotStore, lasting, lasting-select}
use csi_bizflycloud.Block.Client.{
  get_snapshot_by_name_and_volume_id, snapshots_of, wait_snapshot_ready,
}
use csi_bizflycloud.Block.Client.SnapshotWait.{
  LastReady, wait_snapshot_ready-keeps, wait_snapshot_ready-now, wait_snapshot_ready_sound,
}
use csi_bizflycloud.Block.Controller.Snapshots.{
  Timestamps, create_snapshot, finish_snapshot, pick_snapshot, snapshot_entry,
}
use csi_bizflycloud.Block.Controller.SnapshotLaws.{OfVolume, snapshots_of-OfVolume}

-- What List gives for a name and a volume, but for the states, is read off the lasting parts.
pub lasting-snapshots_of :
    (volume name : String) (ss : List Snapshot)
    → map lasting (snapshots_of volume name ss) ≡ snapshots_of volume name (map lasting ss)
lasting-snapshots_of volume name ss = lasting-select _ ss (λ s. refl)

only_one :
    (s : Snapshot) (ss : List Snapshot)
    → map lasting ss ≡ lasting s ∷ []
    → (t : Snapshot) × (ss ≡ t ∷ []) × (lasting t ≡ lasting s)
only_one s [] e = cc
only_one s (t ∷ []) e = (t, refl, cc)
only_one s (t ∷ u ∷ ss) e = cc

-- The answer is read off the lasting parts.
pub snapshot_entry-lasting :
    (times : Timestamps) (s t : Snapshot)
    → lasting t ≡ lasting s
    → snapshot_entry times t ≡ snapshot_entry times s
unfolding snapshot_entry
snapshot_entry-lasting times s t same = ap (snapshot_entry times) same

module _ (cloud : Cloud) (wait : Wait) (times : Timestamps) (snapshots : History → List Snapshot)
    (store : IsSnapshotStore cloud snapshots) (name volume : String) where
  abbrev shown : History → List Snapshot
  shown h = snapshots_of volume name (map lasting (snapshots h))

  -- The snapshot is the one that List shows under the name and the volume.
  abbrev IsShown : Snapshot → History → Type 0
  IsShown s h = shown h ≡ lasting s ∷ []

  shown-query : (q : Call) (h : History) → writes q ≡ false → shown (q ∷ h) ≡ shown h
  shown-query q h e = ap (snapshots_of volume name) (store.quiet q h e)

  abbrev found : History → List Snapshot
  found h = snapshots_of volume name (snapshots h)

  pub find-runs :
      (h : History)
      → get_snapshot_by_name_and_volume_id cloud volume name h
        ≡ (ok (found h), snapshots_listed ∷ h)
  unfolding get_snapshot_by_name_and_volume_id calls
  find-runs h = rw (store.listed h) refl

  -- The snapshot that is taken or made is shown.
  pick-IsShown :
      (xs : List Snapshot) (h : History) (s : Snapshot)
      → shown h ≡ map lasting xs
      → All (OfVolume volume) xs
      → (pick_snapshot cloud name volume (ok xs) h).0 ≡ ok s
      → IsShown s (pick_snapshot cloud name volume (ok xs) h).1
  unfolding calls
  pick-IsShown [] h s e a p =
      let r : SnapshotCreateRequest = record { name = name; volume_id = volume; force = true } in
      elim (Result-cases (cloud.on_snapshot_create h r)) [
        | inl (t, c) ↦
            let (b, d) = store.created h r t c in
            let same : t ≡ s = ok-injective (rw c at p) in
            subst (λ u. shown (snapshot_created r ∷ h) ≡ lasting u ∷ []) same
              (ap (snapshots_of volume name) d ∙ rw (b, e) refl)
        | inr (x, c) ↦ cc (rw c at p)
      ]
  pick-IsShown (t ∷ []) h s e a p = rw a.0 (subst (λ u. IsShown u h) (ok-injective (rw a.0 at p)) e)
  pick-IsShown (t ∷ u ∷ xs) h s e a p = cc

  -- The wait and the answer.
  finish-IsShown :
      (s : Snapshot) (h : History) (resp : CsiSnapshot)
      → IsShown s h
      → (finish_snapshot cloud wait times s h).0 ≡ ok resp
      → (resp ≡ snapshot_entry times s)
        × IsShown s (finish_snapshot cloud wait times s h).1
        × LastReady cloud s.id (finish_snapshot cloud wait times s h).1
  unfolding finish_snapshot calls
  finish-IsShown s h resp i p = elim (Result-cases (wait_snapshot_ready cloud wait s.id h).0) [
    | inl (tt, k) ↦ rw k (
      sym (ok-injective (rw k at p)),
      wait_snapshot_ready-keeps cloud wait s.id h (IsShown s)
          (λ t q. shown-query (snapshot_got s.id) t refl ∙ q) i,
      wait_snapshot_ready_sound cloud wait s.id h k,
    )
    | inr (x, k) ↦ cc (rw k at p)
  ]

  -- A snapshot that is shown and was available at the last call is taken.
  create_snapshot-takes :
      (s : Snapshot) (h : History)
      → is_empty name ≡ false
      → is_empty volume ≡ false
      → IsShown s h
      → LastReady cloud s.id h
      → create_snapshot cloud wait times name volume h
        ≡ (ok (snapshot_entry times s), snapshot_got s.id ∷ snapshots_listed ∷ h)
  unfolding create_snapshot finish_snapshot calls
  create_snapshot-takes s h e f i last =
      let (t, one, same) =
        only_one s (found h) (lasting-snapshots_of volume name (snapshots h) ∙ i) in
      let at_volume : (t.volume_id == volume) ≡ true =
        (subst (All (OfVolume volume)) one (snapshots_of-OfVolume volume name (snapshots h))).0 in
      let id : t.id ≡ s.id = ap (λ (u : Snapshot). u.id) same in
      let entry = snapshot_entry-lasting times s t same in
      let now : cloud.on_snapshot_get h s.id ≡ ok last.answer =
        rw last.last
          (store.stays (snapshot_got s.id) last.before s.id last.answer refl last.got last.ready) in
      let next : wait_snapshot_ready cloud wait s.id (snapshots_listed ∷ h)
          ≡ (ok tt, snapshot_got s.id ∷ snapshots_listed ∷ h) =
        wait_snapshot_ready-now cloud wait s.id (snapshots_listed ∷ h) last.answer
          (store.stays snapshots_listed h s.id last.answer refl now last.ready) last.ready in
      rw (e, f, find-runs h, one, at_volume, id, next, entry) refl

  abbrev picked : History → Result Failure Snapshot × History
  picked h = pick_snapshot cloud name volume (ok (found h)) (snapshots_listed ∷ h)

  create_snapshot-runs :
      (h : History)
      → is_empty name ≡ false
      → is_empty volume ≡ false
      → create_snapshot cloud wait times name volume h
        ≡ continue (picked h).0 (finish_snapshot cloud wait times) (picked h).1
  unfolding create_snapshot calls
  create_snapshot-runs h e f = rw (e, f, find-runs h) refl

  create_snapshot-names :
      (h : History) (resp : CsiSnapshot)
      → (create_snapshot cloud wait times name volume h).0 ≡ ok resp
      → (is_empty name ≡ false) × (is_empty volume ≡ false)
  unfolding create_snapshot calls
  create_snapshot-names h resp e = elim (Bool-cases (is_empty name)) [
    | inl b ↦ cc (rw b at e)
    | inr b ↦ elim (Bool-cases (is_empty volume)) [ inl c ↦ cc (rw (b, c) at e) | inr c ↦ (b, c) ]
  ]

  picked-IsShown : (h : History) (s : Snapshot) → (picked h).0 ≡ ok s → IsShown s (picked h).1
  picked-IsShown h s p =
      pick-IsShown (found h) (snapshots_listed ∷ h) s
        (shown-query snapshots_listed h refl ∙ sym (lasting-snapshots_of volume name (snapshots h)))
        (snapshots_of-OfVolume volume name (snapshots h)) p

  -- On a cloud that keeps snapshots: called again with the same name and volume after it succeeded,
  -- CreateSnapshot gives the same answer, and calls List once and Get once and nothing else.
  pub create_snapshot-again :
      (h : History) (resp : CsiSnapshot)
      → (create_snapshot cloud wait times name volume h).0 ≡ ok resp
      → let h1 = (create_snapshot cloud wait times name volume h).1 in
        create_snapshot cloud wait times name volume h1
        ≡ (ok resp, snapshot_got resp.snapshot_id ∷ snapshots_listed ∷ h1)
  unfolding snapshot_entry
  create_snapshot-again h resp e =
      let (b, c) = create_snapshot-names h resp e in
      let run = create_snapshot-runs h b c in
      elim (Result-cases (picked h).0) [
        | inl (s, k) ↦
            let (same, i, last) =
              finish-IsShown s (picked h).1 resp (picked-IsShown h s k) (rw (run, k) at e) in
            rw (run, k, same) (create_snapshot-takes s _ b c i last)
        | inr (x, k) ↦ cc (rw (run, k) at e)
      ]
