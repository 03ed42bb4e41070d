-- ===== src/Block/Controller/SnapshotPromises/Refinement.antt =====
-- driver/blockstorage/controller.go: the handlers for snapshots keep what they promise, on a cloud that
-- keeps snapshots.
use csi_bizflycloud.Base.{
  Bool-cases, List, String, [], ap, false, inl, inr, is_empty, map, refl, sym, true, ◌==◌, ◌∙◌, ◌∷◌,
  ◌≡◌, ◌⊎◌,
}
use csi_bizflycloud.Base.Go.{
  Failure, Result, Result-cases, calls, continue, err, err_not_found, errors_is, ok,
}
use csi_bizflycloud.Csi.{CsiSnapshot}
use csi_bizflycloud.Wait.{Wait}
use csi_bizflycloud.Cloud.{
  Call, Cloud, History, Snapshot, SnapshotCreateRequest, snapshot_created, snapshot_got,
  snapshots_listed, writes,
}
use csi_bizflycloud.Cloud.Snapshots.{IsSnapshotCloud, lasting, lasting-select, without}
use csi_bizflycloud.Block.Client.{snapshots_of, wait_snapshot_ready}
use csi_bizflycloud.Block.Client.SnapshotWait.{wait_snapshot_ready-keeps}
use csi_bizflycloud.Block.Controller.Snapshots.{
  Timestamps, create_snapshot, delete_snapshot, finish_snapshot, list_snapshots, pick_snapshot,
  snapshot_entry,
}
use csi_bizflycloud.Block.Controller.SnapshotRetry.{
  find-runs, lasting-snapshots_of, snapshot_entry-lasting,
}
use csi_bizflycloud.Block.Controller.SnapshotPromises.{
  Catalogue, IsDistinct, IsWanted, Promised, PromisedAll, SnapshotOp, SnapshotReply, dropped,
  dropping, dropping_fails, drops, listing, lists, nothing, operate, operate_all, replied, retakes,
  taken, takes, takes_late, taking, taking_fails, then,
}
use csi_bizflycloud.Block.Controller.SnapshotPromises.Distinct.{promised-IsDistinct}

entries-lasting :
    (times : Timestamps) (ss : List Snapshot)
    → map (snapshot_entry times) (map lasting ss) ≡ map (snapshot_entry times) ss
entries-lasting times [] = refl
entries-lasting times (s ∷ ss) =
    rw (entries-lasting times ss, snapshot_entry-lasting times s (lasting s) refl) refl

module _ (cloud : Cloud) (wait : Wait) (times : Timestamps) (snapshots : History → List Snapshot)
    (laws : IsSnapshotCloud cloud snapshots) where
  abbrev view : History → Catalogue
  view h = map lasting (snapshots h)

  -- The promise for what an operation has come to.
  abbrev KeepsPromise : SnapshotOp → History → SnapshotReply × History → Type 0
  KeepsPromise op h (reply, h1) = Promised times op (view h) reply (view h1)

  view-query : (q : Call) (h : History) → writes q ≡ false → view (q ∷ h) ≡ view h
  view-query q h e = laws.store.quiet q h e

  -- The wait for a snapshot changes no more than the states, and the answer is made of it.
  finish-view :
      (s : Snapshot) (h : History) → view (finish_snapshot cloud wait times s h).1 ≡ view h
  unfolding finish_snapshot calls
  finish-view s h = elim (Result-cases (wait_snapshot_ready cloud wait s.id h).0) [
    | inl (u, k) ↦ rw k (waited s h)
    | inr (x, k) ↦ rw k (waited s h)
  ]
    where
      waited :
          (s : Snapshot) (h : History) → view (wait_snapshot_ready cloud wait s.id h).1 ≡ view h
      waited s h =
          wait_snapshot_ready-keeps cloud wait s.id h (λ t. view t ≡ view h)
            (λ t p. view-query (snapshot_got s.id) t refl ∙ p) refl

  finish-cases :
      (s : Snapshot) (h : History)
      → ((finish_snapshot cloud wait times s h).0 ≡ ok (snapshot_entry times s))
        ⊎ ((f : Failure) × ((finish_snapshot cloud wait times s h).0 ≡ err f))
  unfolding finish_snapshot calls
  finish-cases s h = elim (Result-cases (wait_snapshot_ready cloud wait s.id h).0) [
    | inl (u, k) ↦ rw k (inl refl)
    | inr (x, k) ↦ rw k (inr (_, refl))
  ]

  abbrev finished : Snapshot → History → SnapshotReply × History
  finished s = replied cloud wait times taken (finish_snapshot cloud wait times s)

  -- A snapshot that was there is waited for.
  found-KeepsPromise :
      (name volume : String) (h h1 : History) (t : Snapshot)
      → snapshots_of volume name (view h) ≡ lasting t ∷ []
      → view h1 ≡ view h
      → KeepsPromise (taking name volume) h (finished t h1)
  found-KeepsPromise name volume h h1 t one same = elim (finish-cases t h1) [
    | inl k ↦
        rw (k, finish-view t h1, same, ← snapshot_entry-lasting times t (lasting t) refl)
          (retakes name volume (view h) (lasting t) one)
    | inr (f, k) ↦ rw (k, finish-view t h1, same) (taking_fails name volume (view h) f)
  ]

  -- A snapshot that was made is waited for.
  made-KeepsPromise :
      (name volume : String) (h h1 : History) (s : Snapshot)
      → snapshots_of volume name (view h) ≡ []
      → IsWanted volume name s
      → view h1 ≡ lasting s ∷ view h
      → KeepsPromise (taking name volume) h (finished s h1)
  made-KeepsPromise name volume h h1 s free w new = elim (finish-cases s h1) [
    | inl k ↦ rw (k, finish-view s h1, new) (takes name volume (view h) s free w)
    | inr (f, k) ↦ rw (k, finish-view s h1, new) (takes_late name volume (view h) s f free w)
  ]

  abbrev proceed : String → String → List Snapshot → History → Result Failure CsiSnapshot × History
  proceed name volume xs h =
      let (r, h1) = pick_snapshot cloud name volume (ok xs) h in
      continue r (finish_snapshot cloud wait times) h1

  picked-KeepsPromise :
      (name volume : String) (h h1 : History) (xs : List Snapshot)
      → snapshots_of volume name (view h) ≡ map lasting xs
      → view h1 ≡ view h
      → KeepsPromise
          (taking name volume)
          h
          (replied cloud wait times taken (proceed name volume xs) h1)
  unfolding calls
  picked-KeepsPromise name volume h h1 [] e same =
      let r : SnapshotCreateRequest = record { name = name; volume_id = volume; force = true } in
      elim (Result-cases (cloud.on_snapshot_create h1 r)) [
        | inl (s, c) ↦
            let (w, new) = laws.store.created h1 r s c in
            rw c (
              made-KeepsPromise name volume h (snapshot_created r ∷ h1) s e w
                (new ∙ ap (λ a. lasting s ∷ a) same))
        | inr (x, c) ↦
            rw (c, laws.create_fails h1 r x c, same) (taking_fails name volume (view h) _)
      ]
  picked-KeepsPromise name volume h h1 (t ∷ []) e same = elim (Bool-cases (t.volume_id == volume)) [
    | inl b ↦ rw b (found-KeepsPromise name volume h h1 t e same)
    | inr b ↦ rw (b, same) (taking_fails name volume (view h) _)
  ]
  picked-KeepsPromise name volume h h1 (t ∷ u ∷ xs) e same =
      rw same (taking_fails name volume (view h) _)

  taking-KeepsPromise :
      (name volume : String) (h : History)
      → KeepsPromise (taking name volume) h (operate cloud wait times (taking name volume) h)
  unfolding create_snapshot calls
  taking-KeepsPromise name volume h = elim (Bool-cases (is_empty name)) [
    | inl b ↦ rw b (taking_fails name volume (view h) _)
    | inr b ↦ elim (Bool-cases (is_empty volume)) [
      | inl c ↦ rw (b, c) (taking_fails name volume (view h) _)
      | inr c ↦
          let old = snapshots_of volume name (snapshots h) in
          rw (b, c, find-runs cloud wait times snapshots laws.store name volume h)
            (picked-KeepsPromise name volume h (snapshots_listed ∷ h) old
              (sym (lasting-snapshots_of volume name (snapshots h)))
              (view-query snapshots_listed h refl))
    ]
  ]

  -- What a deletion leaves.
  left :
      (id : String) (h : History) (b : Catalogue)
      → b ≡ map lasting (without id (snapshots h))
      → Promised times (dropping id) (view h) (dropped (ok tt)) b
  left id h b e = rw (e, lasting-select _ (snapshots h) (λ s. refl)) (drops id (view h))

  dropping-KeepsPromise :
      (id : String) (h : History)
      → KeepsPromise (dropping id) h (operate cloud wait times (dropping id) h)
  unfolding delete_snapshot calls
  dropping-KeepsPromise id h = elim (Bool-cases (is_empty id)) [
    | inl b ↦ rw b (dropping_fails id (view h) _)
    | inr b ↦ elim (Result-cases (cloud.on_snapshot_delete h id)) [
      | inl (tt, c) ↦ rw (b, c) (left id h _ (laws.delete_removes h id c))
      | inr (e, c) ↦ elim (Bool-cases (errors_is e err_not_found)) [
        | inl f ↦
            rw (b, c, f)
              (left id h _ (
                laws.delete_fails h id e c
                ∙ ap (map lasting) (sym (laws.delete_missing h id e c f))))
        | inr f ↦ rw (b, c, f, laws.delete_fails h id e c) (dropping_fails id (view h) _)
      ]
    ]
  ]

  listing-KeepsPromise : (h : History) → KeepsPromise listing h (operate cloud wait times listing h)
  unfolding list_snapshots calls
  listing-KeepsPromise h =
      rw
        (
          laws.store.listed h,
          view-query snapshots_listed h refl,
          ← entries-lasting times (snapshots h),
        )
        (lists (view h))

  operate-KeepsPromise :
      (op : SnapshotOp) (h : History) → KeepsPromise op h (operate cloud wait times op h)
  operate-KeepsPromise (taking name volume) h = taking-KeepsPromise name volume h
  operate-KeepsPromise (dropping id) h = dropping-KeepsPromise id h
  operate-KeepsPromise listing h = listing-KeepsPromise h

  -- On a cloud that keeps snapshots, where no two snapshots of one volume have the same name: however
  -- often CreateSnapshot, DeleteSnapshot and ListSnapshots of all run one after the other, the answers
  -- and the snapshots but for their states are those that were promised, and the names stay distinct.
  pub snapshot_operate_all-refines :
      (ops : List SnapshotOp) (h : History)
      → IsDistinct (map lasting (snapshots h))
      → let (replies, after) = operate_all cloud wait times ops h in
        PromisedAll times ops (map lasting (snapshots h)) replies (map lasting (snapshots after))
        × IsDistinct (map lasting (snapshots after))
  unfolding operate_all
  snapshot_operate_all-refines [] h d = (nothing _, d)
  snapshot_operate_all-refines (op ∷ ops) h d =
      let step = operate-KeepsPromise op h in
      let (more, kept) =
        snapshot_operate_all-refines ops (operate cloud wait times op h).1
          (promised-IsDistinct step d) in
      (then op ops _ _ _ _ _ step more, kept)
