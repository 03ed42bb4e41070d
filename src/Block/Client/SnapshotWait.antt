-- ===== src/Block/Client/SnapshotWait.antt =====
-- driver/blockstorage/client.go: the wait WaitSnapshotReady.
use csi_bizflycloud.Base.{Bool, String, arith, false, refl, subst, sym, tally, true, ◌==◌, ◌∷◌, ◌≡◌}
use csi_bizflycloud.Base.Go.{GoError, Result, calls, err, ok}
use csi_bizflycloud.Wait.{Wait}
use csi_bizflycloud.Wait.Laws.{Polls-first, Polls-keeps, Polls-sound}
use csi_bizflycloud.Cloud.{Call, Cloud, History, Snapshot, snapshot_got}
use csi_bizflycloud.Block.Client.{
  disk_detach_backoff, is_ready, snapshot_available_status, wait_snapshot_ready,
}
use csi_bizflycloud.Block.Client.Waits.{polls-tally, renamed-ok}

-- The last call got the snapshot, and it was available.
pub record LastReady (cloud : Cloud) (id : String) (h : History) : Type 0 where
  pub before : History
  pub answer : Snapshot
  pub last : h ≡ snapshot_got id ∷ before
  pub got : cloud.on_snapshot_get before id ≡ ok answer
  pub ready : (answer.state == snapshot_available_status) ≡ true

module _ (cloud : Cloud) (id : String) where
  -- The answer that a snapshot is ready.
  ready_answer :
      (t h : History) (r : Result GoError Snapshot)
      → cloud.on_snapshot_get t id ≡ r
      → is_ready cloud id t ≡ (ok true, h)
      → LastReady cloud id h
  unfolding is_ready calls
  ready_answer t h (ok s) e p = record {
    before = t;
    answer = s;
    last = ground arith;
    got = e;
    ready = ground arith;
  }
  ready_answer t h (err x) e p = ground arith

  after-is_ready : (t : History) → (is_ready cloud id t).1 ≡ snapshot_got id ∷ t
  unfolding is_ready calls
  after-is_ready t = ground arith

module _ (cloud : Cloud) (wait : Wait) (id : String) (h : History) where
  -- A wait for a snapshot that succeeds ends with an answer that it is available.
  pub wait_snapshot_ready_sound :
      (wait_snapshot_ready cloud wait id h).0 ≡ ok tt
      → LastReady cloud id (wait_snapshot_ready cloud wait id h).1
  unfolding wait_snapshot_ready
  wait_snapshot_ready_sound e =
      let (t, p) = Polls-sound (wait.polls History _ _ h) (renamed-ok _ _ _ e) in
      ready_answer cloud id t _ _ refl p

  tally-wait_snapshot_ready :
      (p : Call → Bool)
      → p (snapshot_got id) ≡ false
      → tally p (wait_snapshot_ready cloud wait id h).1 ≡ tally p h
  unfolding wait_snapshot_ready
  tally-wait_snapshot_ready p quiet =
      polls-tally wait disk_detach_backoff _ _ (after-is_ready cloud id) h p quiet

  -- What each query keeps, the wait for a snapshot keeps.
  pub wait_snapshot_ready-keeps :
      (P : History → Type 0)
      → ((t : History) → P t → P (snapshot_got id ∷ t))
      → P h
      → P (wait_snapshot_ready cloud wait id h).1
  unfolding wait_snapshot_ready
  wait_snapshot_ready-keeps P keep =
      Polls-keeps P (λ t p. subst P (sym (after-is_ready cloud id t)) (keep t p))
        (wait.polls History disk_detach_backoff (is_ready cloud id) h)

  -- A snapshot that is available at once is waited for with one call.
  pub wait_snapshot_ready-now :
      (s : Snapshot)
      → cloud.on_snapshot_get h id ≡ ok s
      → (s.state == snapshot_available_status) ≡ true
      → wait_snapshot_ready cloud wait id h ≡ (ok tt, snapshot_got id ∷ h)
  unfolding wait_snapshot_ready is_ready calls
  wait_snapshot_ready-now s e a =
      let ready : is_ready cloud id h ≡ (ok true, snapshot_got id ∷ h) = rw (e, a) refl in
      rw (Polls-first ready (wait.polls History disk_detach_backoff (is_ready cloud id) h)) refl
