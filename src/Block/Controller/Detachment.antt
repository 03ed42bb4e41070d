-- ===== src/Block/Controller/Detachment.antt =====
-- driver/blockstorage/controller.go, ControllerUnpublishVolume.
use csi_bizflycloud.Base.{
  Bool-cases, List, String, arith, false, head?, inl, inr, is_empty, refl, true, ◌∷◌, ◌≡◌,
}
use csi_bizflycloud.Base.Go.{
  Failure, GoError, Result, as_status, calls, err, err_not_found, errors_is, internal, ok,
}
use csi_bizflycloud.Wait.{Wait}
use csi_bizflycloud.Cloud.{Cloud, History, server_got, volume_detached, volume_got}
use csi_bizflycloud.Block.Client.{first_is, wait_disk_detached}
use csi_bizflycloud.Block.Client.Waits.{LastSaw, wait_disk_detached-gone, wait_disk_detached_sound}
use csi_bizflycloud.Block.Controller.Volumes.{forgive_not_found}
use csi_bizflycloud.Block.Controller.Publish.{
  after_detach, controller_unpublish_volume, detach_from, volume_in_server,
}

-- How an unpublication that succeeds has ended: the server or the volume is not there, the server
-- does not list the volume, or Detach was called and the wait saw no attachment or no volume.
pub data Settled (cloud : Cloud) (volume server : String) (h h' : History) : Type 0 where
  no_server :
      (e : GoError)
      → cloud.on_server_get h server ≡ err e
      → errors_is e err_not_found ≡ true
      → h' ≡ server_got server ∷ h
      → Settled cloud volume server h h'
  not_attached :
      (attached : List String)
      → cloud.on_server_get h server ≡ ok attached
      → volume_in_server volume attached ≡ false
      → h' ≡ server_got server ∷ h
      → Settled cloud volume server h h'
  no_volume :
      (e : GoError)
      → cloud.on_volume_detach (server_got server ∷ h) volume server ≡ err e
      → errors_is e err_not_found ≡ true
      → h' ≡ volume_detached volume server ∷ server_got server ∷ h
      → Settled cloud volume server h h'
  seen_detached :
      LastSaw cloud volume (λ v. first_is server (head? v.attachments) ≡ false) h'
      → Settled cloud volume server h h'
  seen_gone :
      (t : History) (e : GoError)
      → cloud.on_volume_get t volume ≡ err e
      → errors_is e err_not_found ≡ true
      → h' ≡ volume_got volume ∷ t
      → Settled cloud volume server h h'

abbrev detach_failed : GoError → Failure
detach_failed = as_status internal "ControllerUnpublishVolume Detach Volume failed with error %v"

abbrev wait_failed : GoError → Failure
wait_failed = as_status internal "ControllerUnpublishVolume failed with error %v"

forgiven :
    (failure : GoError → Failure) (e : GoError) (h : History)
    → (forgive_not_found failure (err e) h).0 ≡ ok tt
    → errors_is e err_not_found ≡ true
forgiven failure e h p = ground arith

forgive_keeps :
    (failure : GoError → Failure) (r : Result GoError (Unit {0})) (h : History)
    → (forgive_not_found failure r h).1 ≡ h
forgive_keeps failure (ok u) h = refl
forgive_keeps failure (err e) h = ground arith

module _ (cloud : Cloud) (wait : Wait) (volume server : String) where
  after_wait :
      (h s : History) (r : Result GoError (Unit {0}))
      → (wait_disk_detached cloud wait server volume s).0 ≡ r
      → (forgive_not_found wait_failed r (wait_disk_detached cloud wait server volume s).1).0
        ≡ ok tt
      → Settled cloud volume server h (wait_disk_detached cloud wait server volume s).1
  after_wait h s (ok tt) e f = seen_detached (wait_disk_detached_sound cloud wait server volume s e)
  after_wait h s (err x) e f =
      let known = forgiven wait_failed x _ f in
      let (t, got, last) = wait_disk_detached-gone cloud wait server volume s x e known in
      seen_gone t x got known last

  after_call :
      (h : History) (r : Result GoError (Unit {0}))
      → cloud.on_volume_detach (server_got server ∷ h) volume server ≡ r
      → let s = volume_detached volume server ∷ server_got server ∷ h in
        (after_detach cloud wait volume server r s).0 ≡ ok tt
        → Settled cloud volume server h (after_detach cloud wait volume server r s).1
  unfolding calls
  after_call h (ok u) e f = rw forgive_keeps (after_wait h _ _ refl f)
  after_call h (err x) e f =
      no_volume x e (forgiven detach_failed x _ f) (forgive_keeps detach_failed (err x) _)

  after_query :
      (h : History) (r : Result GoError (List String))
      → cloud.on_server_get h server ≡ r
      → (detach_from cloud wait volume server r (server_got server ∷ h)).0 ≡ ok tt
      → Settled cloud volume server h
          (detach_from cloud wait volume server r (server_got server ∷ h)).1
  unfolding calls
  after_query h (ok attached) e f = elim (Bool-cases (volume_in_server volume attached)) [
    | inl b ↦ rw b (after_call h _ refl (rw b at f))
    | inr b ↦ rw b (not_attached attached e b refl)
  ]
  after_query h (err x) e f = elim (Bool-cases (errors_is x err_not_found)) [
    | inl b ↦ rw b (no_server x e b refl)
    | inr b ↦ cc (rw b at f)
  ]

  -- An unpublication that succeeds has found no server, a server that does not list the
  -- volume, or no volume at Detach; or it ends with a query that shows no volume, or a volume
  -- whose first attachment is not to the server.
  pub controller_unpublish-Settled :
      (h : History)
      → (controller_unpublish_volume cloud wait volume server h).0 ≡ ok tt
      → Settled cloud volume server h (controller_unpublish_volume cloud wait volume server h).1
  unfolding controller_unpublish_volume calls
  controller_unpublish-Settled h e = elim (Bool-cases (is_empty volume)) [
    | inl b ↦ cc (rw b at e)
    | inr b ↦ rw b (after_query h _ refl (rw b at e))
  ]
