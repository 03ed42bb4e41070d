-- ===== src/Block/Controller/Later.antt =====
-- driver/blockstorage/controller.go: the errors that the handlers answer after their guards.
use csi_bizflycloud.Base.{Bool, Bool-cases, List, String, [], false, inl, inr, true, ◌==◌, ◌∷◌}
use csi_bizflycloud.Base.Int.{eqℤ, ℤ}
use csi_bizflycloud.Base.Go.{
  Failure, GoError, Result, as_status, err, err_not_found, errors_is, format, internal,
  invalid_argument, ok, panicked, raw, status, unimplemented, wrap_err, ◌>>=◌,
}
use csi_bizflycloud.Base.Failure.{
  Fails, Fails-bind, Fails-fail, Fails-pure, Fails-wrap_err, fails_rules,
}
use csi_bizflycloud.Csi.{CsiSnapshot}
use csi_bizflycloud.Wait.{Wait}
use csi_bizflycloud.Cloud.{Cloud, Snapshot, Volume, VolumeCreateRequest, get_server}
use csi_bizflycloud.Block.Controller.Volumes.{forgive_not_found, reuse_or_create}
use csi_bizflycloud.Block.Controller.Publish.{
  after_detach, attach_and_find, detach_from, detach_if, not_found_or_internal, volume_in_server,
}
use csi_bizflycloud.Block.Controller.Snapshots.{
  Timestamps, one_snapshot, pick_snapshot, snapshot_entry, stamped,
}

-- A failure that is neither InvalidArgument nor Unimplemented, and no panic.
abbrev pub IsLater : Failure → Type 0
IsLater (status invalid_argument m) = ⊥
IsLater (raw e) = Unit
IsLater panicked = ⊥
IsLater (status unimplemented m) = ⊥
IsLater (status _ m) = Unit

pub not_found_or_internal-IsLater :
    (missing other : String) (e : GoError) → IsLater (not_found_or_internal missing other e)
not_found_or_internal-IsLater missing other e = elim (Bool-cases (errors_is e err_not_found)) [
  | inl b ↦ rw b tt
  | inr b ↦ rw b tt
]

pub forgive-IsLater :
    (text : String) (r : Result GoError (Unit {0}))
    → Fails IsLater (forgive_not_found (as_status internal text) r)
forgive-IsLater text (ok u) = Fails-pure IsLater tt
forgive-IsLater text (err e) = elim (Bool-cases (errors_is e err_not_found)) [
  | inl b ↦ rw b (Fails-pure IsLater tt)
  | inr b ↦ rw b (Fails-fail IsLater (status internal (format text)) tt)
]

module _ (cloud : Cloud) (wait : Wait) (volume server : String) where
  attach-IsLater : (b : Bool) → Fails IsLater (attach_and_find cloud wait b volume server)
  unfolding attach_and_find
  attach-IsLater true = search (fails_rules, tt)
  attach-IsLater false = search (fails_rules, tt)

  pub publish-IsLater : Fails IsLater (
      wrap_err
        (not_found_or_internal "ControllerPublishVolume Instance not found"
          "ControllerPublishVolume GetInstanceByID failed with error %v")
        (get_server cloud server)
      >>= λ attached. attach_and_find cloud wait (volume_in_server volume attached) volume server)
  publish-IsLater =
      Fails-bind IsLater _ _ (Fails-wrap_err IsLater _ _ (not_found_or_internal-IsLater _ _))
        (λ attached. attach-IsLater (volume_in_server volume attached))

  after_detach-IsLater :
      (r : Result GoError (Unit {0})) → Fails IsLater (after_detach cloud wait volume server r)
  after_detach-IsLater (ok u) = search (fails_rules, forgive-IsLater)
  after_detach-IsLater (err e) = forgive-IsLater _ (err e)

  detach_if-IsLater : (b : Bool) → Fails IsLater (detach_if cloud wait b volume server)
  detach_if-IsLater false = Fails-pure IsLater tt
  detach_if-IsLater true = search (fails_rules, after_detach-IsLater)

  pub detach_from-IsLater :
      (r : Result GoError (List String)) → Fails IsLater (detach_from cloud wait volume server r)
  detach_from-IsLater (ok attached) = detach_if-IsLater (volume_in_server volume attached)
  detach_from-IsLater (err e) = elim (Bool-cases (errors_is e err_not_found)) [
    | inl b ↦ rw b (Fails-pure IsLater tt)
    | inr b ↦ rw b (Fails-fail IsLater _ tt)
  ]

module _ (cloud : Cloud) where
  pub reuse_or_create-IsLater :
      (vcr : VolumeCreateRequest) (r : Result GoError Volume)
      → Fails IsLater (reuse_or_create cloud vcr r)
  reuse_or_create-IsLater vcr (ok v) = elim (Bool-cases (eqℤ vcr.size v.size)) [
    | inl b ↦ rw b (Fails-pure IsLater _)
    | inr b ↦ rw b (Fails-fail IsLater _ tt)
  ]
  reuse_or_create-IsLater vcr (err e) = search (fails_rules, tt)

  pub pick_snapshot-IsLater :
      (name volume : String) (r : Result GoError (List Snapshot))
      → Fails IsLater (pick_snapshot cloud name volume r)
  pick_snapshot-IsLater name volume (ok []) = search (fails_rules, tt)
  pick_snapshot-IsLater name volume (ok (s ∷ [])) = elim (Bool-cases (s.volume_id == volume)) [
    | inl b ↦ rw b (Fails-pure IsLater _)
    | inr b ↦ rw b (Fails-fail IsLater _ tt)
  ]
  pick_snapshot-IsLater name volume (ok (s ∷ t ∷ more)) = Fails-fail IsLater _ tt
  pick_snapshot-IsLater name volume (err e) = search (fails_rules, tt)

stamped-IsLater : (o : Result GoError ℤ) (entry : CsiSnapshot) → Fails IsLater (stamped o entry)
stamped-IsLater (ok t) entry = Fails-pure IsLater _
stamped-IsLater (err e) entry = Fails-fail IsLater _ tt

pub one_snapshot-IsLater :
    (cloud : Cloud) (times : Timestamps) (x : Result GoError Snapshot)
    → Fails IsLater (one_snapshot cloud times x)
one_snapshot-IsLater cloud times (err e) = Fails-pure IsLater _
one_snapshot-IsLater cloud times (ok s) =
    stamped-IsLater (times s.create_at) (snapshot_entry times s)
