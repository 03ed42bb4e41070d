-- ===== src/Share/Controller/Service/Capabilities.antt =====
-- driver/filestorage/controllerserver.go and driver.go: the capabilities that the controller gives, and
-- what its handlers answer.
use csi_bizflycloud.Base.{Bool, List, String, any, nat_eq, none, not, refl, some, true, ◌≡◌, ◌≢◌}
use csi_bizflycloud.Base.Go.{GoError, Result, calls, err, ok, panicked, pure, wrap_err, ◌>>◌}
use csi_bizflycloud.Base.Post.{Keeps, keeps_rules}
use csi_bizflycloud.Base.Failure.{Fails}
use csi_bizflycloud.Base.Answers.{IsHandled, IsServed, handled-IsServed, is_unimplemented}
use csi_bizflycloud.Csi.{ValidateRequest}
use csi_bizflycloud.Wait.{Wait}
use csi_bizflycloud.Share.Api.{FileStorage}
use csi_bizflycloud.Share.Util.{
  validate_delete_volume_request, validate_validate_volume_capabilities_request,
}
use csi_bizflycloud.Share.Shares.{get_share_by_id}
use csi_bizflycloud.Share.Controller.Pending.{World, on_calls}
use csi_bizflycloud.Share.Controller.Volumes.{
  Rpc, delete_volume, not_found_or_internal, validate_volume_capabilities, validated, validation,
}
use csi_bizflycloud.Share.Controller.Creation.{create_volume-pending, keys_kept}
use csi_bizflycloud.Share.Controller.Expansion.{controller_expand-pending}
use csi_bizflycloud.Share.Controller.NoPanic.{
  controller_expand-IsHandled, create_volume-IsHandled, delete_volume-IsHandled, validate-IsHandled,
}
use csi_bizflycloud.Share.Controller.Service.{
  Request, answer, asking_capacity, controller_get_capabilities, creating_snapshot, creating_volume,
  deleting_snapshot, deleting_volume, expanding, getting_capabilities, getting_volume,
  listing_snapshots, listing_volumes, needs, publishing, serve, unpublishing, validating,
}
use csi_bizflycloud.Share.Driver.{controller_capabilities}

-- The controller gives the capability that the request needs, if it needs one.
abbrev pub is_offered : Request → Bool
is_offered r = elim (needs r) [
  | none ↦ true
  | some c ↦ any (λ d. nat_eq d c) controller_capabilities
]

validated-pending :
    {A : Type 0} (r : Result GoError (Unit {0})) (m : Rpc A) (w : World)
    → (m w).1.pending ≡ w.pending
    → (validated r m w).1.pending ≡ w.pending
validated-pending (ok u) m w h = h
validated-pending (err e) m w h = refl

module _ (api : FileStorage) (wait : Wait) (proto : String) where
  answer-IsServed :
      {A : Type 0} (m : Rpc A) (w : World) → Fails IsHandled m → IsServed (answer m w).0
  answer-IsServed m w f = handled-IsServed (m w).0 (λ e p. f.at w e p)

  -- Every request is answered: as unimplemented exactly where the controller does not give the
  -- capability that it needs, and never by a panic.
  pub serve-unimplemented :
      (r : Request) (w : World)
      → (is_unimplemented (serve api wait proto r w).0 ≡ not (is_offered r))
        × ((serve api wait proto r w).0 ≢ some panicked)
  unfolding serve controller_get_capabilities
  serve-unimplemented (creating_volume r) w =
      answer-IsServed _ w (create_volume-IsHandled api wait proto r)
  serve-unimplemented (deleting_volume v) w =
      answer-IsServed _ w (delete_volume-IsHandled api wait v)
  serve-unimplemented (validating r) w = answer-IsServed _ w (validate-IsHandled api wait r)
  serve-unimplemented (expanding r) w = answer-IsServed _ w (controller_expand-IsHandled api wait r)
  serve-unimplemented getting_capabilities w = (refl, λ e. cc)
  serve-unimplemented publishing w = (refl, λ e. cc)
  serve-unimplemented unpublishing w = (refl, λ e. cc)
  serve-unimplemented listing_volumes w = (refl, λ e. cc)
  serve-unimplemented asking_capacity w = (refl, λ e. cc)
  serve-unimplemented creating_snapshot w = (refl, λ e. cc)
  serve-unimplemented deleting_snapshot w = (refl, λ e. cc)
  serve-unimplemented listing_snapshots w = (refl, λ e. cc)
  serve-unimplemented getting_volume w = (refl, λ e. cc)

  found-Keeps :
      (ks : List String) (req : ValidateRequest)
      → Keeps
          (λ w. w.pending ≡ ks)
          (wrap_err not_found_or_internal (on_calls (get_share_by_id api req.volume_id))
            >> pure (validation req.volume_capabilities))
  found-Keeps ks req = search (keeps_rules, keys_kept)

  -- After every request the names and the ids that are pending are those of before, whatever it answers.
  pub serve-pending : (r : Request) (w : World) → (serve api wait proto r w).1.pending ≡ w.pending
  unfolding serve controller_get_capabilities delete_volume validate_volume_capabilities calls
  serve-pending (creating_volume r) w = create_volume-pending api wait proto r w
  serve-pending (deleting_volume v) w =
      validated-pending (validate_delete_volume_request v) _ w refl
  serve-pending (validating r) w =
      validated-pending (validate_validate_volume_capabilities_request r) _ w
        ((found-Keeps w.pending r).at w refl)
  serve-pending (expanding r) w = controller_expand-pending api wait r w
  serve-pending getting_capabilities w = refl
  serve-pending publishing w = refl
  serve-pending unpublishing w = refl
  serve-pending listing_volumes w = refl
  serve-pending asking_capacity w = refl
  serve-pending creating_snapshot w = refl
  serve-pending deleting_snapshot w = refl
  serve-pending listing_snapshots w = refl
  serve-pending getting_volume w = refl
