-- ===== src/Block/Controller/Guards.antt =====
-- driver/blockstorage/controller.go: the guards of the handlers, and the errors after them.
use csi_bizflycloud.Base.{
  Bool, Bool-cases, Option, String, false, inl, inr, is_empty, none, refl, some, subst, true, ◌≡◌,
}
use csi_bizflycloud.Base.Go.{
  Failure, Message, Result, aborted, already_exists, err, err-injective, error_of, fail_if,
  failed_precondition, internal, invalid_argument, not_found, ok, out_of_range, panicked, raw,
  status, unavailable, unimplemented, ◌>>◌,
}
use csi_bizflycloud.Base.Failure.{Fails, Fails-fail, Fails-then, Fails-wrap_err, fails_rules}
use csi_bizflycloud.Base.Answers.{IsHandled}
use csi_bizflycloud.Csi.{
  CapacityRange, CreateVolumeRequest, ExpandRequest, ListSnapshotsRequest, Mode, ValidateRequest,
}
use csi_bizflycloud.Wait.{Wait}
use csi_bizflycloud.Cloud.{Cloud, History}
use csi_bizflycloud.Block.Controller.Volumes.{RoundUp, Rpc, create_volume, delete_volume}
use csi_bizflycloud.Block.Controller.Publish.{
  controller_publish_volume, controller_unpublish_volume,
}
use csi_bizflycloud.Block.Controller.Snapshots.{
  Timestamps, create_snapshot, delete_snapshot, finish_snapshot, list_snapshots,
}
use csi_bizflycloud.Block.Controller.Queries.{
  controller_expand_volume, controller_get_volume, expand_in, get_capacity, list_volumes_rpc,
  over_limit, validate_volume_capabilities,
}
use csi_bizflycloud.Block.Controller.Service.{
  Request, asking_capacity, creating_snapshot, creating_volume, deleting_snapshot, deleting_volume,
  expanding, getting_volume, listing_snapshots, listing_volumes, publishing, serve, unpublishing,
  validating,
}
use csi_bizflycloud.Block.Controller.Later.{
  IsLater, detach_from-IsLater, forgive-IsLater, not_found_or_internal-IsLater,
  one_snapshot-IsLater, pick_snapshot-IsLater, publish-IsLater, reuse_or_create-IsLater,
}

-- InvalidArgument leaves the history as it was, and no failure is a panic or Unimplemented.
pub record IsEarly {A : Type 0} (m : Rpc A) : Type 0 where
  pub handled : Fails IsHandled m
  pub at : (h : History) (msg : Message) → (m h).0 ≡ err (status invalid_argument msg) → (m h).1 ≡ h

later-IsHandled : (e : Failure) → IsLater e → IsHandled e
later-IsHandled (raw x) l = tt
later-IsHandled panicked l = l
later-IsHandled (status unimplemented m) l = l
later-IsHandled (status invalid_argument m) l = tt
later-IsHandled (status not_found m) l = tt
later-IsHandled (status already_exists m) l = tt
later-IsHandled (status failed_precondition m) l = tt
later-IsHandled (status aborted m) l = tt
later-IsHandled (status out_of_range m) l = tt
later-IsHandled (status internal m) l = tt
later-IsHandled (status unavailable m) l = tt

later-IsEarly : {A : Type 0} (m : Rpc A) → Fails IsLater m → IsEarly m
later-IsEarly m f = record {
  handled = record { at = λ h x e. later-IsHandled x (f.at h x e) };
  at = λ h msg e. absurd (f.at h _ e);
}

guard-IsEarly :
    {A : Type 0} (b : Bool) (e : Failure) (k : Rpc A)
    → IsHandled e
    → IsEarly k
    → IsEarly (fail_if b e >> k)
unfolding ◌>>◌
guard-IsEarly true e k g h = record {
  handled = record { at = λ s x p. subst IsHandled (err-injective p) g };
  at = λ s msg p. refl;
}
guard-IsEarly false e k g h = record {
  handled = record { at = λ s x p. h.handled.at s x p };
  at = λ s msg p. h.at s msg p;
}

early_error :
    {A : Type 0} (m : Rpc A) (h : History) (msg : Message)
    → IsEarly m
    → error_of (m h).0 ≡ some (status invalid_argument msg)
    → (m h).1 ≡ h
early_error m h msg early e = early.at h msg (of_error (m h).0 e)
  where
    of_error : {A : Type 0} (r : Result Failure A) {x : Failure} → error_of r ≡ some x → r ≡ err x
    of_error (ok a) p = cc
    of_error (err y) p = cc

module _ (cloud : Cloud) (wait : Wait) (times : Timestamps) (round_up : RoundUp) where
  pub create_volume-IsEarly : (r : CreateVolumeRequest) → IsEarly (create_volume cloud round_up r)
  unfolding create_volume
  create_volume-IsEarly r =
      guard-IsEarly _ _ _ tt
        (guard-IsEarly _ _ _ tt (later-IsEarly _ (search (fails_rules, reuse_or_create-IsLater))))

  pub publish-IsEarly :
      (v server : String) → IsEarly (controller_publish_volume cloud wait v server)
  unfolding controller_publish_volume
  publish-IsEarly v server = guard-IsEarly _ _ _ tt (
      guard-IsEarly _ _ _ tt (
        later-IsEarly _ (
          Fails-then IsLater _ _ (Fails-wrap_err IsLater _ _ (not_found_or_internal-IsLater _ _))
            (publish-IsLater cloud wait v server))))

  pub unpublish-IsEarly :
      (v server : String) → IsEarly (controller_unpublish_volume cloud wait v server)
  unfolding controller_unpublish_volume
  unpublish-IsEarly v server =
      guard-IsEarly _ _ _ tt (later-IsEarly _ (search (fails_rules, detach_from-IsLater)))

  pub create_snapshot-IsEarly :
      (name v : String) → IsEarly (create_snapshot cloud wait times name v)
  unfolding create_snapshot finish_snapshot
  create_snapshot-IsEarly name v =
      guard-IsEarly _ _ _ tt
        (guard-IsEarly _ _ _ tt (later-IsEarly _ (search (fails_rules, pick_snapshot-IsLater, tt))))

  pub expand-IsEarly : (r : ExpandRequest) → IsEarly (controller_expand_volume cloud round_up r)
  unfolding controller_expand_volume
  expand-IsEarly r = guard-IsEarly _ _ _ tt (ranged r.capacity_range)
    where
      ranged : (o : Option CapacityRange) → IsEarly (expand_in cloud round_up r.volume_id o)
      ranged none = record { handled = Fails-fail IsHandled _ tt; at = λ h msg e. refl }
      ranged (some range) = guard-range (over_limit range)
        where
          guard-range : Bool → IsEarly (expand_in cloud round_up r.volume_id (some range))
          guard-range b =
              guard-IsEarly _ _ _ tt
                (later-IsEarly _ (search (fails_rules, not_found_or_internal-IsLater, tt)))

  pub list_snapshots-IsEarly : (r : ListSnapshotsRequest) → IsEarly (list_snapshots cloud times r)
  unfolding list_snapshots
  list_snapshots-IsEarly r = elim (Bool-cases (is_empty r.snapshot_id)) [
    | inl b ↦ rw b (later-IsEarly _ (search (fails_rules, tt)))
    | inr b ↦ rw b (later-IsEarly _ (search (fails_rules, one_snapshot-IsLater)))
  ]

  pub delete_volume-IsEarly : (v : String) → IsEarly (delete_volume cloud v)
  unfolding delete_volume
  delete_volume-IsEarly v =
      guard-IsEarly _ _ _ tt (later-IsEarly _ (search (fails_rules, forgive-IsLater)))

  pub delete_snapshot-IsEarly : (i : String) → IsEarly (delete_snapshot cloud i)
  unfolding delete_snapshot
  delete_snapshot-IsEarly i =
      guard-IsEarly _ _ _ tt (later-IsEarly _ (search (fails_rules, forgive-IsLater)))

  pub list_volumes-IsEarly : IsEarly (list_volumes_rpc cloud)
  unfolding list_volumes_rpc
  list_volumes-IsEarly = later-IsEarly (list_volumes_rpc cloud) (search (fails_rules, tt))

  pub validate-IsEarly :
      (mode : Mode) (r : ValidateRequest) → IsEarly (validate_volume_capabilities cloud mode r)
  unfolding validate_volume_capabilities
  validate-IsEarly mode r = guard-IsEarly _ _ _ tt (
      guard-IsEarly _ _ _ tt
        (later-IsEarly _ (search (fails_rules, not_found_or_internal-IsLater))))

  pub get_volume-IsEarly : (v : String) → IsEarly (controller_get_volume cloud v)
  unfolding controller_get_volume
  get_volume-IsEarly v =
      guard-IsEarly _ _ _ tt (later-IsEarly _ (search (fails_rules, not_found_or_internal-IsLater)))

  -- Whatever the request and the answers of the API, InvalidArgument is answered only where no call
  -- was made.
  pub serve-invalid_argument :
      (mode : Mode) (r : Request) (h : History) (msg : Message)
      → (serve cloud wait times round_up mode r h).0 ≡ some (status invalid_argument msg)
      → (serve cloud wait times round_up mode r h).1 ≡ h
  unfolding serve get_capacity
  serve-invalid_argument mode (creating_volume r) h msg e =
      early_error _ h msg (create_volume-IsEarly r) e
  serve-invalid_argument mode (deleting_volume v) h msg e =
      early_error _ h msg (delete_volume-IsEarly v) e
  serve-invalid_argument mode (publishing v s) h msg e = early_error _ h msg (publish-IsEarly v s) e
  serve-invalid_argument mode (unpublishing v s) h msg e =
      early_error _ h msg (unpublish-IsEarly v s) e
  serve-invalid_argument mode listing_volumes h msg e = early_error _ h msg list_volumes-IsEarly e
  serve-invalid_argument mode (creating_snapshot name v) h msg e =
      early_error _ h msg (create_snapshot-IsEarly name v) e
  serve-invalid_argument mode (deleting_snapshot i) h msg e =
      early_error _ h msg (delete_snapshot-IsEarly i) e
  serve-invalid_argument mode (listing_snapshots r) h msg e =
      early_error _ h msg (list_snapshots-IsEarly r) e
  serve-invalid_argument mode (validating r) h msg e =
      early_error _ h msg (validate-IsEarly mode r) e
  serve-invalid_argument mode asking_capacity h msg e = refl
  serve-invalid_argument mode (expanding r) h msg e = early_error _ h msg (expand-IsEarly r) e
  serve-invalid_argument mode (getting_volume v) h msg e =
      early_error _ h msg (get_volume-IsEarly v) e
