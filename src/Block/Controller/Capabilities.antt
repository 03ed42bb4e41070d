-- ===== src/Block/Controller/Capabilities.antt =====
-- driver/blockstorage/controller.go and driver.go: the capabilities that the driver gives, and what the
-- handlers of the controller answer.
use csi_bizflycloud.Base.{Bool, Option, String, any, false, nat_eq, none, some, true, ℕ, ◌≡◌, ◌≢◌}
use csi_bizflycloud.Base.Go.{panicked}
use csi_bizflycloud.Base.Answers.{IsServed, handled-IsServed, is_unimplemented}
use csi_bizflycloud.Csi.{Mode}
use csi_bizflycloud.Wait.{Wait}
use csi_bizflycloud.Cloud.{Cloud, History}
use csi_bizflycloud.Block.Driver.{VolumeDriver, controller_get_capabilities, new_driver}
use csi_bizflycloud.Block.Controller.Volumes.{RoundUp, Rpc}
use csi_bizflycloud.Block.Controller.Snapshots.{Timestamps}
use csi_bizflycloud.Block.Controller.Service.{
  Request, answer, asking_capacity, creating_snapshot, creating_volume, deleting_snapshot,
  deleting_volume, expanding, getting_volume, listing_snapshots, listing_volumes, publishing, serve,
  unpublishing, validating,
}
use csi_bizflycloud.Block.Controller.Guards.{
  IsEarly, create_snapshot-IsEarly, create_volume-IsEarly, delete_snapshot-IsEarly,
  delete_volume-IsEarly, expand-IsEarly, get_volume-IsEarly, list_snapshots-IsEarly,
  list_volumes-IsEarly, publish-IsEarly, unpublish-IsEarly, validate-IsEarly,
}

-- The capability of the protocol, by its number, that a request needs; `none` is a request that every
-- controller has to serve.
abbrev needs : Request → Option ℕ
needs (creating_volume r) = some 1
needs (deleting_volume v) = some 1
needs (publishing v server) = some 2
needs (unpublishing v server) = some 2
needs listing_volumes = some 3
needs asking_capacity = some 4
needs (creating_snapshot name v) = some 5
needs (deleting_snapshot i) = some 5
needs (listing_snapshots r) = some 6
needs (validating r) = none
needs (expanding r) = some 9
needs (getting_volume v) = some 12

-- The driver gives the capability that the request needs, if it needs one.
abbrev pub is_offered : VolumeDriver → Request → Bool
is_offered d r = elim (needs r) [
  | none ↦ true
  | some c ↦ any (λ x. nat_eq x c) (controller_get_capabilities d)
]

module _ (cloud : Cloud) (wait : Wait) (times : Timestamps) (round_up : RoundUp) where
  answered : {A : Type 0} (m : Rpc A) (h : History) → IsEarly m → IsServed (answer m h).0
  answered m h early = handled-IsServed (m h).0 (λ e p. early.handled.at h e p)

  -- Every request that needs a capability which a new driver gives, or none, is answered neither as
  -- unimplemented nor by a panic.
  pub serve-offered :
      (endpoint cluster : String) (mode : Mode) (r : Request) (h : History)
      → is_offered (new_driver endpoint cluster) r ≡ true
      → (is_unimplemented (serve cloud wait times round_up mode r h).0 ≡ false)
        × ((serve cloud wait times round_up mode r h).0 ≢ some panicked)
  unfolding serve new_driver
  serve-offered endpoint cluster mode (creating_volume r) h o =
      answered _ h (create_volume-IsEarly cloud wait times round_up r)
  serve-offered endpoint cluster mode (deleting_volume v) h o =
      answered _ h (delete_volume-IsEarly cloud wait times round_up v)
  serve-offered endpoint cluster mode (publishing v s) h o =
      answered _ h (publish-IsEarly cloud wait times round_up v s)
  serve-offered endpoint cluster mode (unpublishing v s) h o =
      answered _ h (unpublish-IsEarly cloud wait times round_up v s)
  serve-offered endpoint cluster mode listing_volumes h o =
      answered _ h (list_volumes-IsEarly cloud wait times round_up)
  serve-offered endpoint cluster mode (creating_snapshot name v) h o =
      answered _ h (create_snapshot-IsEarly cloud wait times round_up name v)
  serve-offered endpoint cluster mode (deleting_snapshot i) h o =
      answered _ h (delete_snapshot-IsEarly cloud wait times round_up i)
  serve-offered endpoint cluster mode (listing_snapshots r) h o =
      answered _ h (list_snapshots-IsEarly cloud wait times round_up r)
  serve-offered endpoint cluster mode (validating r) h o =
      answered _ h (validate-IsEarly cloud wait times round_up mode r)
  serve-offered endpoint cluster mode asking_capacity h o = cc
  serve-offered endpoint cluster mode (expanding r) h o =
      answered _ h (expand-IsEarly cloud wait times round_up r)
  serve-offered endpoint cluster mode (getting_volume v) h o =
      answered _ h (get_volume-IsEarly cloud wait times round_up v)
