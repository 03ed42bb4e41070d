-- ===== src/Block/Controller/Promises.antt =====
-- driver/blockstorage/controller.go: what CreateVolume, DeleteVolume and ControllerExpandVolume promise,
-- as steps of a map from names to volumes, and the handlers as they run one after the other.
pub mod Refinement
use csi_bizflycloud.Base.{List, String, [], none, some, ◌∷◌, ◌≡◌, ◌≢◌}
use csi_bizflycloud.Base.Int.{gib}
use csi_bizflycloud.Base.Go.{
  Failure, Message, Result, already_exists, err, internal, invalid_argument, ok, status,
}
use csi_bizflycloud.Csi.{
  CapacityRange, CreateVolumeRequest, CsiVolume, ExpandRequest, ExpandResponse,
}
use csi_bizflycloud.Cloud.{Cloud, History, Volume}
use csi_bizflycloud.Cloud.Views.{Registry, forgotten, resized, updated}
use csi_bizflycloud.Block.Controller.Volumes.{
  RoundUp, Rpc, create_volume, delete_volume, get_create_volume_response, volume_request,
}
use csi_bizflycloud.Block.Controller.Queries.{controller_expand_volume}

pub data VolumeOp : Type 0 where
  creating : CreateVolumeRequest → VolumeOp
  deleting : String → VolumeOp
  expanding : ExpandRequest → VolumeOp

pub data Reply : Type 0 where
  created : Result Failure CsiVolume → Reply
  deleted : Result Failure (Unit {0}) → Reply
  expanded : Result Failure ExpandResponse → Reply

-- The promise. A creation answers the volume of the name if it has the size, and refuses if it has
-- another; it makes a new one only where the name is free. A deletion leaves no volume of the id. An
-- expansion sets the size of the volume of the id. A failure of any of them changes nothing.
pub data Promised (round_up : RoundUp) : VolumeOp → Registry → Reply → Registry → Type 0 where
  reuses :
      (req : CreateVolumeRequest) (a : Registry) (v : Volume)
      → a req.name ≡ some v
      → v.size ≡ (volume_request round_up req).size
      → Promised round_up (creating req) a (created (ok (get_create_volume_response v))) a
  makes :
      (req : CreateVolumeRequest) (a : Registry) (v : Volume)
      → a req.name ≡ none
      → v.name ≡ req.name
      → v.size ≡ (volume_request round_up req).size
      → Promised round_up
          (creating req)
          a
          (created (ok (get_create_volume_response v)))
          (updated v a)
  conflicts :
      (req : CreateVolumeRequest) (a : Registry) (v : Volume) (m : Message)
      → a req.name ≡ some v
      → v.size ≢ (volume_request round_up req).size
      → Promised round_up (creating req) a (created (err (status already_exists m))) a
  creation_fails :
      (req : CreateVolumeRequest) (a : Registry) (m : Message)
      → a req.name ≡ none
      → Promised round_up (creating req) a (created (err (status internal m))) a
  creation_invalid :
      (req : CreateVolumeRequest) (a : Registry) (m : Message)
      → Promised round_up (creating req) a (created (err (status invalid_argument m))) a
  deletes :
      (id : String) (a : Registry)
      → Promised round_up (deleting id) a (deleted (ok tt)) (forgotten id a)
  deletion_fails :
      (id : String) (a : Registry) (f : Failure)
      → Promised round_up (deleting id) a (deleted (err f)) a
  expands :
      (req : ExpandRequest) (a : Registry) (range : CapacityRange) (v : Volume)
      (resp : ExpandResponse)
      → req.capacity_range ≡ some range
      → a v.name ≡ some v
      → v.id ≡ req.volume_id
      → Promised round_up
          (expanding req)
          a
          (expanded (ok resp))
          (resized req.volume_id (round_up range.required_bytes gib) a)
  expansion_fails :
      (req : ExpandRequest) (a : Registry) (f : Failure)
      → Promised round_up (expanding req) a (expanded (err f)) a

-- The promise for operations one after the other.
pub data PromisedAll (round_up : RoundUp)
    : List VolumeOp → Registry → List Reply → Registry → Type 0 where
  nothing : (a : Registry) → PromisedAll round_up [] a [] a
  then :
      (op : VolumeOp) (ops : List VolumeOp) (reply : Reply) (replies : List Reply)
      (a b c : Registry)
      → Promised round_up op a reply b
      → PromisedAll round_up ops b replies c
      → PromisedAll round_up (op ∷ ops) a (reply ∷ replies) c

module _ (cloud : Cloud) (round_up : RoundUp) where
  abbrev pub replied : {A : Type 0} → (Result Failure A → Reply) → Rpc A → History → Reply × History
  replied f m h = (f (m h).0, (m h).1)

  abbrev pub operate : VolumeOp → History → Reply × History
  operate (creating req) = replied created (create_volume cloud round_up req)
  operate (deleting id) = replied deleted (delete_volume cloud id)
  operate (expanding req) = replied expanded (controller_expand_volume cloud round_up req)

  unfoldable pub operate_all : List VolumeOp → History → List Reply × History
  operate_all [] h = ([], h)
  operate_all (op ∷ ops) h =
      let (reply, h1) = operate op h in
      let (replies, h2) = operate_all ops h1 in (reply ∷ replies, h2)
