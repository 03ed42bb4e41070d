-- ===== src/Csi.antt =====
-- The messages of the CSI specification that the drivers read and write: the fields in use. A
-- nil pointer or slice is `none`; a nil map and an empty one read the same.
use csi_bizflycloud.Base.{Bool, Dict, List, Option, String, nat_eq, none, some, ℕ}
use csi_bizflycloud.Base.Int.{ℤ}

-- csi.VolumeCapability_AccessMode_Mode
pub data Mode : Type 0 where
  unknown single_node_writer single_node_reader_only multi_node_reader_only : Mode
  multi_node_single_writer multi_node_multi_writer : Mode
  single_node_single_writer single_node_multi_writer : Mode

-- The number of a mode in the protocol.
abbrev pub number : Mode → ℕ
number unknown = 0
number single_node_writer = 1
number single_node_reader_only = 2
number multi_node_reader_only = 3
number multi_node_single_writer = 4
number multi_node_multi_writer = 5
number single_node_single_writer = 6
number single_node_multi_writer = 7

-- `==` of two modes.
abbrev pub mode_eq : Mode → Mode → Bool
mode_eq a b = nat_eq (number a) (number b)

-- The access type of a capability: a mount with its file system and flags, a block device, or
-- none that is set.
pub data AccessType : Type 0 where
  mount : String → List String → AccessType
  block no_access_type : AccessType

pub record VolumeCapability : Type 0 where
  pub access_mode : Option Mode
  pub access_type : AccessType

-- `cap.GetAccessMode().GetMode()`
abbrev pub get_mode : VolumeCapability → Mode
get_mode c = elim c.access_mode [ none ↦ unknown | some m ↦ m ]

pub record CapacityRange : Type 0 where
  pub required_bytes : ℤ
  pub limit_bytes : ℤ

-- `req.GetCapacityRange().GetRequiredBytes()`, 0 for no range.
abbrev pub required_of : Option CapacityRange → ℤ
required_of none = ℤ.pos 0
required_of (some r) = r.required_bytes

-- Each topology is its map of segments.
pub record TopologyRequirement : Type 0 where
  pub preferred : List (Dict String)
  pub requisite : List (Dict String)

-- Where a volume's content comes from.
pub data ContentSource : Type 0 where
  of_snapshot : String → ContentSource
  of_volume : String → ContentSource

pub record CreateVolumeRequest : Type 0 where
  pub name : String
  pub capacity_range : Option CapacityRange
  pub volume_capabilities : Option (List VolumeCapability)
  pub parameters : Dict String
  pub content_source : Option ContentSource
  pub accessibility_requirements : Option TopologyRequirement

-- csi.Volume
pub record CsiVolume : Type 0 where
  pub volume_id : String
  pub capacity_bytes : ℤ
  pub volume_context : Dict String
  pub accessible_topology : List (Dict String)
  pub content_source : Option ContentSource

pub record ExpandRequest : Type 0 where
  pub volume_id : String
  pub capacity_range : Option CapacityRange

pub record ExpandResponse : Type 0 where
  pub capacity_bytes : ℤ
  pub node_expansion_required : Bool

-- csi.Snapshot; the time of creation is the value that ptypes.TimestampProto gives, or none.
pub record CsiSnapshot : Type 0 where
  pub snapshot_id : String
  pub size_bytes : ℤ
  pub source_volume_id : String
  pub creation_time : Option ℤ
  pub ready_to_use : Bool

pub record ListSnapshotsRequest : Type 0 where
  pub snapshot_id : String
  pub source_volume_id : String

-- The answer of ValidateVolumeCapabilities.
pub data Validation : Type 0 where
  confirmed : List VolumeCapability → Validation
  refused : String → Validation

pub record ValidateRequest : Type 0 where
  pub volume_id : String
  pub volume_capabilities : List VolumeCapability

-- The answer of ControllerGetVolume.
pub record GetVolumeResponse : Type 0 where
  pub volume_id : String
  pub capacity_bytes : ℤ
  pub published_node_ids : List String

-- csi.VolumeUsage
pub data UsageUnit : Type 0 where
  bytes_unit inodes_unit : UsageUnit

pub record VolumeUsage : Type 0 where
  pub total : ℤ
  pub available : ℤ
  pub used : ℤ
  pub unit : UsageUnit

-- The request of NodeGetVolumeStats, with the path of the volume.
pub record StatsRequest : Type 0 where
  pub volume_id : String
  pub volume_path : String

-- The answer of NodeGetInfo.
pub record NodeInfo : Type 0 where
  pub node_id : String
  pub topology : Dict String
  pub max_volumes_per_node : ℤ

-- csi.PluginCapability
pub data PluginCapability : Type 0 where
  controller_service volume_accessibility_constraints : PluginCapability
  expansion_online expansion_offline : PluginCapability
