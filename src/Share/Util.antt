-- ===== src/Share/Util.antt =====
-- driver/filestorage/util.go: sizes, endpoints, export locations, and the checks of the requests.
pub mod Sizes
pub mod Endpoints
use Prim.Native.Char.{code}
use csi_bizflycloud.Base.{
  Bool, Dict, List, Option, String, [], any, false, if◌then◌else◌, is_empty, nat_eq, none, or_else,
  some, true, ◌<>◌, ◌||◌, ◌∷◌,
}
use csi_bizflycloud.Base.Int.{gib, ltℤ, pos, quotℤ, remℤ, sucℤ, timesℤ, wrap64, ℤ}
use csi_bizflycloud.Base.Text.{has_prefix, split_once, strip_prefix}
use csi_bizflycloud.Base.Go.{GoError, Result, err, ok, plain}
use csi_bizflycloud.Csi.{
  AccessType, CreateVolumeRequest, ExpandRequest, ValidateRequest, VolumeCapability, block,
}

abbrev pub share_creating : String
share_creating = "creating"

abbrev pub share_available : String
share_available = "available"

abbrev pub share_error : String
share_error = "error"

abbrev pub share_extending : String
share_extending = "extending"

abbrev pub share_description : String
share_description = "provisioned-by=fs.csi.bizflycloud.vn"

unfoldable pub bytes_to_gib : ℤ → ℤ
bytes_to_gib bytes =
    if ltℤ (pos 0) (remℤ bytes gib) then sucℤ (quotℤ bytes gib) else quotℤ bytes gib

-- `int64(size) * bytesInGiB`
unfoldable pub share_bytes : ℤ → ℤ
share_bytes size = wrap64 (timesℤ size gib)

-- What follows "unix://": with the slash before it, unless it begins with one. An empty rest is read
-- past its end, which is a run-time panic.
abbrev pub unix_address : String → Option String
unix_address String.[] = none
unix_address (String.◌∷◌ c s) =
    some (if nat_eq (code c) b'/' then String.◌∷◌ c s else "/" <> String.◌∷◌ c s)

abbrev pub unix_endpoint : Option String → Option (Result GoError (String × String))
unix_endpoint none = none
unix_endpoint (some a) = some (ok ("unix", a))

-- The tests after the one on "/".
abbrev pub tcp_endpoint : Option String → Option (Result GoError (String × String))
tcp_endpoint none = some (err (plain "endpoint uses unsupported scheme"))
tcp_endpoint (some a) = some (ok ("tcp", a))

abbrev pub scheme_endpoint :
    Option String → Option String → Option (Result GoError (String × String))
scheme_endpoint (some rest) tcp = unix_endpoint (unix_address rest)
scheme_endpoint none tcp = tcp_endpoint tcp

-- The protocol and the address; `none` is a run-time panic.
unfoldable pub parse_grpc_endpoint : String → Option (Result GoError (String × String))
parse_grpc_endpoint e =
    if has_prefix e "/"
    then some (ok ("unix", e))
    else scheme_endpoint (strip_prefix "unix://" e) (strip_prefix "tcp://" e)

abbrev pub endpoint_address : String → String → String
endpoint_address proto addr = proto <> "://" <> addr

abbrev pub checked_parts : Option (String × String) → Result GoError (String × String)
checked_parts none = err (plain "invalid export location format %q, expected server:/path")
checked_parts (some (server, share)) =
    if is_empty server || is_empty share
    then err (plain "invalid export location format %q, expected server:/path")
    else ok (server, share)

unfoldable pub parse_export_location : String → Result GoError (String × String)
parse_export_location location = checked_parts (split_once ":" location)

-- The checks of the requests, in their order.
abbrev pub check : List (Bool × String) → Result GoError (Unit {0})
check [] = ok tt
check ((b, text) ∷ more) = if b then err (plain text) else check more

abbrev pub is_block : AccessType → Bool
is_block block = true
is_block _ = false

abbrev pub missing {ℓ} : {A : Type ℓ} → Option A → Bool
missing none = true
missing (some a) = false

abbrev pub has_none {ℓ} : {A : Type ℓ} → List A → Bool
has_none [] = true
has_none (x ∷ xs) = false

abbrev pub any_block : List VolumeCapability → Bool
any_block = any (λ c. is_block c.access_type)

unfoldable pub validate_create_volume_request : CreateVolumeRequest → Result GoError (Unit {0})
validate_create_volume_request req = check (
    (is_empty req.name, "volume name cannot be empty")
    ∷ (missing req.volume_capabilities, "volume capabilities cannot be empty")
    ∷ (
      any_block (or_else [] req.volume_capabilities),
      "block access type not allowed for file storage",
    )
    ∷ [])

unfoldable pub validate_delete_volume_request : String → Result GoError (Unit {0})
validate_delete_volume_request volume = check ((is_empty volume, "volume ID cannot be empty") ∷ [])

unfoldable pub validate_controller_expand_volume_request : ExpandRequest → Result GoError (Unit {0})
validate_controller_expand_volume_request req = check (
    (is_empty req.volume_id, "volume ID cannot be empty")
    ∷ (missing req.capacity_range, "capacity range cannot be nil")
    ∷ [])

unfoldable pub validate_validate_volume_capabilities_request :
    ValidateRequest → Result GoError (Unit {0})
validate_validate_volume_capabilities_request req = check (
    (is_empty req.volume_id, "volume ID missing in request")
    ∷ (has_none req.volume_capabilities, "volume capabilities cannot be nil or empty")
    ∷ [])

-- The requests of the node service, with the checks of each.
pub record NodeRequest : Type 0 where
  pub volume_id : String
  pub staging_target_path : String
  pub target_path : String
  pub volume_capability : Option VolumeCapability
  pub volume_context : Dict String
  pub readonly : Bool

unfoldable pub validate_node_stage_volume_request : NodeRequest → Result GoError (Unit {0})
validate_node_stage_volume_request req = check (
    (missing req.volume_capability, "volume capability missing in request")
    ∷ (is_empty req.volume_id, "volume ID missing in request")
    ∷ (has_none req.volume_context, "volume context cannot be nil or empty")
    ∷ [])

unfoldable pub validate_node_unstage_volume_request : NodeRequest → Result GoError (Unit {0})
validate_node_unstage_volume_request req = check (
    (is_empty req.staging_target_path, "staging path missing in request")
    ∷ (is_empty req.volume_id, "volume ID missing in request")
    ∷ [])

unfoldable pub validate_node_publish_volume_request : NodeRequest → Result GoError (Unit {0})
validate_node_publish_volume_request req = check (
    (missing req.volume_capability, "volume capability missing in request")
    ∷ (is_empty req.volume_id, "volume ID missing in request")
    ∷ (is_empty req.target_path, "target path missing in request")
    ∷ [])

unfoldable pub validate_node_unpublish_volume_request : NodeRequest → Result GoError (Unit {0})
validate_node_unpublish_volume_request req = check (
    (is_empty req.target_path, "target path missing in request")
    ∷ (is_empty req.volume_id, "volume ID missing in request")
    ∷ [])
