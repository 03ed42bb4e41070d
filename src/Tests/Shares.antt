-- ===== src/Tests/Shares.antt =====
-- The properties of the file storage driver, on shares in memory.
use csi_bizflycloud.Base.{
  Dict, List, Option, String, [], first, if◌then◌else◌, insert, lookup, map, none, not, refl,
  select, some, tally, ◌+◌, ◌==◌, ◌↔◌, ◌∷◌, ◌≡◌,
}
use csi_bizflycloud.Base.Int.{pos, wrap64, ℤ}
use csi_bizflycloud.Base.Text.{split_once, strip_prefix}
use csi_bizflycloud.Base.Go.{GoError, Result, calls, err, err_not_found, ok, sentinel}
use csi_bizflycloud.Csi.{CreateVolumeRequest, CsiVolume, ExpandRequest}
use csi_bizflycloud.Share.Util.{
  bytes_to_gib, endpoint_address, parse_export_location, parse_grpc_endpoint, share_available,
  share_bytes, share_description, validate_controller_expand_volume_request,
  validate_create_volume_request,
}
use csi_bizflycloud.Share.Api.{
  Calls, CreateShareRequest, FileStorage, Share, resizes, share_created, share_deleted,
  share_resized, shares_listed,
}
use csi_bizflycloud.Share.Shares.{
  get_or_create_share, get_share_by_name, look, wait_for_share_available,
}
use csi_bizflycloud.Share.Controller.Pending.{World, delete_key, exclusively, load_or_store}
use csi_bizflycloud.Share.Controller.Volumes.{
  controller_expand_volume, create_body, create_volume, share_context, share_request,
}
use csi_bizflycloud.Share.Controller.Creation.{StandsFor, create_volume-stands}
use csi_bizflycloud.Share.Controller.Expansion.{controller_expand-resizes}
use csi_bizflycloud.Share.Util.Endpoints.{parse-endpoint_address, parse_grpc_endpoint-panics_iff}
use csi_bizflycloud.Tests.Samples.{polling}

-- A share that is available at once; its id is its name.
abbrev made_share : CreateShareRequest → Share
made_share r = record {
  id = r.name;
  name = r.name;
  size = r.size;
  state = share_available;
  share_protocol = r.share_protocol;
  export_locations = "10.0.0.1:/data" ∷ [];
  zone = r.zone;
}

abbrev pub resized : String → ℤ → Share → Share
resized id size s = if s.id == id then record s { size = size } else s

abbrev pub shares_after : Calls → List Share
shares_after [] = []
shares_after (share_created r ∷ h) = made_share r ∷ shares_after h
shares_after (share_resized id size ∷ h) = map (resized id size) (shares_after h)
shares_after (share_deleted id ∷ h) = select (λ s. not (s.id == id)) (shares_after h)
shares_after (shares_listed ∷ h) = shares_after h

abbrev or_not_found : {A : Type 0} → Option A → Result GoError A
or_not_found none = err (sentinel err_not_found)
or_not_found (some a) = ok a

abbrev pub shares : FileStorage
shares = record {
  on_list = λ h. ok (shares_after h);
  on_create = λ h r. ok (made_share r);
  on_delete = λ h id. ok tt;
  on_resize = λ h id size. or_not_found (first (λ s. s.id == id) (shares_after h));
}

abbrev pub wanted : CreateVolumeRequest
wanted = record {
  name = "data";
  capacity_range = some (record { required_bytes = pos 1073741825; limit_bytes = pos 0 });
  volume_capabilities = some [];
  parameters = ("zone", "HN1") ∷ [];
  content_source = none;
  accessibility_requirements = none;
}

abbrev data_request : CreateShareRequest
data_request = record {
  name = "data";
  size = pos 2;
  share_protocol = "NFS";
  share_type = "";
  network_id = "";
  subnet_id = "";
  zone = "HN1";
  description = share_description;
  access = record { access_to = "0.0.0.0/0"; access_level = "rw"; access_type = "ip" } ∷ [];
}

abbrev one_share : World
one_share = record { pending = []; calls_made = share_created data_request ∷ [] }

abbrev pub no_share : World
no_share = record { pending = "other" ∷ []; calls_made = [] }

abbrev context : Dict String
context =
    ("shareID", "data")
    ∷ ("shareProtocol", "NFS")
    ∷ ("server", "10.0.0.1")
    ∷ ("share", "/data")
    ∷ []

abbrev pub answered : CsiVolume
answered = record {
  volume_id = "data";
  capacity_bytes = pos 2147483648;
  volume_context = context;
  accessible_topology = (("topology.fs.csi.bizflycloud.vn/zone", "HN1") ∷ []) ∷ [];
  content_source = none;
}

create_volume-stands_example :
    StandsFor shares
      (share_request "NFS" wanted)
      []
      (create_volume shares polling "NFS" wanted no_share).1.calls_made
      answered
unfolding create_volume create_body exclusively load_or_store delete_key
    validate_create_volume_request share_request share_context parse_export_location split_once
    strip_prefix bytes_to_gib share_bytes wrap64 get_or_create_share get_share_by_name
    wait_for_share_available look calls insert lookup
create_volume-stands_example =
    create_volume-stands shares polling "NFS" wanted no_share answered refl

abbrev grown : ExpandRequest
grown = record {
  volume_id = "data";
  capacity_range = some (record { required_bytes = pos 3221225472; limit_bytes = pos 0 });
}

abbrev kept : ExpandRequest
kept = record {
  volume_id = "data";
  capacity_range = some (record { required_bytes = pos 1073741824; limit_bytes = pos 0 });
}

controller_expand-resizes_example :
    tally resizes (controller_expand_volume shares polling grown one_share).1.calls_made
    ≡ tally resizes one_share.calls_made + 1
unfolding validate_controller_expand_volume_request bytes_to_gib
controller_expand-resizes_example =
    controller_expand-resizes shares polling grown one_share (made_share data_request ∷ [])
      (made_share data_request) refl refl refl refl

parse-endpoint_address_example :
    parse_grpc_endpoint (endpoint_address "unix" "/tmp/csi.sock")
    ≡ some (ok ("unix", "/tmp/csi.sock"))
unfolding parse_grpc_endpoint strip_prefix
parse-endpoint_address_example =
    parse-endpoint_address "unix://tmp/csi.sock" "unix" "/tmp/csi.sock" refl

parse_grpc_endpoint-panics_iff_example :
    (parse_grpc_endpoint "unix://" ≡ none) ↔ (◌≡◌ {A = String} "unix://" "unix://")
parse_grpc_endpoint-panics_iff_example = parse_grpc_endpoint-panics_iff "unix://"
