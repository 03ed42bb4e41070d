-- ===== src/Tests/Plugins.antt =====
-- The properties of the node service and the set-up of the file storage driver, with a plugin that
-- answers every request.
use Prim.Native.Char.{Char}
use csi_bizflycloud.Base.{
  Dict, List, String, [], false, insert, lookup, none, refl, some, true, ◌∷◌, ◌≡◌,
}
use csi_bizflycloud.Base.Text.{strip_prefix}
use csi_bizflycloud.Base.Go.{calls, ok}
use csi_bizflycloud.Csi.{mount}
use csi_bizflycloud.Share.Util.{
  NodeRequest, parse_grpc_endpoint, validate_node_publish_volume_request,
  validate_node_stage_volume_request,
}
use csi_bizflycloud.Share.Plugin.{
  Plugin, capabilities_asked, closed, connected, dialed, info_asked, probed_forever,
}
use csi_bizflycloud.Share.Node.{NodeServer, build_volume_context, node_stage_volume}
use csi_bizflycloud.Share.Node.Service.{NodeCall, node_serve_all, publishing, staging, unstaging}
use csi_bizflycloud.Share.Node.Staging.{Staged, stage-publish}
use csi_bizflycloud.Share.Node.Invariants.{CacheComplete, node_serve_all_sound, open_connections}
use csi_bizflycloud.Share.Driver.{Driver, DriverOpts, new_driver, to_upper}
use csi_bizflycloud.Share.Driver.Setup.{IsConfigured, new_driver-IsConfigured}

abbrev context : Dict String
context =
    ("shareID", "data")
    ∷ ("shareProtocol", "NFS")
    ∷ ("server", "10.0.0.1")
    ∷ ("share", "/data")
    ∷ []

-- A plugin that does what it is asked.
abbrev pub obliging : Plugin
obliging = record {
  on_dial = λ t e. ok tt;
  on_publish = λ t r. ok tt;
  on_unpublish = λ t r. ok tt;
  on_stage = λ t r. ok tt;
  on_unstage = λ t r. ok tt;
  on_stats = λ t r. ok [];
  on_probe = λ t. ok tt;
  on_probe_forever = λ t. ok tt;
  on_info = λ t. ok tt;
  on_capabilities = λ t. ok (some 1 ∷ none ∷ []);
}

abbrev idle : NodeServer
idle = record {
  fwd_endpoint = "unix:///csi/csi-nfs.sock";
  supports_node_stage = true;
  node_stage_cache = [];
  trace = [];
}

abbrev staging_request : NodeRequest
staging_request = record {
  volume_id = "data";
  staging_target_path = "/staging";
  target_path = "";
  volume_capability = some (record { access_mode = none; access_type = mount "" [] });
  volume_context = context;
  readonly = false;
}

-- The context of a publish that is not the one that was staged.
abbrev publishing_request : NodeRequest
publishing_request = record {
  volume_id = "data";
  staging_target_path = "/staging";
  target_path = "/target";
  volume_capability = some (record { access_mode = none; access_type = mount "" [] });
  volume_context = [];
  readonly = false;
}

stage-publish_example :
    Staged obliging staging_request publishing_request idle
      (node_stage_volume obliging staging_request idle).1
unfolding node_stage_volume build_volume_context lookup insert connected
    validate_node_stage_volume_request validate_node_publish_volume_request calls
stage-publish_example =
    stage-publish obliging staging_request publishing_request idle refl refl refl refl refl

abbrev requests : List NodeCall
requests = staging staging_request ∷ publishing publishing_request ∷ unstaging staging_request ∷ []

node_serve_all_sound_example :
    CacheComplete (node_serve_all obliging requests idle)
    × (open_connections obliging (node_serve_all obliging requests idle).trace ≡ 0)
unfolding open_connections
node_serve_all_sound_example = node_serve_all_sound obliging requests idle (tt, refl)

abbrev options : DriverOpts
options = record {
  driver_name = "";
  share_proto = "nfs";
  server_csi_endpoint = "unix://csi/csi.sock";
  fwd_csi_endpoint = "/csi/csi-nfs.sock";
}

-- The table of unicode.ToUpper, left as it is.
abbrev same_char : Char → Char
same_char c = c

abbrev driver : Driver
driver = record {
  name = "fs.csi.bizflycloud.vn";
  version = "0.1.0";
  share_proto = "nfs";
  server_endpoint = "unix:///csi/csi.sock";
  fwd_endpoint = "unix:///csi/csi-nfs.sock";
}

new_driver-IsConfigured_example : IsConfigured driver
unfolding new_driver to_upper parse_grpc_endpoint strip_prefix
new_driver-IsConfigured_example = new_driver-IsConfigured same_char options driver refl

abbrev set_up : NodeServer
set_up = record {
  fwd_endpoint = "unix:///csi/csi-nfs.sock";
  supports_node_stage = true;
  node_stage_cache = [];
  trace =
      closed
      ∷ capabilities_asked
      ∷ info_asked
      ∷ probed_forever
      ∷ dialed "unix:///csi/csi-nfs.sock"
      ∷ [];
}
