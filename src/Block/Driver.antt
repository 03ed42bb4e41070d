-- ===== src/Block/Driver.antt =====
-- driver/blockstorage/driver.go, identity.go and util.go: the driver's constants, its identity, and
-- ParseEndpoint.
pub mod Endpoints
use csi_bizflycloud.Base.{
  List, Option, String, [], if◌then◌else◌, is_empty, none, some, ℕ, ◌||◌, ◌∷◌,
}
use csi_bizflycloud.Base.Text.{has_prefix_folded, split_once}
use csi_bizflycloud.Base.Go.{Failure, GoError, Result, err, format, ok, plain, status, unavailable}
use csi_bizflycloud.Csi.{
  Mode, PluginCapability, controller_service, expansion_offline, expansion_online,
  single_node_writer, volume_accessibility_constraints,
}

-- VolumeDriver, less its three servers; the capabilities are their numbers in the protocol.
pub record VolumeDriver : Type 0 where
  pub name : String
  pub version : String
  pub endpoint : String
  pub cluster : String
  pub vcap : List Mode
  pub cscap : List ℕ
  pub nscap : List ℕ

-- The capabilities LIST_VOLUMES, CREATE_DELETE_VOLUME, PUBLISH_UNPUBLISH_VOLUME,
-- CREATE_DELETE_SNAPSHOT, LIST_SNAPSHOTS, EXPAND_VOLUME, CLONE_VOLUME of the controller, and
-- STAGE_UNSTAGE_VOLUME, EXPAND_VOLUME, GET_VOLUME_STATS of the node.
unfoldable pub new_driver : String → String → VolumeDriver
new_driver endpoint cluster = record {
  name = "volume.csi.bizflycloud.vn";
  version = "0.3.0";
  endpoint = endpoint;
  cluster = cluster;
  vcap = single_node_writer ∷ [];
  cscap = 3 ∷ 1 ∷ 2 ∷ 5 ∷ 6 ∷ 9 ∷ 7 ∷ [];
  nscap = 1 ∷ 3 ∷ 2 ∷ [];
}

-- GetPluginInfo: the name and the version.
unfoldable pub plugin_info : VolumeDriver → Result Failure (String × String)
plugin_info d =
    if is_empty d.name
    then err (status unavailable (format "Driver name not configured"))
    else if is_empty d.version
    then err (status unavailable (format "Driver is missing version"))
    else ok (d.name, d.version)

-- GetPluginCapabilities
abbrev plugin_capabilities : List PluginCapability
plugin_capabilities =
    controller_service ∷ volume_accessibility_constraints ∷ expansion_online ∷ expansion_offline
    ∷ []

-- Probe
abbrev probe : Result Failure (Unit {0})
probe = ok tt

-- ControllerGetCapabilities and NodeGetCapabilities give what NewDriver has set.
abbrev pub controller_get_capabilities : VolumeDriver → List ℕ
controller_get_capabilities d = d.cscap

abbrev node_get_capabilities : VolumeDriver → List ℕ
node_get_capabilities d = d.nscap

abbrev pub invalid_endpoint : Result GoError (String × String)
invalid_endpoint = err (plain "invalid endpoint: %v")

-- The two parts of the endpoint; a part that is not there is read past its end, which is a run-time
-- panic, `none`.
abbrev pub split_endpoint : Option (String × String) → Option (Result GoError (String × String))
split_endpoint none = none
split_endpoint (some (proto, addr)) =
    if is_empty addr then some invalid_endpoint else some (ok (proto, addr))

unfoldable pub parse_endpoint : String → Option (Result GoError (String × String))
parse_endpoint ep =
    if has_prefix_folded ep "unix://" || has_prefix_folded ep "tcp://"
    then split_endpoint (split_once "://" ep)
    else some invalid_endpoint
