-- ===== src/Share/Driver.antt =====
-- driver/filestorage/driver.go and identityserver.go: the driver's options, the set-up of its services
-- with the discovery of what the proxied plugin can do, and its identity.
pub mod Setup
use Prim.Native.Char.{Char}
use csi_bizflycloud.Base.{
  Bool, List, Option, String, [], any, if◌then◌else◌, is_empty, nat_eq, none, not, select, some, ℕ,
  ◌∷◌,
}
use csi_bizflycloud.Base.Go.{
  Exec, Failure, GoError, Result, err, failed_precondition, format, ok, plain, pure, raw, status,
  unavailable, wrap_err, ◌>>=◌, ◌>>◌,
}
use csi_bizflycloud.Csi.{
  PluginCapability, controller_service, expansion_online, Mode, multi_node_multi_writer,
  multi_node_reader_only, multi_node_single_writer, single_node_reader_only, single_node_writer,
}
use csi_bizflycloud.Share.Util.{endpoint_address, parse_grpc_endpoint}
use csi_bizflycloud.Share.Plugin.{
  Capabilities, Plugin, Trace, close_after, connected, dial, get_capabilities, get_plugin_info,
  probe, probe_forever,
}
use csi_bizflycloud.Share.Node.{NodeServer}
use csi_bizflycloud.Share.Controller.Volumes.{or_default}

-- DriverOpts, less the builder of connections and the cluster's id, which no code of the driver reads.
pub record DriverOpts : Type 0 where
  pub driver_name : String
  pub share_proto : String
  pub server_csi_endpoint : String
  pub fwd_csi_endpoint : String

-- What NewDriver fills in.
pub record Driver : Type 0 where
  pub name : String
  pub version : String
  pub share_proto : String
  pub server_endpoint : String
  pub fwd_endpoint : String

abbrev pub driver_version : String
driver_version = "0.1.0"

-- What becomes of a parsed endpoint; `none` is a run-time panic.
abbrev pub with_endpoint :
    String
    → Option (Result GoError (String × String))
    → (String → Option (Result GoError Driver))
    → Option (Result GoError Driver)
with_endpoint text none f = none
with_endpoint text (some (err e)) f = some (err (plain text))
with_endpoint text (some (ok (proto, addr))) f = f (endpoint_address proto addr)

-- strings.ToUpper; the table unicode.ToUpper of the characters is an argument.
unfoldable pub to_upper : (Char → Char) → String → String
to_upper upper String.[] = ""
to_upper upper (String.◌∷◌ c s) = String.◌∷◌ (upper c) (to_upper upper s)

unfoldable pub new_driver : (Char → Char) → DriverOpts → Option (Result GoError Driver)
new_driver upper o =
    if is_empty o.server_csi_endpoint
    then some (err (plain "server CSI endpoint is missing"))
    else if is_empty o.fwd_csi_endpoint
    then some (err (plain "forwarded CSI endpoint is missing"))
    else with_endpoint "failed to parse server endpoint address %s: %v"
        (parse_grpc_endpoint o.server_csi_endpoint)
        (λ server.
          with_endpoint "failed to parse forwarded endpoint address %s: %v"
            (parse_grpc_endpoint o.fwd_csi_endpoint)
            (λ fwd. some (
              ok (record {
                name = or_default o.driver_name "fs.csi.bizflycloud.vn";
                version = driver_version;
                share_proto = or_default (to_upper upper o.share_proto) "NFS";
                server_endpoint = server;
                fwd_endpoint = fwd;
              }))))

-- The set of the capabilities with an RPC.
abbrev pub capability_set : Capabilities → List ℕ
capability_set [] = []
capability_set (none ∷ cs) = capability_set cs
capability_set (some c ∷ cs) = c ∷ select (λ d. not (nat_eq d c)) (capability_set cs)

-- csi.NodeServiceCapability_RPC_STAGE_UNSTAGE_VOLUME
abbrev pub stage_unstage_volume : ℕ
stage_unstage_volume = 1

module _ (plugin : Plugin) where
  -- The body between the connection and the deferred Close.
  abbrev pub discover : Exec Trace GoError (List ℕ)
  discover = do
    wrap_err (λ _. plain "probe failed: %v") (probe_forever plugin)
    wrap_err (λ _. plain "failed to get plugin info of the proxied driver: %v")
        (get_plugin_info plugin)
    caps ← wrap_err (λ _. plain "failed to get node capabilities: %v") (get_capabilities plugin)
    pure (capability_set caps)

  unfoldable pub init_proxied_driver : String → Exec Trace GoError (List ℕ)
  init_proxied_driver endpoint = do
    wrap_err (λ _. plain "connecting to %s endpoint failed: %v") (dial plugin endpoint)
    close_after plugin discover

  abbrev pub node_server : Driver → List ℕ → Exec Trace GoError NodeServer
  node_server d caps t = (
    ok (record {
      fwd_endpoint = d.fwd_endpoint;
      supports_node_stage = any (λ c. nat_eq c stage_unstage_volume) caps;
      node_stage_cache = [];
      trace = t;
    }),
    t,
  )

  unfoldable pub setup_node_service : Driver → Exec Trace GoError NodeServer
  setup_node_service d = do
    caps ←
        wrap_err (λ _. plain "failed to initialize proxied CSI driver: %v")
          (init_proxied_driver d.fwd_endpoint)
    node_server d caps

  -- Probe of the identity service, forwarded where the node service runs.
  unfoldable pub probe_driver : Bool → Driver → Exec Trace Failure (Unit {0})
  probe_driver has_node d =
      if has_node
      then connected plugin failed_precondition d.fwd_endpoint (wrap_err raw (probe plugin))
      else pure tt

-- GetPluginInfo of the identity service: the name and the version.
unfoldable pub plugin_info : Driver → Result Failure (String × String)
plugin_info d =
    if is_empty d.name
    then err (status unavailable (format "Driver name not configured"))
    else if is_empty d.version
    then err (status unavailable (format "Driver is missing version"))
    else ok (d.name, d.version)

-- GetPluginCapabilities
abbrev plugin_capabilities : List PluginCapability
plugin_capabilities = controller_service ∷ expansion_online ∷ []

-- SetupControllerService: the capabilities CREATE_DELETE_VOLUME and EXPAND_VOLUME, by their numbers in
-- the protocol, and the access modes.
abbrev pub controller_capabilities : List ℕ
controller_capabilities = 1 ∷ 9 ∷ []

abbrev pub access_modes : List Mode
access_modes =
    multi_node_multi_writer ∷ multi_node_single_writer ∷ multi_node_reader_only ∷ single_node_writer
    ∷ single_node_reader_only ∷ []
