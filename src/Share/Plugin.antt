-- ===== src/Share/Plugin.antt =====
-- driver/filestorage/csiclient: the NFS CSI node plugin that requests are forwarded to. The plugin
-- and the connection are a parameter: an answer may be any function of what was forwarded so far.
pub mod Connection
use csi_bizflycloud.Base.{List, Option, String, ℕ, ◌∷◌}
use csi_bizflycloud.Base.Go.{Code, Exec, Failure, GoError, Result, as_status, wrap_err, ◌>>◌}
use csi_bizflycloud.Csi.{StatsRequest, VolumeUsage}
use csi_bizflycloud.Share.Util.{NodeRequest}

-- What is done with the plugin: a connection is dialed and closed, and a request is sent.
pub data Forward : Type 0 where
  dialed : String → Forward
  closed : Forward
  published : NodeRequest → Forward
  unpublished : NodeRequest → Forward
  staged : NodeRequest → Forward
  unstaged : NodeRequest → Forward
  stats_asked : StatsRequest → Forward
  probed : Forward
  probed_forever : Forward
  info_asked : Forward
  capabilities_asked : Forward

abbrev pub Trace : Type 0
Trace = List Forward

-- The numbers of the node capabilities in the protocol; an entry without an RPC is `none`.
abbrev pub Capabilities : Type 0
Capabilities = List (Option ℕ)

pub record Plugin : Type 0 where
  pub on_dial : Trace → String → Result GoError (Unit {0})
  pub on_publish : Trace → NodeRequest → Result GoError (Unit {0})
  pub on_unpublish : Trace → NodeRequest → Result GoError (Unit {0})
  pub on_stage : Trace → NodeRequest → Result GoError (Unit {0})
  pub on_unstage : Trace → NodeRequest → Result GoError (Unit {0})
  pub on_stats : Trace → StatsRequest → Result GoError (List VolumeUsage)
  pub on_probe : Trace → Result GoError (Unit {0})
  pub on_probe_forever : Trace → Result GoError (Unit {0})
  pub on_info : Trace → Result GoError (Unit {0})
  pub on_capabilities : Trace → Result GoError Capabilities

-- One request, with the answer that it gets.
abbrev pub Sent : Type 0 → Type 0
Sent A = Exec Trace GoError A

module _ (plugin : Plugin) where
  -- NewConnectionWithContext
  abbrev pub dial : String → Sent (Unit {0})
  dial endpoint t = (plugin.on_dial t endpoint, dialed endpoint ∷ t)

  abbrev pub publish_volume : NodeRequest → Sent (Unit {0})
  publish_volume r t = (plugin.on_publish t r, published r ∷ t)

  abbrev pub unpublish_volume : NodeRequest → Sent (Unit {0})
  unpublish_volume r t = (plugin.on_unpublish t r, unpublished r ∷ t)

  abbrev pub stage_volume : NodeRequest → Sent (Unit {0})
  stage_volume r t = (plugin.on_stage t r, staged r ∷ t)

  abbrev pub unstage_volume : NodeRequest → Sent (Unit {0})
  unstage_volume r t = (plugin.on_unstage t r, unstaged r ∷ t)

  abbrev pub get_volume_stats : StatsRequest → Sent (List VolumeUsage)
  get_volume_stats r t = (plugin.on_stats t r, stats_asked r ∷ t)

  abbrev pub probe : Sent (Unit {0})
  probe t = (plugin.on_probe t, probed ∷ t)

  abbrev pub probe_forever : Sent (Unit {0})
  probe_forever t = (plugin.on_probe_forever t, probed_forever ∷ t)

  abbrev pub get_plugin_info : Sent (Unit {0})
  get_plugin_info t = (plugin.on_info t, info_asked ∷ t)

  abbrev pub get_capabilities : Sent Capabilities
  get_capabilities t = (plugin.on_capabilities t, capabilities_asked ∷ t)

  -- A dial, a body, and the deferred Close; a dial that fails opens nothing.
  abbrev pub close_after : {E A : Type 0} → Exec Trace E A → Exec Trace E A
  close_after body t = ((body t).0, closed ∷ (body t).1)

  unfoldable pub connected :
      {A : Type 0} → Code → String → Exec Trace Failure A → Exec Trace Failure A
  connected code endpoint body = do
    wrap_err (as_status code "connecting to fwd plugin at %s failed: %v") (dial endpoint)
    close_after body
