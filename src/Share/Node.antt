-- ===== src/Share/Node.antt =====
-- driver/filestorage/nodeserver.go: the node service forwards to the NFS plugin, with the volume
-- context that it keeps for each staged volume.
pub mod Service
pub mod Invariants
pub mod Staging
use csi_bizflycloud.Base.{
  Bool, Dict, List, Option, String, [], if◌then◌else◌, index, insert, is_empty, lookup, none,
  remove, some, ◌||◌, ◌∷◌,
}
use csi_bizflycloud.Base.Int.{pos}
use csi_bizflycloud.Base.Go.{
  Exec, Failure, GoError, Result, as_status, err, error_text, fail, format, internal,
  invalid_argument, map_err, ok, plain, pure, raw, status, unavailable, unimplemented, wrap_err,
  ◌>>=◌, ◌>>◌,
}
use csi_bizflycloud.Csi.{NodeInfo, StatsRequest, VolumeUsage}
use csi_bizflycloud.Metadata.{Metadata}
use csi_bizflycloud.Share.Util.{
  NodeRequest, validate_node_publish_volume_request, validate_node_stage_volume_request,
  validate_node_unpublish_volume_request, validate_node_unstage_volume_request,
}
use csi_bizflycloud.Share.Plugin.{
  Plugin, Sent, Trace, connected, get_volume_stats, publish_volume, stage_volume, unpublish_volume,
  unstage_volume,
}

-- nodeServer: the endpoint of the plugin, whether the plugin stages volumes, and the cache of the
-- contexts. What is forwarded is part of the state.
pub record NodeServer : Type 0 where
  pub fwd_endpoint : String
  pub supports_node_stage : Bool
  pub node_stage_cache : Dict (Dict String)
  pub trace : Trace

abbrev pub NodeRpc : Type 0 → Type 0
NodeRpc A = Exec NodeServer Failure A

-- What is sent to the plugin leaves the rest of the state alone.
abbrev pub forwarding : {A : Type 0} → Exec Trace Failure A → NodeRpc A
forwarding m ns = ((m ns.trace).0, record ns { trace = (m ns.trace).1 })

unfoldable pub build_volume_context : Dict String → Result GoError (Dict String)
unfolding lookup
build_volume_context ctx =
    if is_empty (index ctx "server") || is_empty (index ctx "share")
    then err (plain "volume context missing server or share fields")
    else ok (("server", index ctx "server") ∷ ("share", index ctx "share") ∷ [])

abbrev pub checked : {A : Type 0} → Result GoError (Unit {0}) → NodeRpc A → NodeRpc A
checked (ok u) m = m
checked (err e) m = fail (status invalid_argument (error_text e))

-- The context of the cache, or the one that the request gives.
abbrev pub cached_or : Option (Dict String) → Dict String → Result GoError (Dict String)
cached_or (some ctx) given = ok ctx
cached_or none given = build_volume_context given

abbrev pub context_or_fail : Result GoError (Dict String) → NodeRpc (Dict String)
context_or_fail (ok ctx) = pure ctx
context_or_fail (err e) =
    fail (status internal (format "failed to build volume context for volume %s: %v"))

module _ (plugin : Plugin) where
  abbrev pub send : {A : Type 0} → Sent A → NodeRpc A
  send m ns = forwarding (connected plugin unavailable ns.fwd_endpoint (wrap_err raw m)) ns

  abbrev pub publish_context : NodeRequest → NodeRpc (Dict String)
  publish_context req ns =
      context_or_fail
        (if ns.supports_node_stage
          then cached_or (lookup req.volume_id ns.node_stage_cache) req.volume_context
          else build_volume_context req.volume_context)
        ns

  unfoldable pub node_publish_volume : NodeRequest → NodeRpc (Unit {0})
  node_publish_volume req = checked (validate_node_publish_volume_request req) (
      publish_context req >>= λ ctx.
      send (publish_volume plugin (record req { volume_context = ctx })))

  unfoldable pub node_unpublish_volume : NodeRequest → NodeRpc (Unit {0})
  node_unpublish_volume req =
      checked (validate_node_unpublish_volume_request req) (send (unpublish_volume plugin req))

  -- Under the lock: the context of the cache, or the new one, which is kept.
  abbrev pub keep_context :
      String → Option (Dict String) → Result GoError (Dict String) → NodeRpc (Dict String)
  keep_context id (some ctx) built ns = (ok ctx, ns)
  keep_context id none (err e) ns = context_or_fail (err e) ns
  keep_context id none (ok ctx) ns =
      (ok ctx, record ns { node_stage_cache = insert id ctx ns.node_stage_cache })

  abbrev pub stage_context : NodeRequest → NodeRpc (Dict String)
  stage_context req ns =
      keep_context req.volume_id (lookup req.volume_id ns.node_stage_cache)
        (build_volume_context req.volume_context) ns

  unfoldable pub node_stage_volume : NodeRequest → NodeRpc (Unit {0})
  node_stage_volume req = checked (validate_node_stage_volume_request req) (
      stage_context req >>= λ ctx. send (stage_volume plugin (record req { volume_context = ctx })))

  abbrev pub forget : String → NodeRpc (Unit {0})
  forget id ns = (ok tt, record ns { node_stage_cache = remove id ns.node_stage_cache })

  unfoldable pub node_unstage_volume : NodeRequest → NodeRpc (Unit {0})
  node_unstage_volume req =
      checked (validate_node_unstage_volume_request req)
        (forget req.volume_id >> send (unstage_volume plugin req))

  unfoldable pub node_get_volume_stats : StatsRequest → NodeRpc (List VolumeUsage)
  node_get_volume_stats req = send (get_volume_stats plugin req)

abbrev pub result : {A : Type 0} → Result Failure A → NodeRpc A
result r ns = (r, ns)

unfoldable pub node_get_info : Metadata → NodeRpc NodeInfo
node_get_info metadata = do
  id ← result (
      map_err (as_status internal "unable to retrieve instance id of node: %v")
        metadata.instance_id)
  zone ← result (
      map_err (as_status internal "unable to retrieve availability zone of node: %v")
        metadata.availability_zone)
  pure (record {
    node_id = id;
    topology = ("topology.fs.csi.bizflycloud.vn/zone", zone) ∷ [];
    max_volumes_per_node = pos 0;
  })

-- NodeExpandVolume
unfoldable pub node_expand_volume : NodeRpc (Unit {0})
node_expand_volume = fail (status unimplemented (format ""))
