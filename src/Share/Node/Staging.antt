-- ===== src/Share/Node/Staging.antt =====
-- driver/filestorage/nodeserver.go: the contexts of the staged volumes.
use text.Mathlib.TextPositions.{eq_refl}
use csi_bizflycloud.Base.{
  Dict, Option, String, if◌then◌else◌, inl, inr, insert, lookup, lookup-insert, lookup-remove, none,
  refl, some, true, ◌==◌, ◌∙◌, ◌∷◌, ◌≡◌,
}
use csi_bizflycloud.Base.Go.{GoError, Result, Result-cases, calls, err, ok, ◌>>=◌}
use csi_bizflycloud.Share.Util.{
  NodeRequest, validate_node_publish_volume_request, validate_node_stage_volume_request,
  validate_node_unstage_volume_request,
}
use csi_bizflycloud.Share.Node.{
  NodeRpc, NodeServer, keep_context, node_publish_volume, node_stage_volume, node_unstage_volume,
  send,
}
use csi_bizflycloud.Share.Plugin.{
  Plugin, Sent, closed, connected, dialed, publish_volume, stage_volume, staged,
}

-- What a stage that succeeds leaves: it has sent one request with a context, and a publish of the
-- same volume sends that context, whatever the request of the publish gives.
pub record Staged (plugin : Plugin) (sreq preq : NodeRequest) (ns after : NodeServer) : Type 0 where
  pub context : Dict String
  pub sent :
      after.trace
      ≡ closed
        ∷ staged (record sreq { volume_context = context })
        ∷ dialed ns.fwd_endpoint
        ∷ ns.trace
  pub publishes :
      node_publish_volume plugin preq after
      ≡ send plugin (publish_volume plugin (record preq { volume_context = context })) after

module _ (plugin : Plugin) where
  publish-cached :
      (req : NodeRequest) (ctx : Dict String) (ns : NodeServer)
      → ns.supports_node_stage ≡ true
      → validate_node_publish_volume_request req ≡ ok tt
      → lookup req.volume_id ns.node_stage_cache ≡ some ctx
      → node_publish_volume plugin req ns
        ≡ send plugin (publish_volume plugin (record req { volume_context = ctx })) ns
  unfolding node_publish_volume calls
  publish-cached req ctx ns stages valid hit = rw (valid, stages, hit)

  dial-sends :
      (m : Sent (Unit {0})) (ns : NodeServer)
      → (send plugin m ns).0 ≡ ok tt
      → (send plugin m ns).1.trace ≡ closed ∷ (m (dialed ns.fwd_endpoint ∷ ns.trace)).1
  unfolding connected calls
  dial-sends m ns h = elim (Result-cases (plugin.on_dial ns.trace ns.fwd_endpoint)) [
    | inl (u, e) ↦ rw e
    | inr (x, e) ↦ cc (rw e at h)
  ]

  abbrev stage_with :
      NodeRequest → Option (Dict String) → Result GoError (Dict String) → NodeRpc (Unit {0})
  stage_with req c built = keep_context plugin req.volume_id c built >>= λ ctx.
      send plugin (stage_volume plugin (record req { volume_context = ctx }))

  stage-kept :
      (req : NodeRequest) (c : Option (Dict String)) (built : Result GoError (Dict String))
      (ns : NodeServer)
      → lookup req.volume_id ns.node_stage_cache ≡ c
      → (stage_with req c built ns).0 ≡ ok tt
      → (ctx : Dict String) × (lookup req.volume_id (stage_with req c built ns).1.node_stage_cache
          ≡ some ctx)
        × ((stage_with req c built ns).1.trace
            ≡ closed
              ∷ staged (record req { volume_context = ctx })
              ∷ dialed ns.fwd_endpoint
              ∷ ns.trace)
        × ((stage_with req c built ns).1.supports_node_stage ≡ ns.supports_node_stage)
  unfolding calls
  stage-kept req (some ctx) built ns e h = (ctx, e, dial-sends _ ns h, refl)
  stage-kept req none (ok ctx) ns e h = (
    ctx,
    lookup-insert req.volume_id req.volume_id ctx ns.node_stage_cache
        ∙ rw (eq_refl req.volume_id) refl,
    dial-sends _ (record ns { node_stage_cache = insert req.volume_id ctx ns.node_stage_cache }) h,
    refl,
  )
  stage-kept req none (err x) ns e h = cc

  -- Where the node service stages volumes and a valid stage has succeeded, a valid publish of
  -- the same volume sends the context that the stage has sent.
  pub stage-publish :
      (sreq preq : NodeRequest) (ns : NodeServer)
      → ns.supports_node_stage ≡ true
      → validate_node_stage_volume_request sreq ≡ ok tt
      → validate_node_publish_volume_request preq ≡ ok tt
      → preq.volume_id ≡ sreq.volume_id
      → (node_stage_volume plugin sreq ns).0 ≡ ok tt
      → Staged plugin sreq preq ns (node_stage_volume plugin sreq ns).1
  unfolding node_stage_volume calls
  stage-publish sreq preq ns stages valid pvalid same h =
      let (ctx, hit, sent, flag) = stage-kept sreq _ _ ns refl (rw valid at h) in
      record {
        context = ctx;
        sent = rw valid sent;
        publishes = rw valid (publish-cached preq ctx _ (flag ∙ stages) pvalid (rw same hit));
      }

  -- After a valid unstage of a volume, whether the plugin has done it or not, the context of
  -- the volume is forgotten, and the others are as they were.
  pub unstage-cache :
      (req : NodeRequest) (id : String) (ns : NodeServer)
      → validate_node_unstage_volume_request req ≡ ok tt
      → lookup id (node_unstage_volume plugin req ns).1.node_stage_cache
        ≡ (if req.volume_id == id then none else lookup id ns.node_stage_cache)
  unfolding node_unstage_volume calls
  unstage-cache req id ns valid = rw valid (lookup-remove req.volume_id id ns.node_stage_cache)
