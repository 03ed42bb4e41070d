-- ===== src/Share/Lifecycle.antt =====
-- driver/filestorage/controllerserver.go and nodeserver.go: the context of a volume on its way from
-- CreateVolume to the node service.
use csi_bizflycloud.Base.{
  Bool-cases, Dict, Option, String, [], ap, false, index, inl, inr, insert, is_empty, lookup, none,
  refl, some, subst, sym, ◌||◌, ◌↔◌, ◌∙◌, ◌∷◌, ◌≡◌,
}
use csi_bizflycloud.Base.Go.{GoError, Result, err, ok, ok-injective}
use csi_bizflycloud.Csi.{CreateVolumeRequest, CsiVolume}
use csi_bizflycloud.Wait.{Wait}
use csi_bizflycloud.Share.Api.{FileStorage, Share}
use csi_bizflycloud.Share.Util.{checked_parts, parse_export_location}
use csi_bizflycloud.Share.Controller.Pending.{World}
use csi_bizflycloud.Share.Controller.Volumes.{create_volume, share_context, share_request}
use csi_bizflycloud.Share.Controller.Creation.{StandsFor, create_volume-stands}
use csi_bizflycloud.Share.Node.{build_volume_context}

abbrev pub nfs_context : String → String → Dict String
nfs_context server path = ("server", server) ∷ ("share", path) ∷ []

parts-nonempty :
    (o : Option (String × String)) (server path : String)
    → checked_parts o ≡ ok (server, path)
    → (is_empty server || is_empty path) ≡ false
parts-nonempty none server path h = cc
parts-nonempty (some (a, b)) server path h = elim (Bool-cases (is_empty a || is_empty b)) [
  | inl c ↦ cc (rw c at h)
  | inr c ↦
      let same : (a, b) ≡ (server, path) = ok-injective (rw c at h) in
      subst (λ p. (is_empty p.0 || is_empty p.1) ≡ false) same c
]

built :
    (s : Share) (location a b : String)
    → parse_export_location location ≡ ok (a, b)
    → build_volume_context (share_context s location) ≡ ok (nfs_context a b)
unfolding share_context build_volume_context insert lookup parse_export_location
built s location a b h = rw (h, parts-nonempty _ a b h) refl

nfs_context-parts :
    (a b server path : String)
    → nfs_context a b ≡ nfs_context server path
    → (a ≡ server) × (b ≡ path)
unfolding lookup
nfs_context-parts a b server path h = (ap (λ c. index c "server") h, ap (λ c. index c "share") h)

-- The context of a share is built into that of the plugin exactly if its location has the two parts.
share_context-builds_iff :
    (s : Share) (location server path : String) (r : Result GoError (String × String))
    → parse_export_location location ≡ r
    → (parse_export_location location ≡ ok (server, path))
      ↔ (build_volume_context (share_context s location) ≡ ok (nfs_context server path))
unfolding share_context build_volume_context insert lookup
share_context-builds_iff s location server path (err e) h = rw h ((λ k. cc), (λ k. cc))
share_context-builds_iff s location server path (ok (a, b)) h = (
  λ k. built s location server path k,
  λ k.
      let (left, right) =
        nfs_context-parts a b server path (ok-injective (sym (built s location a b h) ∙ k)) in
      h ∙ rw (left, right) refl,
)

module _ (api : FileStorage) (wait : Wait) (proto : String) (req : CreateVolumeRequest) where
  -- Of the context that a successful CreateVolume answers, the node service builds the context with a
  -- server and a path exactly if the first export location of the share, as List has shown it, is parsed
  -- to them.
  pub created-builds_iff :
      (w : World) (resp : CsiVolume) (server path : String)
      → (create_volume api wait proto req w).0 ≡ ok resp
      → (s : StandsFor api
          (share_request proto req)
          w.calls_made
          (create_volume api wait proto req w).1.calls_made
          resp)
        × ((parse_export_location s.location ≡ ok (server, path))
            ↔ (build_volume_context resp.volume_context ≡ ok (nfs_context server path)))
  created-builds_iff w resp server path e =
      let s = create_volume-stands api wait proto req w resp e in
      (s, rw (s.answered) (share_context-builds_iff s.share s.location server path _ refl))
