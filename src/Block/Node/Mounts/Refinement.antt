-- ===== src/Block/Node/Mounts/Refinement.antt =====
-- driver/blockstorage/nodeserver.go: the requests keep what they promise of the mounts.
use csi_bizflycloud.Base.{Bool, List, Option, String, [], false, inl, none, refl, some, ℕ, ◌∷◌}
use csi_bizflycloud.Base.Go.{Failure, as_text, fail_if, internal, wrap_err, ◌>>◌}
use csi_bizflycloud.Csi.{AccessType, VolumeCapability, block, mount, no_access_type}
use csi_bizflycloud.Metadata.{Metadata}
use csi_bizflycloud.Block.Node.HostCalls.{Acts, Host, file_made, path_asked, unmount_path}
use csi_bizflycloud.Block.Node.{
  MountRequest, NodeRpc, bind_if, format_if, node_publish_volume, node_publish_volume_for_block,
  node_stage_volume, node_unpublish_volume, node_unstage_volume, publish_as, publish_mount,
  publish_with, stage_as, stage_mount, stage_with,
}
use csi_bizflycloud.Block.Node.Mounts.{
  Adds, Change, Clears, Ensures, IsTable, Keeps, NodeOp, Promised, PromisedAll, Table, node_operate,
  node_operate_all, nothing, of_type, published_type, publishing, staged_type, staging, succeeded,
  then, unpublishing, unstaging,
}
use csi_bizflycloud.Block.Node.Mounts.Effects.{
  Sets, Quiet-Sets, Quiet-wrap_err, Sets-bind, Sets-fail, Sets-guard, Sets-then, Sets-wrap_err,
  find_device-Quiet, make_dir-Quiet, mount-Sets, unless-Sets,
}

-- A request that fails may leave the mounts as they were.
adds_idle : (n : ℕ) → Adds false n n
adds_idle n = inl refl

ensures_idle : (n : ℕ) → Ensures false n n
ensures_idle n = inl refl

clears_idle : (n : ℕ) → Clears false n n
clears_idle n = inl refl

published_idle : (t : AccessType) (n : ℕ) → published_type t false n n
published_idle block n = inl refl
published_idle (mount fs flags) n = inl refl
published_idle no_access_type n = inl refl

staged_idle : (t : AccessType) (n : ℕ) → staged_type t false n n
staged_idle block n = refl
staged_idle (mount fs flags) n = inl refl
staged_idle no_access_type n = inl refl

of_type_idle :
    (f : AccessType → Change)
    → ((t : AccessType) (n : ℕ) → f t false n n)
    → (o : Option VolumeCapability) (n : ℕ) → of_type f o false n n
of_type_idle f g none n = refl
of_type_idle f g (some c) n = g c.access_type n

module _ (host : Host) (metadata : Metadata) (table : Acts → Table)
    (laws : IsTable host table) where
  abbrev Changes : String → Change → NodeRpc (Unit {0}) → Type 0
  Changes = Sets host metadata table laws

  publish_for_block-Changes :
      (req : MountRequest)
      → Changes req.target_path Adds (node_publish_volume_for_block host metadata req)
  unfolding node_publish_volume_for_block
  publish_for_block-Changes req =
      Sets-bind host metadata table laws _ Adds adds_idle _ _
        (find_device-Quiet host metadata table laws req.volume_id)
        (λ source.
          Sets-bind host metadata table laws _ Adds adds_idle _ _
            (Quiet-wrap_err host metadata table laws _ _
              (record { at = λ h. laws.quiet h (path_asked (host.dir req.target_path)) refl }))
            (λ exists.
              Sets-then host metadata table laws _ Adds adds_idle _ _
                (make_dir-Quiet host metadata table laws exists _)
                (Sets-then host metadata table laws _ Adds adds_idle _ _
                  (Quiet-wrap_err host metadata table laws _ _
                    (record { at = λ h. laws.quiet h (file_made req.target_path) refl }))
                  (mount-Sets host metadata table laws source req.target_path _))))

  publish_mount-Changes :
      (req : MountRequest) (t : AccessType)
      → Changes req.target_path Ensures (publish_mount host metadata req t)
  publish_mount-Changes req t =
      unless-Sets host metadata table laws req.target_path (λ b. bind_if host metadata b req t)
        (λ h. refl)
        (Sets-wrap_err host metadata table laws req.target_path Adds adds_idle _ _
          (λ h. laws.mounts h _ _ _ _))

  publish_as-Changes :
      (req : MountRequest) (t : AccessType)
      → Changes req.target_path (published_type t) (publish_as host metadata req t)
  publish_as-Changes req block = publish_for_block-Changes req
  publish_as-Changes req (mount fs flags) = publish_mount-Changes req (mount fs flags)
  publish_as-Changes req no_access_type = publish_mount-Changes req no_access_type

  publish_with-Changes :
      (req : MountRequest) (o : Option VolumeCapability)
      → Changes req.target_path (of_type published_type o) (publish_with host metadata req o)
  publish_with-Changes req none = Sets-fail host metadata table laws _ Keeps (λ n. refl) _
  publish_with-Changes req (some c) =
      Sets-guard host metadata table laws _ _ (published_idle c.access_type) _ _ _
        (publish_as-Changes req c.access_type)

  stage_mount-Changes :
      (device path : String) (t : AccessType)
      → Changes path Ensures (stage_mount host metadata device path t)
  stage_mount-Changes device path t =
      unless-Sets host metadata table laws path (λ b. format_if host metadata b device path t)
        (λ h. refl)
        (Sets-wrap_err host metadata table laws path Adds adds_idle _ _
          (λ h. laws.formats h _ _ _ _))

  stage_as-Changes :
      (device path : String) (t : AccessType)
      → Changes path (staged_type t) (stage_as host metadata device path t)
  stage_as-Changes device path block =
      Quiet-Sets host metadata table laws path _ (record { at = λ h. refl })
  stage_as-Changes device path (mount fs flags) = stage_mount-Changes device path (mount fs flags)
  stage_as-Changes device path no_access_type = stage_mount-Changes device path no_access_type

  stage_with-Changes :
      (req : MountRequest) (o : Option VolumeCapability)
      → Changes req.staging_target_path (of_type staged_type o) (stage_with host metadata req o)
  stage_with-Changes req none = Sets-fail host metadata table laws _ Keeps (λ n. refl) _
  stage_with-Changes req (some c) =
      Sets-bind host metadata table laws _ _ (staged_idle c.access_type) _ _
        (find_device-Quiet host metadata table laws req.volume_id)
        (λ device. stage_as-Changes device req.staging_target_path c.access_type)

  unmount-Changes :
      (path : String) → Changes path Clears (wrap_err (as_text internal) (unmount_path host path))
  unmount-Changes path =
      Sets-wrap_err host metadata table laws path Clears clears_idle _ _ (λ h. laws.unmounts h path)

  -- Two guards before a request.
  guarded :
      (path : String) (change : Change) (b c : Bool) (e f : Failure) (k : NodeRpc (Unit {0}))
      → ((n : ℕ) → change false n n)
      → Changes path change k
      → Changes path change (fail_if b e >> (fail_if c f >> k))
  guarded path change b c e f k idle s =
      Sets-guard host metadata table laws path change idle b e _
        (Sets-guard host metadata table laws path change idle c f k s)

  operate-Promised :
      (op : NodeOp) (h : Acts)
      → let (r, after) = node_operate host metadata op h in
        Promised op (succeeded r) (table h) (table after)
  unfolding node_stage_volume node_publish_volume node_unpublish_volume node_unstage_volume
  operate-Promised (staging req) h =
      (guarded _ _ _ _ _ _ _ (of_type_idle staged_type staged_idle req.volume_capability)
          (stage_with-Changes req req.volume_capability)).at
        h
  operate-Promised (publishing req) h =
      (guarded _ _ _ _ _ _ _ (of_type_idle published_type published_idle req.volume_capability)
          (publish_with-Changes req req.volume_capability)).at
        h
  operate-Promised (unpublishing volume target) h =
      (guarded _ _ _ _ _ _ _ clears_idle (unmount-Changes target)).at h
  operate-Promised (unstaging volume path) h =
      (guarded _ _ _ _ _ _ _ clears_idle (unmount-Changes path)).at h

  -- On a host whose mounts behave as those of the mount library: whatever requests to stage, publish,
  -- unpublish and unstage come one after the other, the numbers of mounts at the paths afterwards are
  -- among those that were promised. A stage or a publication of a file system that succeeds has a mount
  -- at its path, a publication of a block device one more, and an unpublication or an unstage none; one
  -- that fails has made its change or not; and no other path changes.
  pub node_operate_all-refines :
      (ops : List NodeOp) (h : Acts)
      → let (answers, after) = node_operate_all host metadata ops h in
        PromisedAll ops (table h) answers (table after)
  unfolding node_operate_all
  node_operate_all-refines [] h = nothing _
  node_operate_all-refines (op ∷ ops) h =
      then op ops _ _ _ _ _ (operate-Promised op h)
        (node_operate_all-refines ops (node_operate host metadata op h).1)
