-- ===== src/Block/Node/Blocks.antt =====
-- driver/blockstorage/nodeserver.go: nodePublishVolumeForBlock.
use csi_bizflycloud.Base.{
  Bool, Bool-cases, String, false, if◌then◌else◌, inl, inr, is_empty, refl, tally, true, ℕ, ◌∙◌,
  ◌∷◌, ◌≡◌,
}
use csi_bizflycloud.Base.Go.{
  Failure, GoError, Result, Result-cases, as_status, as_text, attempt, calls, continue, err,
  internal, ok, wrap_err, ◌>>=◌, ◌>>◌,
}
use csi_bizflycloud.Metadata.{Metadata}
use csi_bizflycloud.Block.Node.HostCalls.{
  Act, Acts, Host, HostCall, device_sought, file_removed, make_file, mount_at, mounted, path_exists,
}
use csi_bizflycloud.Block.Node.{
  MountRequest, NodeRpc, after_mount, get_device_path, make_dir_unless, mount_failure,
  mount_options, node_publish_volume_for_block,
}

abbrev pub binds : HostCall → Bool
binds (mounted source target fs options) = true
binds _ = false

-- How the publish of a block device has ended: Mount was not called and the call failed; Mount of a
-- device was the last call, and succeeded; or it failed, and the file was removed after it.
pub data Published (host : Host) (req : MountRequest) (n : ℕ)
    : Result Failure (Unit {0}) × Acts → Type 0 where
  unmounted_yet : (e : Failure) (h : Acts) → tally binds h ≡ n → Published host req n (err e, h)
  bound :
      (source : String) (t : Acts)
      → tally binds t ≡ n
      → is_empty source ≡ false
      → host.on_mount t source req.target_path "" (mount_options req.readonly) ≡ ok tt
      → Published host req n
          (ok tt, mounted source req.target_path "" (mount_options req.readonly) ∷ t)
  cleaned :
      (source : String) (t : Acts) (e : GoError)
      → tally binds t ≡ n
      → host.on_mount t source req.target_path "" (mount_options req.readonly) ≡ err e
      → Published host req n (
        err (
            mount_failure (
              host.on_remove
                (mounted source req.target_path "" (mount_options req.readonly) ∷ t)
                req.target_path)),
        file_removed req.target_path
            ∷ mounted source req.target_path "" (mount_options req.readonly)
            ∷ t,
      )

module _ (host : Host) (metadata : Metadata) (req : MountRequest) (n : ℕ) where
  -- A part of the handler that is run where Mount was not called yet.
  record Rest (m : NodeRpc (Unit {0})) : Type 0 where
    at : (t : Acts) → tally binds t ≡ n → Published host req n (m t)

  record Quiet {A : Type 0} (m : NodeRpc A) : Type 0 where
    at : (t : Acts) → tally binds (m t).1 ≡ tally binds t

  after_quiet :
      {A : Type 0} (r : Result Failure A) (f : A → NodeRpc (Unit {0})) (t : Acts)
      → ((a : A) → Rest (f a))
      → tally binds t ≡ n
      → Published host req n (continue r f t)
  after_quiet (ok a) f t h q = (h a).at t q
  after_quiet (err e) f t h q = unmounted_yet e t q

  Rest-bind :
      {A : Type 0} (m : NodeRpc A) (f : A → NodeRpc (Unit {0}))
      → Quiet m
      → ((a : A) → Rest (f a))
      → Rest (m >>= f)
  unfolding ◌>>=◌
  Rest-bind m f k h = record { at = λ t q. after_quiet (m t).0 f (m t).1 h (k.at t ∙ q) }

  Rest-then :
      {A : Type 0} (m : NodeRpc A) (k : NodeRpc (Unit {0})) → Quiet m → Rest k → Rest (m >> k)
  unfolding ◌>>◌
  Rest-then m k q h = record {
    at = λ t e. after_quiet (m t).0 (λ _. k) (m t).1 (λ _. h) (q.at t ∙ e);
  }

  Quiet-wrap_err :
      {A : Type 0} (f : GoError → Failure) (m : Act A)
      → ((t : Acts) → tally binds (m t).1 ≡ tally binds t)
      → Quiet (wrap_err f m)
  unfolding wrap_err
  Quiet-wrap_err f m q = record { at = q }

  mount-Rest :
      (source : String)
      → is_empty source ≡ false
      → Rest (
          attempt (mount_at host source req.target_path "" (mount_options req.readonly))
          >>= after_mount host metadata req.target_path)
  unfolding calls
  mount-Rest source d = record {
    at = λ t q.
        elim (Result-cases
          (host.on_mount t source req.target_path "" (mount_options req.readonly))) [
            | inl (tt, e) ↦ rw e (bound source t q d e)
            | inr (x, e) ↦ rw e (cleaned source t x q e)
          ];
  }

  tail-Rest :
      (source : String)
      → is_empty source ≡ false
      → Rest (do
        exists ← wrap_err (as_text internal) (path_exists host (host.dir req.target_path))
        make_dir_unless host metadata exists (host.dir req.target_path)
        wrap_err (as_status internal "Error in making file %v") (make_file host req.target_path)
        done ← attempt (mount_at host source req.target_path "" (mount_options req.readonly))
        after_mount host metadata req.target_path done)
  tail-Rest source d = Rest-bind _ _ (Quiet-wrap_err _ _ (λ t. refl)) λ exists.
      Rest-then _ _ (dir_quiet exists)
        (Rest-then _ _ (Quiet-wrap_err _ _ (λ t. refl)) (mount-Rest source d))
    where
      dir_quiet : (b : Bool) → Quiet (make_dir_unless host metadata b (host.dir req.target_path))
      dir_quiet true = record { at = λ t. refl }
      dir_quiet false = Quiet-wrap_err _ _ (λ t. refl)

module _ (host : Host) (metadata : Metadata) where
  -- However the publish of a block device ends: Mount was not called and the call fails; or Mount was
  -- called once, as the last call, on a device path that is not empty, and the call succeeds; or that
  -- Mount failed, the file was removed right after it, and the call fails.
  pub publish_for_block-Published :
      (req : MountRequest) (h : Acts)
      → Published host req (tally binds h) (node_publish_volume_for_block host metadata req h)
  unfolding node_publish_volume_for_block get_device_path calls
  publish_for_block-Published req h =
      let path = host.on_device_path h req.volume_id in
      let device = if is_empty path then metadata.device_path req.volume_id else path in
      elim (Bool-cases (is_empty device)) [
        | inl b ↦ rw b (unmounted_yet _ (device_sought req.volume_id ∷ h) refl)
        | inr b ↦ rw b (
            (tail-Rest host metadata req (tally binds h) device b).at
              (device_sought req.volume_id ∷ h) refl)
      ]
