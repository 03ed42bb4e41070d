-- ===== src/Share/Controller/Expansion.antt =====
-- driver/filestorage/controllerserver.go: ControllerExpandVolume.
use csi_bizflycloud.Base.{
  Bool-cases, List, Option, String, any, arith, false, if◌then◌else◌, inl, inr, none, refl, some,
  tally, true, ◌+◌, ◌==◌, ◌∙◌, ◌∷◌, ◌≡◌,
}
use csi_bizflycloud.Base.Int.{leℤ, ℤ}
use csi_bizflycloud.Base.Go.{Result-cases, calls, ok, wrap_err}
use csi_bizflycloud.Base.Post.{Keeps, bind-at, keeps_rules}
use csi_bizflycloud.Csi.{ExpandRequest, required_of}
use csi_bizflycloud.Wait.{Wait}
use csi_bizflycloud.Share.Api.{Calls, FileStorage, Share, resizes, shares_listed}
use csi_bizflycloud.Share.Util.{
  bytes_to_gib, share_bytes, validate_controller_expand_volume_request,
}
use csi_bizflycloud.Share.Shares.{get_share_by_id, resize_share, with_id}
use csi_bizflycloud.Share.Shares.Laws.{wait_for_share_available_bounded}
use csi_bizflycloud.Share.Controller.Pending.{World, exclusively, load_or_store}
use csi_bizflycloud.Share.Controller.Volumes.{
  capacity_of, controller_expand_volume, expand_body, grow,
}
use csi_bizflycloud.Share.Controller.Locks.{LeavesKeys, delete_key-cons, exclusively-pending}
use csi_bizflycloud.Share.Controller.Creation.{keys_kept}

module _ (api : FileStorage) (wait : Wait) where
  grow-Keeps :
      (ks : List String) (size : ℤ) (s : Share) → Keeps (λ w. w.pending ≡ ks) (grow api wait size s)
  grow-Keeps ks size s = elim (Bool-cases (leℤ size s.size)) [
    | inl b ↦ rw b (record { at = λ w e. e })
    | inr b ↦ rw b (search (keeps_rules, keys_kept, capacity_keeps))
  ]
    where
      capacity_keeps : (o : Option Share) → Keeps (λ w. w.pending ≡ ks) (capacity_of o)
      capacity_keeps none = record { at = λ w e. e }
      capacity_keeps (some s) = record { at = λ w e. e }

  expand_body-LeavesKeys : (req : ExpandRequest) → LeavesKeys (expand_body api wait req)
  unfolding expand_body
  expand_body-LeavesKeys req = record { at = λ w. (kept w.pending).at w refl }
    where
      kept : (ks : List String) → Keeps (λ w. w.pending ≡ ks) (expand_body api wait req)
      kept ks = search (keeps_rules, keys_kept, grow-Keeps)

  -- After ControllerExpandVolume the pending ids are those of before, whatever it answers.
  pub controller_expand-pending :
      (req : ExpandRequest) (w : World)
      → (controller_expand_volume api wait req w).1.pending ≡ w.pending
  unfolding controller_expand_volume
  controller_expand-pending req w =
      elim (Result-cases (validate_controller_expand_volume_request req)) [
        | inl (u, e) ↦ rw e (exclusively-pending req.volume_id _ w (expand_body-LeavesKeys req))
        | inr (x, e) ↦ rw e
      ]

  tally-resize_share :
      (id : String) (size : ℤ) (h : Calls)
      → tally resizes (resize_share api wait id size h).1 ≡ tally resizes h + 1
  unfolding resize_share
  tally-resize_share id size h =
      bind-at (λ t. tally resizes t ≡ tally resizes h + 1) _ _
        (λ s. record { at = λ t e. (wait_for_share_available_bounded api wait s.id t).1 ∙ e }) h
        (unfold calls in omega arith)

  tally-grow :
      (size : ℤ) (s : Share) (w : World)
      → tally resizes (grow api wait size s w).1.calls_made
        ≡ tally resizes w.calls_made + (if leℤ size s.size then 0 else 1)
  tally-grow size s w = elim (Bool-cases (leℤ size s.size)) [
    | inl b ↦ rw b (omega arith)
    | inr b ↦ rw b (
        bind-at (λ v. tally resizes v.calls_made ≡ tally resizes w.calls_made + 1) _ _
          capacity_quiet w (unfold wrap_err in tally-resize_share s.id size w.calls_made))
  ]
    where
      capacity_quiet :
          (o : Option Share)
          → Keeps (λ v. tally resizes v.calls_made ≡ tally resizes w.calls_made + 1) (capacity_of o)
      capacity_quiet none = record { at = λ w e. e }
      capacity_quiet (some s) = record { at = λ w e. e }

  -- For a valid request whose key is free, and a share that the list shows under the id:
  -- Resize is called once if the required size in GiB is larger than the share, and not at all
  -- if it is not.
  pub controller_expand-resizes :
      (req : ExpandRequest) (w : World) (shares : List Share) (s : Share)
      → validate_controller_expand_volume_request req ≡ ok tt
      → any (λ k. k == req.volume_id) w.pending ≡ false
      → api.on_list w.calls_made ≡ ok shares
      → with_id req.volume_id shares ≡ some s
      → tally resizes (controller_expand_volume api wait req w).1.calls_made
        ≡ tally resizes w.calls_made
          + (if leℤ (bytes_to_gib (required_of req.capacity_range)) s.size then 0 else 1)
  unfolding controller_expand_volume exclusively load_or_store expand_body get_share_by_id calls
  controller_expand-resizes req w shares s v free l n = rw (v, free, l, n) (tally-grow _ s _)

  -- For a valid request whose key is free, and a share that the list shows under the id and
  -- that is large enough: one List is made, and the size of the share is answered.
  pub controller_expand-enough :
      (req : ExpandRequest) (w : World) (shares : List Share) (s : Share)
      → validate_controller_expand_volume_request req ≡ ok tt
      → any (λ k. k == req.volume_id) w.pending ≡ false
      → api.on_list w.calls_made ≡ ok shares
      → with_id req.volume_id shares ≡ some s
      → leℤ (bytes_to_gib (required_of req.capacity_range)) s.size ≡ true
      → controller_expand_volume api wait req w ≡ (
        ok (record { capacity_bytes = share_bytes s.size; node_expansion_required = false }),
        record w { calls_made = shares_listed ∷ w.calls_made },
      )
  unfolding controller_expand_volume exclusively load_or_store expand_body get_share_by_id calls
  controller_expand-enough req w shares s v free l n b =
      rw (v, free, l, n, b, delete_key-cons req.volume_id w.pending free)
