-- ===== src/Block/Controller/Promises/Refinement.antt =====
-- driver/blockstorage/controller.go: the handlers for volumes keep what they promise, on a cloud that
-- keeps volumes.
use csi_bizflycloud.Base.{
  Bool-cases, List, Option, String, [], ap, eq_iff, inl, inr, is_empty, none, refl, some, subst,
  sym, ◌++◌, ◌∙◌, ◌∷◌, ◌≡◌,
}
use csi_bizflycloud.Base.Int.{eqℤ, eqℤ_refl, eqℤ→eq, gib}
use csi_bizflycloud.Base.Go.{
  GoError, Result, Result-cases, calls, err, err_not_found, errors_is, ok, plain,
}
use csi_bizflycloud.Csi.{CapacityRange, CreateVolumeRequest, ExpandRequest, ExpandResponse}
use csi_bizflycloud.Cloud.{
  Cloud, History, Volume, VolumeCreateRequest, volume_extended, volume_got, volumes_listed,
}
use csi_bizflycloud.Cloud.Store.{first_named}
use csi_bizflycloud.Cloud.Volumes.{
  IsDistinct, IsVolumeStore, extended-IsDistinct, insert-IsDistinct, without-IsDistinct,
}
use csi_bizflycloud.Cloud.Views.{
  id-shown, updated, view, view-extended, view-insert, view-without, without-missing,
}
use csi_bizflycloud.Block.Client.{get_volumes_by_name, or_error}
use csi_bizflycloud.Block.Controller.Volumes.{
  RoundUp, create_volume, delete_volume, get_create_volume_response, is_nil, reuse_or_create,
  volume_request,
}
use csi_bizflycloud.Block.Controller.Queries.{controller_expand_volume, expand_in, over_limit}
use csi_bizflycloud.Block.Controller.Promises.{
  Promised, PromisedAll, Reply, VolumeOp, conflicts, created, creating, creation_fails,
  creation_invalid, deleted, deletes, deleting, deletion_fails, expanded, expanding, expands,
  expansion_fails, makes, nothing, operate, operate_all, replied, reuses, then,
}

module _ (cloud : Cloud) (round_up : RoundUp) (volumes : History → List Volume)
    (laws : IsVolumeStore cloud volumes) where
  -- The promise for what an operation has come to, and distinct names afterwards.
  abbrev KeepsPromise : VolumeOp → History → Reply × History → Type 0
  KeepsPromise op h (reply, h1) =
      Promised round_up op (view (volumes h)) reply (view (volumes h1)) × IsDistinct (volumes h1)

  abbrev vcr : CreateVolumeRequest → VolumeCreateRequest
  vcr req = volume_request round_up req

  -- CreateVolume after List.
  abbrev provide : CreateVolumeRequest → Result GoError Volume × History → Reply × History
  provide req (found, h) = replied cloud round_up created (reuse_or_create cloud (vcr req) found) h

  make-KeepsPromise :
      (req : CreateVolumeRequest) (h : History) (e : GoError)
      → IsDistinct (volumes h)
      → view (volumes h) req.name ≡ none
      → (x : Result GoError Volume) → cloud.on_volume_create (volumes_listed ∷ h) (vcr req) ≡ x
      → KeepsPromise (creating req) h (provide req (err e, volumes_listed ∷ h))
  unfolding calls volume_request
  make-KeepsPromise req h e d free (err x) c =
      rw (c, laws.create_fails _ _ _ c, laws.store.list_keeps h)
        (creation_fails req (view (volumes h)) _ free, d)
  make-KeepsPromise req h e d free (ok v) c =
      let (xs, ys, before, after) = laws.store.create_adds _ _ v c in
      let now : volumes h ≡ xs ++ ys = sym (laws.store.list_keeps h) ∙ before in
      let named : v.name ≡ req.name = laws.store.created_name _ _ v c in
      let fresh : first_named v.name (xs ++ ys) ≡ none = rw (named, ← now) free in
      rw (c, after)
        (
          subst
              (λ b.
                Promised round_up (creating req) (view (volumes h))
                  (created (ok (get_create_volume_response v))) b)
              (ap (λ ws. updated v (view ws)) now ∙ sym (view-insert v xs ys fresh))
              (makes req (view (volumes h)) v free named (laws.store.created_size _ _ v c)),
          insert-IsDistinct v xs ys (subst IsDistinct now d) fresh,
        )

  found-KeepsPromise :
      (req : CreateVolumeRequest) (h : History)
      → IsDistinct (volumes h)
      → (o : Option Volume) → view (volumes h) req.name ≡ o
      → KeepsPromise
          (creating req)
          h
          (provide req (or_error (plain "volume not found") o (volumes_listed ∷ h)))
  unfolding calls
  found-KeepsPromise req h d none e = make-KeepsPromise req h (plain "volume not found") d e _ refl
  found-KeepsPromise req h d (some v) e = elim (Bool-cases (eqℤ (vcr req).size v.size)) [
    | inl b ↦
        rw (b, laws.store.list_keeps h) (reuses req (view (volumes h)) v e (sym (eqℤ→eq _ _ b)), d)
    | inr b ↦
        rw (b, laws.store.list_keeps h)
          (
            conflicts req (view (volumes h)) v _ e
                (λ p. cc (sym (eqℤ_refl (vcr req).size) ∙ (rw p at b))),
            d,
          )
  ]

  creating-KeepsPromise :
      (req : CreateVolumeRequest) (h : History)
      → IsDistinct (volumes h)
      → KeepsPromise (creating req) h (operate cloud round_up (creating req) h)
  unfolding create_volume calls get_volumes_by_name
  creating-KeepsPromise req h d = elim (Bool-cases (is_empty req.name)) [
    | inl b ↦ rw b (creation_invalid req (view (volumes h)) _, d)
    | inr b ↦ elim (Bool-cases (is_nil req.volume_capabilities)) [
      | inl c ↦ rw (b, c) (creation_invalid req (view (volumes h)) _, d)
      | inr c ↦
          rw (b, c, laws.store.listed h)
            (unfold volume_request calls in found-KeepsPromise req h d _ refl)
    ]
  ]

  deleting-KeepsPromise :
      (id : String) (h : History)
      → IsDistinct (volumes h)
      → KeepsPromise (deleting id) h (operate cloud round_up (deleting id) h)
  unfolding delete_volume calls
  deleting-KeepsPromise id h d = elim (Bool-cases (is_empty id)) [
    | inl b ↦ rw b (deletion_fails id _ _, d)
    | inr b ↦ elim (Result-cases (cloud.on_volume_delete h id)) [
      | inl (tt, c) ↦
          rw (b, c, laws.delete_removes h id c)
            (
              subst (λ a. Promised round_up (deleting id) (view (volumes h)) (deleted (ok tt)) a)
                  (sym (view-without id (volumes h) d)) (deletes id (view (volumes h))),
              without-IsDistinct id (volumes h) d,
            )
      | inr (e, c) ↦ elim (Bool-cases (errors_is e err_not_found)) [
        | inl f ↦
            let absent = without-missing id (volumes h) (laws.delete_missing h id e c f) in
            rw (b, c, f, laws.delete_fails h id e c)
              (
                subst (λ a. Promised round_up (deleting id) (view (volumes h)) (deleted (ok tt)) a)
                    (sym (view-without id (volumes h) d) ∙ ap view absent)
                    (deletes id (view (volumes h))),
                d,
              )
        | inr f ↦ rw (b, c, f, laws.delete_fails h id e c) (deletion_fails id _ _, d)
      ]
    ]
  ]

  extended-KeepsPromise :
      (req : ExpandRequest) (range : CapacityRange) (h : History) (w : Volume)
      → req.capacity_range ≡ some range
      → IsDistinct (volumes h)
      → cloud.on_volume_get h req.volume_id ≡ ok w
      → let size = round_up range.required_bytes gib in
        let h1 = volume_got req.volume_id ∷ h in
        (resp : ExpandResponse)
        → cloud.on_volume_extend h1 req.volume_id size ≡ ok tt
        → KeepsPromise
            (expanding req)
            h
            (expanded (ok resp), volume_extended req.volume_id size ∷ h1)
  extended-KeepsPromise req range h w r d g resp x =
      let (v, shown, same) = id-shown req.volume_id (volumes h) d (laws.got h req.volume_id w g) in
      rw (laws.extend_sets _ _ _ x, laws.get_keeps h req.volume_id)
        (
          subst (λ a. Promised round_up (expanding req) (view (volumes h)) (expanded (ok resp)) a)
              (sym (view-extended req.volume_id _ (volumes h)))
              (expands req (view (volumes h)) range v resp r shown
                ((eq_iff v.id req.volume_id).0 same)),
          extended-IsDistinct req.volume_id _ (volumes h) d,
        )

  range-KeepsPromise :
      (req : ExpandRequest) (h : History)
      → IsDistinct (volumes h)
      → (o : Option CapacityRange) → req.capacity_range ≡ o
      → KeepsPromise
          (expanding req)
          h
          (replied cloud round_up expanded (expand_in cloud round_up req.volume_id o) h)
  unfolding calls
  range-KeepsPromise req h d none r = (expansion_fails req _ _, d)
  range-KeepsPromise req h d (some range) r =
      let id = req.volume_id in
      let size = round_up range.required_bytes gib in
      elim (Bool-cases (over_limit range)) [
        | inl l ↦ rw l (expansion_fails req _ _, d)
        | inr l ↦ elim (Result-cases (cloud.on_volume_get h id)) [
          | inr (e, g) ↦ rw (l, g, laws.get_keeps h id) (expansion_fails req _ _, d)
          | inl (w, g) ↦ elim (Result-cases (cloud.on_volume_extend (volume_got id ∷ h) id size)) [
            | inl (u, x) ↦ rw (l, g, x) (extended-KeepsPromise req range h w r d g _ x)
            | inr (e, x) ↦
                rw (l, g, x, laws.extend_fails _ _ _ e x, laws.get_keeps h id)
                  (expansion_fails req _ _, d)
          ]
        ]
      ]

  expanding-KeepsPromise :
      (req : ExpandRequest) (h : History)
      → IsDistinct (volumes h)
      → KeepsPromise (expanding req) h (operate cloud round_up (expanding req) h)
  unfolding controller_expand_volume calls
  expanding-KeepsPromise req h d = elim (Bool-cases (is_empty req.volume_id)) [
    | inl b ↦ rw b (expansion_fails req _ _, d)
    | inr b ↦ rw b (range-KeepsPromise req h d _ refl)
  ]

  operate-KeepsPromise :
      (op : VolumeOp) (h : History)
      → IsDistinct (volumes h)
      → KeepsPromise op h (operate cloud round_up op h)
  operate-KeepsPromise (creating req) h d = creating-KeepsPromise req h d
  operate-KeepsPromise (deleting id) h d = deleting-KeepsPromise id h d
  operate-KeepsPromise (expanding req) h d = expanding-KeepsPromise req h d

  -- On a cloud that keeps volumes, whose names are distinct: however often the three handlers run, the
  -- answers and the volumes by their names are those that were promised, and the names stay distinct.
  pub operate_all-refines :
      (ops : List VolumeOp) (h : History)
      → IsDistinct (volumes h)
      → let (replies, after) = operate_all cloud round_up ops h in
        PromisedAll round_up ops (view (volumes h)) replies (view (volumes after))
        × IsDistinct (volumes after)
  unfolding operate_all
  operate_all-refines [] h d = (nothing _, d)
  operate_all-refines (op ∷ ops) h d =
      let (step, d1) = operate-KeepsPromise op h d in
      let (more, d2) = operate_all-refines ops (operate cloud round_up op h).1 d1 in
      (then op ops _ _ _ _ _ step more, d2)
