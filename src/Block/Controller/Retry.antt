-- ===== src/Block/Controller/Retry.antt =====
-- driver/blockstorage/controller.go: CreateVolume, called once and called again.
use csi_bizflycloud.Base.{
  Bool-cases, List, Option, false, inl, inr, is_empty, none, refl, some, sym, ◌∙◌, ◌∷◌, ◌≡◌, ◌⊎◌,
}
use csi_bizflycloud.Base.Int.{eqℤ, eqℤ_refl, eqℤ→eq}
use csi_bizflycloud.Base.Go.{GoError, Result, calls, continue, err, ok, ok-injective, plain, ◌>>=◌}
use csi_bizflycloud.Csi.{CreateVolumeRequest, CsiVolume}
use csi_bizflycloud.Cloud.{
  Cloud, History, Volume, VolumeCreateRequest, volume_created, volumes_listed,
}
use csi_bizflycloud.Cloud.Store.{IsStore, first_named, first_named-insert}
use csi_bizflycloud.Block.Client.{get_volumes_by_name, named, or_error}
use csi_bizflycloud.Block.Controller.Volumes.{
  RoundUp, create_volume, get_create_volume_response, is_nil, reuse_or_create, volume_request,
}

-- List shows no volume of the name, or fails.
abbrev pub Absent : Cloud → VolumeCreateRequest → History → Type 0
Absent cloud r h =
    ((vs : List Volume) × (cloud.on_volumes_list h ≡ ok vs) × (first_named r.name vs ≡ none))
    ⊎ ((e : GoError) × (cloud.on_volumes_list h ≡ err e))

-- How a creation that succeeds has gone: the volume that List shows under the name has the size
-- and is answered, or none was shown and Create was called once.
pub data Provided (cloud : Cloud) (r : VolumeCreateRequest) (h h' : History) (resp : CsiVolume)
    : Type 0 where
  reused :
      (vs : List Volume) (v : Volume)
      → cloud.on_volumes_list h ≡ ok vs
      → first_named r.name vs ≡ some v
      → v.size ≡ r.size
      → resp ≡ get_create_volume_response v
      → h' ≡ volumes_listed ∷ h
      → Provided cloud r h h' resp
  made :
      (v : Volume)
      → Absent cloud r h
      → cloud.on_volume_create (volumes_listed ∷ h) r ≡ ok v
      → resp ≡ get_create_volume_response v
      → h' ≡ volume_created r ∷ volumes_listed ∷ h
      → Provided cloud r h h' resp

module _ (cloud : Cloud) where
  made_or_failed :
      (r : VolumeCreateRequest) (h : History) (resp : CsiVolume) (e : GoError)
      → Absent cloud r h
      → (x : Result GoError Volume) → cloud.on_volume_create (volumes_listed ∷ h) r ≡ x
      → (reuse_or_create cloud r (err e) (volumes_listed ∷ h)).0 ≡ ok resp
      → Provided cloud r h (reuse_or_create cloud r (err e) (volumes_listed ∷ h)).1 resp
  unfolding calls
  made_or_failed r h resp e absent (ok v) c p =
      made v absent c (sym (ok-injective (rw c at p))) (rw c)
  made_or_failed r h resp e absent (err x) c p = cc (rw c at p)

  found_or_made :
      (r : VolumeCreateRequest) (h : History) (resp : CsiVolume) (vs : List Volume)
      → cloud.on_volumes_list h ≡ ok vs
      → (o : Option Volume) → first_named r.name vs ≡ o
      → let found =
          continue
            (ok vs)
            (λ volumes. or_error (plain "volume not found") (named r.name volumes))
            (volumes_listed ∷ h) in
        (reuse_or_create cloud r found.0 found.1).0 ≡ ok resp
        → Provided cloud r h (reuse_or_create cloud r found.0 found.1).1 resp
  found_or_made r h resp vs l none n p =
      rw n (made_or_failed r h resp (plain "volume not found") (inl (vs, l, n)) _ refl (rw n at p))
  found_or_made r h resp vs l (some v) n p = elim (Bool-cases (eqℤ r.size v.size)) [
    | inl b ↦
        rw (n, b)
          (reused vs v l n (sym (eqℤ→eq _ _ b)) (sym (ok-injective (rw b at (rw n at p)))) refl)
    | inr b ↦ cc (rw b at (rw n at p))
  ]

  listed_or_not :
      (r : VolumeCreateRequest) (h : History) (resp : CsiVolume) (x : Result GoError (List Volume))
      → cloud.on_volumes_list h ≡ x
      → let found = get_volumes_by_name cloud r.name h in
        (reuse_or_create cloud r found.0 found.1).0 ≡ ok resp
        → Provided cloud r h (reuse_or_create cloud r found.0 found.1).1 resp
  unfolding get_volumes_by_name ◌>>=◌
  listed_or_not r h resp (ok vs) l p = rw l (found_or_made r h resp vs l _ refl (rw l at p))
  listed_or_not r h resp (err e) l p =
      rw l (made_or_failed r h resp e (inr (e, l)) _ refl (rw l at p))

  -- A creation that succeeds answers the volume that List shows first under the name, if it
  -- has the requested size and List is the only call; or List shows none or fails, and Create
  -- is called once and its volume is answered.
  pub create_volume-Provided :
      (round_up : RoundUp) (req : CreateVolumeRequest) (h : History) (resp : CsiVolume)
      → (create_volume cloud round_up req h).0 ≡ ok resp
      → Provided cloud (volume_request round_up req) h (create_volume cloud round_up req h).1 resp
  unfolding create_volume calls volume_request
  create_volume-Provided round_up req h resp p = elim (Bool-cases (is_empty req.name)) [
    | inl b ↦ cc (rw b at p)
    | inr b ↦ elim (Bool-cases (is_nil req.volume_capabilities)) [
      | inl c ↦ cc (rw c at (rw b at p))
      | inr c ↦
          rw (b, c)
            (listed_or_not (volume_request round_up req) h resp _ refl (rw c at (rw b at p)))
    ]
  ]

  create_volume-reuses :
      (round_up : RoundUp) (req : CreateVolumeRequest) (h : History) (vs : List Volume) (v : Volume)
      → is_empty req.name ≡ false
      → is_nil req.volume_capabilities ≡ false
      → cloud.on_volumes_list h ≡ ok vs
      → first_named req.name vs ≡ some v
      → v.size ≡ (volume_request round_up req).size
      → create_volume cloud round_up req h ≡ (ok (get_create_volume_response v), volumes_listed ∷ h)
  unfolding create_volume calls get_volumes_by_name
  create_volume-reuses round_up req h vs v e f l n k = rw (e, f, l, n, ← k, eqℤ_refl v.size)

  create_volume-valid :
      (round_up : RoundUp) (req : CreateVolumeRequest) (h : History) (resp : CsiVolume)
      → (create_volume cloud round_up req h).0 ≡ ok resp
      → (is_empty req.name ≡ false) × (is_nil req.volume_capabilities ≡ false)
  unfolding create_volume calls
  create_volume-valid round_up req h resp p = elim (Bool-cases (is_empty req.name)) [
    | inl b ↦ cc (rw b at p)
    | inr b ↦ elim (Bool-cases (is_nil req.volume_capabilities)) [
      | inl c ↦ cc (rw c at (rw b at p))
      | inr c ↦ (b, c)
    ]
  ]

  module _ (volumes : History → List Volume) (store : IsStore cloud volumes) where
    none_stored :
        (r : VolumeCreateRequest) (h : History)
        → Absent cloud r h
        → first_named r.name (volumes h) ≡ none
    none_stored r h (inl (vs, l, n)) = rw (ok-injective (sym (store.listed h) ∙ l)) n
    none_stored r h (inr (e, l)) = cc (store.listed h)

    -- After a creation that succeeded, List shows under the name the volume that was answered.
    pub shown_after :
        (r : VolumeCreateRequest) (h h' : History) (resp : CsiVolume)
        → Provided cloud r h h' resp
        → (v : Volume) × (first_named r.name (volumes h') ≡ some v)
          × (v.size ≡ r.size)
          × (resp ≡ get_create_volume_response v)
    shown_after r h h' resp (reused vs v l n k e q) =
        (v, rw (q, store.list_keeps, ok-injective (sym (store.listed h) ∙ l)) n, k, e)
    shown_after r h h' resp (made v absent c e q) =
        let old = volumes_listed ∷ h in
        let (xs, ys, before, after) = store.create_adds old r v c in
        (
          v,
          rw (q, after)
              (first_named-insert r.name v xs ys
                (rw (sym before ∙ store.list_keeps h) (none_stored r h absent))
                (store.created_name old r v c)),
          store.created_size old r v c,
          e,
        )

    -- On a cloud that is a store of volumes: called again with the same request after it
    -- succeeded, CreateVolume gives the same answer and makes no call but List.
    pub create_volume-retry :
        (round_up : RoundUp) (req : CreateVolumeRequest) (h : History) (resp : CsiVolume)
        → (create_volume cloud round_up req h).0 ≡ ok resp
        → let h' = (create_volume cloud round_up req h).1 in
          create_volume cloud round_up req h' ≡ (ok resp, volumes_listed ∷ h')
    create_volume-retry round_up req h resp p =
        let valid = create_volume-valid round_up req h resp p in
        let shown = shown_after _ h _ resp (create_volume-Provided round_up req h resp p) in
        rw shown.3 (
          create_volume-reuses round_up req _ _ shown.0 valid.0 valid.1 (store.listed _)
            (unfold volume_request in shown.1) shown.2)
