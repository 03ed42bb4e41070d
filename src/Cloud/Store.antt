-- ===== src/Cloud/Store.antt =====
-- What the documentation of the cloud API promises to one client with the project to itself: List
-- gives the stored volumes, Create adds the volume that it answers, and Delete removes it.
use csi_bizflycloud.Base.{
  List, Option, String, [], arith, eq_iff, first, none, some, true, ◌++◌, ◌==◌, ◌∷◌, ◌≡◌,
}
use csi_bizflycloud.Base.Go.{GoError, err, err_not_found, errors_is, ok}
use csi_bizflycloud.Cloud.{
  Cloud, History, Volume, VolumeCreateRequest, volume_created, volume_deleted, volumes_listed,
}

-- The volume that List shows first under a name.
abbrev pub first_named : String → List Volume → Option Volume
first_named name = first (λ v. v.name == name)

pub record IsStore (cloud : Cloud) (volumes : History → List Volume) : Type 0 where
  pub listed : (h : History) → cloud.on_volumes_list h ≡ ok (volumes h)
  pub list_keeps : (h : History) → volumes (volumes_listed ∷ h) ≡ volumes h
  pub created_name :
      (h : History) (r : VolumeCreateRequest) (v : Volume)
      → cloud.on_volume_create h r ≡ ok v
      → v.name ≡ r.name
  pub created_size :
      (h : History) (r : VolumeCreateRequest) (v : Volume)
      → cloud.on_volume_create h r ≡ ok v
      → v.size ≡ r.size
  -- The new volume stands somewhere among the old ones.
  pub create_adds :
      (h : History) (r : VolumeCreateRequest) (v : Volume)
      → cloud.on_volume_create h r ≡ ok v
      → (xs : List Volume) × (ys : List Volume) × (volumes h ≡ xs ++ ys)
        × (volumes (volume_created r ∷ h) ≡ xs ++ (v ∷ ys))

-- What Delete promises: a volume that was deleted is not found by the next Delete.
pub record DeleteForgets (cloud : Cloud) : Type 0 where
  pub deleted :
      (h : History) (volume : String)
      → cloud.on_volume_delete h volume ≡ ok tt
      → (e : GoError) × (cloud.on_volume_delete (volume_deleted volume ∷ h) volume ≡ err e)
        × (errors_is e err_not_found ≡ true)

-- A new volume of a fresh name is the one that is found under it.
pub first_named-insert :
    (name : String) (v : Volume) (xs ys : List Volume)
    → first_named name (xs ++ ys) ≡ none
    → v.name ≡ name
    → first_named name (xs ++ (v ∷ ys)) ≡ some v
first_named-insert name v [] ys h e = ground (arith, eq_iff v.name name)
first_named-insert name v (x ∷ xs) ys h e = ground (arith, first_named-insert name v xs ys)
