-- ===== src/Cloud/Volumes.antt =====
-- Lists of volumes by their names: what the cloud keeps, for the block storage controller.
use csi_bizflycloud.Base.{
  Bool, Bool-cases, List, String, [], any, arith, eq_iff, false, if◌then◌else◌, inl, inr, map, none,
  not, refl, select, subst, tally, true, ◌++◌, ◌+◌, ◌==◌, ◌∷◌, ◌≡◌, ◌≤◌,
}
use csi_bizflycloud.Base.Int.{ℤ}
use csi_bizflycloud.Base.Go.{GoError, err, err_not_found, errors_is, ok}
use csi_bizflycloud.Cloud.{
  Cloud, History, Volume, VolumeCreateRequest, volume_created, volume_deleted, volume_extended,
  volume_got,
}
use csi_bizflycloud.Cloud.Store.{IsStore, first_named}

abbrev pub has_name : String → Volume → Bool
has_name name v = v.name == name

abbrev pub has_id : String → Volume → Bool
has_id id v = v.id == id

-- No two volumes have the same name.
abbrev pub IsDistinct : List Volume → Type 0
IsDistinct vs = (name : String) → tally (has_name name) vs ≤ 1

-- What Delete and Extend do to the volumes.
abbrev pub without : String → List Volume → List Volume
without id = select (λ v. not (has_id id v))

abbrev pub extended : String → ℤ → Volume → Volume
extended id size v = if has_id id v then record v { size = size } else v

-- What the cloud promises to one client with the project to itself: a call that fails, and a query,
-- change no volume; Delete removes the volumes of an id, and says that it is not found only if there is
-- none; Get finds only what is there; and Extend sets the size.
pub record IsVolumeStore (cloud : Cloud) (volumes : History → List Volume) : Type 0 where
  pub store : IsStore cloud volumes
  pub create_fails :
      (h : History) (r : VolumeCreateRequest) (e : GoError)
      → cloud.on_volume_create h r ≡ err e
      → volumes (volume_created r ∷ h) ≡ volumes h
  pub delete_removes :
      (h : History) (id : String)
      → cloud.on_volume_delete h id ≡ ok tt
      → volumes (volume_deleted id ∷ h) ≡ without id (volumes h)
  pub delete_fails :
      (h : History) (id : String) (e : GoError)
      → cloud.on_volume_delete h id ≡ err e
      → volumes (volume_deleted id ∷ h) ≡ volumes h
  pub delete_missing :
      (h : History) (id : String) (e : GoError)
      → cloud.on_volume_delete h id ≡ err e
      → errors_is e err_not_found ≡ true
      → any (has_id id) (volumes h) ≡ false
  pub get_keeps : (h : History) (id : String) → volumes (volume_got id ∷ h) ≡ volumes h
  pub got :
      (h : History) (id : String) (v : Volume)
      → cloud.on_volume_get h id ≡ ok v
      → any (has_id id) (volumes h) ≡ true
  pub extend_sets :
      (h : History) (id : String) (size : ℤ)
      → cloud.on_volume_extend h id size ≡ ok tt
      → volumes (volume_extended id size ∷ h) ≡ map (extended id size) (volumes h)
  pub extend_fails :
      (h : History) (id : String) (size : ℤ) (e : GoError)
      → cloud.on_volume_extend h id size ≡ err e
      → volumes (volume_extended id size ∷ h) ≡ volumes h

pub first_named-none :
    (name : String) (vs : List Volume) → first_named name vs ≡ none → tally (has_name name) vs ≡ 0
first_named-none name [] h = refl
first_named-none name (v ∷ vs) h = ground (arith, first_named-none name vs)

pub tally-none :
    (name : String) (vs : List Volume) → tally (has_name name) vs ≡ 0 → first_named name vs ≡ none
tally-none name [] h = refl
tally-none name (v ∷ vs) h = ground (arith, tally-none name vs)

tally-insert :
    (name : String) (v : Volume) (xs ys : List Volume)
    → tally (has_name name) (xs ++ (v ∷ ys))
      ≡ tally (has_name name) (xs ++ ys) + (if v.name == name then 1 else 0)
tally-insert name v [] ys = ground arith
tally-insert name v (x ∷ xs) ys = ground (arith, tally-insert name v xs ys)

-- A volume of a fresh name keeps the names distinct.
pub insert-IsDistinct :
    (v : Volume) (xs ys : List Volume)
    → IsDistinct (xs ++ ys)
    → first_named v.name (xs ++ ys) ≡ none
    → IsDistinct (xs ++ (v ∷ ys))
insert-IsDistinct v xs ys d n name = elim (Bool-cases (v.name == name)) [
  | inl b ↦
      let same : v.name ≡ name = (eq_iff v.name name).0 b in
      let fresh =
        subst (λ m. tally (has_name m) (xs ++ ys) ≡ 0) same
          (first_named-none v.name (xs ++ ys) n) in
      rw (tally-insert name v xs ys, b, fresh) (omega arith)
  | inr b ↦ rw (tally-insert name v xs ys, b) (ground (arith, d name))
]

without-tally :
    (name id : String) (vs : List Volume)
    → tally (has_name name) (without id vs) ≤ tally (has_name name) vs
without-tally name id [] = omega arith
without-tally name id (v ∷ vs) = ground (arith, without-tally name id vs)

pub without-IsDistinct :
    (id : String) (vs : List Volume) → IsDistinct vs → IsDistinct (without id vs)
without-IsDistinct id vs d name = ground (arith, without-tally name id vs, d name)

pub extended-name : (id : String) (size : ℤ) (v : Volume) → (extended id size v).name ≡ v.name
extended-name id size v = elim (Bool-cases (has_id id v)) [ inl b ↦ rw b refl | inr b ↦ rw b refl ]

extended-tally :
    (name id : String) (size : ℤ) (vs : List Volume)
    → tally (has_name name) (map (extended id size) vs) ≡ tally (has_name name) vs
extended-tally name id size [] = refl
extended-tally name id size (v ∷ vs) =
    rw (extended-name id size v) (ground (arith, extended-tally name id size vs))

pub extended-IsDistinct :
    (id : String) (size : ℤ) (vs : List Volume)
    → IsDistinct vs
    → IsDistinct (map (extended id size) vs)
extended-IsDistinct id size vs d name = rw (extended-tally name id size vs) (d name)
