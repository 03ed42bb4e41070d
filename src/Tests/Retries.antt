-- ===== src/Tests/Retries.antt =====
-- CreateVolume of the file storage driver, called again on shares in memory.
use mathlib.Core.Option.{some-injective}
use csi_bizflycloud.Base.{
  All, Bool, Bool-cases, List, String, [], ap, eq_iff, inl, inr, insert, lookup, map, not, refl,
  select, some, subst, sym, ◌==◌, ◌↔◌, ◌∙◌, ◌∷◌, ◌≡◌,
}
use csi_bizflycloud.Base.Int.{wrap64, ℤ}
use csi_bizflycloud.Base.Text.{split_once, strip_prefix}
use csi_bizflycloud.Base.Go.{calls, ok, ok-injective}
use csi_bizflycloud.Share.Api.{
  Calls, Share, share_created, share_deleted, share_resized, shares_listed,
}
use csi_bizflycloud.Share.Util.{
  bytes_to_gib, parse_export_location, share_bytes, validate_create_volume_request,
}
use csi_bizflycloud.Share.Shares.{
  get_or_create_share, get_share_by_name, look, wait_for_share_available, with_id, with_name,
}
use csi_bizflycloud.Share.Shares.Store.{IsShareStore}
use csi_bizflycloud.Share.Controller.Pending.{delete_key, exclusively, load_or_store}
use csi_bizflycloud.Share.Controller.Volumes.{
  create_body, create_volume, share_context, share_request,
}
use csi_bizflycloud.Share.Controller.Creation.{StandsFor}
use csi_bizflycloud.Share.Controller.Retry.{create_volume-repeats}
use csi_bizflycloud.Share.Node.{build_volume_context}
use csi_bizflycloud.Share.Lifecycle.{created-builds_iff, nfs_context}
use csi_bizflycloud.Tests.Samples.{polling}
use csi_bizflycloud.Tests.Shares.{answered, no_share, resized, shares, shares_after, wanted}

-- The shares in memory have their names as ids.
abbrev AllNamed : List Share → Type 0
AllNamed = All (λ s. s.id ≡ s.name)

resized-AllNamed :
    (id : String) (size : ℤ) (vs : List Share) → AllNamed vs → AllNamed (map (resized id size) vs)
resized-AllNamed id size [] h = tt
resized-AllNamed id size (s ∷ vs) (e, h) = elim (Bool-cases (s.id == id)) [
  | inl b ↦ rw b (e, resized-AllNamed id size vs h)
  | inr b ↦ rw b (e, resized-AllNamed id size vs h)
]

select-AllNamed : (p : Share → Bool) (vs : List Share) → AllNamed vs → AllNamed (select p vs)
select-AllNamed p [] h = tt
select-AllNamed p (s ∷ vs) (e, h) = elim (Bool-cases (p s)) [
  | inl b ↦ rw b (e, select-AllNamed p vs h)
  | inr b ↦ rw b (select-AllNamed p vs h)
]

shares_after-AllNamed : (h : Calls) → AllNamed (shares_after h)
shares_after-AllNamed [] = tt
shares_after-AllNamed (share_created r ∷ h) = (refl, shares_after-AllNamed h)
shares_after-AllNamed (share_resized id size ∷ h) =
    resized-AllNamed id size (shares_after h) (shares_after-AllNamed h)
shares_after-AllNamed (share_deleted id ∷ h) =
    select-AllNamed (λ s. not (s.id == id)) (shares_after h) (shares_after-AllNamed h)
shares_after-AllNamed (shares_listed ∷ h) = shares_after-AllNamed h

with_id-same : (id : String) (vs : List Share) → AllNamed vs → with_id id vs ≡ with_name id vs
with_id-same id [] h = refl
with_id-same id (s ∷ vs) (e, h) = rw (with_id-same id vs h, e) refl

found-named :
    (id : String) (s : Share) (vs : List Share)
    → AllNamed vs
    → with_name id vs ≡ some s
    → (s.id ≡ id) × (s.name ≡ id)
found-named id s [] h e = cc
found-named id s (t ∷ vs) (n, h) e = elim (Bool-cases (t.name == id)) [
  | inl b ↦
      let same : t ≡ s = some-injective t s (rw b at e) in
      let named : t.name ≡ id = (eq_iff t.name id).0 b in
      subst (λ u. (u.id ≡ id) × (u.name ≡ id)) same (n ∙ named, named)
  | inr b ↦ found-named id s vs h (rw b at e)
]

found-by_id :
    (id : String) (s : Share) (h : Calls)
    → with_id id (shares_after h) ≡ some s
    → (s.id ≡ id) × (s.name ≡ id)
found-by_id id s h e =
    found-named id s (shares_after h) (shares_after-AllNamed h)
      (sym (with_id-same id (shares_after h) (shares_after-AllNamed h)) ∙ e)

shares-IsShareStore : IsShareStore shares shares_after
shares-IsShareStore = record {
  listed = λ h. refl;
  stays = λ h name s e a. e;
  by_id = λ h id s e.
      subst (λ n. with_name n (shares_after h) ≡ some s) (sym (found-by_id id s h e).1)
        (sym (with_id-same id (shares_after h) (shares_after-AllNamed h)) ∙ e);
  keeps_name = λ h later name s t e f.
      (found-by_id s.id t later f).1
      ∙ (found-named name s (shares_after h) (shares_after-AllNamed h) e).0;
  created = λ h later r s t e f.
      (found-by_id s.id t later f).1 ∙ ap (λ (u : Share). u.id) (sym (ok-injective e));
}

create_volume-repeats_example :
    let h1 = (create_volume shares polling "NFS" wanted no_share).1.calls_made in
    create_volume shares polling "NFS" wanted (record { pending = "other" ∷ []; calls_made = h1 })
    ≡ (ok answered, record { pending = "other" ∷ []; calls_made = shares_listed ∷ h1 })
unfolding create_volume create_body exclusively load_or_store delete_key
    validate_create_volume_request share_request share_context parse_export_location split_once
    strip_prefix bytes_to_gib share_bytes wrap64 get_or_create_share get_share_by_name
    wait_for_share_available look calls insert lookup
create_volume-repeats_example =
    create_volume-repeats shares polling shares_after shares-IsShareStore "NFS" wanted
      ("other" ∷ []) [] answered refl

created-builds_iff_example :
    (s : StandsFor shares
      (share_request "NFS" wanted)
      []
      (create_volume shares polling "NFS" wanted no_share).1.calls_made
      answered)
    × ((parse_export_location s.location ≡ ok ("10.0.0.1", "/data"))
        ↔ (build_volume_context answered.volume_context ≡ ok (nfs_context "10.0.0.1" "/data")))
unfolding create_volume create_body exclusively load_or_store delete_key
    validate_create_volume_request share_request share_context parse_export_location split_once
    strip_prefix bytes_to_gib share_bytes wrap64 get_or_create_share get_share_by_name
    wait_for_share_available look calls insert lookup
created-builds_iff_example =
    created-builds_iff shares polling "NFS" wanted no_share answered "10.0.0.1" "/data" refl
