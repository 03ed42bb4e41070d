-- ===== src/Share/Shares/Origin.antt =====
-- driver/filestorage/share.go: where the share of getOrCreateShare comes from.
use csi_bizflycloud.Base.{
  Bool-cases, List, Option, String, false, inl, inr, none, refl, some, subst, sym, ◌==◌, ◌∙◌, ◌∷◌,
  ◌≡◌,
}
use csi_bizflycloud.Base.Go.{GoError, Result, Result-cases, calls, err, ok, ok-injective, plain}
use csi_bizflycloud.Wait.{Wait}
use csi_bizflycloud.Share.Api.{Calls, CreateShareRequest, FileStorage, Share, shares_listed}
use csi_bizflycloud.Share.Util.{share_available}
use csi_bizflycloud.Share.Shares.{
  get_or_create_share, get_share_by_name, or_error, reuse_or_create, with_name,
}
use csi_bizflycloud.Share.Shares.Laws.{IsAvailable, LastListed, wait_for_share_available_sound}

-- List fails, or shows no share of the name.
abbrev pub Unlisted : FileStorage → String → Calls → Type 0
Unlisted api name h =
    (shares : List Share) → api.on_list h ≡ ok shares → with_name name shares ≡ none

-- The share that a call started after `h` and ended at `h1` comes to: the one that List shows under the
-- name, if that one is available; or the one that the last List shows under the id, of the share of the
-- name if that one is not yet available, or of the share that Create has answered.
pub data Origin (api : FileStorage) (r : CreateShareRequest) (h h1 : Calls) (s : Share)
    : Type 0 where
  reused :
      (shares : List Share)
      → api.on_list h ≡ ok shares
      → with_name r.name shares ≡ some s
      → IsAvailable s
      → h1 ≡ shares_listed ∷ h
      → Origin api r h h1 s
  awaited :
      (shares : List Share) (t : Share)
      → api.on_list h ≡ ok shares
      → with_name r.name shares ≡ some t
      → (t.state == share_available) ≡ false
      → LastListed api t.id s h1
      → IsAvailable s
      → Origin api r h h1 s
  made :
      (t : Share)
      → Unlisted api r.name h
      → api.on_create (shares_listed ∷ h) r ≡ ok t
      → LastListed api t.id s h1
      → IsAvailable s
      → Origin api r h h1 s

module _ (api : FileStorage) (wait : Wait) (r : CreateShareRequest) (h : Calls) where
  -- A successful call has a share, and this is where it comes from.
  abbrev Provides : Result GoError (Option Share) × Calls → Type 0
  Provides m = (o : Option Share) → m.0 ≡ ok o → (s : Share) × (o ≡ some s) × Origin api r h m.1 s

  create-Provides :
      (e : GoError)
      → Unlisted api r.name h
      → Provides (reuse_or_create api wait r (err e) (shares_listed ∷ h))
  unfolding calls
  create-Provides e free o k = elim (Result-cases (api.on_create (shares_listed ∷ h) r)) [
    | inr (x, c) ↦ cc (rw c at k)
    | inl (t, c) ↦
        let (s, there, available, last) =
          wait_for_share_available_sound api wait t.id _ o (rw c at k) in
        (s, there, rw c (made t free c last available))
  ]

  find-Provides :
      (shares : List Share) (found : Option Share)
      → api.on_list h ≡ ok shares
      → with_name r.name shares ≡ found
      → let (answer, after) =
          or_error (plain "share with name %s not found") found (shares_listed ∷ h) in
        Provides (reuse_or_create api wait r answer after)
  find-Provides shares none l n o k =
      create-Provides (plain "share with name %s not found")
        (λ others e. subst (λ vs. with_name r.name vs ≡ none) (ok-injective (sym l ∙ e)) n) o k
  find-Provides shares (some t) l n o k = elim (Bool-cases (t.state == share_available)) [
    | inl b ↦ rw b (t, sym (ok-injective (rw b at k)), reused shares l n b refl)
    | inr b ↦
        let (s, there, available, last) =
          wait_for_share_available_sound api wait t.id _ o (rw b at k) in
        rw b (s, there, awaited shares t l n b last available)
  ]

  pub get_or_create-Origin : Provides (get_or_create_share api wait r h)
  unfolding get_or_create_share get_share_by_name calls
  get_or_create-Origin = elim (Result-cases (api.on_list h)) [
    | inl (shares, l) ↦ rw l (find-Provides shares (with_name r.name shares) l refl)
    | inr (x, l) ↦ rw l (create-Provides x (λ shares k. cc))
  ]
