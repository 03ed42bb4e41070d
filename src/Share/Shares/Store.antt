-- ===== src/Share/Shares/Store.antt =====
-- driver/filestorage/share.go: getOrCreateShare, called once and called again.
use csi_bizflycloud.Base.{
  Bool-cases, List, Option, String, inl, inr, none, refl, some, subst, sym, ◌==◌, ◌∙◌, ◌∷◌, ◌≡◌,
}
use csi_bizflycloud.Base.Go.{Result-cases, calls, ok, ok-injective}
use csi_bizflycloud.Wait.{Wait}
use csi_bizflycloud.Share.Api.{Calls, CreateShareRequest, FileStorage, Share, shares_listed}
use csi_bizflycloud.Share.Util.{share_available}
use csi_bizflycloud.Share.Shares.{
  get_or_create_share, get_share_by_name, wait_for_share_available, with_id, with_name,
}
use csi_bizflycloud.Share.Shares.Laws.{IsAvailable, wait_for_share_available_sound}

-- What the file storage API promises to one client with the project to itself: List gives the shares; a
-- share that is available stays; a share that is found by its id is found by its name; and an id is that
-- of one name for good.
pub record IsShareStore (api : FileStorage) (shares : Calls → List Share) : Type 0 where
  pub listed : (h : Calls) → api.on_list h ≡ ok (shares h)
  pub stays :
      (h : Calls) (name : String) (s : Share)
      → with_name name (shares h) ≡ some s
      → IsAvailable s
      → with_name name (shares (shares_listed ∷ h)) ≡ some s
  pub by_id :
      (h : Calls) (id : String) (s : Share)
      → with_id id (shares h) ≡ some s
      → with_name s.name (shares h) ≡ some s
  pub keeps_name :
      (h later : Calls) (name : String) (s t : Share)
      → with_name name (shares h) ≡ some s
      → with_id s.id (shares later) ≡ some t
      → t.name ≡ name
  pub created :
      (h later : Calls) (r : CreateShareRequest) (s t : Share)
      → api.on_create h r ≡ ok s
      → with_id s.id (shares later) ≡ some t
      → t.name ≡ r.name

module _ (api : FileStorage) (wait : Wait) (shares : Calls → List Share)
    (store : IsShareStore api shares) where
  -- The share is there, available, and the one that List shows under the name.
  pub record IsShown (name : String) (o : Option Share) (h : Calls) : Type 0 where
    pub share : Share
    pub there : o ≡ some share
    pub available : IsAvailable share
    pub shown : with_name name (shares h) ≡ some share

  wait-IsShown :
      (id name : String) (h : Calls) (o : Option Share)
      → ((later : Calls) (t : Share) → with_id id (shares later) ≡ some t → t.name ≡ name)
      → (wait_for_share_available api wait id h).0 ≡ ok o
      → IsShown name o (wait_for_share_available api wait id h).1
  wait-IsShown id name h o named e =
      let (s, there, available, last) = wait_for_share_available_sound api wait id h o e in
      let same : last.shares ≡ shares last.before =
        ok-injective (sym last.got ∙ store.listed last.before) in
      let found : with_id id (shares last.before) ≡ some s = rw (← same) last.shown in
      let shown : with_name name (shares last.before) ≡ some s =
        subst (λ n. with_name n (shares last.before) ≡ some s) (named last.before s found)
          (store.by_id last.before id s found) in
      record {
        share = s;
        there = there;
        available = available;
        shown = rw last.last (store.stays last.before name s shown available);
      }

  reuse-IsShown :
      (r : CreateShareRequest) (h : Calls) (o p : Option Share)
      → with_name r.name (shares h) ≡ p
      → (get_or_create_share api wait r h).0 ≡ ok o
      → IsShown r.name o (get_or_create_share api wait r h).1
  unfolding get_or_create_share get_share_by_name calls
  reuse-IsShown r h o (some s) e k = elim (Bool-cases (s.state == share_available)) [
    | inl b ↦
        rw (store.listed h, e, b)
          (record {
            share = s;
            there = sym (ok-injective (rw (store.listed h, e, b) at k));
            available = b;
            shown = store.stays h r.name s e b;
          })
    | inr b ↦
        rw (store.listed h, e, b)
          (wait-IsShown s.id r.name (shares_listed ∷ h) o
            (λ later t f. store.keeps_name h later r.name s t e f) (rw (store.listed h, e, b) at k))
  ]
  reuse-IsShown r h o none e k = elim (Result-cases (api.on_create (shares_listed ∷ h) r)) [
    | inl (s, c) ↦
        rw (store.listed h, e, c)
          (wait-IsShown s.id r.name _ o (λ later t f. store.created _ later r s t c f)
            (rw (store.listed h, e, c) at k))
    | inr (x, c) ↦ cc (rw (store.listed h, e, c) at k)
  ]

  -- After it has succeeded, List shows the share under the name.
  pub get_or_create-IsShown :
      (r : CreateShareRequest) (h : Calls) (o : Option Share)
      → (get_or_create_share api wait r h).0 ≡ ok o
      → IsShown r.name o (get_or_create_share api wait r h).1
  get_or_create-IsShown r h o e = reuse-IsShown r h o _ refl e

  -- A share that List shows and that is available is taken, and List is the only call.
  pub get_or_create-takes :
      (r : CreateShareRequest) (h : Calls) (s : Share)
      → with_name r.name (shares h) ≡ some s
      → IsAvailable s
      → get_or_create_share api wait r h ≡ (ok (some s), shares_listed ∷ h)
  unfolding get_or_create_share get_share_by_name calls
  get_or_create-takes r h s e a = rw (store.listed h, e, a) refl
