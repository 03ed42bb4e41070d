-- ===== src/Share/Shares/Laws.antt =====
-- driver/filestorage/share.go: waitForShareAvailable.
use csi_bizflycloud.Base.{
  List, Option, Option-cases, String, ap, arith, inl, inr, length, none, refl, some, sym, tally,
  true, ◌+◌, ◌==◌, ◌∙◌, ◌∷◌, ◌≡◌, ◌≤◌,
}
use csi_bizflycloud.Base.Go.{GoError, Result, Result-cases, err, ok, ok-injective}
use csi_bizflycloud.Wait.{Wait}
use csi_bizflycloud.Wait.Laws.{Polls-bounded, Polls-keeps, Polls-sound}
use csi_bizflycloud.Share.Api.{Calls, FileStorage, Share, makes, resizes, shares_listed}
use csi_bizflycloud.Share.Util.{share_available}
use csi_bizflycloud.Share.Shares.{
  Watch, available_backoff, found_share, look, look_in, status_answer, wait_for_share_available,
  with_id,
}

-- The last call listed the shares, and the first of that id was this one.
pub record LastListed (api : FileStorage) (id : String) (s : Share) (h : Calls) : Type 0 where
  pub before : Calls
  pub shares : List Share
  pub last : h ≡ shares_listed ∷ before
  pub got : api.on_list before ≡ ok shares
  pub shown : with_id id shares ≡ some s

abbrev pub IsAvailable : Share → Type 0
IsAvailable s = (s.state == share_available) ≡ true

status_answer-true :
    (state : String) → status_answer state ≡ ok true → (state == share_available) ≡ true
status_answer-true state h = ground arith

-- A check that answers true has found the share, and it is available.
pub record Seen (api : FileStorage) (id : String) (w : Watch) : Type 0 where
  pub share : Share
  pub kept : w.0 ≡ some share
  pub available : IsAvailable share
  pub listed : LastListed api id share w.1

module _ (api : FileStorage) (id : String) where
  look_in-true :
      (old : Option Share) (t : Calls) (shares : List Share) (o : Option Share) (w : Watch)
      → api.on_list t ≡ ok shares
      → with_id id shares ≡ o
      → look_in old (shares_listed ∷ t) o ≡ (ok true, w)
      → Seen api id w
  look_in-true old t shares none w l n p = cc
  look_in-true old t shares (some s) w l n p = record {
    share = s;
    kept = ground arith;
    available = status_answer-true s.state (ground arith);
    listed = record { before = t; shares = shares; last = ground arith; got = l; shown = n };
  }

  look-true :
      (v w : Watch) (r : Result GoError (List Share))
      → api.on_list v.1 ≡ r
      → look api id v ≡ (ok true, w)
      → Seen api id w
  unfolding look
  look-true v w (ok shares) l p = look_in-true v.0 v.1 shares _ w l refl (rw l at p)
  look-true v w (err e) l p = cc (rw l at p)

  after-look : (v : Watch) → (look api id v).1.1 ≡ shares_listed ∷ v.1
  unfolding look
  after-look v = elim (Result-cases (api.on_list v.1)) [
    | inl (shares, e) ↦ rw e (found shares)
    | inr (x, e) ↦ rw e
  ]
    where
      found :
          (shares : List Share)
          → (look_in v.0 (shares_listed ∷ v.1) (with_id id shares)).1.1 ≡ shares_listed ∷ v.1
      found shares = elim (Option-cases (with_id id shares)) [ inl e ↦ rw e | inr (s, e) ↦ rw e ]

module _ (api : FileStorage) (wait : Wait) (id : String) (h : Calls) where
  found_share-ok :
      (r : Result GoError (Unit {0})) (o a : Option Share)
      → found_share r o ≡ ok a
      → (r ≡ ok tt) × (o ≡ a)
  found_share-ok (ok tt) o a p = (refl, ok-injective p)
  found_share-ok (err e) o a p = cc

  -- A wait for a share that succeeds answers a share: the one that the last list shows under the id,
  -- which is available.
  pub wait_for_share_available_sound :
      (o : Option Share)
      → (wait_for_share_available api wait id h).0 ≡ ok o
      → (s : Share) × (o ≡ some s)
        × IsAvailable s
        × LastListed api id s (wait_for_share_available api wait id h).1
  unfolding wait_for_share_available
  wait_for_share_available_sound o p =
      let (r, e) = found_share-ok _ _ o p in
      let (v, q) = Polls-sound (wait.polls Watch available_backoff (look api id) (none, h)) r in
      let seen = look-true api id v _ _ refl q in
      (seen.share, sym e ∙ seen.kept, seen.available, seen.listed)

  -- A wait for a share makes no call of Create or Resize, and ten calls at most.
  pub wait_for_share_available_bounded :
      (tally makes (wait_for_share_available api wait id h).1 ≡ tally makes h)
      × (tally resizes (wait_for_share_available api wait id h).1 ≡ tally resizes h)
      × (length (wait_for_share_available api wait id h).1 ≤ length h + 10)
  unfolding wait_for_share_available
  wait_for_share_available_bounded = (
    Polls-keeps (λ w. tally makes w.1 ≡ tally makes h) (λ w e. rw after-look e)
        (wait.polls Watch available_backoff (look api id) (none, h)) refl,
    Polls-keeps (λ w. tally resizes w.1 ≡ tally resizes h) (λ w e. rw after-look e)
        (wait.polls Watch available_backoff (look api id) (none, h)) refl,
    Polls-bounded (λ w. length w.1) (λ w. ap length (after-look api id w))
        (wait.polls Watch available_backoff (look api id) (none, h)),
  )
