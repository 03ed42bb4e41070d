-- ===== src/Share/Shares.antt =====
-- driver/filestorage/share.go: finding, creating, waiting for, deleting and resizing shares.
pub mod Laws
pub mod Store
pub mod Origin
use csi_bizflycloud.Base.{
  Bool, List, Option, String, false, first, if◌then◌else◌, none, some, true, ◌==◌, ◌∷◌,
}
use csi_bizflycloud.Base.Int.{ℤ}
use csi_bizflycloud.Base.Go.{
  Exec, GoError, Result, attempt, err, err_not_found, errors_is, fail, ok, plain, pure, sentinel,
  wrap_err, ◌>>=◌, ◌>>◌,
}
use csi_bizflycloud.Wait.{Backoff, Wait}
use csi_bizflycloud.Share.Api.{
  Calls, CreateShareRequest, FileStorage, Share, create_share, delete_share_api, list_shares,
  resize_share_api, shares_listed,
}
use csi_bizflycloud.Share.Util.{share_available, share_creating, share_error, share_extending}

-- waitForAvailableShareTimeout, waitForAvailableShareRetries
abbrev pub available_backoff : Backoff
available_backoff = record { duration = 3; factor = 12; steps = 10 }

abbrev pub or_error {ℓ} : {S E A : Type ℓ} → E → Option A → Exec S E A
or_error e none = fail e
or_error e (some a) = pure a

abbrev pub with_name : String → List Share → Option Share
with_name name = first (λ s. s.name == name)

abbrev pub with_id : String → List Share → Option Share
with_id id = first (λ s. s.id == id)

-- The variable `share` that the wait's check assigns, and the calls.
abbrev pub Watch : Type 0
Watch = Option Share × Calls

-- The `switch` on the status.
abbrev pub status_answer : String → Result GoError Bool
status_answer state =
    if state == share_available
    then ok true
    else if state == share_creating
    then ok false
    else if state == share_extending
    then ok false
    else if state == share_error
    then err (plain "share %s is in error state")
    else err (plain "share %s is in unexpected state: %s")

-- The search in the list; the variable keeps its value where the share is not found.
abbrev pub look_in : Option Share → Calls → Option Share → Result GoError Bool × Watch
look_in old h none = (err (plain "share %s not found in list"), (old, h))
look_in old h (some s) = (status_answer s.state, (some s, h))

abbrev pub look_at :
    String → Option Share → Result GoError (List Share) → Calls → Result GoError Bool × Watch
look_at id old (err e) h = (err e, (old, h))
look_at id old (ok shares) h = look_in old h (with_id id shares)

module _ (api : FileStorage) where
  unfoldable pub get_share_by_name : String → Exec Calls GoError Share
  get_share_by_name name = do
    shares ← list_shares api
    or_error (plain "share with name %s not found") (with_name name shares)

  unfoldable pub get_share_by_id : String → Exec Calls GoError Share
  get_share_by_id id = do
    shares ← list_shares api
    or_error (sentinel err_not_found) (with_id id shares)

  -- The condition of the wait.
  unfoldable pub look : String → Exec Watch GoError Bool
  look id w = look_at id w.0 (api.on_list w.1) (shares_listed ∷ w.1)

  -- A share that is already gone counts as deleted.
  abbrev pub forgive : Result GoError (Unit {0}) → Exec Calls GoError (Unit {0})
  forgive (ok u) = pure tt
  forgive (err e) = if errors_is e err_not_found then pure tt else fail e

  unfoldable pub delete_share : String → Exec Calls GoError (Unit {0})
  delete_share id = do done ← attempt (delete_share_api api id); forgive done

-- `return share, err`: the share is nil if no check found it.
abbrev pub found_share : Result GoError (Unit {0}) → Option Share → Result GoError (Option Share)
found_share (ok u) share = ok share
found_share (err e) share = err e

module _ (api : FileStorage) (wait : Wait) where
  unfoldable pub wait_for_share_available : String → Exec Calls GoError (Option Share)
  wait_for_share_available id h =
      let (r, w) = wait.exponential_backoff Watch available_backoff (look api id) (none, h) in
      (found_share r w.0, w.1)

  abbrev pub reuse_or_create :
      CreateShareRequest → Result GoError Share → Exec Calls GoError (Option Share)
  reuse_or_create r (ok s) =
      if s.state == share_available then pure (some s) else wait_for_share_available s.id
  reuse_or_create r (err e) = do
    s ← wrap_err (λ _. plain "failed to create share %s: %v") (create_share api r)
    wait_for_share_available s.id

  -- A failure to list counts as no share of that name.
  unfoldable pub get_or_create_share : CreateShareRequest → Exec Calls GoError (Option Share)
  get_or_create_share r = do found ← attempt (get_share_by_name api r.name); reuse_or_create r found

  unfoldable pub resize_share : String → ℤ → Exec Calls GoError (Option Share)
  resize_share id size = do
    s ← wrap_err (λ _. plain "failed to resize share %s: %v") (resize_share_api api id size)
    wait_for_share_available s.id
