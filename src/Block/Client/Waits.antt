-- ===== src/Block/Client/Waits.antt =====
-- driver/blockstorage/client.go: the waits WaitDiskAttached and WaitDiskDetached.
use csi_bizflycloud.Base.{
  Bool, String, ap, arith, false, head?, inl, inr, length, refl, tally, true, ◌+◌, ◌∷◌, ◌≡◌, ◌≤◌,
  ◌⊎◌,
}
use csi_bizflycloud.Base.Go.{
  GoError, Result, calls, err, err_not_found, err_wait_timeout, error_eq, errors_is, ok, sentinel,
}
use csi_bizflycloud.Wait.{Backoff, Wait}
use csi_bizflycloud.Wait.Laws.{Polls-bounded, Polls-failed, Polls-keeps, Polls-sound}
use csi_bizflycloud.Cloud.{Api, Call, Cloud, History, Volume, volume_got}
use csi_bizflycloud.Block.Client.{
  disk_attach_backoff, disk_detach_backoff, disk_is_attached, first_is, is_detached, is_ready,
  renamed, wait_disk_attached, wait_disk_detached,
}

-- The last call got the volume, and the answer had the property.
pub record LastSaw (cloud : Cloud) (volume : String) (P : Volume → Type 0) (h : History)
    : Type 0 where
  pub before : History
  pub answer : Volume
  pub last : h ≡ volume_got volume ∷ before
  pub got : cloud.on_volume_get before volume ≡ ok answer
  pub holds : P answer

pub renamed-ok :
    (f : GoError → Bool) (text : String) (r : Result GoError (Unit {0}))
    → renamed f text r ≡ ok tt
    → r ≡ ok tt
renamed-ok f text (ok tt) h = cc
renamed-ok f text (err e) h = ground arith

-- A renamed error wraps nothing.
renamed-err :
    (f : GoError → Bool) (text : String) (r : Result GoError (Unit {0})) (e : GoError)
    → renamed f text r ≡ err e
    → errors_is e err_not_found ≡ true
    → r ≡ err e
renamed-err f text (ok tt) e h q = cc
renamed-err f text (err x) e h q = ground arith

module _ (cloud : Cloud) (server volume : String) where
  failed_answer :
      (t h : History) (r : Result GoError Volume) (e : GoError)
      → cloud.on_volume_get t volume ≡ r
      → is_detached cloud server volume t ≡ (err e, h)
      → (cloud.on_volume_get t volume ≡ err e) × (h ≡ volume_got volume ∷ t)
  unfolding disk_is_attached is_detached calls
  failed_answer t h (ok v) e p q = ground arith
  failed_answer t h (err x) e p q = ground arith

  attached_answer :
      (t h : History) (r : Result GoError Volume)
      → cloud.on_volume_get t volume ≡ r
      → disk_is_attached cloud server volume t ≡ (ok true, h)
      → LastSaw cloud volume (λ v. first_is server (head? v.attachments) ≡ true) h
  unfolding disk_is_attached is_detached is_ready calls
  attached_answer t h (ok v) e p = record {
    before = t;
    answer = v;
    last = ground arith;
    got = e;
    holds = ground arith;
  }
  attached_answer t h (err x) e p = ground arith

  detached_answer :
      (t h : History) (r : Result GoError Volume)
      → cloud.on_volume_get t volume ≡ r
      → is_detached cloud server volume t ≡ (ok true, h)
      → LastSaw cloud volume (λ v. first_is server (head? v.attachments) ≡ false) h
  unfolding disk_is_attached is_detached is_ready calls
  detached_answer t h (ok v) e p = record {
    before = t;
    answer = v;
    last = ground arith;
    got = e;
    holds = ground arith;
  }
  detached_answer t h (err x) e p = ground arith

  after-disk_is_attached :
      (t : History) → (disk_is_attached cloud server volume t).1 ≡ volume_got volume ∷ t
  unfolding disk_is_attached is_detached is_ready calls
  after-disk_is_attached t = ground arith

  after-is_detached : (t : History) → (is_detached cloud server volume t).1 ≡ volume_got volume ∷ t
  unfolding disk_is_attached is_detached is_ready calls
  after-is_detached t = ground arith

-- A wait whose check makes one call, over any of the checks.
module _ (wait : Wait) (b : Backoff) (check : Api Bool) (call : Call)
    (after : (t : History) → (check t).1 ≡ call ∷ t) (h : History) where
  pub polls-tally :
      (p : Call → Bool)
      → p call ≡ false
      → tally p (wait.exponential_backoff History b check h).1 ≡ tally p h
  polls-tally p quiet =
      Polls-keeps (λ t. tally p t ≡ tally p h) (λ t e. rw after (rw quiet e))
        (wait.polls History b check h) refl

  polls-length : length (wait.exponential_backoff History b check h).1 ≤ length h + b.steps
  polls-length = Polls-bounded length (λ t. ap length (after t)) (wait.polls History b check h)

module _ (cloud : Cloud) (wait : Wait) (server volume : String) (h : History) where
  -- A wait for the attachment that succeeds ends with an answer whose first attachment is to the
  -- server.
  wait_disk_attached_sound :
      (wait_disk_attached cloud wait server volume h).0 ≡ ok tt
      → LastSaw cloud volume
          (λ v. first_is server (head? v.attachments) ≡ true)
          (wait_disk_attached cloud wait server volume h).1
  unfolding wait_disk_attached
  wait_disk_attached_sound e =
      let (t, p) = Polls-sound (wait.polls History _ _ h) (renamed-ok _ _ _ e) in
      attached_answer cloud server volume t _ _ refl p

  -- A wait for the detachment that succeeds ends with an answer whose first attachment, if there is
  -- one, is not to the server.
  pub wait_disk_detached_sound :
      (wait_disk_detached cloud wait server volume h).0 ≡ ok tt
      → LastSaw cloud volume
          (λ v. first_is server (head? v.attachments) ≡ false)
          (wait_disk_detached cloud wait server volume h).1
  unfolding wait_disk_detached
  wait_disk_detached_sound e =
      let (t, p) = Polls-sound (wait.polls History _ _ h) (renamed-ok _ _ _ e) in
      detached_answer cloud server volume t _ _ refl p

  -- A wait for the detachment that fails with an error that wraps ErrNotFound ends with a query that
  -- failed so.
  pub wait_disk_detached-gone :
      (e : GoError)
      → (wait_disk_detached cloud wait server volume h).0 ≡ err e
      → errors_is e err_not_found ≡ true
      → (t : History) × (cloud.on_volume_get t volume ≡ err e)
        × ((wait_disk_detached cloud wait server volume h).1 ≡ volume_got volume ∷ t)
  unfolding wait_disk_detached
  wait_disk_detached-gone e p q = gone (
      Polls-failed e (wait.polls History disk_detach_backoff (is_detached cloud server volume) h)
        (renamed-err (λ x. error_eq x err_wait_timeout) _ _ e p q))
    where
      after : History
      after =
          (wait.exponential_backoff History disk_detach_backoff (is_detached cloud server volume)
            h).1

      gone :
          (e ≡ sentinel err_wait_timeout)
            ⊎ ((t : History) × (is_detached cloud server volume t ≡ (err e, after)))
          → (t : History) × (cloud.on_volume_get t volume ≡ err e) × (after ≡ volume_got volume ∷ t)
      gone (inl x) = cc (rw x at q)
      gone (inr (t, x)) =
          let (a, b) = failed_answer cloud server volume t after _ e refl x in (t, a, b)

  -- The waits for a volume make calls of Get alone, one for each step of their backoff at most.
  pub waits_bounded :
      ((p : Call → Bool)
        → p (volume_got volume) ≡ false
        → (tally p (wait_disk_attached cloud wait server volume h).1 ≡ tally p h)
          × (tally p (wait_disk_detached cloud wait server volume h).1 ≡ tally p h))
      × (length (wait_disk_attached cloud wait server volume h).1 ≤ length h + 15)
      × (length (wait_disk_detached cloud wait server volume h).1 ≤ length h + 13)
  unfolding wait_disk_attached wait_disk_detached
  waits_bounded = (
    λ p quiet. (
      polls-tally wait disk_attach_backoff _ _ (after-disk_is_attached cloud server volume) h p
          quiet,
      polls-tally wait disk_detach_backoff _ _ (after-is_detached cloud server volume) h p quiet,
    ),
    polls-length wait disk_attach_backoff _ _ (after-disk_is_attached cloud server volume) h,
    polls-length wait disk_detach_backoff _ _ (after-is_detached cloud server volume) h,
  )
