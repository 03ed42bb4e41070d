-- ===== src/Block/Node/Mounts/Effects.antt =====
-- driver/blockstorage/nodeserver.go: what the calls of the node service do to the mounts.
use csi_bizflycloud.Base.{
  Bool, Bool-cases, List, String, false, if◌then◌else◌, inl, inr, is_empty, refl, subst, sym, true,
  ℕ, ◌∙◌, ◌∷◌, ◌≡◌,
}
use csi_bizflycloud.Base.Go.{
  Exec, Failure, Result, Result-cases, as_text, attempt, calls, continue, err, fail, fail_if,
  internal, map_err, ok, wrap_err, ◌>>=◌, ◌>>◌,
}
use csi_bizflycloud.Metadata.{Metadata}
use csi_bizflycloud.Block.Node.HostCalls.{
  Acts, Host, device_sought, dir_made, file_removed, mount_at, mount_point_asked, mounted,
  not_mount_point,
}
use csi_bizflycloud.Block.Node.{NodeRpc, after_mount, find_device, get_device_path, make_dir_unless}
use csi_bizflycloud.Block.Node.Mounts.{
  Adds, Change, Changed, Ensures, IsTable, Keeps, Table, succeeded,
}

-- Nothing has changed, and the change at the path allows it.
pub Changed-same :
    (path : String) (change : ℕ → ℕ → Type 0) (m after : Table)
    → change (m path) (m path)
    → after ≡ m
    → Changed path change m after
Changed-same path change m after c e =
    subst (Changed path change m) (sym e) (record { there = c; elsewhere = λ p b. refl })

-- A change from the table that is the same as that before.
pub Changed-from :
    (path : String) (change : ℕ → ℕ → Type 0) (m before after : Table)
    → before ≡ m
    → Changed path change before after
    → Changed path change m after
Changed-from path change m before after e c = subst (λ t. Changed path change t after) e c

pub Ensures-added : (b : Bool) (n k : ℕ) → Adds b n k → Ensures b n k
Ensures-added true n k e = inr e
Ensures-added false n k e = e

module _ (host : Host) (metadata : Metadata) (table : Acts → Table)
    (laws : IsTable host table) where
  -- A call that mounts nothing and unmounts nothing, whatever it answers.
  pub record Quiet {E A : Type 0} (m : Exec Acts E A) : Type 0 where
    pub at : (h : Acts) → table (m h).1 ≡ table h

  -- A call that changes the number at a path as it may, and nothing else.
  pub record Sets (path : String) (change : Change) (m : NodeRpc (Unit {0})) : Type 0 where
    pub at : (h : Acts) → Changed path (change (succeeded (m h).0)) (table h) (table (m h).1)

  -- A change that a failure need not have made.
  abbrev pub MayFail : Change → Type 0
  MayFail change = (n : ℕ) → change false n n

  module _ (path : String) (change : Change) (idle : MayFail change) where
    pub Sets-fail : (e : Failure) → Sets path change (fail e)
    Sets-fail e = record { at = λ h. Changed-same path (change false) (table h) _ (idle _) refl }

    continue-Sets :
        {A : Type 0} (r : Result Failure A) (k : A → NodeRpc (Unit {0})) (h : Acts) (m : Table)
        → table h ≡ m
        → ((a : A) → Sets path change (k a))
        → Changed path (change (succeeded (continue r k h).0)) m (table (continue r k h).1)
    continue-Sets (ok a) k h m e s =
        Changed-from path (change (succeeded (k a h).0)) m (table h) _ e ((s a).at h)
    continue-Sets (err x) k h m e s = Changed-same path (change false) m (table h) (idle _) e

    pub Sets-bind :
        {A : Type 0} (m : NodeRpc A) (k : A → NodeRpc (Unit {0}))
        → Quiet m
        → ((a : A) → Sets path change (k a))
        → Sets path change (m >>= k)
    unfolding ◌>>=◌
    Sets-bind m k q s = record { at = λ h. continue-Sets (m h).0 k (m h).1 (table h) (q.at h) s }

    pub Sets-then :
        {A : Type 0} (m : NodeRpc A) (k : NodeRpc (Unit {0}))
        → Quiet m
        → Sets path change k
        → Sets path change (m >> k)
    unfolding ◌>>◌
    Sets-then m k q s = record {
      at = λ h. continue-Sets (m h).0 (λ _. k) (m h).1 (table h) (q.at h) (λ _. s);
    }

    wrapped :
        {E : Type 0} (f : E → Failure) (r : Result E (Unit {0}))
        → succeeded (map_err f r) ≡ succeeded r
    wrapped f (ok u) = refl
    wrapped f (err e) = refl

  pub Quiet-wrap_err :
      {E A : Type 0} (f : E → Failure) (m : Exec Acts E A) → Quiet m → Quiet (wrap_err f m)
  unfolding wrap_err
  Quiet-wrap_err f m q = record { at = λ h. q.at h }

  pub Quiet-fail_if : (b : Bool) (e : Failure) → Quiet (fail_if b e)
  Quiet-fail_if true e = record { at = λ h. refl }
  Quiet-fail_if false e = record { at = λ h. refl }

  continue-Quiet :
      {A B : Type 0} (r : Result Failure A) (k : A → NodeRpc B) (h : Acts) (m : Table)
      → table h ≡ m
      → ((a : A) → Quiet (k a))
      → table (continue r k h).1 ≡ m
  continue-Quiet (ok a) k h m e q = (q a).at h ∙ e
  continue-Quiet (err x) k h m e q = e

  pub Quiet-bind :
      {A B : Type 0} (m : NodeRpc A) (k : A → NodeRpc B)
      → Quiet m
      → ((a : A) → Quiet (k a))
      → Quiet (m >>= k)
  unfolding ◌>>=◌
  Quiet-bind m k q s = record { at = λ h. continue-Quiet (m h).0 k (m h).1 (table h) (q.at h) s }

  pub Quiet-then :
      {A B : Type 0} (m : NodeRpc A) (k : NodeRpc B) → Quiet m → Quiet k → Quiet (m >> k)
  unfolding ◌>>◌
  Quiet-then m k q s = record {
    at = λ h. continue-Quiet (m h).0 (λ _. k) (m h).1 (table h) (q.at h) (λ _. s);
  }

  pub find_device-Quiet : (volume : String) → Quiet (find_device host metadata volume)
  unfolding get_device_path calls
  find_device-Quiet volume = record {
    at = λ h.
        elim (Bool-cases (
          is_empty (
            if is_empty (host.on_device_path h volume)
            then metadata.device_path volume
            else host.on_device_path h volume))) [
              | inl b ↦ rw b (laws.quiet h (device_sought volume) refl)
              | inr b ↦ rw b (laws.quiet h (device_sought volume) refl)
            ];
  }

  pub make_dir-Quiet : (b : Bool) (path : String) → Quiet (make_dir_unless host metadata b path)
  unfolding wrap_err
  make_dir-Quiet true path = record { at = λ h. refl }
  make_dir-Quiet false path = record { at = λ h. laws.quiet h (dir_made path) refl }

  module _ (path : String) (change : Change) (idle : MayFail change) where
    pub Sets-wrap_err :
        {E : Type 0} (f : E → Failure) (m : Exec Acts E (Unit {0}))
        → ((h : Acts) → Changed path (change (succeeded (m h).0)) (table h) (table (m h).1))
        → Sets path change (wrap_err f m)
    unfolding wrap_err
    Sets-wrap_err f m s = record { at = λ h. rw (wrapped path change idle f (m h).0) (s h) }

    pub Sets-guard :
        (b : Bool) (e : Failure) (k : NodeRpc (Unit {0}))
        → Sets path change k
        → Sets path change (fail_if b e >> k)
    Sets-guard b e k s = Sets-then path change idle _ k (Quiet-fail_if b e) s

  pub Quiet-Sets : (path : String) (m : NodeRpc (Unit {0})) → Quiet m → Sets path Keeps m
  Quiet-Sets path m q = record {
    at = λ h. Changed-same path (Keeps (succeeded (m h).0)) (table h) _ refl (q.at h);
  }

  ensured :
      (target : String) (b : Bool) (m before after : Table)
      → before ≡ m
      → Changed target (Adds b) before after
      → Changed target (Ensures b) m after
  ensured target b m before after e c =
      Changed-from target (Ensures b) m before after e
        (record { there = Ensures-added b _ _ c.there; elsewhere = c.elsewhere })

  -- A mount that is made only where the query finds none.
  pub unless-Sets :
      (target : String) (k : Bool → NodeRpc (Unit {0}))
      → ((h : Acts) → k false h ≡ (ok tt, h))
      → Sets target Adds (k true)
      → Sets target Ensures (wrap_err (as_text internal) (not_mount_point host target) >>= k)
  unfolding calls
  unless-Sets target k stops s = record {
    at = λ h.
        let h1 = mount_point_asked target ∷ h in
        let still = laws.quiet h (mount_point_asked target) refl in
        elim (Result-cases (host.on_not_mount_point h target)) [
          | inr (x, e) ↦
              rw e (Changed-same target (Ensures false) (table h) (table h1) (inl refl) still)
          | inl (b, e) ↦ elim (Bool-cases b) [
            | inl c ↦
                rw (e, c)
                  (ensured target (succeeded (k true h1).0) (table h) (table h1) _ still (s.at h1))
            | inr c ↦
                rw (e, c, stops h1)
                  (Changed-same target (Ensures true) (table h) (table h1)
                    (inl (laws.asked h target (e ∙ rw c refl), refl)) still)
          ]
        ];
  }

  pub mount-Sets :
      (source target : String) (options : List String)
      → Sets target Adds
          (attempt (mount_at host source target "" options) >>= after_mount host metadata target)
  unfolding calls
  mount-Sets source target options = record {
    at = λ h. elim (Result-cases (host.on_mount h source target "" options)) [
      | inl (u, e) ↦ rw e (rw e at (laws.mounts h source target "" options))
      | inr (x, e) ↦
          rw (e, laws.quiet (mounted source target "" options ∷ h) (file_removed target) refl)
            (rw e at (laws.mounts h source target "" options))
    ];
  }
