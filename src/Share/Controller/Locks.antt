-- ===== src/Share/Controller/Locks.antt =====
-- driver/filestorage/controllerserver.go: the part of a handler between LoadOrStore and Delete.
use text.Mathlib.TextPositions.{eq_refl}
use csi_bizflycloud.Base.{
  Bool-cases, List, String, [], any, arith, false, inl, inr, refl, true, ◌==◌, ◌∷◌, ◌≡◌,
}
use csi_bizflycloud.Base.Go.{Exec, Failure, aborted, err, format, status}
use csi_bizflycloud.Share.Controller.Pending.{World, delete_key, exclusively, load_or_store}

-- A body that leaves the keys alone.
pub record LeavesKeys {A : Type 0} (m : Exec World Failure A) : Type 0 where
  pub at : (w : World) → (m w).1.pending ≡ w.pending

select-fresh :
    (key : String) (keys : List String)
    → any (λ k. k == key) keys ≡ false
    → delete_key key keys ≡ keys
unfolding delete_key
select-fresh key [] h = refl
select-fresh key (k ∷ keys) h = ground (arith, select-fresh key keys)

pub delete_key-cons :
    (key : String) (keys : List String)
    → any (λ k. k == key) keys ≡ false
    → delete_key key (key ∷ keys) ≡ keys
unfolding delete_key
delete_key-cons key keys h = rw (eq_refl key) (unfold delete_key in select-fresh key keys h)

-- Afterwards the keys are those of before, on every path.
pub exclusively-pending :
    {A : Type 0} (key : String) (m : Exec World Failure A) (w : World)
    → LeavesKeys m
    → (exclusively key m w).1.pending ≡ w.pending
unfolding exclusively load_or_store
exclusively-pending key m w keeps = elim (Bool-cases (any (λ k. k == key) w.pending)) [
  | inl b ↦ rw b
  | inr b ↦
      rw (b, keeps.at (record w { pending = key ∷ w.pending })) (delete_key-cons key w.pending b)
]

-- A key that is pending aborts the call, and nothing changes.
exclusively-aborts :
    {A : Type 0} (key : String) (m : Exec World Failure A) (w : World)
    → any (λ k. k == key) w.pending ≡ true
    → exclusively key m w
      ≡ (err (status aborted (format "volume %s is already being processed")), w)
unfolding exclusively load_or_store
exclusively-aborts key m w h = rw h
