-- ===== src/Block/Controller/SnapshotPromises/Distinct.antt =====
-- driver/blockstorage/controller.go: what the handlers for snapshots promise keeps the names of each
-- volume's snapshots distinct.
use csi_bizflycloud.Base.{
  Bool-cases, String, [], arith, eq_iff, inl, inr, length, refl, sym, ◌&&◌, ◌==◌, ◌∙◌, ◌∷◌, ◌≡◌,
  ◌≤◌,
}
use csi_bizflycloud.Cloud.{Snapshot}
use csi_bizflycloud.Cloud.Snapshots.{lasting, without}
use csi_bizflycloud.Block.Client.{snapshots_of}
use csi_bizflycloud.Block.Controller.Snapshots.{Timestamps}
use csi_bizflycloud.Block.Controller.SnapshotPromises.{
  Catalogue, IsDistinct, IsWanted, Promised, SnapshotOp, SnapshotReply, dropping_fails, drops,
  lists, retakes, takes, takes_late, taking_fails,
}

wanted-same :
    (volume name : String) (s : Snapshot)
    → IsWanted volume name s
    → (s.volume_id ≡ volume) × (s.name ≡ name)
wanted-same volume name s w = elim (Bool-cases (s.volume_id == volume)) [
  | inl b ↦ ((eq_iff s.volume_id volume).0 b, (eq_iff s.name name).0 (rw b at w))
  | inr b ↦ cc (rw b at w)
]

wanted-snapshots_of :
    (volume name : String) (s : Snapshot) (a : Catalogue)
    → IsWanted volume name s
    → snapshots_of volume name a ≡ snapshots_of s.volume_id s.name a
wanted-snapshots_of volume name s a w = let (e, f) = wanted-same volume name s w in rw (e, f) refl

-- One more snapshot, of a name that its volume has no snapshot of.
insert-IsDistinct :
    (volume name : String) (a : Catalogue) (s : Snapshot)
    → snapshots_of volume name a ≡ []
    → IsWanted volume name s
    → IsDistinct a
    → IsDistinct (lasting s ∷ a)
insert-IsDistinct volume name a s free w d v n =
    elim (Bool-cases (s.volume_id == v && s.name == n)) [
      | inr b ↦ rw b (d v n)
      | inl b ↦
          let none_yet : snapshots_of v n a ≡ [] =
            wanted-snapshots_of v n s a b ∙ sym (wanted-snapshots_of volume name s a w) ∙ free in
          rw (b, none_yet) (omega arith)
    ]

without-length :
    (id volume name : String) (a : Catalogue)
    → length (snapshots_of volume name (without id a)) ≤ length (snapshots_of volume name a)
without-length id volume name [] = omega arith
without-length id volume name (s ∷ a) = ground (arith, without-length id volume name a)

without-IsDistinct : (id : String) (a : Catalogue) → IsDistinct a → IsDistinct (without id a)
without-IsDistinct id a d volume name =
    omega (arith, without-length id volume name a, d volume name)

-- What is promised keeps the names of each volume's snapshots distinct.
pub promised-IsDistinct :
    {times : Timestamps} {op : SnapshotOp} {reply : SnapshotReply} {a b : Catalogue}
    → Promised times op a reply b
    → IsDistinct a
    → IsDistinct b
promised-IsDistinct (retakes name volume a s e) d = d
promised-IsDistinct (takes name volume a s e w) d = insert-IsDistinct volume name a s e w d
promised-IsDistinct (takes_late name volume a s f e w) d = insert-IsDistinct volume name a s e w d
promised-IsDistinct (taking_fails name volume a f) d = d
promised-IsDistinct (drops id a) d = without-IsDistinct id a d
promised-IsDistinct (dropping_fails id a f) d = d
promised-IsDistinct (lists a) d = d
