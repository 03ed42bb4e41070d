-- ===== src/Tests/Samples.antt =====
-- Services kept in memory: a wait that polls without sleeping, a cloud that is computed from the
-- calls made, and the rounding of sizes.
use csi_bizflycloud.Base.{
  Bool, Bool-cases, List, Option, String, [], any, ap, arith, false, first, if◌then◌else◌, inl, inr,
  map, none, not, refl, select, some, suc, sym, true, zero, ℕ, ◌+◌, ◌-◌, ◌/◌, ◌==◌, ◌∷◌, ◌≡◌,
}
use csi_bizflycloud.Base.Int.{gib, negsuc, pos, ℤ}
use csi_bizflycloud.Base.Go.{
  Exec, GoError, Result, err, err_not_found, err_wait_timeout, ok, ok-injective, plain, sentinel,
}
use csi_bizflycloud.Wait.{Polls, Wait, again, done, failed, spent}
use csi_bizflycloud.Cloud.{
  Attachment, Cloud, History, Snapshot, Volume, VolumeCreateRequest, volume_attached,
  volume_created, volume_deleted, volume_detached, volume_extended,
}
use csi_bizflycloud.Cloud.Store.{DeleteForgets, IsStore}
use csi_bizflycloud.Cloud.Volumes.{IsVolumeStore, extended}
use csi_bizflycloud.Cloud.Views.{without-missing}
use csi_bizflycloud.Block.Client.{device_to}
use csi_bizflycloud.Block.Controller.Volumes.{RoundUp}
use csi_bizflycloud.Block.Controller.Publish.{volume_in_server}
use csi_bizflycloud.Block.Controller.Sizes.{IsRoundUp}
use csi_bizflycloud.Block.Controller.Republish.{IsQuiet}
use csi_bizflycloud.Block.Controller.Snapshots.{Timestamps}

module _ {S : Type 0} where
  abbrev poll_next :
      Result GoError Bool × S → (S → Result GoError (Unit {0}) × S) → Result GoError (Unit {0}) × S
  poll_next (ok true, t) more = (ok tt, t)
  poll_next (ok false, t) more = more t
  poll_next (err e, t) more = (err e, t)

  abbrev pub poll : Exec S GoError Bool → ℕ → Exec S GoError (Unit {0})
  poll check zero s = (err (sentinel err_wait_timeout), s)
  poll check (suc n) s = poll_next (check s) (λ t. poll check n t)

  next-Polls :
      (check : Exec S GoError Bool) (n : ℕ) (s : S) (a : Result GoError Bool × S)
      → check s ≡ a
      → ((t : S) → Polls check n t (poll check n t))
      → Polls check (suc n) s (poll_next a (λ t. poll check n t))
  next-Polls check n s (ok true, t) e more = done t e
  next-Polls check n s (ok false, t) e more = again t e (more t)
  next-Polls check n s (err x, t) e more = failed x t e

  pub poll-Polls : (check : Exec S GoError Bool) (n : ℕ) (s : S) → Polls check n s (poll check n s)
  poll-Polls check zero s = spent
  poll-Polls check (suc n) s = next-Polls check n s (check s) refl (λ t. poll-Polls check n t)

abbrev pub polling : Wait
polling = record {
  exponential_backoff = λ S b check s. poll check b.steps s;
  polls = λ S b check s. poll-Polls check b.steps s;
}

-- A volume as the cloud makes it; its id is its name.
abbrev pub made_volume : VolumeCreateRequest → Volume
made_volume r = record {
  id = r.name;
  name = r.name;
  size = r.size;
  state = "available";
  availability_zone = "HN1";
  snapshot_id = r.snapshot_id;
  attachments = [];
}

abbrev attached_to : String → String → Volume → Volume
attached_to volume server v =
    if v.id == volume
    then record v {
      state = "in-use";
      attachments = record { server_id = server; device = "/dev/vdb" } ∷ [];
    }
    else v

abbrev detached : String → Volume → Volume
detached volume v = if v.id == volume then record v { state = "available"; attachments = [] } else v

-- The volumes after the calls.
abbrev pub stored : History → List Volume
stored [] = []
stored (volume_created r ∷ h) = made_volume r ∷ stored h
stored (volume_deleted id ∷ h) = select (λ v. not (v.id == id)) (stored h)
stored (volume_attached id server ∷ h) = map (attached_to id server) (stored h)
stored (volume_detached id server ∷ h) = map (detached id) (stored h)
stored (volume_extended id size ∷ h) = map (extended id size) (stored h)
stored (c ∷ h) = stored h

abbrev pub found : {A : Type 0} → Option A → Result GoError A
found none = err (sentinel err_not_found)
found (some a) = ok a

abbrev has_id : String → List Volume → Bool
has_id id = any (λ v. v.id == id)

abbrev if_there : Bool → Result GoError (Unit {0})
if_there b = if b then ok tt else err (sentinel err_not_found)

abbrev pub taken_snapshot : String → String → Snapshot
taken_snapshot name volume = record {
  id = name;
  name = name;
  volume_id = volume;
  size = pos 10;
  state = "available";
  create_at = "2020-01-01T00:00:00.000000";
}

abbrev attached_at : String → List Attachment → Bool
attached_at server = any (λ a. a.server_id == server)

abbrev pub memory : Cloud
memory = record {
  on_volumes_list = λ h. ok (stored h);
  on_volume_get = λ h id. found (first (λ v. v.id == id) (stored h));
  on_volume_create = λ h r. ok (made_volume r);
  on_volume_delete = λ h id. if_there (has_id id (stored h));
  on_volume_attach = λ h id server. if_there (has_id id (stored h));
  on_volume_detach = λ h id server. if_there (has_id id (stored h));
  on_volume_extend = λ h id size. if_there (has_id id (stored h));
  on_server_get = λ h server.
      ok (map (λ (v : Volume). v.id) (select (λ v. attached_at server v.attachments) (stored h)));
  on_snapshots_list = λ h. ok (taken_snapshot "monday" "disk" ∷ []);
  on_snapshot_get = λ h id. ok (taken_snapshot id "disk");
  on_snapshot_create = λ h r. ok (taken_snapshot r.name r.volume_id);
  on_snapshot_delete = λ h id. ok tt;
}

pub memory-IsStore : IsStore memory stored
memory-IsStore = record {
  listed = λ h. refl;
  list_keeps = λ h. refl;
  created_name = λ h r v e. ap (λ (x : Volume). x.name) (sym (ok-injective e));
  created_size = λ h r v e. ap (λ (x : Volume). x.size) (sym (ok-injective e));
  create_adds = λ h r v e. ([], stored h, refl, ap (λ x. x ∷ stored h) (ok-injective e));
}

gone_after :
    (id : String) (vs : List Volume) → has_id id (select (λ v. not (v.id == id)) vs) ≡ false
gone_after id [] = refl
gone_after id (v ∷ vs) = ground (arith, gone_after id vs)

memory-DeleteForgets : DeleteForgets memory
memory-DeleteForgets = record {
  deleted = λ h id e. (sentinel err_not_found, rw (gone_after id (stored h)) refl, refl);
}

-- util.RoundUpSize on the sizes that are not negative.
abbrev pub rounding : RoundUp
rounding (pos n) zero = pos 0
rounding (pos n) (suc d) = pos ((n + d) / suc d)
rounding (negsuc n) d = pos 0

pub rounding-IsRoundUp : IsRoundUp rounding
rounding-IsRoundUp = record {
  rounds = λ n p. ((n + (gib - 1)) / gib, refl, ground arith, ground arith);
}

there_or_missing : (b : Bool) (e : GoError) → if_there b ≡ err e → b ≡ false
there_or_missing true e h = cc
there_or_missing false e h = refl

extended-missing :
    (id : String) (size : ℤ) (vs : List Volume)
    → has_id id vs ≡ false
    → map (extended id size) vs ≡ vs
extended-missing id size [] h = refl
extended-missing id size (v ∷ vs) h = elim (Bool-cases (v.id == id)) [
  | inl b ↦ cc (rw b at h)
  | inr b ↦ rw b (ap (λ ws. v ∷ ws) (extended-missing id size vs (rw b at h)))
]

first-there :
    (id : String) (w : Volume) (vs : List Volume)
    → found (first (λ v. v.id == id) vs) ≡ ok w
    → has_id id vs ≡ true
first-there id w [] h = cc
first-there id w (v ∷ vs) h = elim (Bool-cases (v.id == id)) [
  | inl b ↦ rw b refl
  | inr b ↦ rw b (first-there id w vs (rw b at h))
]

pub memory-IsVolumeStore : IsVolumeStore memory stored
memory-IsVolumeStore = record {
  store = memory-IsStore;
  create_fails = λ h r e p. cc;
  delete_removes = λ h id p. refl;
  delete_fails = λ h id e p. without-missing id (stored h) (there_or_missing _ e p);
  delete_missing = λ h id e p q. there_or_missing _ e p;
  get_keeps = λ h id. refl;
  got = λ h id v p. first-there id v (stored h) p;
  extend_sets = λ h id size p. refl;
  extend_fails = λ h id size e p. extended-missing id size (stored h) (there_or_missing _ e p);
}

device-attached :
    (server device : String) (list : List Attachment)
    → device_to server list ≡ some device
    → attached_at server list ≡ true
device-attached server device [] h = cc
device-attached server device (a ∷ list) h = elim (Bool-cases (a.server_id == server)) [
  | inl b ↦ rw b refl
  | inr b ↦ rw b (device-attached server device list (rw b at h))
]

server-lists :
    (server device id : String) (vs : List Volume) (w : Volume)
    → found (first (λ v. v.id == id) vs) ≡ ok w
    → device_to server w.attachments ≡ some device
    → volume_in_server id (map (λ v. v.id) (select (λ v. attached_at server v.attachments) vs))
      ≡ true
unfolding volume_in_server
server-lists server device id [] w h d = cc
server-lists server device id (v ∷ vs) w h d = elim (Bool-cases (v.id == id)) [
  | inl b ↦
      let same : v ≡ w = ok-injective (rw b at h) in
      let there = device-attached server device v.attachments (rw same d) in rw (there, b) refl
  | inr b ↦
      let rest = server-lists server device id vs w (rw b at h) d in
      elim (Bool-cases (attached_at server v.attachments)) [
        | inl c ↦ rw (c, b) rest
        | inr c ↦ rw c rest
      ]
]

pub memory-IsQuiet : IsQuiet memory
memory-IsQuiet = record {
  after_volume = λ h volume other. refl;
  after_server = λ h volume server. refl;
  lists = λ h volume server device v e d.
      (_, refl, server-lists server device volume (stored h) v e d.1);
}

abbrev pub no_time : Timestamps
no_time text = err (plain "no time")
