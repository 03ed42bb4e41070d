-- ===== src/Block/Controller/Attachment.antt =====
-- driver/blockstorage/controller.go, ControllerPublishVolume.
use csi_bizflycloud.Base.{
  Bool, List, String, arith, false, if◌then◌else◌, is_empty, refl, some, tally, true, ℕ, ◌+◌, ◌==◌,
  ◌∙◌, ◌∷◌, ◌≡◌,
}
use csi_bizflycloud.Base.Go.{GoError, Result, calls, err, ok, ◌>>=◌}
use csi_bizflycloud.Base.Post.{
  Ends, Ends-bind, Ends-then, Ends-wrap_err, Keeps, Keeps-wrap_err, keeps_rules, then-at,
}
use csi_bizflycloud.Wait.{Wait}
use csi_bizflycloud.Cloud.{Call, Cloud, History, Volume, attaches, get_volume, volume_got}
use csi_bizflycloud.Block.Client.{
  device_for, device_to, get_attachment_disk_path, volume_in_use_status, wait_disk_attached,
  wait_disk_detached,
}
use csi_bizflycloud.Block.Client.Waits.{LastSaw, waits_bounded}
use csi_bizflycloud.Block.Controller.Publish.{
  attach_and_find, attach_unless, controller_publish_volume, volume_in_server,
}

-- A volume that is in use and has this device on the server.
abbrev pub HasDevice : String → String → Volume → Type 0
HasDevice server device v =
    ((v.state == volume_in_use_status) ≡ true) × (device_to server v.attachments ≡ some device)

device_for-ok :
    (cloud : Cloud) (server device : String) (v : Volume) (h : History)
    → (device_for cloud server v h).0 ≡ ok device
    → HasDevice server device v × ((device_for cloud server v h).1 ≡ h)
device_for-ok cloud server device v h e = ground arith

disk_path_answer :
    (cloud : Cloud) (server volume device : String) (h : History) (r : Result GoError Volume)
    → cloud.on_volume_get h volume ≡ r
    → (get_attachment_disk_path cloud server volume h).0 ≡ ok device
    → LastSaw cloud volume
        (HasDevice server device)
        (get_attachment_disk_path cloud server volume h).1
unfolding get_attachment_disk_path calls
disk_path_answer cloud server volume device h (ok v) g e = record {
  before = h;
  answer = v;
  last = rw (g, ◌>>=◌) (device_for-ok cloud server device v _ (rw g at e)).1;
  got = g;
  holds = (device_for-ok cloud server device v _ (rw g at e)).0;
}
disk_path_answer cloud server volume device h (err x) g e = cc (rw g at e)

module _ (cloud : Cloud) (wait : Wait) (volume server : String) where
  -- A publication that succeeds ends with a query of the volume that is in use, and the device that
  -- it gives is the one of its attachment to the server.
  pub controller_publish-device :
      (h : History) (device : String)
      → (controller_publish_volume cloud wait volume server h).0 ≡ ok device
      → LastSaw cloud volume
          (HasDevice server device)
          (controller_publish_volume cloud wait volume server h).1
  unfolding controller_publish_volume attach_and_find
  controller_publish-device h device e = chain.at h device e
    where
      Answer : String → History → Type 0
      Answer d = LastSaw cloud volume (HasDevice server d)

      path : Ends Answer (get_attachment_disk_path cloud server volume)
      path = record { at = λ s d e. disk_path_answer cloud server volume d s _ refl e }

      chain : Ends Answer (controller_publish_volume cloud wait volume server)
      chain = Ends-then Answer _ _ (
          Ends-then Answer _ _ (
            Ends-then Answer _ _ (
              Ends-bind Answer _ _
                λ attached. Ends-then Answer _ _ (Ends-wrap_err Answer _ _ path))))

-- The number of calls of a kind.
abbrev pub Made : (Call → Bool) → ℕ → History → Type 0
Made p n h = tally p h ≡ n

module _ (cloud : Cloud) (wait : Wait) (volume server : String) (p : Call → Bool) (n : ℕ)
    (quiet : p (volume_got volume) ≡ false) where
  path_quiet : Keeps (Made p n) (get_attachment_disk_path cloud server volume)
  unfolding get_attachment_disk_path
  path_quiet = search (keeps_rules, get_quiet, device_quiet)
    where
      get_quiet : Keeps (Made p n) (get_volume cloud volume)
      get_quiet = record { at = λ s e. rw quiet e }

      device_quiet : (v : Volume) → Keeps (Made p n) (device_for cloud server v)
      device_quiet v = record { at = λ s e. ground (arith, e) }

  attached_quiet : Keeps (Made p n) (wait_disk_attached cloud wait server volume)
  attached_quiet = record {
    at = λ s e. ((waits_bounded cloud wait server volume s).0 p quiet).0 ∙ e;
  }

  detached_quiet : Keeps (Made p n) (wait_disk_detached cloud wait server volume)
  detached_quiet = record {
    at = λ s e. ((waits_bounded cloud wait server volume s).0 p quiet).1 ∙ e;
  }

module _ (cloud : Cloud) (wait : Wait) (volume server : String) where
  tally-attach_unless :
      (b : Bool) (s : History)
      → tally attaches (attach_unless cloud wait b volume server s).1
        ≡ tally attaches s + (if b then 0 else 1)
  tally-attach_unless true s = omega arith
  tally-attach_unless false s =
      then-at (Made attaches (tally attaches s + 1)) _ _
        (Keeps-wrap_err _ _ _ (attached_quiet cloud wait volume server attaches _ refl)) s
        (unfold calls in omega arith)

  tally-attach_and_find :
      (b : Bool) (s : History)
      → tally attaches (attach_and_find cloud wait b volume server s).1
        ≡ tally attaches s + (if b then 0 else 1)
  unfolding attach_and_find
  tally-attach_and_find b s =
      then-at (Made attaches (tally attaches s + (if b then 0 else 1))) _ _
        (Keeps-wrap_err _ _ _ (path_quiet cloud wait volume server attaches _ refl)) s
        (tally-attach_unless b s)

  -- With ids that are not empty, and a volume and a server that are there, a publication makes
  -- one call of Attach if the server does not list the volume, and none if it does.
  pub controller_publish-attaches :
      (h : History) (v : Volume) (attached : List String)
      → is_empty volume ≡ false
      → is_empty server ≡ false
      → cloud.on_volume_get h volume ≡ ok v
      → cloud.on_server_get (volume_got volume ∷ h) server ≡ ok attached
      → tally attaches (controller_publish_volume cloud wait volume server h).1
        ≡ tally attaches h + (if volume_in_server volume attached then 0 else 1)
  unfolding controller_publish_volume
  controller_publish-attaches h v attached e f g k =
      unfold calls in rw (e, f, g, k) (tally-attach_and_find _ _)
