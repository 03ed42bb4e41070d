-- ===== src/Block/Controller/Republish.antt =====
-- driver/blockstorage/controller.go, ControllerPublishVolume, called again.
use csi_bizflycloud.Base.{
  Bool-cases, List, String, false, inl, inr, is_empty, refl, true, ◌∙◌, ◌∷◌, ◌≡◌,
}
use csi_bizflycloud.Base.Go.{calls, ok}
use csi_bizflycloud.Wait.{Wait}
use csi_bizflycloud.Cloud.{Cloud, History, Volume, server_got, volume_got}
use csi_bizflycloud.Block.Client.{device_for, get_attachment_disk_path}
use csi_bizflycloud.Block.Controller.Publish.{
  attach_and_find, controller_publish_volume, volume_in_server,
}
use csi_bizflycloud.Block.Controller.Attachment.{HasDevice, controller_publish-device}

-- What the cloud promises while nobody else changes it: a query of a volume or a server leaves the
-- answers for a volume as they were, and a server lists the volumes that are attached to it.
pub record IsQuiet (cloud : Cloud) : Type 0 where
  pub after_volume :
      (h : History) (volume other : String)
      → cloud.on_volume_get (volume_got other ∷ h) volume ≡ cloud.on_volume_get h volume
  pub after_server :
      (h : History) (volume server : String)
      → cloud.on_volume_get (server_got server ∷ h) volume ≡ cloud.on_volume_get h volume
  pub lists :
      (h : History) (volume server device : String) (v : Volume)
      → cloud.on_volume_get h volume ≡ ok v
      → HasDevice server device v
      → (ids : List String) × (cloud.on_server_get h server ≡ ok ids)
        × (volume_in_server volume ids ≡ true)

module _ (cloud : Cloud) (wait : Wait) (volume server : String) where
  publish-ids :
      (h : History) (device : String)
      → (controller_publish_volume cloud wait volume server h).0 ≡ ok device
      → (is_empty volume ≡ false) × (is_empty server ≡ false)
  unfolding controller_publish_volume calls
  publish-ids h device e = elim (Bool-cases (is_empty volume)) [
    | inl b ↦ cc (rw b at e)
    | inr b ↦ elim (Bool-cases (is_empty server)) [ inl c ↦ cc (rw (b, c) at e) | inr c ↦ (b, c) ]
  ]

  device_for-gives :
      (device : String) (v : Volume) (h : History)
      → HasDevice server device v
      → device_for cloud server v h ≡ (ok device, h)
  device_for-gives device v h (s, d) = rw (s, d) refl

  -- A publication of a volume that is in use on the server makes three queries.
  publish-attached :
      (h : History) (device : String) (v : Volume) (ids : List String)
      → is_empty volume ≡ false
      → is_empty server ≡ false
      → HasDevice server device v
      → cloud.on_volume_get h volume ≡ ok v
      → cloud.on_server_get (volume_got volume ∷ h) server ≡ ok ids
      → volume_in_server volume ids ≡ true
      → cloud.on_volume_get (server_got server ∷ volume_got volume ∷ h) volume ≡ ok v
      → controller_publish_volume cloud wait volume server h
        ≡ (ok device, volume_got volume ∷ server_got server ∷ volume_got volume ∷ h)
  unfolding controller_publish_volume attach_and_find get_attachment_disk_path calls
  publish-attached h device v ids e f d g k l m =
      rw (e, f, g, k, l, m, device_for-gives device v _ d) refl

  -- On a cloud that nobody else changes: called again after it succeeded, ControllerPublishVolume gives
  -- the same device, and makes three queries and no other call.
  pub controller_publish-again :
      IsQuiet cloud
      → (h : History) (device : String)
      → (controller_publish_volume cloud wait volume server h).0 ≡ ok device
      → let h1 = (controller_publish_volume cloud wait volume server h).1 in
        controller_publish_volume cloud wait volume server h1
        ≡ (ok device, volume_got volume ∷ server_got server ∷ volume_got volume ∷ h1)
  controller_publish-again quiet h device e =
      let (b, c) = publish-ids h device e in
      let seen = controller_publish-device cloud wait volume server h device e in
      let h1 = (controller_publish_volume cloud wait volume server h).1 in
      let now : cloud.on_volume_get h1 volume ≡ ok seen.answer =
        rw seen.last (quiet.after_volume seen.before volume volume ∙ seen.got) in
      let next : cloud.on_volume_get (volume_got volume ∷ h1) volume ≡ ok seen.answer =
        quiet.after_volume h1 volume volume ∙ now in
      let (ids, k, l) = quiet.lists _ volume server device seen.answer next seen.holds in
      publish-attached h1 device seen.answer ids b c seen.holds now k l
        (quiet.after_server _ volume server ∙ next)
