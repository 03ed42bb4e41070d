-- ===== src/Share/Api.antt =====
-- The file storage service of github.com/bizflycloud/gobizfly, which the repository does not hold,
-- as a parameter: an answer may be any function of the calls made so far.
use csi_bizflycloud.Base.{Bool, List, String, false, true, ◌∷◌}
use csi_bizflycloud.Base.Int.{ℤ}
use csi_bizflycloud.Base.Go.{Exec, GoError, Result}

-- gobizfly.Share
pub record Share : Type 0 where
  pub id : String
  pub name : String
  pub size : ℤ
  pub state : String
  pub share_protocol : String
  pub export_locations : List String
  pub zone : String

-- gobizfly.ShareAccessRule
pub record ShareAccessRule : Type 0 where
  pub access_to : String
  pub access_level : String
  pub access_type : String

-- gobizfly.CreateShareRequest
pub record CreateShareRequest : Type 0 where
  pub name : String
  pub size : ℤ
  pub share_protocol : String
  pub share_type : String
  pub network_id : String
  pub subnet_id : String
  pub zone : String
  pub description : String
  pub access : List ShareAccessRule

pub data ShareCall : Type 0 where
  shares_listed : ShareCall
  share_created : CreateShareRequest → ShareCall
  share_deleted : String → ShareCall
  share_resized : String → ℤ → ShareCall

-- The calls made so far, the last one first.
abbrev pub Calls : Type 0
Calls = List ShareCall

pub record FileStorage : Type 0 where
  pub on_list : Calls → Result GoError (List Share)
  pub on_create : Calls → CreateShareRequest → Result GoError Share
  pub on_delete : Calls → String → Result GoError (Unit {0})
  pub on_resize : Calls → String → ℤ → Result GoError Share

module _ (api : FileStorage) where
  abbrev pub list_shares : Exec Calls GoError (List Share)
  list_shares h = (api.on_list h, shares_listed ∷ h)

  abbrev pub create_share : CreateShareRequest → Exec Calls GoError Share
  create_share r h = (api.on_create h r, share_created r ∷ h)

  abbrev pub delete_share_api : String → Exec Calls GoError (Unit {0})
  delete_share_api id h = (api.on_delete h id, share_deleted id ∷ h)

  abbrev pub resize_share_api : String → ℤ → Exec Calls GoError Share
  resize_share_api id size h = (api.on_resize h id size, share_resized id size ∷ h)

abbrev pub makes : ShareCall → Bool
makes (share_created r) = true
makes _ = false

abbrev pub resizes : ShareCall → Bool
resizes (share_resized id size) = true
resizes _ = false
