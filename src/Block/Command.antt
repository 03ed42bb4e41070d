-- ===== src/Block/Command.antt =====
-- cmd/csi-bizflycloud/main.go: the command of the block storage driver.
pub mod Exits
use csi_bizflycloud.Base.{Bool, List, Option, String, false, if◌then◌else◌, lookup, none, some, ℕ}
use csi_bizflycloud.Base.Go.{Result, err, ok}
use csi_bizflycloud.Server.{Goroutine, Host, Process}
use csi_bizflycloud.Login.{
  Account, Given, Gobizfly, account_of, early_return, exit_code, given_or, log_in,
}
use csi_bizflycloud.Block.Driver.{VolumeDriver, new_driver}
use csi_bizflycloud.Block.Server.{no_servers, run, setup_control_driver, setup_node_driver}

pub record Flags : Type 0 where
  pub endpoint : String
  pub is_control_plane : Bool
  pub cluster : String
  pub account : Account

abbrev pub flags_with : Given → Option String → Option Flags
flags_with g none = none
flags_with g (some endpoint) = some (record {
  endpoint = endpoint;
  is_control_plane = given_or false (lookup "is_control_plane" g.switches);
  cluster = given_or "" (lookup "cluster" g.texts);
  account = account_of g;
})

-- The flags with their defaults; cobra refuses to run without the required one.
unfoldable pub flags : Given → Option Flags
flags g = flags_with g (lookup "endpoint" g.texts)

module _ {Client Token : Type 0} (gobizfly : Gobizfly Client Token) (host : Host) where
  abbrev pub with_login : VolumeDriver → Result String Client → List Goroutine → Process
  with_login d (err text) gs = early_return
  with_login d (ok client) gs = run host d.endpoint (setup_control_driver client no_servers) gs

  -- handle, under a schedule of the goroutines of Run.
  unfoldable pub handle : Flags → List Goroutine → Process
  handle f gs =
      let d = new_driver f.endpoint f.cluster in
      if f.is_control_plane
      then with_login d (log_in gobizfly f.account) gs
      else run host d.endpoint (setup_node_driver {Client = Client} no_servers) gs

  -- main: the exit code, once the process has ended.
  abbrev pub executed : Option Flags → List Goroutine → Option ℕ
  executed none gs = some 1
  executed (some f) gs = exit_code (handle f gs)

  unfoldable pub main_exit : Given → List Goroutine → Option ℕ
  main_exit g gs = executed (flags g) gs
