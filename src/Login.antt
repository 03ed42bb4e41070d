-- ===== src/Login.antt =====
-- cmd/csi-bizflycloud/main.go and cmd/csi-fs-bizflycloud/main.go: what the two commands share, the flags
-- that were given, the log-in to the cloud, and the exit code of a process.
pub mod Exits
use csi_bizflycloud.Base.{Bool, Dict, Option, String, [], lookup, none, some, ℕ}
use csi_bizflycloud.Base.Go.{GoError, Result, aborted, err, ok}
use csi_bizflycloud.Server.{
  Abort, MainGoroutine, Process, absent, crashed, entered, fatal, returned, waiting,
}

-- The flags on the command line, with their values.
pub record Given : Type 0 where
  pub texts : Dict String
  pub switches : Dict Bool

-- `StringVar(&x, name, default, …)`, `BoolVar(&x, name, default, …)`
abbrev pub given_or {ℓ} : {A : Type ℓ} → A → Option A → A
given_or default none = default
given_or default (some x) = x

-- The flags for the log-in.
pub record Account : Type 0 where
  pub auth_method : String
  pub username : String
  pub password : String
  pub tenant_id : String
  pub app_cred_id : String
  pub app_cred_secret : String
  pub api_url : String
  pub region : String

unfoldable pub account_of : Given → Account
account_of g = record {
  auth_method = given_or "password" (lookup "auth_method" g.texts);
  username = given_or "" (lookup "username" g.texts);
  password = given_or "" (lookup "password" g.texts);
  tenant_id = given_or "" (lookup "tenant_id" g.texts);
  app_cred_id = given_or "" (lookup "application_credential_id" g.texts);
  app_cred_secret = given_or "" (lookup "application_credential_secret" g.texts);
  api_url = given_or "https://manage.bizflycloud.vn" (lookup "api_url" g.texts);
  region = given_or "HaNoi" (lookup "region" g.texts);
}

-- gobizfly.TokenCreateRequest
pub record TokenRequest : Type 0 where
  pub auth_method : String
  pub username : String
  pub password : String
  pub app_cred_id : String
  pub app_cred_secret : String

-- gobizfly: NewClient with the options for the URL, the project and the region, Token.Init and
-- SetKeystoneToken.
pub record Gobizfly (Client Token : Type 0) : Type 0 where
  pub new_client : String → String → String → Result GoError Client
  pub init_token : Client → TokenRequest → Result GoError Token
  pub set_token : Client → Token → Client

module _ {Client Token : Type 0} (gobizfly : Gobizfly Client Token) where
  abbrev pub token_request : Account → TokenRequest
  token_request a = record {
    auth_method = a.auth_method;
    username = a.username;
    password = a.password;
    app_cred_id = a.app_cred_id;
    app_cred_secret = a.app_cred_secret;
  }

  abbrev pub with_token : Client → Result GoError Token → Result String Client
  with_token c (err e) = err "Failed to authenticate with Bizfly Cloud: %v"
  with_token c (ok t) = ok (gobizfly.set_token c t)

  abbrev pub with_client : Account → Result GoError Client → Result String Client
  with_client a (err e) = err "Failed to create Bizfly Cloud client: %v"
  with_client a (ok c) = with_token c (gobizfly.init_token c (token_request a))

  -- The client with its token, or the message of the log.
  unfoldable pub log_in : Account → Result String Client
  log_in a = with_client a (gobizfly.new_client a.api_url a.tenant_id a.region)

-- The exit code of a process that has ended: 255 of klog.Fatal, 2 of a panic, and 0 after main.
abbrev pub exit_at : MainGoroutine → Option ℕ
exit_at entered = none
exit_at waiting = none
exit_at returned = some 0

abbrev pub exit_by : Option Abort → MainGoroutine → Option ℕ
exit_by (some (fatal text)) m = some 255
exit_by (some crashed) m = some 2
exit_by none m = exit_at m

unfoldable pub exit_code : Process → Option ℕ
exit_code p = exit_by p.aborted p.main

-- A command that returns before it runs the driver.
abbrev pub early_return : Process
early_return = record { main = returned; server = absent; wg = 0; trace = []; aborted = none }
