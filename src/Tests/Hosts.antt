-- ===== src/Tests/Hosts.antt =====
-- A host that does what it is asked, and two cloud APIs for the log-in.
use csi_bizflycloud.Base.{List, String, [], ◌∷◌}
use csi_bizflycloud.Base.Go.{err, ok, plain}
use csi_bizflycloud.Server.{Goroutine, Host, main_goroutine, not_there, server_goroutine}
use csi_bizflycloud.Login.{Account, Gobizfly}

abbrev pub calm : Host
calm = record {
  on_remove = λ t path. not_there;
  on_listen = λ t proto addr. ok tt;
  on_serve = λ t. ok tt;
}

-- The client is its token.
abbrev pub api : Gobizfly String String
api = record {
  new_client = λ url project region. ok project;
  init_token = λ c r. ok r.username;
  set_token = λ c token. token;
}

-- An API that refuses the log-in.
abbrev pub refusing : Gobizfly String String
refusing = record {
  new_client = λ url project region. ok project;
  init_token = λ c r. err (plain "401");
  set_token = λ c token. token;
}

abbrev pub root_account : Account
root_account = record {
  auth_method = "password";
  username = "root";
  password = "";
  tenant_id = "";
  app_cred_id = "";
  app_cred_secret = "";
  api_url = "";
  region = "HaNoi";
}

-- The goroutines in turn, until both have ended.
abbrev pub turns : List Goroutine
turns = main_goroutine ∷ server_goroutine ∷ server_goroutine ∷ main_goroutine ∷ []
