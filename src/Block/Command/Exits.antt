-- ===== src/Block/Command/Exits.antt =====
-- cmd/csi-bizflycloud/main.go: how the command ends.
use csi_bizflycloud.Base.{Bool-cases, List, String, inl, inr, refl, some, true, ◌↔◌, ◌≡◌, ◌≢◌}
use csi_bizflycloud.Base.Go.{Result-cases, err}
use csi_bizflycloud.Server.{Goroutine, Host}
use csi_bizflycloud.Login.{Gobizfly, exit_code, log_in}
use csi_bizflycloud.Login.Exits.{exit_code-returned}
use csi_bizflycloud.Block.Command.{Flags, handle}
use csi_bizflycloud.Block.Server.{Servers, run}
use csi_bizflycloud.Block.Server.Laws.{run-ne-returned}

module _ {Client Token : Type 0} (gobizfly : Gobizfly Client Token) (host : Host) (f : Flags)
    (gs : List Goroutine) where
  runs_on :
      {C : Type 0} (endpoint : String) (d : Servers C) → exit_code (run host endpoint d gs) ≢ some 0
  runs_on endpoint d h = run-ne-returned host endpoint d gs (exit_code-returned _ h).1

  -- The process ends with the exit code 0 exactly if it is to be a control plane and the client or the
  -- token cannot be had; a driver that is run never ends so.
  pub handle-exits_zero_iff :
      exit_code (handle gobizfly host f gs) ≡ some 0
      ↔ (f.is_control_plane ≡ true) × (text : String) × (log_in gobizfly f.account ≡ err text)
  unfolding handle exit_code
  handle-exits_zero_iff = (
    (λ h. elim (Bool-cases f.is_control_plane) [
      | inr b ↦ elim (runs_on _ _ (rw b at h)) [ ]
      | inl b ↦ elim (Result-cases (log_in gobizfly f.account)) [
        | inl (c, l) ↦ elim (runs_on _ _ (rw (b, l) at h)) [ ]
        | inr (text, l) ↦ (b, text, l)
      ]
    ]),
    (λ (b, text, l). rw (b, l) refl),
  )
