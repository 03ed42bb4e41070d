-- ===== src/Login/Exits.antt =====
-- The exit codes of the two commands.
use mathlib.Core.Option.{some-injective}
use csi_bizflycloud.Base.{Option, arith, none, refl, some, ◌≡◌}
use csi_bizflycloud.Server.{
  Abort, MainGoroutine, Process, crashed, entered, fatal, returned, waiting,
}
use csi_bizflycloud.Login.{exit_at, exit_by, exit_code}

exit_at-returned : (m : MainGoroutine) → exit_at m ≡ some 0 → m ≡ returned
exit_at-returned entered h = cc
exit_at-returned waiting h = cc
exit_at-returned returned h = refl

exit_by-returned :
    (a : Option Abort) (m : MainGoroutine) → exit_by a m ≡ some 0 → (a ≡ none) × (m ≡ returned)
exit_by-returned (some (fatal text)) m h = ground (arith, some-injective h)
exit_by-returned (some crashed) m h = ground (arith, some-injective h)
exit_by-returned none m h = (refl, exit_at-returned m h)

-- A process that has ended with 0 has not been aborted.
pub exit_code-returned :
    (p : Process) → exit_code p ≡ some 0 → (p.aborted ≡ none) × (p.main ≡ returned)
unfolding exit_code
exit_code-returned p h = exit_by-returned p.aborted p.main h
