-- ===== src/Server/Laws.antt =====
-- The schedules of a server's two goroutines, in both drivers' servers.
use csi_bizflycloud.Base.{List, [], refl, ◌++◌, ◌∷◌, ◌≡◌}
use csi_bizflycloud.Base.Go.{GoError, Result}
use csi_bizflycloud.Server.{Goroutine, Host, Process, Serving, moves, schedule}

module _ (before : Serving) (after : Result GoError (Unit {0}) → Process → Process)
    (host : Host) where
  -- What every step keeps, a schedule keeps.
  pub schedule-keeps :
      (P : Process → Type 0)
      → ((g : Goroutine) (p : Process) → P p → P (moves before after host p.aborted g p))
      → (gs : List Goroutine) (p : Process) → P p
      → P (schedule before after host gs p)
  unfolding schedule
  schedule-keeps P k [] p h = h
  schedule-keeps P k (g ∷ gs) p h =
      schedule-keeps P k gs (moves before after host p.aborted g p) (k g p h)

  pub schedule-append :
      (gs hs : List Goroutine) (p : Process)
      → schedule before after host (gs ++ hs) p
        ≡ schedule before after host hs (schedule before after host gs p)
  unfolding schedule
  schedule-append [] hs p = refl
  schedule-append (g ∷ gs) hs p = schedule-append gs hs (moves before after host p.aborted g p)
