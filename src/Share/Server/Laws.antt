-- ===== src/Share/Server/Laws.antt =====
-- driver/filestorage/driver.go: the run of the driver.
use csi_bizflycloud.Base.{
  List, Option, [], ap, false, none, refl, some, subst, sym, ◌++◌, ◌↔◌, ◌∙◌, ◌∷◌, ◌≡◌,
}
use csi_bizflycloud.Base.Go.{GoError, Result, err, ok}
use csi_bizflycloud.Server.{
  Abort, Events, Goroutine, Host, Process, Serving, accepting, begun, ended, entry, fatal,
  main_goroutine, moves, returned, runnable, schedule, server_goroutine, serving, start, wait,
  waiting, wg_done,
}
use csi_bizflycloud.Server.Laws.{schedule-append, schedule-keeps}
use csi_bizflycloud.Share.Server.{Servers, after_serve, neither, run, run_server}
use csi_bizflycloud.Share.Driver.{Driver}

-- The main goroutine up to Wait, the goroutine of serve to its end, and Wait again.
abbrev pub rest : List Goroutine
rest = main_goroutine ∷ server_goroutine ∷ server_goroutine ∷ main_goroutine ∷ []

-- The server listens, and its Serve returns without an error.
abbrev pub IsServed : Serving → Host → Type 0
IsServed before host =
    (t : Events) × (before [] ≡ (ok tt, t)) × (host.on_serve (serving ∷ t) ≡ ok tt)

module _ (before : Serving) (host : Host) where
  -- The process at each of its points: at its entry, with the goroutine of serve started, in
  -- server.Serve, after it, after Wait, and aborted.
  data Stage : Process → Type 0 where
    at_entry : Stage entry
    at_start :
        Stage (record { main = waiting; server = runnable; wg = 1; trace = []; aborted = none })
    at_serve :
        (t : Events)
        → before [] ≡ (ok tt, t)
        → Stage (record {
          main = waiting;
          server = accepting;
          wg = 1;
          trace = serving ∷ t;
          aborted = none;
        })
    at_end :
        (t : Events)
        → before [] ≡ (ok tt, t)
        → host.on_serve (serving ∷ t) ≡ ok tt
        → Stage
            (record { main = waiting; server = ended; wg = 0; trace = serving ∷ t; aborted = none })
    at_return :
        (t : Events)
        → before [] ≡ (ok tt, t)
        → host.on_serve (serving ∷ t) ≡ ok tt
        → Stage (record {
          main = returned;
          server = ended;
          wg = 0;
          trace = serving ∷ t;
          aborted = none;
        })
    at_refusal :
        (a : Abort) (t : Events) (p : Process)
        → before [] ≡ (err a, t)
        → p.aborted ≡ some a
        → p.main ≡ waiting
        → Stage p
    at_failure :
        (a : Abort) (t : Events) (e : GoError) (p : Process)
        → before [] ≡ (ok tt, t)
        → host.on_serve (serving ∷ t) ≡ err e
        → p.aborted ≡ some a
        → p.main ≡ waiting
        → Stage p

  abbrev next : Goroutine → Process → Process
  next g p = moves before after_serve host p.aborted g p

  begun-Stage :
      (r : Result Abort (Unit {0}) × Events) (p : Process)
      → before [] ≡ r
      → p ≡ start entry
      → Stage (begun before after_serve host r p)
  unfolding start
  begun-Stage (ok tt, t) p e h = rw h (at_serve t e)
  begun-Stage (err a, t) p e h = rw h (at_refusal a t _ e refl refl)

  served-Stage :
      (t : Events) (r : Result GoError (Unit {0}))
      → before [] ≡ (ok tt, t)
      → host.on_serve (serving ∷ t) ≡ r
      → Stage (
          after_serve r (record {
            main = waiting;
            server = accepting;
            wg = 1;
            trace = serving ∷ t;
            aborted = none;
          }))
  unfolding wg_done
  served-Stage t (ok tt) b e = at_end t b e
  served-Stage t (err x) b e = at_failure (fatal "GRPC server failure: %v") t x _ b e refl refl

  stays :
      (g : Goroutine) (p : Process) (a : Abort) (o : Option Abort)
      → o ≡ some a
      → Stage p
      → Stage (moves before after_serve host o g p)
  stays g p a none e h = cc
  stays g p a (some x) e h = h

  next-Stage : (g : Goroutine) (p : Process) → Stage p → Stage (next g p)
  unfolding start wait
  next-Stage main_goroutine _ at_entry = at_start
  next-Stage server_goroutine _ at_entry = at_entry
  next-Stage main_goroutine _ at_start = at_start
  next-Stage server_goroutine _ at_start = begun-Stage (before []) _ refl refl
  next-Stage main_goroutine _ (at_serve t b) = at_serve t b
  next-Stage server_goroutine _ (at_serve t b) = served-Stage t (host.on_serve (serving ∷ t)) b refl
  next-Stage main_goroutine _ (at_end t b e) = at_return t b e
  next-Stage server_goroutine _ (at_end t b e) = at_end t b e
  next-Stage main_goroutine _ (at_return t b e) = at_return t b e
  next-Stage server_goroutine _ (at_return t b e) = at_return t b e
  next-Stage g _ (at_refusal a t p b e m) = stays g p a p.aborted e (at_refusal a t p b e m)
  next-Stage g _ (at_failure a t x p b f e m) = stays g p a p.aborted e (at_failure a t x p b f e m)

  schedule-Stage : (gs : List Goroutine) → Stage (schedule before after_serve host gs entry)
  schedule-Stage gs = schedule-keeps before after_serve host Stage next-Stage gs entry at_entry

  serve-returns :
      (t : Events)
      → host.on_serve (serving ∷ t) ≡ ok tt
      → (schedule before after_serve host rest (record {
        main = waiting;
        server = accepting;
        wg = 1;
        trace = serving ∷ t;
        aborted = none;
      })).main
        ≡ returned
  unfolding schedule start wait wg_done
  serve-returns t e = rw e refl

  rest-returns :
      (t : Events) (p : Process)
      → before [] ≡ (ok tt, t)
      → host.on_serve (serving ∷ t) ≡ ok tt
      → Stage p
      → (schedule before after_serve host rest p).main ≡ returned
  unfolding schedule start wait wg_done
  rest-returns t _ b e at_entry = rw (b, e) refl
  rest-returns t _ b e at_start = rw (b, e) refl
  rest-returns t _ b e (at_serve u c) =
      serve-returns u
        (subst (λ v. host.on_serve (serving ∷ v) ≡ ok tt) (ap (λ r. r.1) (sym b ∙ c)) e)
  rest-returns t _ b e (at_end u c f) = refl
  rest-returns t _ b e (at_return u c f) = refl
  rest-returns t p b e (at_refusal a u _ c f m) = cc
  rest-returns t p b e (at_failure a u x _ c f g m) = cc

  returned-served :
      (p : Process)
      → Stage p
      → p.main ≡ returned
      → (t : Events) × (before [] ≡ (ok tt, t)) × (host.on_serve (serving ∷ t) ≡ ok tt)
  returned-served _ at_entry h = cc
  returned-served _ at_start h = cc
  returned-served _ (at_serve t b) h = cc
  returned-served _ (at_end t b e) h = cc
  returned-served _ (at_return t b e) h = (t, b, e)
  returned-served p (at_refusal a t _ b e m) h = cc
  returned-served p (at_failure a t x _ b f e m) h = cc

  schedule-returned_iff :
      (gs : List Goroutine)
      → (schedule before after_serve host (gs ++ rest) entry).main ≡ returned ↔ IsServed before host
  schedule-returned_iff gs = (
    (λ h. returned-served _ (schedule-Stage (gs ++ rest)) h),
    (λ served.
        let (t, b, e) = served in
        rw (schedule-append before after_serve host gs rest entry)
          (rest-returns t _ b e (schedule-Stage gs))),
  )

  -- A process whose Run has returned has served.
  pub schedule-IsServed :
      (gs : List Goroutine)
      → (schedule before after_serve host gs entry).main ≡ returned
      → IsServed before host
  schedule-IsServed gs h = returned-served _ (schedule-Stage gs) h

module _ {Client : Type 0} (host : Host) (d : Driver) (s : Servers Client) where
  -- With a service set up, Run returns once its goroutines have moved on far enough, whatever they did
  -- before, if the server comes to listen and Serve ends without an error, and only then.
  pub run-returned_iff :
      neither host s.cs s.ns ≡ false
      → (gs : List Goroutine)
      → (run host d s (gs ++ rest)).main ≡ returned ↔ IsServed (run_server host d s) host
  unfolding run
  run-returned_iff n gs = rw n (schedule-returned_iff (run_server host d s) host gs)
