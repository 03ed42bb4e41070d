-- ===== src/Share/Plugin/Connection.antt =====
-- driver/filestorage/csiclient/builder.go: NewConnection, and the interceptor of the calls.
use csi_bizflycloud.Base.{
  Bool, List, Option, [], any, false, if◌then◌else◌, none, refl, some, true, ℕ, ◌%◌, ◌+◌, ◌^◌, ◌∷◌,
  ◌≡◌,
}
use csi_bizflycloud.Base.Go.{Exec}

-- What the select of the loop receives: a tick of the ticker, or the end of the dial.
pub data Signal : Type 0 where
  tick dial_finished : Signal

-- The loop, over the signals in the order in which they come; `none` is a loop that still waits.
unfoldable pub new_connection : {A : Type 0} → A → List Signal → Option A
new_connection answer [] = none
new_connection answer (tick ∷ more) = new_connection answer more
new_connection answer (dial_finished ∷ more) = some answer

abbrev is_finish : Signal → Bool
is_finish tick = false
is_finish dial_finished = true

-- The connection is given exactly if the dial ends, however often the ticker has ticked, and it is that
-- of the dial.
pub new_connection-answers :
    {A : Type 0} (answer : A) (signals : List Signal)
    → new_connection answer signals ≡ (if any is_finish signals then some answer else none)
unfolding new_connection
new_connection-answers answer [] = refl
new_connection-answers answer (tick ∷ more) = new_connection-answers answer more
new_connection-answers answer (dial_finished ∷ more) = refl

-- atomic.AddUint64(&counter, 1)
abbrev pub next_id : ℕ → ℕ
next_id n = (n + 1) % 2 ^ 64

-- The interceptor numbers a call, and passes its result on.
unfoldable pub intercepted : {S E A : Type 0} → Exec S E A → Exec (ℕ × S) E A
intercepted invoker (n, s) = let (r, t) = invoker s in (r, (next_id n, t))
