-- ===== src/Ticker.antt =====
-- consensus/ticker.go: the timer of the consensus, which keeps the latest timeout only. The timer
-- expires where it is armed; the timeouts that are sent on tockChan are a list, in the order in which
-- timeoutRoutine issues the sends, newest first. Each send is its own goroutine, and the order of their
-- arrival is not modelled.
mod Examples
pub mod Order
use bft.Base.{
  ℕ, Bool, true, false, ◌&&◌, not, Option, none, some, List, [], ◌∷◌, ltb, if◌then◌else◌,
}
use bft.Base.Int.{ℤ, pos, eqb_ℤ, ltb_ℤ}

pub record TimeoutInfo : Type 0 where
  pub duration : ℤ
  pub height : ℤ
  pub round : ℤ
  pub step : ℕ

pub record TimeoutTicker : Type 0 where
  pub ti : TimeoutInfo
  pub armed : Bool
  pub sent : List TimeoutInfo

-- The state in which timeoutRoutine starts.
abbrev pub new_timeout_ticker : TimeoutTicker
new_timeout_ticker = record {
  ti = record { duration = pos 0; height = pos 0; round = pos 0; step = 0 };
  armed = false;
  sent = [];
}

-- The first case of timeoutRoutine: a new timeout, unless it is out of date.
unfoldable pub tick : TimeoutTicker → TimeoutInfo → TimeoutTicker
tick t new =
    if ltb_ℤ new.height t.ti.height
    then t
    else if eqb_ℤ new.height t.ti.height && ltb_ℤ new.round t.ti.round
    then t
    else if eqb_ℤ new.height t.ti.height
        && (eqb_ℤ new.round t.ti.round && (ltb 0 t.ti.step && not (ltb t.ti.step new.step)))
    then t
    else record t { ti = new; armed = true }

-- The second case: the timer has expired.
unfoldable pub expire : TimeoutTicker → TimeoutTicker
expire t = if t.armed then record t { armed = false; sent = t.ti ∷ t.sent } else t

pub data TickerEvent : Type 0 where
  ticked : TimeoutInfo → TickerEvent
  expired : TickerEvent

-- timeoutRoutine, over the sequence of what it receives.
unfoldable pub timeout_routine : TimeoutTicker → List TickerEvent → TimeoutTicker
unfolding tick expire
timeout_routine t [] = t
timeout_routine t (ticked new ∷ events) = timeout_routine (tick t new) events
timeout_routine t (expired ∷ events) = timeout_routine (expire t) events
