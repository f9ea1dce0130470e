-- ===== src/Ticker/Examples.antt =====
-- A run of the ticker: a timeout is replaced by a later one, and an old one is ignored.
use bft.Base.{List, [], ◌∷◌, refl}
use bft.Base.Int.{pos}
use bft.Ticker.{TickerEvent, ticked, expired, timeout_routine, new_timeout_ticker}
use bft.Ticker.Order.{IsDescending, timeout_routine-IsDescending}

abbrev events : List TickerEvent
events =
    ticked (record { duration = pos 9; height = pos 1; round = pos 0; step = 3 })
    ∷ ticked (record { duration = pos 5; height = pos 1; round = pos 1; step = 3 })
    ∷ expired
    ∷ ticked (record { duration = pos 5; height = pos 1; round = pos 0; step = 7 })
    ∷ ticked (record { duration = pos 5; height = pos 1; round = pos 1; step = 5 })
    ∷ expired
    ∷ []

timeout_routine-IsDescending_example : IsDescending (timeout_routine new_timeout_ticker events).sent
timeout_routine-IsDescending_example =
    timeout_routine-IsDescending events (refl, (refl, (refl, (refl, _))))
