-- ===== src/Ticker/Order.antt =====
-- The timeouts go out in the strict order of height, round and step.
use bft.Base.{
  ◌≡◌, refl, ◌⊎◌, inl, inr, Bool, true, false, ◌&&◌, ◌||◌, not, List, [], ◌∷◌, arith, ltb,
  Bool-cases, subst, sym,
}
use bft.Base.Int.{ℤ, eqb_ℤ, ltb_ℤ}
use bft.Ticker.{
  TimeoutInfo, TimeoutTicker, new_timeout_ticker, tick, expire, TickerEvent, ticked, expired,
  timeout_routine,
}

abbrev pub before : TimeoutInfo → TimeoutInfo → Bool
before a b =
    ltb_ℤ a.height b.height
    || (eqb_ℤ a.height b.height
        && (ltb_ℤ a.round b.round || (eqb_ℤ a.round b.round && ltb a.step b.step)))

-- All are before the given one.
abbrev pub AllBefore : TimeoutInfo → List TimeoutInfo → Type 0
AllBefore t [] = Unit {0}
AllBefore t (y ∷ ys) = (before y t ≡ true) × AllBefore t ys

-- None is after the given one.
abbrev NoneAfter : TimeoutInfo → List TimeoutInfo → Type 0
NoneAfter t [] = Unit {0}
NoneAfter t (y ∷ ys) = (before t y ≡ false) × NoneAfter t ys

-- Each is later than those that were sent earlier.
abbrev pub IsDescending : List TimeoutInfo → Type 0
IsDescending [] = Unit {0}
IsDescending (y ∷ ys) = AllBefore y ys × IsDescending ys

-- Every timeout that is scheduled has a step above 0.
abbrev pub HasSteps : List TickerEvent → Type 0
HasSteps [] = Unit {0}
HasSteps (ticked t ∷ events) = (ltb 0 t.step ≡ true) × HasSteps events
HasSteps (expired ∷ events) = HasSteps events

record IsOrderly (t : TimeoutTicker) : Type 0 where
  pub descending : IsDescending t.sent
  pub none_after : NoneAfter t.ti t.sent
  pub fresh : t.armed ≡ true → AllBefore t.ti t.sent
  pub started : (t.sent ≡ []) ⊎ (ltb 0 t.ti.step ≡ true)
  pub armed_step : t.armed ≡ true → ltb 0 t.ti.step ≡ true

-- One place of the lexicographic order.
lex :
    (x y z : ℤ) (p q r : Bool)
    → (ltb_ℤ x y || (eqb_ℤ x y && p)) ≡ false
    → (ltb_ℤ x z || (eqb_ℤ x z && q)) ≡ true
    → (p ≡ false → q ≡ true → r ≡ true)
    → (ltb_ℤ y z || (eqb_ℤ y z && r)) ≡ true
lex x y z true q r h k f = ground (arith, h, k)
lex x y z false false r h k f = ground (arith, h, k)
lex x y z false true r h k f = let rest = f refl refl in ground (arith, h, k, rest)

before_lem : (a y b : TimeoutInfo) → before a y ≡ false → before a b ≡ true → before y b ≡ true
before_lem a y b h k =
    lex a.height y.height b.height _ _ _ h k
      (λ h' k'. lex a.round y.round b.round _ _ _ h' k' (λ h'' k''. ground (arith, h'', k'')))

lex_asym :
    (x y : ℤ) (p q : Bool)
    → (ltb_ℤ y x || (eqb_ℤ y x && p)) ≡ true
    → (p ≡ true → q ≡ false)
    → (ltb_ℤ x y || (eqb_ℤ x y && q)) ≡ false
lex_asym x y false q h f = ground (arith, h)
lex_asym x y true q h f = let rest = f refl in ground (arith, h, rest)

before_asym : (y a : TimeoutInfo) → before y a ≡ true → before a y ≡ false
before_asym y a h =
    lex_asym a.height y.height _ _ h
      (λ h'. lex_asym a.round y.round _ _ h' (λ h''. ground (arith, h'')))

AllBefore-later :
    (a b : TimeoutInfo) (ys : List TimeoutInfo)
    → NoneAfter a ys
    → before a b ≡ true
    → AllBefore b ys
AllBefore-later a b [] h lt = _
AllBefore-later a b (y ∷ ys) (h, hs) lt = (before_lem a y b h lt, AllBefore-later a b ys hs lt)

NoneAfter-before : (a : TimeoutInfo) (ys : List TimeoutInfo) → AllBefore a ys → NoneAfter a ys
NoneAfter-before a [] h = _
NoneAfter-before a (y ∷ ys) (h, hs) = (before_asym y a h, NoneAfter-before a ys hs)

-- A timeout that is taken is later, once one with a step has been.
accepted :
    (t : TimeoutTicker) (new : TimeoutInfo)
    → (tick t new ≡ t)
      ⊎ ((tick t new ≡ record t { ti = new; armed = true })
          × (ltb 0 t.ti.step ≡ true → before t.ti new ≡ true))
unfolding tick
accepted t new = elim (Bool-cases (ltb_ℤ new.height t.ti.height)) [
  | inl low ↦ inl (rw (low, tick) refl)
  | inr high ↦ elim (Bool-cases (eqb_ℤ new.height t.ti.height && ltb_ℤ new.round t.ti.round)) [
    | inl low' ↦ inl (rw (high, tick) (rw (low', tick) refl))
    | inr high' ↦
        elim (Bool-cases (
          eqb_ℤ new.height t.ti.height
          && (eqb_ℤ new.round t.ti.round && (ltb 0 t.ti.step && not (ltb t.ti.step new.step))))) [
            | inl low'' ↦ inl (rw (high, tick) (rw (high', tick) (rw (low'', tick) refl)))
            | inr high'' ↦ inr (
              rw (high, tick) (rw (high', tick) (rw (high'', tick) refl)),
              λ s. ground (arith, high, high', high'', s),
            )
          ]
  ]
]

tick-IsOrderly :
    (t : TimeoutTicker) (new : TimeoutInfo)
    → ltb 0 new.step ≡ true
    → IsOrderly t
    → IsOrderly (tick t new)
tick-IsOrderly t new s o = elim (accepted t new) [
  | inl same ↦ subst IsOrderly (sym same) o
  | inr (taken, later) ↦
      let after : AllBefore new t.sent = elim o.started [
        | inl none' ↦ subst (AllBefore new) (sym none') _
        | inr stepped ↦ AllBefore-later t.ti new t.sent o.none_after (later stepped)
      ] in
      subst IsOrderly (sym taken) (record {
        descending = o.descending;
        none_after = NoneAfter-before new t.sent after;
        fresh = λ _. after;
        started = inr s;
        armed_step = λ _. s;
      })
]

before_irrefl : (a : TimeoutInfo) → before a a ≡ false
before_irrefl a = elim (Bool-cases (before a a)) [ inr no' ↦ no' | inl both ↦ before_asym a a both ]

expire-IsOrderly : (t : TimeoutTicker) → IsOrderly t → IsOrderly (expire t)
unfolding expire
expire-IsOrderly t o = elim (Bool-cases t.armed) [
  | inr quiet ↦ let same : expire t ≡ t = ground (arith, quiet) in subst IsOrderly (sym same) o
  | inl armed ↦ rw (armed) (record {
    descending = (o.fresh armed, o.descending);
    none_after = (before_irrefl t.ti, o.none_after);
    fresh = λ e. absurd (cc e);
    started = inr (o.armed_step armed);
    armed_step = λ e. absurd (cc e);
  })
]

run-IsOrderly :
    (t : TimeoutTicker) (events : List TickerEvent)
    → HasSteps events
    → IsOrderly t
    → IsOrderly (timeout_routine t events)
unfolding timeout_routine
run-IsOrderly t [] h o = o
run-IsOrderly t (ticked new ∷ events) (s, h) o =
    run-IsOrderly (tick t new) events h (tick-IsOrderly t new s o)
run-IsOrderly t (expired ∷ events) h o = run-IsOrderly (expire t) events h (expire-IsOrderly t o)

-- Over every sequence of scheduled timeouts, whose steps are above 0, and expiries of the timer,
-- each timeout that the routine issues for sending is later in height, round and step than all
-- that it issued before.
pub timeout_routine-IsDescending :
    (events : List TickerEvent)
    → HasSteps events
    → IsDescending (timeout_routine new_timeout_ticker events).sent
timeout_routine-IsDescending events h =
    (run-IsOrderly new_timeout_ticker events h (record {
      descending = _;
      none_after = _;
      fresh = λ e. absurd (cc e);
      started = inl refl;
      armed_step = λ e. absurd (cc e);
    })).descending
