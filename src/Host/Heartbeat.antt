-- ===== src/Host/Heartbeat.antt =====
-- runtime/account/lease_heartbeat.py: the renewal loop of one lease.
use tdaudiibncba.Common.{
  ℕ, ◌+◌, ◌≡◌, refl, ◌∙◌, ap, String, Bool, true, false, List, [], ◌∷◌, ◌++◌, arith, length,
  length-append,
}

pub data HeartbeatState : Type 0 where
  idle running lost stopped : HeartbeatState

-- The text that `on_lost` is given: "lease_lost", or "renew_error:" and the exception's type.
pub data LostReason : Type 0 where
  lease_lost : LostReason
  renew_error : String → LostReason

-- `on_lost` is recorded by the reasons that it was called with.
pub record Heartbeat : Type 0 where
  pub state : HeartbeatState
  pub renew_count : ℕ
  pub lost_reasons : List LostReason

abbrev pub new_heartbeat : Heartbeat
new_heartbeat = record { state = HeartbeatState.idle; renew_count = 0; lost_reasons = [] }

-- What `renew` did: it answered, or raised an exception of the named type.
pub data Renewal : Type 0 where
  answered : Bool → Renewal
  failed : String → Renewal

abbrev pub lose : LostReason → Heartbeat → Bool × Heartbeat
lose reason hb = (
  false,
  record hb { state = HeartbeatState.lost; lost_reasons = hb.lost_reasons ++ reason ∷ [] },
)

unfoldable pub tick : Renewal → Heartbeat → Bool × Heartbeat
tick (answered true) hb = (true, record hb { renew_count = hb.renew_count + 1 })
tick (answered false) hb = lose lease_lost hb
tick (failed name) hb = lose (renew_error name) hb

abbrev pub stop_in : HeartbeatState → Heartbeat → Heartbeat
stop_in HeartbeatState.running hb = record hb { state = HeartbeatState.stopped }
stop_in _ hb = hb

unfoldable pub stop : Heartbeat → Heartbeat
stop hb = stop_in hb.state hb

-- One pass of the loop: the answer of `renew`, and whether `stop` is called while it is awaited and
-- while the loop sleeps.
pub record Beat : Type 0 where
  pub stops_first : Bool
  pub renewal : Renewal
  pub stops_after : Bool

abbrev pub stop_if : Bool → Heartbeat → Heartbeat
stop_if true hb = stop hb
stop_if false hb = hb

abbrev pub go_on : HeartbeatState → Heartbeat → Heartbeat → Heartbeat
go_on HeartbeatState.running hb rest = rest
go_on _ hb rest = hb

abbrev pub after_tick : Bool × Heartbeat → Heartbeat → Heartbeat
after_tick (false, hb) rest = hb
after_tick (true, hb) rest = rest

-- The loop over its passes so far; a list that is used up is a loop that still runs.
unfoldable pub beats : List Beat → Heartbeat → Heartbeat
beats [] hb = hb
beats (b ∷ bs) hb =
    let r = tick b.renewal (stop_if b.stops_first hb) in
    let rest = beats bs (stop_if b.stops_after r.1) in go_on hb.state hb (after_tick r rest)

unfoldable pub run : List Beat → Heartbeat → Heartbeat
run bs hb = beats bs (record hb { state = HeartbeatState.running })

-- What is known along the loop: the callback has been called exactly once if the lease is lost, and
-- never before.
abbrev pub calls_in : HeartbeatState → ℕ
calls_in HeartbeatState.lost = 1
calls_in _ = 0

IsCounted : Heartbeat → Type 0
IsCounted hb = length hb.lost_reasons ≡ calls_in hb.state

stop-IsCounted : (hb : Heartbeat) → IsCounted hb → IsCounted (stop hb)
unfolding stop IsCounted
stop-IsCounted hb h = stopped hb.state hb refl h
  where
    stopped :
        (s : HeartbeatState) (hb : Heartbeat)
        → hb.state ≡ s
        → IsCounted hb
        → IsCounted (stop_in s hb)
    stopped HeartbeatState.running hb e h = h ∙ ap calls_in e
    stopped HeartbeatState.idle hb e h = h
    stopped HeartbeatState.lost hb e h = h
    stopped HeartbeatState.stopped hb e h = h

stop_if-IsCounted : (b : Bool) (hb : Heartbeat) → IsCounted hb → IsCounted (stop_if b hb)
stop_if-IsCounted true hb h = stop-IsCounted hb h
stop_if-IsCounted false hb h = h

-- The state while the loop is in its pass.
IsOn : HeartbeatState → Type 0
IsOn s = calls_in s ≡ 0

stop-IsOn :
    (s : HeartbeatState) (hb : Heartbeat) → hb.state ≡ s → IsOn s → IsOn (stop_in s hb).state
unfolding IsOn
stop-IsOn HeartbeatState.running hb e h = refl
stop-IsOn HeartbeatState.idle hb e h = ap calls_in e
stop-IsOn HeartbeatState.lost hb e h = ap calls_in e ∙ h
stop-IsOn HeartbeatState.stopped hb e h = ap calls_in e

stop_if-IsOn : (b : Bool) (hb : Heartbeat) → IsOn hb.state → IsOn (stop_if b hb).state
unfolding stop
stop_if-IsOn true hb h = stop-IsOn hb.state hb refl h
stop_if-IsOn false hb h = h

tick-IsCounted :
    (r : Renewal) (hb : Heartbeat) → IsOn hb.state → IsCounted hb → IsCounted (tick r hb).1
unfolding tick IsCounted IsOn
tick-IsCounted (answered true) hb on h = h
tick-IsCounted (answered false) hb on h =
    omega (arith, length-append hb.lost_reasons (lease_lost ∷ []), h, on)
tick-IsCounted (failed name) hb on h =
    omega (arith, length-append hb.lost_reasons (renew_error name ∷ []), h, on)

go_on-IsCounted :
    (s : HeartbeatState) (hb rest : Heartbeat)
    → IsCounted hb
    → (IsOn s → IsCounted rest)
    → IsCounted (go_on s hb rest)
unfolding IsOn
go_on-IsCounted HeartbeatState.running hb rest h f = f refl
go_on-IsCounted HeartbeatState.idle hb rest h f = h
go_on-IsCounted HeartbeatState.lost hb rest h f = h
go_on-IsCounted HeartbeatState.stopped hb rest h f = h

after_tick-IsCounted :
    (r : Bool × Heartbeat) (rest : Heartbeat)
    → IsCounted r.1
    → IsCounted rest
    → IsCounted (after_tick r rest)
after_tick-IsCounted (true, hb) rest h f = f
after_tick-IsCounted (false, hb) rest h f = h

beats-IsCounted : (bs : List Beat) (hb : Heartbeat) → IsCounted hb → IsCounted (beats bs hb)
unfolding beats
beats-IsCounted [] hb h = h
beats-IsCounted (b ∷ bs) hb h =
    let hb' = stop_if b.stops_first hb in
    let r = tick b.renewal hb' in
    let rest = beats bs (stop_if b.stops_after r.1) in
    go_on-IsCounted hb.state hb (after_tick r rest) h λ on.
      let ticked =
        tick-IsCounted b.renewal hb' (stop_if-IsOn b.stops_first hb on)
          (stop_if-IsCounted b.stops_first hb h) in
      after_tick-IsCounted r rest ticked (
        beats-IsCounted bs (stop_if b.stops_after r.1) (stop_if-IsCounted b.stops_after r.1 ticked))

-- Through all the passes of a new heartbeat, with `stop` called at any moments, the callback for a
-- lost lease has been called exactly once if the state is `lost`, and not at all otherwise.
pub run_reports_once :
    (bs : List Beat)
    → length (run bs new_heartbeat).lost_reasons ≡ calls_in (run bs new_heartbeat).state
unfolding run IsCounted
run_reports_once bs =
    beats-IsCounted bs (record new_heartbeat { state = HeartbeatState.running }) refl
