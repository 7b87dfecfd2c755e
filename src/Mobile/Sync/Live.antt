-- ===== src/Mobile/Sync/Live.antt =====
-- The live connection is never stuck.
use you_tube_gradian_devin.Common.{
  ℕ, ◌≤◌, Bool, true, false, List, [], ◌∷◌, ◌≡◌, ◌⊎◌, inl, inr, refl, arith,
}
use you_tube_gradian_devin.Mobile.Sync.{
  Link, Sync, Event, no_connection, socket_made, open_event, close_event, timer_event, clean_up,
  schedule_reconnect, step, run, initial,
}

-- The timers that run: none once the effect is cancelled or the socket is open; polling and a
-- reconnection while there is no connection; and while a connection is made no reconnection, but
-- polling, unless the delay is the initial one, as it is before the first loss.
abbrev pub IsTimed :
    (cancelled : Bool) → Link → (polling reconnecting : Bool) → (delay : ℕ) → Type 0
IsTimed true link polling reconnecting delay = (polling ≡ false) × (reconnecting ≡ false)
IsTimed false Link.connecting polling reconnecting delay =
    (reconnecting ≡ false) × ((polling ≡ true) ⊎ (delay ≡ 1000))
IsTimed false Link.pending polling reconnecting delay =
    (reconnecting ≡ false) × ((polling ≡ true) ⊎ (delay ≡ 1000))
IsTimed false Link.opened polling reconnecting delay = (polling ≡ false) × (reconnecting ≡ false)
IsTimed false Link.down polling reconnecting delay = (polling ≡ true) × (reconnecting ≡ true)

pub record IsLive (s : Sync) : Type 0 where
  pub timers : IsTimed s.cancelled s.link s.polling s.reconnecting s.reconnect_delay
  pub least : 1000 ≤ s.reconnect_delay
  pub most : s.reconnect_delay ≤ 30000

module _ (d : ℕ) (least : 1000 ≤ d) (most : d ≤ 30000) where
  -- A connection that is lost.
  lost-IsLive :
      (c p r : Bool) (l : Link)
      → r ≡ false
      → (c ≡ true → p ≡ false)
      → IsLive (
          schedule_reconnect (record {
            cancelled = c;
            polling = p;
            reconnecting = r;
            reconnect_delay = d;
            link = Link.down;
          }))
  unfolding schedule_reconnect
  lost-IsLive true p r l e h = record { timers = (h refl, e); least = least; most = most }
  lost-IsLive false p true l e h = record { timers = (refl, refl); least = least; most = most }
  lost-IsLive false p false l e h = record {
    timers = (refl, refl);
    least = ground arith;
    most = ground arith;
  }

  -- A reconnection is scheduled only while there is no connection, and then the queries are polled.
  reconnecting-IsPolled : (l : Link) (p : Bool) → IsTimed false l p true d → (p ≡ true) ⊎ (d ≡ 1000)
  reconnecting-IsPolled Link.connecting p h = h.1
  reconnecting-IsPolled Link.pending p h = h.1
  reconnecting-IsPolled Link.opened p h = let e : true ≡ false = h.1 in cc
  reconnecting-IsPolled Link.down p h = inl (h.0)

  step-IsLive :
      (event : Event) (c p r : Bool) (l : Link)
      → IsTimed c l p r d
      → IsLive (
          step event (record {
            cancelled = c;
            polling = p;
            reconnecting = r;
            reconnect_delay = d;
            link = l;
          }))
  unfolding step
  step-IsLive no_connection true p r Link.connecting h =
      lost-IsLive true p r Link.connecting (h.1) (λ e. h.0)
  step-IsLive no_connection false p r Link.connecting h =
      lost-IsLive false p r Link.connecting (h.0) (λ e. cc)
  step-IsLive no_connection c p r Link.pending h = record { timers = h; least = least; most = most }
  step-IsLive no_connection c p r Link.opened h = record { timers = h; least = least; most = most }
  step-IsLive no_connection c p r Link.down h = record { timers = h; least = least; most = most }
  step-IsLive socket_made true p r Link.connecting h = record {
    timers = h;
    least = least;
    most = most;
  }
  step-IsLive socket_made false p r Link.connecting h = record {
    timers = h;
    least = least;
    most = most;
  }
  step-IsLive socket_made c p r Link.pending h = record { timers = h; least = least; most = most }
  step-IsLive socket_made c p r Link.opened h = record { timers = h; least = least; most = most }
  step-IsLive socket_made c p r Link.down h = record { timers = h; least = least; most = most }
  step-IsLive open_event true p r Link.pending h = record {
    timers = (refl, h.1);
    least = omega arith;
    most = omega arith;
  }
  step-IsLive open_event false p r Link.pending h = record {
    timers = (refl, h.0);
    least = omega arith;
    most = omega arith;
  }
  step-IsLive open_event c p r Link.connecting h = record { timers = h; least = least; most = most }
  step-IsLive open_event c p r Link.opened h = record { timers = h; least = least; most = most }
  step-IsLive open_event c p r Link.down h = record { timers = h; least = least; most = most }
  step-IsLive close_event true p r Link.pending h =
      lost-IsLive true p r Link.pending (h.1) (λ e. h.0)
  step-IsLive close_event false p r Link.pending h =
      lost-IsLive false p r Link.pending (h.0) (λ e. cc)
  step-IsLive close_event true p r Link.opened h = lost-IsLive true p r Link.opened (h.1) (λ e. h.0)
  step-IsLive close_event false p r Link.opened h =
      lost-IsLive false p r Link.opened (h.1) (λ e. cc)
  step-IsLive close_event c p r Link.connecting h = record {
    timers = h;
    least = least;
    most = most;
  }
  step-IsLive close_event c p r Link.down h = record { timers = h; least = least; most = most }
  step-IsLive timer_event true p true l h = let e : true ≡ false = h.1 in cc
  step-IsLive timer_event false p true l h = record {
    timers = (refl, reconnecting-IsPolled l p h);
    least = least;
    most = most;
  }
  step-IsLive timer_event c p false l h = record { timers = h; least = least; most = most }
  step-IsLive clean_up c p r l h = record { timers = (refl, refl); least = least; most = most }

run_from-IsLive : (events : List Event) (s : Sync) → IsLive s → IsLive (run events s)
unfolding run
run_from-IsLive [] s live = live
run_from-IsLive (event ∷ events) s live = run_from-IsLive events (step event s) (
    step-IsLive s.reconnect_delay live.least live.most event s.cancelled s.polling s.reconnecting
      s.link live.timers)

-- After any sequence of events the connection is not stuck and nothing is left over. Unless the effect
-- is cancelled: while there is no connection and none is being made, a reconnection is scheduled and
-- the queries are polled; while one is being made the queries are polled as well, unless the delay is
-- still the initial one of one second, as it is before a first loss. No timer runs while the socket is
-- open or once the effect is cancelled, and the delay of the next reconnection stays between one and
-- thirty seconds.
pub run-IsLive : (events : List Event) → IsLive (run events initial)
run-IsLive events =
    run_from-IsLive events initial
      (record { timers = (refl, inr refl); least = omega arith; most = omega arith })
