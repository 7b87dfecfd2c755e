-- ===== src/Mobile/Sync.antt =====
-- The effect of apps/mobile/src/hooks/use-family-sync.ts: its socket, its two timers and the delay
-- of the next reconnection. The messages of the socket and the queries that they invalidate do not
-- change this state.
pub mod Live
mod Tests
use you_tube_gradian_devin.Common.{ℕ, ◌*◌, Bool, true, false, List, [], ◌∷◌, if◌then◌else◌}
use Prim.Native.Nat.{min}

-- `connect` is running; its socket stands and is not open yet; the socket is open; neither.
pub data Link : Type 0 where
  connecting pending opened down : Link

pub record Sync : Type 0 where
  pub cancelled : Bool
  -- `pollTimer !== null`
  pub polling : Bool
  -- A reconnection is scheduled.
  pub reconnecting : Bool
  pub reconnect_delay : ℕ
  pub link : Link

-- `INITIAL_RECONNECT_DELAY_MS` and `MAX_RECONNECT_DELAY_MS`
abbrev pub initial_reconnect_delay : ℕ
initial_reconnect_delay = 1000

abbrev pub max_reconnect_delay : ℕ
max_reconnect_delay = 30000

abbrev pub initial : Sync
initial = record {
  cancelled = false;
  polling = false;
  reconnecting = false;
  reconnect_delay = initial_reconnect_delay;
  link = Link.connecting;
}

-- `scheduleReconnect`
unfoldable pub schedule_reconnect : Sync → Sync
schedule_reconnect s =
    if s.cancelled then s else if s.reconnecting then record s { polling = true } else record s {
      polling = true;
      reconnecting = true;
      reconnect_delay = min (s.reconnect_delay * 2) max_reconnect_delay;
    }

pub data Event : Type 0 where
  -- `connect` throws, or finds no token or the effect cancelled
  no_connection : Event
  -- `connect` has made its socket
  socket_made : Event
  -- `onopen` and `onclose`; `onerror` closes the socket
  open_event close_event : Event
  -- the timer of the reconnection
  timer_event : Event
  -- the clean-up of the effect
  clean_up : Event

abbrev lose : Link → Sync → Sync
lose Link.connecting s = s
lose Link.pending s = schedule_reconnect (record s { link = Link.down })
lose Link.opened s = schedule_reconnect (record s { link = Link.down })
lose Link.down s = s

abbrev fail : Link → Sync → Sync
fail Link.connecting s = schedule_reconnect (record s { link = Link.down })
fail Link.pending s = s
fail Link.opened s = s
fail Link.down s = s

abbrev make : Link → Sync → Sync
make Link.connecting s = if s.cancelled then s else record s { link = Link.pending }
make Link.pending s = s
make Link.opened s = s
make Link.down s = s

abbrev establish : Link → Sync → Sync
establish Link.pending s = record s {
  reconnect_delay = initial_reconnect_delay;
  polling = false;
  link = Link.opened;
}
establish Link.connecting s = s
establish Link.opened s = s
establish Link.down s = s

-- An event that cannot happen in a state leaves it as it is.
unfoldable pub step : Event → Sync → Sync
step no_connection s = fail s.link s
step socket_made s = make s.link s
step open_event s = establish s.link s
step close_event s = lose s.link s
step timer_event s =
    if s.reconnecting then record s { reconnecting = false; link = Link.connecting } else s
step clean_up s = record s { cancelled = true; polling = false; reconnecting = false }

unfoldable pub run : List Event → Sync → Sync
run [] s = s
run (event ∷ events) s = run events (step event s)
