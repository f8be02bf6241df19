-- ===== src/Boot/Lifespan.antt =====
-- `lifespan` of broker/app/main.py: what the broker sets up before it serves, and what it takes down
-- after. Serving is an argument, and so is what `asyncio.wait_for` reports of the monitor's task.
use smart_classroom.Prelude.{
  ◌≡◌, ◌≢◌, ◌⊎◌, refl, inl, inr, Bool, true, false, [], none, some, arith,
}
use smart_classroom.Domain.Settings.{Settings}
use smart_classroom.Hosts.Events.{HostEventBroker, new_broker, close}
use smart_classroom.Api.Auth.{BootFault, enforce_production_guards}
use smart_classroom.Boot.Engine.{Pool, dispose_engine}

-- `app.state`, and the pool of broker/app/infra/db.py.
pub record State : Type 0 where
  pub host_event_broker : HostEventBroker
  pub monitor_stop : Bool
  pub monitor_cancelled : Bool
  pub pool : Pool

-- How `await asyncio.wait_for(monitor_task, timeout=5.0)` ends: with the task's return, with one of
-- the two exceptions that are caught, or with an exception of the task's own.
pub data Waited : Type 0 where
  finished timed_out cancelled failed : Waited

-- Whether the application was shut down in order, or an exception went through the `yield`.
pub data Served : Type 0 where
  in_order with_exception : Served

pub data Ending : Type 0 where
  -- `_enforce_production_guards` raised.
  refused : BootFault → Ending
  -- The `finally` ran to its end.
  ended : Served → State → Ending
  -- The exception of the monitor's task left the `finally`.
  broken_off : State → Ending

unfoldable pub startup : Pool → State
startup pool = record {
  host_event_broker = new_broker;
  monitor_stop = false;
  monitor_cancelled = false;
  pool = pool;
}

-- The last two statements of the `finally`.
unfoldable pub take_down : State → State
take_down s = record s {
  host_event_broker = close s.host_event_broker;
  pool = dispose_engine s.pool;
}

unfoldable pub shutdown : Served → Waited → State → Ending
shutdown served finished s = ended served (take_down (record s { monitor_stop = true }))
shutdown served timed_out s =
    ended served (take_down (record s { monitor_stop = true; monitor_cancelled = true }))
shutdown served cancelled s =
    ended served (take_down (record s { monitor_stop = true; monitor_cancelled = true }))
shutdown served failed s = broken_off (record s { monitor_stop = true })

unfoldable pub lifespan : Settings → (State → Served × State) → Waited → Pool → Ending
lifespan settings serve waited pool = elim (enforce_production_guards settings) [
  | some fault ↦ refused fault
  | none ↦ let (served, s) = serve (startup pool) in shutdown served waited s
]

-- What is left of a broker that has ended: the monitor was told to stop, and has returned or was
-- cancelled; no subscriber is left and none gets another event; the engine is gone.
pub record IsDown (waited : Waited) (s : State) : Type 0 where
  pub stopped : s.monitor_stop ≡ true
  pub monitor_gone : (waited ≡ finished) ⊎ (s.monitor_cancelled ≡ true)
  pub closed : s.host_event_broker.closed ≡ true
  pub no_subscriber : s.host_event_broker.subscribers ≡ []
  pub no_engine : s.pool.engine ≡ none

dispose-gone : (p : Pool) → (dispose_engine p).engine ≡ none
unfolding dispose_engine
dispose-gone p = ground arith

take_down-IsDown :
    (waited : Waited) (s : State)
    → s.monitor_stop ≡ true
    → (waited ≡ finished) ⊎ (s.monitor_cancelled ≡ true)
    → IsDown waited (take_down s)
unfolding take_down close
take_down-IsDown w s stop gone = record {
  stopped = stop;
  monitor_gone = gone;
  closed = refl;
  no_subscriber = refl;
  no_engine = dispose-gone s.pool;
}

shutdown-IsDown :
    (served : Served) (waited : Waited) (s : State)
    → waited ≢ failed
    → (s' : State) × (shutdown served waited s ≡ ended served s') × IsDown waited s'
unfolding shutdown
shutdown-IsDown served finished s n = (_, refl, take_down-IsDown finished _ refl (inl refl))
shutdown-IsDown served timed_out s n = (_, refl, take_down-IsDown timed_out _ refl (inr refl))
shutdown-IsDown served cancelled s n = (_, refl, take_down-IsDown cancelled _ refl (inr refl))
shutdown-IsDown served failed s n = absurd (n refl)

-- A broker whose guards pass and whose monitor does not end by an exception of its own is down when
-- its lifespan ends, whatever it served and whether it was shut down in order or by an exception.
pub lifespan-IsDown :
    (settings : Settings) (serve : State → Served × State) (waited : Waited) (pool : Pool)
    → enforce_production_guards settings ≡ none
    → waited ≢ failed
    → (s : State) × (lifespan settings serve waited pool ≡ ended (serve (startup pool)).0 s)
      × IsDown waited s
unfolding lifespan
lifespan-IsDown settings serve waited pool g n =
    let (s, e, d) = shutdown-IsDown (serve (startup pool)).0 waited (serve (startup pool)).1 n in
    (s, rw (g, lifespan) e, d)
