-- ===== src/Hosts/Examples.antt =====
-- The theorems on hosts at work: a queue, a status, and a tick of the monitor.
use smart_classroom.Prelude.{◌≡◌, ◌↔◌, true, refl, [], ◌∷◌, false, arith, map, update_where}
use mathlib.Core.List.{Sublist}
use smart_classroom.Domain.Settings.{default_settings}
use smart_classroom.Domain.Rows.{Host, offline, idle, in_use}
use smart_classroom.Samples.{at, classroom}
use smart_classroom.Hosts.Events.{
  Event, HostEventBroker, new_broker, subscribe, publish, close, enqueue,
}
use smart_classroom.Hosts.Queues.{publish_all, latest, publish_all-keep_last}
use smart_classroom.Hosts.Stream.{queue_in, put_back, get, turn}
use smart_classroom.Hosts.Stream.Order.{
  Watch, publishes, closes, reads, joins, begun, followed, Run, opened, Run-sent,
}
use smart_classroom.Hosts.Status.{World, set_status}
use smart_classroom.Hosts.Monitor.{is_stale, run_one_tick}
use smart_classroom.Hosts.Ticks.{cutoff_of, IsSilent, run_one_tick-hosts}

abbrev news : Event
news = record {
  host_id = 1;
  hostname = "lab-1";
  old = idle;
  new = in_use;
  reason = "heartbeat";
  ts = at 20;
}

abbrev listening : HostEventBroker
listening = record new_broker {
  subscribers = record { key = 0; queue = news ∷ [] } ∷ [];
  next_key = 1;
}

publish_all-keep_last_example :
    (publish_all (news ∷ news ∷ []) listening).subscribers
    ≡ map (latest (news ∷ news ∷ [])) listening.subscribers
publish_all-keep_last_example =
    publish_all-keep_last (news ∷ news ∷ []) listening refl (omega arith, tt)

-- At noon the agent of the host has been silent since half past nine.
abbrev morning : World
morning = record { db = classroom; events = listening }

run_one_tick-hosts_example :
    ((run_one_tick default_settings (at 24) morning).1.db.hosts
      ≡ update_where
          (is_stale (cutoff_of default_settings (at 24) morning))
          (set_status offline)
          classroom.hosts)
    × ((h : Host)
        → (is_stale (cutoff_of default_settings (at 24) morning) h ≡ true)
          ↔ IsSilent (cutoff_of default_settings (at 24) morning) h)
run_one_tick-hosts_example = run_one_tick-hosts default_settings (at 24) morning (tt, tt)

-- A stream hears of the news after the broker was closed, and then another one joins.
abbrev heard : Watch
heard = record {
  broker = record new_broker {
    subscribers = record { key = 1; queue = [] } ∷ [];
    detached = record { key = 0; queue = [] } ∷ [];
    closed = true;
    next_key = 2;
  };
  published = news ∷ [];
  sent = news ∷ [];
}

heard-Run : Run 0 (opened new_broker) heard
unfolding subscribe publish close enqueue queue_in put_back get turn
heard-Run =
    followed (followed (followed (followed begun (publishes news)) closes) (reads false news refl))
      joins

Run-sent_example : Sublist heard.sent heard.published
Run-sent_example = Run-sent new_broker heard refl heard-Run
