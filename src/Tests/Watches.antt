-- ===== src/Tests/Watches.antt =====
-- Watchers and leased keys at concrete values.
use replicated_state_machine.Prelude.{ℕ, pos, ◌≡◌, refl, true, false, [], ◌∷◌}
use replicated_state_machine.Errors.{ok}
use replicated_state_machine.Machine.{integer, nothing}
use replicated_state_machine.Watch.{
  Event, Watcher, new_watcher, Feed, no_feed, deliver, wants, add, since,
}
use replicated_state_machine.Watch.Resume.{receive, resume_misses_nothing}
use replicated_state_machine.Expire.{Lease, new_store, grant, tick, expired, expires_at}
use replicated_state_machine.Expire.Replicas.{
  granted, revoked, clock, act, act_all, log_replicas_agree,
}

abbrev event : ℕ → ℕ → Event
event index key = record { index = index; key = key; value = integer (pos index) }

abbrev feed : Feed
feed = record {
  watchers = [];
  events = event 1 7 ∷ event 2 8 ∷ event 3 7 ∷ event 4 7 ∷ [];
  delivered = 0;
}

-- a watcher of key 7 that was there for two events, at 1, and takes the last two when it is back
resumed : (receive (new_watcher 5 7) feed.events).seen ≡ event 1 7 ∷ event 3 7 ∷ event 4 7 ∷ []
unfolding receive deliver wants
resumed = refl

resume_misses_nothing_example :
    receive
      (receive (new_watcher 5 7) (event 1 7 ∷ event 2 8 ∷ []))
      (since feed (receive (new_watcher 5 7) (event 1 7 ∷ event 2 8 ∷ [])).at)
    ≡ receive (new_watcher 5 7) feed.events
resume_misses_nothing_example =
    resume_misses_nothing (new_watcher 5 7) feed (event 1 7 ∷ event 2 8 ∷ [])
      (event 3 7 ∷ event 4 7 ∷ []) refl

abbrev watched : Feed
watched = record { watchers = new_watcher 5 7 ∷ []; events = []; delivered = 0 }

watches : add no_feed (new_watcher 5 7) ≡ ok watched
unfolding add
watches = refl

-- the watcher after an event of its key
abbrev caught : Watcher
caught = record { name = 5; key = 7; seen = event 3 7 ∷ []; at = 3; connected = true; missed = 0 }

catches : caught ≡ (deliver (new_watcher 5 7) (event 3 7)).0
unfolding deliver wants
catches = refl

abbrev short : Lease
short = record { key = 1; value = nothing; granted_at = 0; length = 2 }

-- One replica looks at its clock between the entries, the other does not.
log_replicas_agree_example :
    (act_all (new_store 1 false) (granted short ∷ clock 9 ∷ revoked 2 ∷ clock 11 ∷ [])).leases
    ≡ (act_all (new_store 2 false) (granted short ∷ revoked 2 ∷ [])).leases
log_replicas_agree_example =
    log_replicas_agree (new_store 1 false) (new_store 2 false)
      (granted short ∷ clock 9 ∷ revoked 2 ∷ clock 11 ∷ []) (granted short ∷ revoked 2 ∷ []) refl
      refl refl refl

-- The clock version drops the lease at once.
by_clock : (act_all (new_store 1 true) (granted short ∷ clock 9 ∷ [])).leases ≡ []
unfolding act_all act grant tick expired expires_at
by_clock = refl
