-- ===== src/ObsQueue/Tests.antt =====
-- Runs of src/agent/src/obs_queue.c on concrete events.
use packetsonde.Prelude.{◌≡◌, refl, some, List, [], ◌∷◌, replicate, ascii}
use packetsonde.ObsQueue.{ObsQueue, queue_cap, init}
use packetsonde.ObsQueue.Events.{Published, queue_events, queue_events-keep}
use packetsonde.ObsQueue.Refine.{IsValid, contents, init-IsValid}

-- The queue after a reset of one that was in use.
abbrev start : ObsQueue
start = init (record { ring = replicate queue_cap []; head = 7; tail = 9; count = 2 })

start-IsValid : IsValid start
start-IsValid = init-IsValid _ refl

abbrev published : List Published
published =
    record {
      channel = ascii "discovery.arp";
      ts_iso = some (ascii "t");
      json = ascii "{}";
      json_len = 2;
    }
    ∷ record {
      channel = ascii "probe.tcp";
      ts_iso = some (ascii "t");
      json = ascii "{}";
      json_len = 2;
    }
    ∷ []

queue_events-keep_example :
    IsValid (queue_events start published)
    × (contents (queue_events start published)
        ≡ ascii "{\"kind\":\"discovery.arp\",\"ts\":\"t\",\"observation\":{}}" ∷ [])
unfolding init
queue_events-keep_example = queue_events-keep published [] start-IsValid refl
