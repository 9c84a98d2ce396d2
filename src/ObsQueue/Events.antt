-- ===== src/ObsQueue/Events.antt =====
-- How src/agent/src/main.c queues what the listeners publish, with `ps_obs_build_event` and
-- `ps_obs_queue_push` of src/agent/src/obs_queue.c.
use packetsonde.Prelude.{
  ℕ, ◌^◌, ◌<◌, ◌≡◌, ◌∙◌, ap, Bool, true, false, ◌||◌, Option, none, some, List, [], ◌∷◌, ◌++◌,
  append-nil, append_assoc, ltb, leb, ◌==◌, if◌then◌else◌, length, drop, ltb→lt, arith, Bool-cases,
  inl, inr, ascii,
}
use packetsonde.Recent
use packetsonde.Json.Extract.{starts}
use packetsonde.Baseline.Covers.{take_all}
use packetsonde.ObsQueue.{
  ObsQueue, Item, queue_cap, item_max, push, precise, event_text, printed, build_event,
}
use packetsonde.ObsQueue.Refine.{IsValid, contents, Holds, push-Holds}

-- The arguments of the publish callback, with the time as `ps_iso8601_utc` writes it, if it does.
pub record Published : Type 0 where
  pub channel : List ℕ
  pub ts_iso : Option (List ℕ)
  pub json : List ℕ
  pub json_len : ℕ

abbrev pub is_passive : List ℕ → Bool
is_passive channel = starts (ascii "discovery.") channel || starts (ascii "net.iface.") channel

abbrev pub push_built : ObsQueue → Option (List ℕ) → ObsQueue
push_built q none = q
push_built q (some event_json) = push q (some event_json) (length event_json)

abbrev pub queue_at : ObsQueue → Published → Option (List ℕ) → ObsQueue
unfolding build_event
queue_at q p none = q
queue_at q p (some ts) =
    push_built q (build_event item_max (some p.channel) (some ts) (some p.json) p.json_len)

unfoldable pub queue_event : ObsQueue → Published → ObsQueue
unfolding build_event
queue_event q p = if is_passive p.channel then queue_at q p p.ts_iso else q

abbrev pub queue_events : ObsQueue → List Published → ObsQueue
queue_events q [] = q
queue_events q (p ∷ ps) = queue_events (queue_event q p) ps

-- What a publication adds: the whole text, if it is passive, dated and shorter than 4096 bytes.
abbrev pub short_text : List ℕ → List Item
short_text text = if ltb (length text) item_max then text ∷ [] else []

abbrev pub dated : Published → Option (List ℕ) → List Item
dated p none = []
dated p (some ts) = short_text (event_text p.channel ts (precise p.json_len p.json))

abbrev pub event_of : Published → List Item
event_of p = if is_passive p.channel then dated p p.ts_iso else []

abbrev pub events_of : List Published → List Item
events_of [] = []
events_of (p ∷ ps) = event_of p ++ events_of ps

module _ (history : List Item) {q : ObsQueue} (h : Holds history q) where
  nothing_new : Holds (history ++ []) q
  nothing_new = rw append-nil h

  short-Holds :
      (c : ℕ) (text : List ℕ)
      → length (c ∷ text) < item_max
      → Holds (history ++ (c ∷ text) ∷ []) (push q (some (c ∷ text)) (length (c ∷ text)))
  short-Holds c text short =
      let fits : (length (c ∷ text) == 0 || leb item_max (length (c ∷ text))) ≡ false =
        ground (arith, short) in
      push-Holds history q (some (c ∷ text)) (length (c ∷ text)) (c ∷ text) h
        (rw fits (ap some (take_all (length (c ∷ text)) (c ∷ text) (omega arith))))

  printed-Holds :
      (c : ℕ) (text : List ℕ)
      → Holds (history ++ short_text (c ∷ text)) (push_built q (printed item_max (c ∷ text)))
  printed-Holds c text = elim (Bool-cases (ltb (length (c ∷ text)) item_max)) [
    | inl short ↦
        let whole : (leb (2 ^ 31) (length (c ∷ text)) || leb item_max (length (c ∷ text))) ≡ false =
          ground (arith, short) in
        rw (short, whole) (short-Holds c text (ltb→lt _ _ short))
    | inr long ↦
        let cut : (leb (2 ^ 31) (length (c ∷ text)) || leb item_max (length (c ∷ text))) ≡ true =
          ground (arith, long) in
        rw (long, cut) nothing_new
  ]

  queue_at-Holds :
      (p : Published) (o : Option (List ℕ)) → Holds (history ++ dated p o) (queue_at q p o)
  unfolding queue_at build_event
  queue_at-Holds p none = nothing_new
  queue_at-Holds p (some ts) =
      let text = event_text p.channel ts (precise p.json_len p.json) in
      printed-Holds 123 (drop 1 text)

  queue_event-Holds : (p : Published) → Holds (history ++ event_of p) (queue_event q p)
  unfolding queue_event
  queue_event-Holds p = elim (Bool-cases (is_passive p.channel)) [
    | inl passive ↦ rw passive (queue_at-Holds p p.ts_iso)
    | inr other ↦ rw other nothing_new
  ]

-- After any publications on a valid queue that holds the last 256 items of a history, it holds the
-- last 256 items of that history and the events of those that were passive, dated and, as a whole
-- text, shorter than 4096 bytes, in order.
pub queue_events-keep :
    (ps : List Published) (history : List Item) {q : ObsQueue}
    → IsValid q
    → contents q ≡ Recent.keep queue_cap history
    → IsValid (queue_events q ps)
      × (contents (queue_events q ps) ≡ Recent.keep queue_cap (history ++ events_of ps))
queue_events-keep [] history v held = (v, rw append-nil held)
queue_events-keep (p ∷ ps) history {q} v held =
    let (v', held') = queue_event-Holds history (v, held) p in
    let (valid, all) = queue_events-keep ps (history ++ event_of p) v' held' in
    (valid, all ∙ ap (Recent.keep queue_cap) (append_assoc history (event_of p) (events_of ps)))
