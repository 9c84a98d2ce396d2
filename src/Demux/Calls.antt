-- ===== src/Demux/Calls.antt =====
-- Which handlers of protocol_demux.c are called.
use packetsonde.Prelude.{
  ℕ, ◌≡◌, ◌∙◌, refl, sym, ap, Bool, true, false, ◌&&◌, ◌||◌, some, List, [], ◌∷◌, ◌++◌, Bool-cases,
  inl, inr,
}
use mathlib.Core.Path.{fun_ext}
use packetsonde.Prelude.Int.{pos}
use packetsonde.Wire.{ok, ◌>>=◌}
use packetsonde.Wire.Safe.{IsBytes, Ensures, bind}
use packetsonde.Demux.{
  Entry, Demux, Decoded, Call, same_first, set_first, set_enabled, decode, matches, call_of, calls,
  dispatch,
}
use packetsonde.Demux.Fields.{IsDecoded, decode-Ensures}
use packetsonde.Demux.Names.{known}

-- The calls that a list of handlers may get for a frame: each handler one call or none, in the order
-- of the list, and a call only if it is enabled.
pub data Chosen (pkt : List ℕ) (ts_usec handle_id : ℕ) : List Entry → List Call → Type 0 where
  none : Chosen pkt ts_usec handle_id [] []
  called :
      {es : List Entry} {cs : List Call} (e : Entry)
      → e.enabled ≡ true
      → Chosen pkt ts_usec handle_id es cs
      → Chosen pkt ts_usec handle_id (e ∷ es) (call_of pkt ts_usec handle_id e ∷ cs)
  passed :
      {es : List Entry} {cs : List Call} (e : Entry)
      → Chosen pkt ts_usec handle_id es cs
      → Chosen pkt ts_usec handle_id (e ∷ es) cs

first_true : (a b : Bool) → (a && b) ≡ true → a ≡ true
first_true true b h = refl
first_true false b h = cc

module _ (pkt : List ℕ) (ts_usec handle_id : ℕ) (d : Decoded) where
  pub calls-append :
      (es fs : List Entry)
      → calls pkt ts_usec handle_id d (es ++ fs)
        ≡ calls pkt ts_usec handle_id d es ++ calls pkt ts_usec handle_id d fs
  unfolding calls
  calls-append [] fs = refl
  calls-append (e ∷ es) fs = elim (Bool-cases (e.enabled && matches e.match_type e pkt d)) [
    | inl fires ↦ rw fires (ap (◌∷◌ (call_of pkt ts_usec handle_id e)) (calls-append es fs))
    | inr silent ↦ rw silent (calls-append es fs)
  ]

  -- The calls are of enabled handlers of the list, in its order.
  calls-Chosen :
      (es : List Entry) → Chosen pkt ts_usec handle_id es (calls pkt ts_usec handle_id d es)
  unfolding calls
  calls-Chosen [] = none
  calls-Chosen (e ∷ es) = elim (Bool-cases (e.enabled && matches e.match_type e pkt d)) [
    | inl fires ↦
        rw fires
          (called e (first_true e.enabled (matches e.match_type e pkt d) fires) (calls-Chosen es))
    | inr silent ↦ rw silent (passed e (calls-Chosen es))
  ]

  calls-disabled :
      (before after : List Entry) (e : Entry)
      → e.enabled ≡ false
      → calls pkt ts_usec handle_id d (before ++ e ∷ after)
        ≡ calls pkt ts_usec handle_id d (before ++ after)
  calls-disabled before after e off =
      calls-append before (e ∷ after) ∙ rw (skipped e after off) (sym (calls-append before after))
    where
      skipped :
          (f : Entry) (fs : List Entry)
          → f.enabled ≡ false
          → calls pkt ts_usec handle_id d (f ∷ fs) ≡ calls pkt ts_usec handle_id d fs
      skipped f fs h = unfold calls in rw h refl

set_first-here :
    (before after : List Entry) (e : Entry) (name : List ℕ) (b : Bool)
    → known before name ≡ false
    → same_first 64 e.name name ≡ true
    → set_first (before ++ e ∷ after) name b ≡ some (before ++ record e { enabled = b } ∷ after)
unfolding set_first
set_first-here [] after e name b none_before found = rw found refl
set_first-here (f ∷ before) after e name b none_before found =
    let (this, others) = or_false (same_first 64 f.name name) (known before name) none_before in
    rw (this, set_first-here before after e name b others found) refl
  where
    or_false : (x y : Bool) → (x || y) ≡ false → (x ≡ false) × (y ≡ false)
    or_false true y h = cc
    or_false false y h = (refl, h)

module _ (pkt : List ℕ) (ts_usec handle_id : ℕ) where
  dispatch-Ensures :
      (es : List Entry)
      → IsBytes pkt
      → Ensures
          (Chosen pkt ts_usec handle_id es)
          (dispatch pkt ts_usec handle_id (record { entries = es }))
  unfolding dispatch
  dispatch-Ensures es h =
      bind IsDecoded (Chosen pkt ts_usec handle_id es) (decode pkt) _ (decode-Ensures pkt h)
        (λ d fields. calls-Chosen pkt ts_usec handle_id d es)

  dispatch-disabled :
      (before after : List Entry) (e : Entry)
      → e.enabled ≡ false
      → dispatch pkt ts_usec handle_id (record { entries = before ++ e ∷ after })
        ≡ dispatch pkt ts_usec handle_id (record { entries = before ++ after })
  unfolding dispatch
  dispatch-disabled before after e off =
      ap (λ (f : Decoded → List Call). decode pkt >>= λ d. ok (f d))
        (fun_ext (λ d. calls-disabled pkt ts_usec handle_id d before after e off))

-- Disabling the first handler of a name succeeds, and from then on every frame is dispatched as if
-- that handler had never been registered: no read of the frame is behind its end, and the calls are
-- those of enabled ones among the other handlers, each called once at most, in the order of their
-- registration.
pub dispatch-set_enabled :
    (before after : List Entry) (e : Entry) (name pkt : List ℕ) (ts_usec handle_id : ℕ)
    → known before name ≡ false
    → same_first 64 e.name name ≡ true
    → IsBytes pkt
    → let (code, dmx) = set_enabled (record { entries = before ++ e ∷ after }) name false in
      let others : Demux = record { entries = before ++ after } in
      (code ≡ pos 0)
      × (dispatch pkt ts_usec handle_id dmx ≡ dispatch pkt ts_usec handle_id others)
      × Ensures
          (Chosen pkt ts_usec handle_id (before ++ after))
          (dispatch pkt ts_usec handle_id others)
unfolding set_enabled
dispatch-set_enabled before after e name pkt ts_usec handle_id none_before found h =
    rw (set_first-here before after e name false none_before found) (
      refl,
      dispatch-disabled pkt ts_usec handle_id before after (record e { enabled = false }) refl,
      dispatch-Ensures pkt ts_usec handle_id (before ++ after) h,
    )
