-- ===== src/HostTable/Slots.antt =====
-- The slots of the table in src/agent/src/host_table.c: finding one, counting and filling them.
use packetsonde.Prelude.{
  ℕ, zero, suc, ◌+◌, ◌≤◌, ◌<◌, ◌≡◌, refl, sym, ◌∙◌, Bool, true, false, not, Option, none, some,
  List, [], ◌∷◌, if◌then◌else◌, length, get_or, set, take, replicate, arith, Bool-cases, inl, inr,
  Option-cases, length-append, length-take,
}
use mathlib.Core.Path.{subst}
use mathlib.Core.Option.{some-injective}
use packetsonde.HostTable.{
  HostEntry, zero_entry, find_from, Sighting, note, add_mac, add_string, set_name, max_host_ips,
  max_host_srcs,
}

abbrev pub weight : Bool → ℕ
weight b = if b then 1 else 0

abbrev pub count_valid : List HostEntry → ℕ
count_valid [] = 0
count_valid (e ∷ es) = weight e.valid + count_valid es

pub count_valid-replicate : (n : ℕ) → count_valid (replicate n zero_entry) ≡ 0
count_valid-replicate zero = refl
count_valid-replicate (suc n) = omega (arith, count_valid-replicate n)

pub count_valid-set :
    (es : List HostEntry) (i : ℕ) (e : HostEntry)
    → i < length es
    → count_valid (set es i e) + weight (get_or es i zero_entry).valid
      ≡ count_valid es + weight e.valid
count_valid-set [] i e h = absurd (omega arith)
count_valid-set (x ∷ es) zero e h = omega arith
count_valid-set (x ∷ es) (suc i) e h = omega (arith, count_valid-set es i e (omega arith))

-- The search as one comparison and the search behind it.
abbrev pub shift : Option ℕ → Option ℕ
shift none = none
shift (some i) = some (suc i)

pub find_from_step :
    (test : HostEntry → Bool) (e : HostEntry) (es : List HostEntry)
    → find_from test (e ∷ es) ≡ (if test e then some 0 else shift (find_from test es))
unfolding find_from
find_from_step test e es = elim (Option-cases (find_from test es)) [
  | inl absent ↦ rw absent refl
  | inr (i, there) ↦ rw there refl
]

-- What the search finds passes the test.
abbrev pub Hit : (HostEntry → Bool) → List HostEntry → ℕ → Type 0
Hit test es i = (i < length es) × (test (get_or es i zero_entry) ≡ true)

Hit-first :
    (test : HostEntry → Bool) (x : HostEntry) (es : List HostEntry) (i : ℕ) (b : Bool)
    (o : Option ℕ)
    → test x ≡ b
    → ((j : ℕ) → o ≡ some j → Hit test es j)
    → (if b then some 0 else shift o) ≡ some i
    → Hit test (x ∷ es) i
Hit-first test x es i true o tb later e =
    subst (Hit test (x ∷ es)) (some-injective _ _ e) (omega arith, tb)
Hit-first test x es i false none tb later e = cc
Hit-first test x es i false (some j) tb later e =
    let (bound, passes) = later j refl in
    subst (Hit test (x ∷ es)) (some-injective _ _ e) (omega arith, passes)

pub find_from-some :
    (test : HostEntry → Bool) (es : List HostEntry) (i : ℕ)
    → find_from test es ≡ some i
    → Hit test es i
find_from-some test [] i e = unfold find_from in cc
find_from-some test (x ∷ es) i e =
    Hit-first test x es i (test x) (find_from test es) refl (find_from-some test es)
      (sym (find_from_step test x es) ∙ e)

-- A slot is free if not all are taken.
pub free_slot :
    (es : List HostEntry)
    → count_valid es < length es
    → (i : ℕ) × (find_from (λ e. not e.valid) es ≡ some i)
free_slot [] h = absurd (omega arith)
free_slot (e ∷ es) h = elim (Bool-cases e.valid) [
  | inl taken ↦
      let (i, later) = free_slot es (ground arith) in
      (suc i, find_from_step (λ e. not e.valid) e es ∙ rw (taken, later) refl)
  | inr free ↦ (0, find_from_step (λ e. not e.valid) e es ∙ rw free refl)
]

-- What the arrays of an entry hold.
pub record Fits (e : HostEntry) : Type 0 where
  pub ips_in : length e.ips ≤ max_host_ips
  pub sources_in : length e.sources ≤ max_host_srcs
  pub hostname_in : length e.hostname ≤ 255
  pub device_type_in : length e.device_type ≤ 31

length-add_string :
    (room size : ℕ) (ss : List (List ℕ)) (s : Option (List ℕ))
    → length ss ≤ room
    → length (add_string room size ss s) ≤ room
unfolding add_string
length-add_string room size ss none h = h
length-add_string room size ss (some []) h = h
length-add_string room size ss (some (c ∷ s)) h =
    ground (arith, length-append ss (take size (c ∷ s) ∷ []))

length-set_name :
    (size : ℕ) (old : List ℕ) (name : Option (List ℕ))
    → length old ≤ size
    → length (set_name size old name) ≤ size
unfolding set_name
length-set_name size [] none h = h
length-set_name size [] (some name) h = omega (arith, length-take size name)
length-set_name size (c ∷ old) name h = h

add_mac_lem :
    (e : HostEntry) (m : Option (List ℕ))
    → ((add_mac e m).valid ≡ e.valid) × (Fits e → Fits (add_mac e m))
unfolding add_mac
add_mac_lem e none = (refl, λ f. f)
add_mac_lem e (some mac) = elim (Bool-cases e.has_mac) [
  | inl has ↦ simp has (refl, λ f. f)
  | inr lacks ↦ simp lacks (
    refl,
    λ f. record {
      ips_in = f.ips_in;
      sources_in = f.sources_in;
      hostname_in = f.hostname_in;
      device_type_in = f.device_type_in;
    },
  )
]

-- A sighting is noted without a change of the slot, and within the arrays.
pub note_lem :
    (e : HostEntry) (s : Sighting)
    → ((note e s).valid ≡ e.valid)
      × ((note e s).last_seen_usec ≡ s.now_usec)
      × (Fits e → Fits (note e s))
unfolding note
note_lem e s = (
  (add_mac_lem e s.mac).0,
  refl,
  λ f.
      let g = (add_mac_lem e s.mac).1 f in
      record {
        ips_in = length-add_string max_host_ips 45 _ s.ip g.ips_in;
        sources_in = length-add_string max_host_srcs 31 _ s.source g.sources_in;
        hostname_in = length-set_name 255 _ s.hostname g.hostname_in;
        device_type_in = length-set_name 31 _ s.device_type g.device_type_in;
      },
)
