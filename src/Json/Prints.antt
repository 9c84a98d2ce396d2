-- ===== src/Json/Prints.antt =====
-- What src/lib/json.c writes, call by call: the exact bytes, or an error where they do not fit.
use packetsonde.Prelude.{
  ℕ, ◌+◌, ◌<◌, ◌≡◌, ◌≢◌, refl, ap, sym, ◌∙◌, Bool, true, false, none, some, List, [], ◌∷◌, ◌++◌,
  ltb, leb, if◌then◌else◌, length, arith, append_assoc, append-nil, length-append, Bool-cases, inl,
  inr,
}
use packetsonde.Prelude.Int.{ℤ}
use mathlib.Core.Path.{subst}
use packetsonde.Json.Writer.{
  Json, init, escape, emit, emit_escaped, emit_quoted, comma_if, maybe_comma, object_begin,
  object_end, key_string, finish,
}
use packetsonde.Json.Decode.{escaped}

-- From `j` to `j'`, exactly the bytes `s` were written if no error is marked, and none is where
-- they fit.
pub record Prints (j : Json) (s : List ℕ) (j' : Json) : Type 0 where
  pub same_cap : j'.cap ≡ j.cap
  pub sound : j'.error ≡ false → (j.error ≡ false) × (j'.text ≡ j.text ++ s)
  pub roomy : j.error ≡ false → length j.text + length s < j.cap → j'.error ≡ false

true_ne_false : {b : Bool} → b ≡ true → b ≢ false
true_ne_false e f = cc

pub Prints-trans : {j k l : Json} {s t : List ℕ} → Prints j s k → Prints k t l → Prints j (s ++ t) l
Prints-trans {j} {k} {l} {s} {t} p q = record {
  same_cap = q.same_cap ∙ p.same_cap;
  sound = λ ok.
      let (okay, last) = q.sound ok in
      let (fine, first) = p.sound okay in (fine, last ∙ rw first (append_assoc j.text s t));
  roomy = λ ok fits.
      let sum = length-append s t in
      let okay = p.roomy ok (omega (arith, sum)) in
      let size : length k.text ≡ length j.text + length s =
        ap length (p.sound okay).1 ∙ length-append j.text s in
      q.roomy okay (omega (arith, sum, p.same_cap, size));
}

pub Prints-refl : (j : Json) → Prints j [] j
Prints-refl j = record {
  same_cap = refl;
  sound = λ ok. (ok, sym (append-nil j.text));
  roomy = λ ok fits. ok;
}

pub emit-Prints : (j : Json) (s : List ℕ) → Prints j s (emit j s)
unfolding emit
emit-Prints j s = elim (Bool-cases j.error) [
  | inl bad ↦ simp bad (record {
    same_cap = refl;
    sound = λ ok. absurd (true_ne_false bad ok);
    roomy = λ ok fits. ok;
  })
  | inr good ↦ elim (Bool-cases (leb j.cap (length j.text + length s))) [
    | inl full ↦
        simp (good, full)
          (record {
            same_cap = refl;
            sound = λ ok. absurd (true_ne_false refl ok);
            roomy = λ ok fits. absurd (ground arith);
          })
    | inr room ↦
        simp (good, room)
          (record { same_cap = refl; sound = λ ok. (good, refl); roomy = λ ok fits. refl })
  ]
]

emit_escaped-Prints : (j : Json) (s : List ℕ) → Prints j (escaped s) (emit_escaped j s)
unfolding emit_escaped
emit_escaped-Prints j [] = Prints-refl j
emit_escaped-Prints j (c ∷ s) =
    Prints-trans (emit-Prints j (escape c)) (emit_escaped-Prints (emit j (escape c)) s)

abbrev pub quoted : List ℕ → List ℕ
quoted s = 34 ∷ escaped s ++ 34 ∷ []

pub emit_quoted-Prints : (j : Json) (s : List ℕ) → Prints j (quoted s) (emit_quoted j s)
unfolding emit_quoted
emit_quoted-Prints j s =
    Prints-trans (Prints-trans (emit-Prints j (34 ∷ [])) (emit_escaped-Prints (emit j (34 ∷ [])) s))
      (emit-Prints (emit_escaped (emit j (34 ∷ [])) s) (34 ∷ []))

-- The flags that steer commas and count braces are no part of what was written.
pub steered :
    {j k : Json} {s : List ℕ} (b : Bool) (d : ℤ)
    → Prints j s k
    → Prints j s (record k { needs_comma = b; depth = d })
steered b d p = record { same_cap = p.same_cap; sound = p.sound; roomy = p.roomy }

abbrev pub comma : Bool → List ℕ
comma b = if b then 44 ∷ [] else []

pub comma_if-Prints : (b : Bool) (j : Json) → Prints j (comma b) (comma_if b j)
unfolding comma_if
comma_if-Prints true j = emit-Prints j (44 ∷ [])
comma_if-Prints false j = Prints-refl j

pub maybe_comma-Prints :
    (j : Json) (b : Bool) → j.needs_comma ≡ b → Prints j (comma b) (maybe_comma j)
unfolding maybe_comma
maybe_comma-Prints j b due =
    subst (λ (c : Bool). Prints j (comma c) (maybe_comma j)) due
      (steered false _ (comma_if-Prints j.needs_comma j))

abbrev pub field_text : List ℕ × List ℕ → List ℕ
field_text (key, val) = quoted key ++ 58 ∷ quoted val

pub key_string-Prints :
    (j : Json) (b : Bool) (key val : List ℕ)
    → j.needs_comma ≡ b
    → Prints j (comma b ++ field_text (key, val)) (key_string j key val)
unfolding key_string
key_string-Prints j b key val due =
    let k1 = maybe_comma j in
    let k2 = emit_quoted k1 key in
    let k3 = emit k2 (58 ∷ []) in
    let named =
      Prints-trans (emit_quoted-Prints k1 key)
        (Prints-trans (emit-Prints k2 (58 ∷ [])) (emit_quoted-Prints k3 val)) in
    steered true _ (Prints-trans (maybe_comma-Prints j b due) named)

pub key_string_comma : (j : Json) (key val : List ℕ) → (key_string j key val).needs_comma ≡ true
unfolding key_string
key_string_comma j key val = refl

pub object_begin-Prints : (cap : ℕ) → Prints (init cap) (123 ∷ []) (object_begin (init cap))
unfolding object_begin maybe_comma
object_begin-Prints cap = steered false _ (emit-Prints (init cap) (123 ∷ []))

pub object_begin_comma : (cap : ℕ) → (object_begin (init cap)).needs_comma ≡ false
unfolding object_begin
object_begin_comma cap = refl

pub object_end-Prints : (j : Json) → Prints j (125 ∷ []) (object_end j)
unfolding object_end
object_end-Prints j = steered true _ (emit-Prints j (125 ∷ []))

-- What `finish` gives for a writer that has printed `doc` into an empty buffer.
pub finish-Prints :
    (cap : ℕ) (doc : List ℕ) (j : Json)
    → Prints (init cap) doc j
    → finish j ≡ (if ltb (length doc) cap then some doc else none)
unfolding finish
finish-Prints cap doc j p = elim (Bool-cases j.error) [
  | inl bad ↦ elim (Bool-cases (ltb (length doc) cap)) [
    | inl fits ↦ absurd (true_ne_false bad (p.roomy refl (ground arith)))
    | inr long ↦ simp (bad, long) refl
  ]
  | inr good ↦
      let text : j.text ≡ doc = (p.sound good).1 in simp (good, text, p.same_cap) (ground arith)
]
