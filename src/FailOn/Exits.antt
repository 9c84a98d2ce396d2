-- ===== src/FailOn/Exits.antt =====
-- When the exit status of src/cli/main.c reports a finding.
use packetsonde.Prelude.{
  ℕ, zero, suc, ◌+◌, ◌^◌, ◌<◌, ◌≤◌, ◌≡◌, ◌≢◌, inl, inr, Bool-cases, ◌∙◌, refl, ap, Bool, true,
  false, ◌&&◌, ◌||◌, Option, none, some, List, [], ◌∷◌, ◌++◌, ltb, leb, if◌then◌else◌, length,
  ascii, arith,
}
use packetsonde.Prelude.Int.{ℤ, pos, negsuc}
use packetsonde.Paths.{behind_prefix}
use packetsonde.Paths.Order.{behind_prefix-some}
use packetsonde.Baseline.{same_path}
use packetsonde.Baseline.Covers.{same_path-eq}
use packetsonde.FailOn.{
  Counts, no_counts, Output, add32, inc32, bump_count, bump, emit_raw_jsonl, eval_level,
  fail_on_eval, fail_on_parse, exit_status, parse_level, parse_rest, inactive, status_of,
}

-- The findings of a severity and above.
abbrev above : ℕ → Counts → ℕ
above s c =
    (if leb s 0 then c.n_info else 0)
    + (if leb s 1 then c.n_low else 0)
    + (if leb s 2 then c.n_medium else 0)
    + (if leb s 3 then c.n_high else 0)
    + (if leb s 4 then c.n_critical else 0)

add32_lem : (a b : ℕ) → a + b < 2 ^ 32 → add32 a b ≡ a + b
add32_lem a b h = omega arith

eval_level-above : (s : ℕ) (c : Counts) → above 0 c < 2 ^ 32 → eval_level s c ≡ ltb 0 (above s c)
eval_level-above s c h =
    rw
      (
        add32_lem c.n_info c.n_low (omega arith),
        add32_lem (c.n_info + c.n_low) c.n_medium (omega arith),
        add32_lem (c.n_info + c.n_low + c.n_medium) c.n_high (omega arith),
        add32_lem (c.n_info + c.n_low + c.n_medium + c.n_high) c.n_critical (omega arith),
        add32_lem c.n_low c.n_medium (omega arith),
        add32_lem (c.n_low + c.n_medium) c.n_high (omega arith),
        add32_lem (c.n_low + c.n_medium + c.n_high) c.n_critical (omega arith),
        add32_lem c.n_medium c.n_high (omega arith),
        add32_lem (c.n_medium + c.n_high) c.n_critical (omega arith),
        add32_lem c.n_high c.n_critical (omega arith),
      )
      (ground arith)

inc32_lem : (a : ℕ) → a + 1 < 2 ^ 32 → inc32 a ≡ a + 1
inc32_lem a h = omega arith

beyond : (c : Counts) (n : ℕ) → 4 < n → bump_count n c ≡ c
beyond c n h = ground arith

leb-beyond : (n : ℕ) → 4 < n → leb n 4 ≡ false
leb-beyond n h = ground arith

above-bump_count :
    (s n : ℕ) (c : Counts)
    → above 0 c + 1 < 2 ^ 32
    → above s (bump_count n c) ≡ above s c + (if leb n 4 && leb s n then 1 else 0)
above-bump_count s zero c h = rw (inc32_lem c.n_info (omega arith)) (ground arith)
above-bump_count s (suc zero) c h = rw (inc32_lem c.n_low (omega arith)) (ground arith)
above-bump_count s (suc (suc zero)) c h = rw (inc32_lem c.n_medium (omega arith)) (ground arith)
above-bump_count s (suc (suc (suc zero))) c h = rw (inc32_lem c.n_high (omega arith)) (ground arith)
above-bump_count s (suc (suc (suc (suc zero)))) c h =
    rw (inc32_lem c.n_critical (omega arith)) (ground arith)
above-bump_count s (suc (suc (suc (suc (suc n))))) c h =
    rw (beyond c (suc (suc (suc (suc (suc n))))) (omega arith))
      (rw (leb-beyond (suc (suc (suc (suc (suc n))))) (omega arith)) (omega arith))

-- The line counts as a finding of the severity or above.
abbrev pub reaches : ℕ → ℤ × Option (List ℕ) → Bool
reaches s (severity, none) = false
reaches s (severity, some []) = false
reaches s (negsuc n, some (b ∷ line)) = false
reaches s (pos n, some (b ∷ line)) = leb n 4 && leb s n

abbrev pub any_reaches : ℕ → List (ℤ × Option (List ℕ)) → Bool
any_reaches s [] = false
any_reaches s (e ∷ es) = reaches s e || any_reaches s es

abbrev pub emit_all : Output → List (ℤ × Option (List ℕ)) → Output
emit_all o [] = o
emit_all o ((severity, line) ∷ es) = emit_all (emit_raw_jsonl o severity line) es

above-emit :
    (s : ℕ) (o : Output) (severity : ℤ) (line : Option (List ℕ))
    → above 0 o.counts + 1 < 2 ^ 32
    → above s (emit_raw_jsonl o severity line).counts
      ≡ above s o.counts + (if reaches s (severity, line) then 1 else 0)
unfolding emit_raw_jsonl bump
above-emit s o severity none h = omega arith
above-emit s o severity (some []) h = omega arith
above-emit s o (negsuc n) (some (b ∷ line)) h = omega arith
above-emit s o (pos n) (some (b ∷ line)) h = above-bump_count s n o.counts h

positive : (b : Bool) (n : ℕ) → ltb 0 (n + (if b then 1 else 0)) ≡ (ltb 0 n || b)
positive true n = ground arith
positive false n = ground arith

fits : (b : Bool) (n k : ℕ) → n + suc k < 2 ^ 32 → n + (if b then 1 else 0) + k < 2 ^ 32
fits true n k h = omega arith
fits false n k h = omega arith

or_assoc : (a b c : Bool) → ((a || b) || c) ≡ (a || (b || c))
or_assoc true b c = refl
or_assoc false b c = refl

above-emit_all :
    (s : ℕ) (o : Output) (es : List (ℤ × Option (List ℕ)))
    → above 0 o.counts + length es < 2 ^ 32
    → (above 0 (emit_all o es).counts < 2 ^ 32)
      × (ltb 0 (above s (emit_all o es).counts) ≡ (ltb 0 (above s o.counts) || any_reaches s es))
above-emit_all s o [] h = (omega arith, ground arith)
above-emit_all s o ((severity, line) ∷ es) h =
    let o' = emit_raw_jsonl o severity line in
    let now = above-emit s o severity line (omega arith) in
    let all = above-emit 0 o severity line (omega arith) in
    let hit = reaches s (severity, line) in
    let (bounded, rest) =
      above-emit_all s o' es
        (rw all (fits (reaches 0 (severity, line)) (above 0 o.counts) (length es) h)) in
    (
      bounded,
      rest
          ∙ ap (λ n. ltb 0 n || any_reaches s es) now
          ∙ ap (λ b. b || any_reaches s es) (positive hit (above s o.counts))
          ∙ or_assoc (ltb 0 (above s o.counts)) hit (any_reaches s es),
    )

abbrev pub level_name : ℕ → List ℕ
level_name zero = ascii "info"
level_name (suc zero) = ascii "low"
level_name (suc (suc zero)) = ascii "medium"
level_name (suc (suc (suc zero))) = ascii "high"
level_name (suc (suc (suc (suc n)))) = ascii "critical"

level_parses :
    (s : ℕ)
    → s ≤ 4
    → fail_on_parse (some (ascii "severity>=" ++ level_name s))
      ≡ (pos 0, record { active = true; min_severity = s })
unfolding fail_on_parse behind_prefix
level_parses zero h = refl
level_parses (suc zero) h = refl
level_parses (suc (suc zero)) h = refl
level_parses (suc (suc (suc zero))) h = refl
level_parses (suc (suc (suc (suc zero)))) h = refl
level_parses (suc (suc (suc (suc (suc n))))) h = absurd (omega arith)

nothing : (s : ℕ) → ltb 0 (above s no_counts) ≡ false
nothing s = ground arith

-- After fewer than 2^32 lines passed on to a fresh output, a verb that returned 0 and the expression
-- severity>= with the name of a level: the exit status is 3 if one of the lines, not empty, was
-- given a severity of that level to critical, and 0 otherwise.
pub exit_status-emit :
    (s : ℕ) (o : Output) (es : List (ℤ × Option (List ℕ)))
    → s ≤ 4
    → o.counts ≡ no_counts
    → length es < 2 ^ 32
    → exit_status (pos 0) (some (ascii "severity>=" ++ level_name s)) (emit_all o es).counts
      ≡ (if any_reaches s es then pos 3 else pos 0)
unfolding exit_status fail_on_eval
exit_status-emit s o es level none_yet few =
    let start : above 0 o.counts ≡ 0 = ap (above 0) none_yet in
    let (bounded, hits) = above-emit_all s o es (omega arith) in
    rw
      (
        level_parses s level,
        eval_level-above s (emit_all o es).counts bounded,
        hits,
        none_yet,
        nothing s,
      )
      refl

differs : (a b : List ℕ) → a ≢ b → same_path a b ≡ false
differs a b h = elim (Bool-cases (same_path a b)) [
  | inl same ↦ absurd (h (same_path-eq a b same))
  | inr other ↦ other
]

parse_level-refused :
    (level : List ℕ)
    → ((s : ℕ) → s ≤ 4 → level ≢ level_name s)
    → parse_level level ≡ (negsuc 0, inactive)
parse_level-refused level h =
    let not_level : (s : ℕ) → s ≤ 4 → same_path level (level_name s) ≡ false =
      λ s k. differs level (level_name s) (h s k) in
    rw
      (
        not_level 0 (omega arith),
        not_level 1 (omega arith),
        not_level 2 (omega arith),
        not_level 3 (omega arith),
        not_level 4 (omega arith),
      )
      refl

-- After a verb that returned 0, an expression that is neither empty nor severity>= with the name of
-- one of the five levels gives the exit status 2, whatever the counts.
pub exit_status-refused :
    (expr : List ℕ) (counts : Counts)
    → expr ≢ []
    → ((s : ℕ) → s ≤ 4 → expr ≢ ascii "severity>=" ++ level_name s)
    → exit_status (pos 0) (some expr) counts ≡ pos 2
unfolding exit_status fail_on_parse
exit_status-refused [] counts filled h = absurd (filled refl)
exit_status-refused (c ∷ e) counts filled h =
    by_rest (behind_prefix (ascii "severity>=") (c ∷ e)) refl
  where
    by_rest :
        (o : Option (List ℕ))
        → behind_prefix (ascii "severity>=") (c ∷ e) ≡ o
        → status_of (parse_rest o) counts ≡ pos 2
    by_rest none k = refl
    by_rest (some level) k =
        let splits = behind_prefix-some (ascii "severity>=") (c ∷ e) level k in
        rw
          (parse_level-refused level
            (λ s b n. h s b (splits ∙ ap (λ l. ascii "severity>=" ++ l) n)))
          refl
