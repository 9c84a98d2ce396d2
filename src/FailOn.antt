-- ===== src/FailOn.antt =====
-- src/cli/util/fail_on.c, with the counters of src/cli/output/output.c that it reads and the exit
-- status of src/cli/main.c.
pub mod Exits
mod Tests
use packetsonde.Prelude.{
  ℕ, zero, suc, ◌+◌, ◌%◌, ◌^◌, Bool, true, false, not, ◌&&◌, Option, none, some, List, [], ◌∷◌,
  ◌++◌, ◌==◌, ltb, if◌then◌else◌, ascii,
}
use packetsonde.Prelude.Int.{ℤ, pos, negsuc}
use packetsonde.Paths.{behind_prefix}
use packetsonde.Baseline.{same_path}

-- Unsigned integers of 32 bits, here and in struct ps_fail_counts.
pub record Counts : Type 0 where
  pub n_info : ℕ
  pub n_low : ℕ
  pub n_medium : ℕ
  pub n_high : ℕ
  pub n_critical : ℕ

-- After ps_output_init.
abbrev pub no_counts : Counts
no_counts = record { n_info = 0; n_low = 0; n_medium = 0; n_high = 0; n_critical = 0 }

pub data Format : Type 0 where
  auto text json jsonl quiet : Format

pub data Fd : Type 0 where
  stdout_fd append_fd : Fd

-- `writes` are the calls of write_all, whose results are not looked at.
pub record Output : Type 0 where
  pub fmt : Format
  pub append_open : Bool
  pub counts : Counts
  pub writes : List (Fd × List ℕ)

abbrev pub inc32 : ℕ → ℕ
inc32 n = (n + 1) % 2 ^ 32

abbrev pub bump_count : ℕ → Counts → Counts
bump_count s c =
    if s == 0
    then record c { n_info = inc32 c.n_info }
    else if s == 1
    then record c { n_low = inc32 c.n_low }
    else if s == 2
    then record c { n_medium = inc32 c.n_medium }
    else if s == 3
    then record c { n_high = inc32 c.n_high }
    else if s == 4
    then record c { n_critical = inc32 c.n_critical }
    else c

-- The severity is an `int`, -1 if it is unknown.
unfoldable pub bump : ℤ → Counts → Counts
bump (negsuc n) c = c
bump (pos n) c = bump_count n c

abbrev pub write_if : Bool → Fd → List ℕ → List (Fd × List ℕ)
write_if true fd line = (fd, line) ∷ []
write_if false fd line = []

abbrev pub is_quiet : Format → Bool
is_quiet quiet = true
is_quiet f = false

-- The output is not NULL; the line may be, and its length is that of the list.
unfoldable pub emit_raw_jsonl : Output → ℤ → Option (List ℕ) → Output
unfolding bump
emit_raw_jsonl o severity none = o
emit_raw_jsonl o severity (some []) = o
emit_raw_jsonl o severity (some (b ∷ line)) = record o {
  counts = bump severity o.counts;
  writes =
      (o.writes ++ write_if (not (is_quiet o.fmt)) stdout_fd (b ∷ line))
      ++ write_if o.append_open append_fd (b ∷ line);
}

pub record FailOn : Type 0 where
  pub active : Bool
  pub min_severity : ℕ

abbrev pub inactive : FailOn
inactive = record { active = false; min_severity = 0 }

-- The chain of tests of the level; -1 leaves what was set before it.
abbrev pub parse_level : List ℕ → ℤ × FailOn
parse_level level =
    if same_path level (ascii "info")
    then (pos 0, record { active = true; min_severity = 0 })
    else if same_path level (ascii "low")
    then (pos 0, record { active = true; min_severity = 1 })
    else if same_path level (ascii "medium")
    then (pos 0, record { active = true; min_severity = 2 })
    else if same_path level (ascii "high")
    then (pos 0, record { active = true; min_severity = 3 })
    else if same_path level (ascii "critical")
    then (pos 0, record { active = true; min_severity = 4 })
    else (negsuc 0, inactive)

abbrev pub parse_rest : Option (List ℕ) → ℤ × FailOn
parse_rest none = (negsuc 0, inactive)
parse_rest (some level) = parse_level level

-- What is written is not NULL; the expression may be.
unfoldable pub fail_on_parse : Option (List ℕ) → ℤ × FailOn
unfolding behind_prefix
fail_on_parse none = (pos 0, inactive)
fail_on_parse (some []) = (pos 0, inactive)
fail_on_parse (some (c ∷ expr)) = parse_rest (behind_prefix (ascii "severity>=") (c ∷ expr))

abbrev pub add32 : ℕ → ℕ → ℕ
add32 a b = (a + b) % 2 ^ 32

abbrev pub eval_level : ℕ → Counts → Bool
eval_level s c =
    if s == 0
    then ltb 0 (add32 (add32 (add32 (add32 c.n_info c.n_low) c.n_medium) c.n_high) c.n_critical)
    else if s == 1
    then ltb 0 (add32 (add32 (add32 c.n_low c.n_medium) c.n_high) c.n_critical)
    else if s == 2
    then ltb 0 (add32 (add32 c.n_medium c.n_high) c.n_critical)
    else if s == 3
    then ltb 0 (add32 c.n_high c.n_critical)
    else s == 4 && ltb 0 c.n_critical

unfoldable pub fail_on_eval : FailOn → Counts → Bool
fail_on_eval f c = if f.active then eval_level f.min_severity c else false

abbrev pub status_of : ℤ × FailOn → Counts → ℤ
status_of (pos zero, f) counts = if fail_on_eval f counts then pos 3 else pos 0
status_of (pos (suc n), f) counts = pos 2
status_of (negsuc n, f) counts = pos 2

-- The end of main, on what the verb returned and the counts that it left.
unfoldable pub exit_status : ℤ → Option (List ℕ) → Counts → ℤ
unfolding fail_on_parse fail_on_eval
exit_status rc none counts = rc
exit_status (pos zero) (some expr) counts = status_of (fail_on_parse (some expr)) counts
exit_status (pos (suc n)) (some expr) counts = pos (suc n)
exit_status (negsuc n) (some expr) counts = negsuc n
