-- ===== src/FailOn/Tests.antt =====
-- Runs of src/cli/util/fail_on.c and src/cli/output/output.c.
use packetsonde.Prelude.{
  ℕ, zero, suc, ◌≤◌, ◌≡◌, ◌≢◌, refl, sym, true, false, Option, some, List, [], ◌∷◌, ◌++◌, ascii,
  arith,
}
use packetsonde.Prelude.Int.{ℤ, pos, negsuc}
use packetsonde.Baseline.{same_path}
use packetsonde.Baseline.Covers.{same_path_self}
use packetsonde.FailOn.{no_counts, jsonl, quiet, Output, bump, emit_raw_jsonl, exit_status}
use packetsonde.FailOn.Exits.{emit_all, level_name, exit_status-emit, exit_status-refused}

abbrev new_output : Output
new_output = record { fmt = jsonl; append_open = true; counts = no_counts; writes = [] }

abbrev lines : List (ℤ × Option (List ℕ))
lines = (pos 1, some (ascii "a")) ∷ (negsuc 0, some (ascii "b")) ∷ (pos 3, some (ascii "c")) ∷ []

exit_status-emit_example :
    exit_status
      (pos 0)
      (some (ascii "severity>=" ++ level_name 2))
      (emit_all new_output lines).counts
    ≡ pos 3
exit_status-emit_example = exit_status-emit 2 new_output lines (omega arith) refl (omega arith)

abbrev apart : {a b : List ℕ} → a ≡ b → same_path a b ≡ true
apart {a} {b} e = rw (sym e) (same_path_self a)

not_named : (s : ℕ) → s ≤ 4 → ascii "severity>=bad" ≢ ascii "severity>=" ++ level_name s
not_named zero h e = let same : false ≡ true = apart e in cc
not_named (suc zero) h e = let same : false ≡ true = apart e in cc
not_named (suc (suc zero)) h e = let same : false ≡ true = apart e in cc
not_named (suc (suc (suc zero))) h e = let same : false ≡ true = apart e in cc
not_named (suc (suc (suc (suc n)))) h e = let same : false ≡ true = apart e in cc

exit_status-refused_example : exit_status (pos 0) (some (ascii "severity>=bad")) no_counts ≡ pos 2
exit_status-refused_example =
    exit_status-refused (ascii "severity>=bad") no_counts (λ e. cc) not_named

-- A quiet output writes no line that is passed on.
silent :
    (emit_raw_jsonl
      (record new_output { fmt = quiet; append_open = false })
      (pos 4)
      (some (ascii "a"))).writes
    ≡ []
unfolding emit_raw_jsonl bump
silent = refl
