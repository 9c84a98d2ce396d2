-- ===== src/Provenance.antt =====
-- src/lib/provenance.c: which writes and execs are worth a record. `,` is 44 and `/` is 47.
pub mod Roots
mod Tests
use packetsonde.Prelude.{
  ℕ, zero, suc, ◌/◌, ◌%◌, Bool, true, false, ◌&&◌, ◌||◌, Option, none, some, List, [], ◌∷◌, ◌==◌,
  if◌then◌else◌, length, ascii,
}
use packetsonde.Paths.{behind_prefix}
use packetsonde.Baseline.{same_path}
use packetsonde.Suppress.{entry, behind_comma}

-- `while (len > 0 && p[len - 1] == '/') len--;`
abbrev pub put_byte : ℕ → List ℕ → List ℕ
put_byte c [] = if c == 47 then [] else c ∷ []
put_byte c (d ∷ s) = c ∷ d ∷ s

abbrev pub strip : List ℕ → List ℕ
strip [] = []
strip (c ∷ s) = put_byte c (strip s)

-- What follows the root in the path.
abbrev pub at_end : Option (List ℕ) → Bool
at_end none = false
at_end (some []) = true
at_end (some (c ∷ rest)) = c == 47

unfoldable pub in_root : List ℕ → List ℕ → Bool
unfolding behind_prefix
in_root path [] = false
in_root path (c ∷ root) = at_end (behind_prefix (c ∷ root) path)

-- The loop at `p`; each round takes a comma, so that a round for each byte of the set is enough.
unfoldable pub in_any : ℕ → List ℕ → List ℕ → Bool
unfolding in_root
in_any zero path p = false
in_any (suc rounds) path [] = false
in_any (suc rounds) path (c ∷ p) =
    in_root path (strip (entry (c ∷ p)))
    || elim (behind_comma (c ∷ p)) [ none ↦ false | some rest ↦ in_any rounds path rest ]

-- The path is checked by the caller; the set may be NULL.
unfoldable pub path_in_set : List ℕ → Option (List ℕ) → Bool
unfolding in_any
path_in_set path none = false
path_in_set path (some set) = in_any (length set) path set

pub record ProvCfg : Type 0 where
  pub enabled : Bool
  pub transient_paths : Option (List ℕ)
  pub sensitive_paths : Option (List ℕ)

-- `mode & (S_IXUSR | S_IXGRP | S_IXOTH)`
abbrev pub may_execute : ℕ → Bool
may_execute mode = (mode / 64 % 2 == 1 || mode / 8 % 2 == 1) || mode % 2 == 1

-- What is returned; `untouched` is "".
pub data Trigger : Type 0 where
  untouched write_executable write_sensitive_path exec_from_transient : Trigger

abbrev pub classify_write : List ℕ → ℕ → ProvCfg → Trigger
classify_write path mode cfg =
    if path_in_set path cfg.sensitive_paths
    then write_sensitive_path
    else if may_execute mode && path_in_set path cfg.transient_paths
    then write_executable
    else untouched

abbrev pub classify_event : List ℕ → List ℕ → ℕ → ProvCfg → Trigger
classify_event event path mode cfg =
    if same_path event (ascii "write")
    then classify_write path mode cfg
    else if same_path event (ascii "exec")
    then (if path_in_set path cfg.transient_paths then exec_from_transient else untouched)
    else untouched

-- The configuration, the event and the path may be NULL.
unfoldable pub classify : Option (List ℕ) → Option (List ℕ) → ℕ → Option ProvCfg → Trigger
unfolding path_in_set
classify event path mode none = untouched
classify none path mode (some cfg) = untouched
classify (some event) none mode (some cfg) = untouched
classify (some event) (some path) mode (some cfg) =
    if cfg.enabled then classify_event event path mode cfg else untouched
