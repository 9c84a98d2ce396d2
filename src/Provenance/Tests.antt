-- ===== src/Provenance/Tests.antt =====
-- Runs of src/lib/provenance.c on /tmp/x and the roots /etc/ and /tmp/.
use packetsonde.Prelude.{◌≡◌, refl, ◌↔◌, true, false, some, ascii}
use packetsonde.Provenance.{
  in_root, ProvCfg, may_execute, write_executable, write_sensitive_path, exec_from_transient,
  classify,
}
use packetsonde.Provenance.Roots.{InRoots, classify-InRoots}

abbrev cfg : ProvCfg
cfg = record {
  enabled = true;
  transient_paths = some (ascii "/run,/tmp/");
  sensitive_paths = some (ascii "/etc/");
}

written : classify (some (ascii "write")) (some (ascii "/tmp/x")) 64 (some cfg) ≡ write_executable
unfolding classify
written = refl

root_matches_nothing : in_root (ascii "/tmp") (ascii "") ≡ false
unfolding in_root
root_matches_nothing = refl

classify-InRoots_example :
    ((classify (some (ascii "write")) (some (ascii "/tmp/x")) 64 (some cfg) ≡ write_sensitive_path)
      ↔ InRoots (ascii "/tmp/x") cfg.sensitive_paths)
    × ((classify (some (ascii "write")) (some (ascii "/tmp/x")) 64 (some cfg) ≡ write_executable)
        ↔ (¬ InRoots (ascii "/tmp/x") cfg.sensitive_paths
            × (may_execute 64 ≡ true)
            × InRoots (ascii "/tmp/x") cfg.transient_paths))
    × ((classify (some (ascii "exec")) (some (ascii "/tmp/x")) 64 (some cfg) ≡ exec_from_transient)
        ↔ InRoots (ascii "/tmp/x") cfg.transient_paths)
classify-InRoots_example = classify-InRoots (ascii "/tmp/x") 64 cfg refl
