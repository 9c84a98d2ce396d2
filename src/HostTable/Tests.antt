-- ===== src/HostTable/Tests.antt =====
-- A run of src/agent/src/host_table.c: a first host is heard.
use packetsonde.Prelude.{none, some, [], ◌∷◌}
use packetsonde.HostTable.{Sighting, init, update}
use packetsonde.HostTable.Invariant.{IsValid, Did, init-IsValid, update-IsValid}

abbrev heard : Sighting
heard = record {
  ip = some (49 ∷ 46 ∷ 50 ∷ []);
  mac = some (2 ∷ 0 ∷ 0 ∷ 0 ∷ 0 ∷ 1 ∷ []);
  hostname = some (97 ∷ []);
  device_type = none;
  source = some [];
  now_usec = 5;
}

update-IsValid_example : IsValid (update init heard).1 × Did init heard (update init heard)
update-IsValid_example = update-IsValid init heard init-IsValid
