-- ===== src/Ast/AttachPoint/Events.antt =====
-- src/probe_matcher.h: the names that the checks of attach points look up.
use bpftrace.Prelude.{List, [], ◌∷◌, Bytes, codes}

-- `ProbeListItem`, as far as names go.
pub record ProbeListItem : Type 0 where
  pub path : Bytes
  pub alias : Bytes

-- `SW_PROBE_LIST`.
unfoldable pub sw_probe_list : List ProbeListItem
sw_probe_list =
    record { path = codes "alignment-faults"; alias = [] }
    ∷ record { path = codes "bpf-output"; alias = [] }
    ∷ record { path = codes "context-switches"; alias = codes "cs" }
    ∷ record { path = codes "cpu-clock"; alias = codes "cpu" }
    ∷ record { path = codes "cpu-migrations"; alias = [] }
    ∷ record { path = codes "dummy"; alias = [] }
    ∷ record { path = codes "emulation-faults"; alias = [] }
    ∷ record { path = codes "major-faults"; alias = [] }
    ∷ record { path = codes "minor-faults"; alias = [] }
    ∷ record { path = codes "page-faults"; alias = codes "faults" }
    ∷ record { path = codes "task-clock"; alias = [] }
    ∷ []

-- `HW_PROBE_LIST`.
unfoldable pub hw_probe_list : List ProbeListItem
hw_probe_list =
    record { path = codes "backend-stalls"; alias = [] }
    ∷ record { path = codes "branch-instructions"; alias = codes "branches" }
    ∷ record { path = codes "branch-misses"; alias = [] }
    ∷ record { path = codes "bus-cycles"; alias = [] }
    ∷ record { path = codes "cache-misses"; alias = [] }
    ∷ record { path = codes "cache-references"; alias = [] }
    ∷ record { path = codes "cpu-cycles"; alias = codes "cycles" }
    ∷ record { path = codes "frontend-stalls"; alias = [] }
    ∷ record { path = codes "instructions"; alias = [] }
    ∷ record { path = codes "ref-cycles"; alias = [] }
    ∷ []

-- `TIME_UNITS` and `SIGNALS`.
unfoldable pub time_units : List Bytes
time_units = codes "s" ∷ codes "ms" ∷ codes "us" ∷ codes "hz" ∷ []

unfoldable pub signals : List Bytes
signals = codes "SIGUSR1" ∷ []
