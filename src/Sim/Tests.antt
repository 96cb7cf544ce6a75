-- ===== src/Sim/Tests.antt =====
-- The theorem on the baseline dataset at a concrete duration.
use can_sentinental.Prelude.{◌≡◌, [], raise, struct_error, arith}
use can_sentinental.Prelude.Int.{pos}
use can_sentinental.Floats.Fixed.{micro}
use can_sentinental.Sim.{generate_baseline_dataset}
use can_sentinental.Sim.Baseline.{generate_baseline_dataset_raises}

-- 0.01 s, two steps.
generate_baseline_dataset_raises_example :
    generate_baseline_dataset (pos 10000) [] ≡ raise struct_error
generate_baseline_dataset_raises_example =
    generate_baseline_dataset_raises (pos 10000) [] (omega arith)
