-- ===== src/Samples/Objectives.antt =====
-- The theorem on service level objectives, applied.
use nexora_platform.Prelude.{◌+◌, ◌≡◌, true, none, List, [], ◌∷◌, ◌++◌, length}
use nexora_platform.Prelude.Int.{pos}
use nexora_platform.Prelude.Action.{ok}
use nexora_platform.Samples.{unary}
use nexora_platform.Slo.{DeviceSlo, Sample, Board, evaluate_slos}
use nexora_platform.Slo.Evaluation.{breaches, rows_from, evaluate_slos-breaches}

abbrev cool : DeviceSlo
cool = record {
  id = "s";
  device_id = "d";
  metric = "temp";
  operator = "lt";
  threshold = pos 80;
  description = none;
  enabled = true;
  created_at = 1;
}

abbrev board : Board
board = record {
  devices = "d" ∷ [];
  slos = cool ∷ record cool { id = "s2"; operator = "near" } ∷ [];
  violations = [];
  clock = 9;
  uuids_drawn = 2;
}

abbrev readings : List Sample
readings =
    record { metric = "temp"; value = pos 91; ts = 8 }
    ∷ record { metric = "load"; value = pos 1; ts = 8 }
    ∷ record { metric = "temp"; value = pos 70; ts = 9 }
    ∷ []

evaluate_slos-breaches_example : evaluate_slos unary "d" readings board ≡ (
  ok (rows_from unary "d" 2 (breaches "d" board.slos readings)),
  record board {
    violations = [] ++ rows_from unary "d" 2 (breaches "d" board.slos readings);
    uuids_drawn = 2 + length (breaches "d" board.slos readings);
  },
)
evaluate_slos-breaches_example = evaluate_slos-breaches unary "d" readings board
