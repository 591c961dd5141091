-- ===== src/Loadtest/Tests.antt =====
-- The schedule of three votes a second.
use gigaquizz.Common.{◌*◌, ◌<◌, ◌↔◌, arith}
use gigaquizz.GoTime.{second}
use gigaquizz.Loadtest.{slots_before}
use gigaquizz.Loadtest.Slots.{slots_before_lem}

slots_before_lem_example : (5 < slots_before (2 * second) 3) ↔ (5 * second < 2 * second * 3)
slots_before_lem_example =
    slots_before_lem (2 * second) 3 5 (omega arith) (omega arith) (omega arith)
