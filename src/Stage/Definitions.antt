-- ===== src/Stage/Definitions.antt =====
-- internal/stage/definitions.go: the table of the 32 stages, in the order of the source.
mod Phase0
pub mod Phase1
pub mod Phase2
mod Phase3
mod Phase4
use devteam.Prelude.{List, [], ◌∷◌}
use devteam.Db.Types.{StageDefinition}
use Phase0.{stage_0_1, stage_0_2, stage_0_3}
use Phase1.{stage_1_1, stage_1_2, stage_1_3, stage_1_4, stage_1_5, stage_1_6, stage_1_7}
use Phase2.{stage_2_1, stage_2_2, stage_2_3, stage_2_4, stage_2_5, stage_2_6, stage_2_7, stage_2_8}
use Phase3.{stage_3_1, stage_3_2, stage_3_3, stage_3_4, stage_3_5, stage_3_6, stage_3_7}
use Phase4.{stage_4_1, stage_4_2, stage_4_3, stage_4_4, stage_4_5, stage_4_6, stage_4_7}

abbrev pub stage_definitions : List StageDefinition
stage_definitions =
    stage_0_1 ∷ stage_0_2 ∷ stage_0_3 ∷ stage_1_1 ∷ stage_1_2 ∷ stage_1_3 ∷ stage_1_4 ∷ stage_1_5
    ∷ stage_1_6 ∷ stage_1_7 ∷ stage_2_1 ∷ stage_2_2 ∷ stage_2_3 ∷ stage_2_4 ∷ stage_2_5 ∷ stage_2_6
    ∷ stage_2_7 ∷ stage_2_8 ∷ stage_3_1 ∷ stage_3_2 ∷ stage_3_3 ∷ stage_3_4 ∷ stage_3_5 ∷ stage_3_6
    ∷ stage_3_7 ∷ stage_4_1 ∷ stage_4_2 ∷ stage_4_3 ∷ stage_4_4 ∷ stage_4_5 ∷ stage_4_6 ∷ stage_4_7
    ∷ []
