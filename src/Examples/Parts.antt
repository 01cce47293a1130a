-- ===== src/Examples/Parts.antt =====
-- Gates, stage ids, scopes, phases and the tables of the database on sample inputs.
use mathlib.Core.Option
use devteam.Prelude.{
  All, Bool, List, Text, [], arith, codes, inl, keep, leb, map, none, refl, some, true, ℕ, ◌+◌, ◌≡◌,
  ◌≢◌, ◌↔◌, ◌⊎◌, ◌&&◌, ◌∷◌, ◌++◌, ◌==◌, if◌then◌else◌, nat_eq, string_eq, text_eq,
}
use devteam.Gate.{Gate, new, approved, accept_as_is, approve}
use devteam.Gate.Lifecycle.{
  Op, do_approve, do_reject, do_accept, do_reset, run, IsValid, apply, new-run-IsValid,
}
use devteam.Stage.Status.{completed}
use devteam.Stage.Ids.{is_valid_stage_id, IsNumber, Bytes, is_valid_stage_id_iff}
use devteam.Stage.Definitions.{stage_definitions}
use devteam.Db.Types.{StageDefinition}
use devteam.Db.Stages.{in_scope, written, get_feature_stage_for_bolt, update_feature_stage_for_bolt}
use devteam.Db.Rows.{same_key, get-update}
use devteam.Db.Keys.{update, execute, IsKeyed, execute-IsKeyed}
use devteam.Examples.Data.{board}

abbrev calls : List Op
calls = do_reject "a" ∷ do_reject "b" ∷ do_reject "c" ∷ do_accept 9 ∷ []

new-run-IsValid_example : IsValid (run (new "login-1" "1.1") calls)
new-run-IsValid_example = new-run-IsValid "login-1" "1.1" calls

abbrev approved_gate : Gate
approved_gate = (apply (do_approve 5) (new "login-1" "1.1")).0

no_resets : All (λ op. op ≢ do_reset) calls
no_resets = ground arith

approved_gate-decided : (approved_gate.state ≡ approved) ⊎ (approved_gate.state ≡ accept_as_is)
unfolding new approve
approved_gate-decided = inl refl

is_valid_stage_id_iff_example : (is_valid_stage_id (b'1' ∷ b'.' ∷ b'2' ∷ []) ≡ true) ↔ (
    (a : Bytes) × (b : Bytes) × (b'1' ∷ b'.' ∷ b'2' ∷ [] ≡ a ++ b'.' ∷ b) × IsNumber a × IsNumber b)
is_valid_stage_id_iff_example = is_valid_stage_id_iff (b'1' ∷ b'.' ∷ b'2' ∷ [])

-- The letters A to Z.
abbrev ascii_lower : ℕ → ℕ
ascii_lower c = if leb 65 c && leb c 90 then c + 32 else c

abbrev is_blank : ℕ → Bool
is_blank c = c == b' '

abbrev intent : Text
intent = codes "Fix CVE in the login"

abbrev timeout : ℕ
timeout = 30

abbrev mvp_stages : List StageDefinition
mvp_stages = keep (in_scope "mvp") stage_definitions

get-update_example :
    get_feature_stage_for_bolt
      (update_feature_stage_for_bolt board "login-1" "1.1" 0 completed 1 none (some 60)).0
      "login-1"
      "1.1"
      0
    ≡ (if same_key "login-1" "1.1" 0 "login-1" "1.1" 0
        then Option.map
            (written completed 1 none (some 60))
            (get_feature_stage_for_bolt board "login-1" "1.1" 0)
        else get_feature_stage_for_bolt board "login-1" "1.1" 0)
get-update_example = get-update board "login-1" "1.1" 0 "login-1" "1.1" 0 completed 1 none (some 60)

execute-IsKeyed_example :
    IsKeyed (execute (update "login-1" "1.1" 0 completed 1 none (some 60)) board).feature_stages
execute-IsKeyed_example =
    execute-IsKeyed (update "login-1" "1.1" 0 completed 1 none (some 60)) board
      (refl, (refl, (refl, (refl, tt))))
