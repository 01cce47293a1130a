-- ===== src/Examples/Serving.antt =====
-- The server and the chat on sample inputs.
use devteam.Prelude.{
  Bool, List, Text, [], codes, false, refl, some, true, ℕ, ◌≡◌, ◌==◌, nat_eq, string_eq, text_eq,
}
use devteam.Pipeline.System.{get_feature}
use devteam.Db.Features.{load_feature_state}
use devteam.Api.Server.{Server, is_feature_active, mark_feature_active}
use devteam.Api.Requests.{construction_request, run_stage_request, handle}
use devteam.Api.Running.{
  force_rerun_stage, run_stage_seen, run_construction, run_construction_seen, dispatch,
}
use devteam.Api.Workers.{Job, finish}
use devteam.Api.Exclusive.{holders, IsExclusive, LockStep, handled, step-LockStep}
use devteam.Api.Raced.{Doubles, act, start_stage, act-doubles}
use devteam.Api.Doubled.{force_rerun_stage-doubles}
use devteam.Api.Refused.{Keeps, handle-Keeps}
use devteam.Chat.Parser.{
  ParseResult, Citation, parse_stream, parse_tool_call_body, parse_citations_body, flat,
}
use devteam.Chat.Kept.{IsCut}
use devteam.Chat.Stream.{parse_stream-IsCut}
use devteam.Examples.Data.{login, clock}
use devteam.Examples.Bolting.{quiet_day, saved_board}

abbrev idle : Server
idle = record { sys = saved_board; active = []; workers = [] }

-- A request that is answered by starting the work on the feature.
abbrev busy : Server
busy = (handle clock (construction_request "login-1") idle).0

idle-IsExclusive : IsExclusive idle
unfolding holders is_feature_active
idle-IsExclusive id = refl

no_job : Job
no_job = record { turns = []; bolt_visits = λ stage. quiet_day }

busy-login : get_feature busy.sys "login-1" ≡ some login
unfolding handle run_construction run_construction_seen load_feature_state is_feature_active
    dispatch
busy-login = refl

busy-active : is_feature_active busy "login-1" ≡ true
unfolding handle is_feature_active run_construction run_construction_seen dispatch
    mark_feature_active
busy-active = refl

force_rerun_stage-doubles_example :
    let (s', r) = force_rerun_stage clock "login-1" "1.2" busy in
    (r.status ≡ 202)
    × (holders "login-1" s'.workers ≡ 2)
    × (is_feature_active s' "login-1" ≡ true)
    × (is_feature_active (finish clock no_job 0 s') "login-1" ≡ false)
    × (holders "login-1" (finish clock no_job 0 s').workers ≡ 1)
force_rerun_stage-doubles_example =
    force_rerun_stage-doubles clock no_job "login-1" "1.2" login busy
      (step-LockStep clock idle busy idle-IsExclusive
        (handled idle (construction_request "login-1") refl)).0
      busy-login busy-active

busy-IsExclusive : IsExclusive busy
busy-IsExclusive = step-LockStep_lem.0
  where
    step-LockStep_lem :
        IsExclusive busy × LockStep (λ id. holders id idle.workers) (λ id. holders id busy.workers)
    step-LockStep_lem =
        step-LockStep clock idle busy idle-IsExclusive
          (handled idle (construction_request "login-1") refl)

-- Another request to run a stage found the feature unmarked before.
act-doubles_example :
    Doubles clock no_job "login-1" busy (act false "login-1" (start_stage (some "1.2")) busy)
act-doubles_example =
    act-doubles clock no_job "login-1" (start_stage (some "1.2")) busy busy-IsExclusive busy-active

overtaken : (act false "login-1" (start_stage (some "1.2")) busy).1.status ≡ 202
unfolding handle run_construction run_construction_seen load_feature_state is_feature_active
    dispatch run_stage_seen mark_feature_active devteam.Stage.Ids.is_valid_stage_id
overtaken = refl

handle-Keeps_example : Keeps busy (handle clock (run_stage_request "login-1" (some "1.2")) busy)
handle-Keeps_example = handle-Keeps clock (run_stage_request "login-1" (some "1.2")) busy refl

abbrev is_blank : ℕ → Bool
is_blank c = c == b' '

abbrev stream : Text
stream = codes "Done. <tool-call>verb: status</tool-call> <citations>- a.md</citations> <tool-call>"

parse_stream-IsCut_example :
    (r : ParseResult) × (between : Text) × (entries : List (List Citation)) × (parse_stream is_blank
        stream
      ≡ some r)
    × IsCut
        (codes "<tool-call>")
        (codes "</tool-call>")
        (parse_tool_call_body is_blank)
        stream
        (some (between, r.tool_calls))
    × IsCut
        (codes "<citations>")
        (codes "</citations>")
        (parse_citations_body is_blank)
        between
        (some (r.text, entries))
    × (r.citations ≡ flat entries)
parse_stream-IsCut_example = parse_stream-IsCut is_blank stream
