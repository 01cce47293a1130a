-- ===== src/Api/Signal.antt =====
-- internal/api/agent_handlers.go: the signal that an agent posts when it has done its work.
-- The server has a database, so the guard `s.db != nil` holds. A body that is not JSON is `none`,
-- and the answer is its HTTP status. The human proxy is started behind the answer, as a call.
use devteam.Prelude.{
  Bool, Option, String, [], any, codes, cut_prefix, none, not, some, ℕ, ◌&&◌, ◌||◌, ◌∷◌, ◌++◌, ◌==◌,
  if◌then◌else◌, nat_eq, string_eq, text_eq,
}
use devteam.Feature.Types.{Feature, in_progress}
use devteam.Feature.Phase.{current_phase}
use devteam.Db.Types.{Database, FeatureRow}
use devteam.Db.Events.{save_outcome}
use devteam.Pipeline.System.{
  System, broadcast, record_event, dispatch_human_proxy, call, ◌▷◌, get_feature,
}

pub record SignalRequest : Type 0 where
  pub outcome : String
  pub target : String
  pub notes : String

abbrev pub bad_request : ℕ
bad_request = 400

abbrev pub ok_status : ℕ
ok_status = 200

-- The row that ensureFeatureInDB inserts, with the defaults of the columns it leaves out. Its times
-- are columns that no load reads.
abbrev bare_feature : String → FeatureRow
bare_feature id = record {
  id = id;
  title = id;
  status = in_progress;
  current_phase = "inception";
  priority = 3;
  scope = "feature";
  depth = "standard";
  test_strategy = "standard";
  execution_mode = "";
  autonomy_mode = "";
  feature_data = none;
}

-- INSERT ... ON CONFLICT (id) DO NOTHING.
unfoldable pub ensure_feature : String → Database → Database
ensure_feature id db =
    if db.up && not (any (λ r. r.id == id) db.features)
    then record db { features = db.features ++ bare_feature id ∷ [] }
    else db

-- The outcome and the target: "recirculate:3.1" is the outcome `recirculate` with a target.
abbrev pub parse_outcome : SignalRequest → String × String
parse_outcome req = elim (cut_prefix (codes "recirculate:") req.outcome) [
  | none ↦ (req.outcome, req.target)
  | some rest ↦ ("recirculate", if req.target == "" then rest else req.target)
]

abbrev event_for : String → String
event_for outcome =
    if outcome == "recirculate"
    then "recirculate"
    else if outcome == "needs_feedback"
    then "needs_feedback"
    else if outcome == "failed"
    then "failed"
    else "phase_complete"

abbrev pub phase_of : Option Feature → String
phase_of none = ""
phase_of (some f) = current_phase f

-- The part that writes: the outcome is stored under the phase of the feature.
unfoldable pub store_signal : ℕ → String → SignalRequest → System → System
unfolding ensure_feature
store_signal now id req sys =
    let (outcome, target) = parse_outcome req in
    let ensured : System = record sys { db = ensure_feature id sys.db } in
    let phase = phase_of (get_feature ensured id) in
    let saved : System = record ensured {
      db = (save_outcome ensured.db now id phase outcome target req.notes).0;
    } in
    call (record_event id (event_for outcome) phase req.notes) saved

abbrev answers_itself : Feature → Bool
answers_itself f = f.execution_mode == "autonomous" || f.execution_mode == "guided"

unfoldable pub ask_human_proxy : String → Option Feature → System → System
ask_human_proxy id none sys = sys
ask_human_proxy id (some f) sys =
    let phase = if current_phase f == "" then "ideation" else current_phase f in
    if answers_itself f then call (dispatch_human_proxy id phase) sys else sys

unfoldable pub record_signal : ℕ → String → SignalRequest → System → System
unfolding store_signal ask_human_proxy
record_signal now id req sys =
    let told = store_signal now id req sys ▷ call (broadcast id "outcome_signal" "" 0) in
    if req.outcome == "needs_feedback" then ask_human_proxy id (get_feature told id) told else told

unfoldable pub handle_signal : ℕ → String → Option SignalRequest → System → System × ℕ
unfolding record_signal
handle_signal now id none sys = (sys, bad_request)
handle_signal now id (some req) sys =
    if id == "" || req.outcome == ""
    then (sys, bad_request)
    else (record_signal now id req sys, ok_status)
