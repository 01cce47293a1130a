-- ===== src/Gate.antt =====
-- internal/gate/gate.go: the approval gate of a stage.
-- A method on `*Gate` returns the new gate beside its error; `nil` is `none`. `time.Now()` is the
-- argument `now`.
pub mod Lifecycle
use devteam.Prelude.{ℕ, ◌+◌, String, Bool, true, false, Option, none, some, leb, if◌then◌else◌}

-- The constructor for the source's "open" is `opened`.
pub data State : Type 0 where
  opened approved rejected accept_as_is : State

abbrev pub max_revisions : ℕ
max_revisions = 3

pub record Gate : Type 0 where
  pub feature_id : String
  pub stage_id : String
  pub bolt_number : ℕ
  pub state : State
  pub revision_count : ℕ
  pub revision_notes : String
  pub decided_at : Option ℕ

pub data GateError : Type 0 where
  not_open : String → String → State → GateError
  not_available : ℕ → ℕ → GateError

unfoldable pub can_accept_as_is : Gate → Bool
can_accept_as_is g = leb max_revisions g.revision_count

abbrev is_opened : State → Bool
is_opened opened = true
is_opened _ = false

unfoldable pub is_open : Gate → Bool
is_open g = is_opened g.state

unfoldable pub approve : ℕ → Gate → Gate × Option GateError
unfolding is_open
approve now g =
    if is_open g
    then (record g { state = approved; decided_at = some now }, none)
    else (g, some (not_open g.feature_id g.stage_id g.state))

unfoldable pub reject : String → Gate → Gate × Option GateError
unfolding is_open
reject notes g =
    if is_open g
    then (
      record g { state = rejected; revision_count = g.revision_count + 1; revision_notes = notes },
      none,
    )
    else (g, some (not_open g.feature_id g.stage_id g.state))

unfoldable pub accept : ℕ → Gate → Gate × Option GateError
unfolding is_open can_accept_as_is
accept now g =
    if can_accept_as_is g
    then (if is_open g
        then (record g { state = accept_as_is; decided_at = some now }, none)
        else (g, some (not_open g.feature_id g.stage_id g.state)))
    else (g, some (not_available max_revisions g.revision_count))

unfoldable pub reset : Gate → Gate
reset g = record g { state = opened; revision_notes = ""; decided_at = none }

unfoldable pub new : String → String → Gate
new feature_id stage_id = record {
  feature_id = feature_id;
  stage_id = stage_id;
  bolt_number = 0;
  state = opened;
  revision_count = 0;
  revision_notes = "";
  decided_at = none;
}
