-- ===== src/Supervisor/Startup.antt =====
-- `reconcile_startup_state` and `run_loop` of supervisor.py.
use altr_stream.Base.{
  Text, codes, ℕ, zero, suc, Bool, true, false, [], ◌∷◌, ◌++◌, Option, none, some,
}
use altr_stream.Semver.{eq}
use altr_stream.Semver.Parse.{Parsed, try_parse}
use altr_stream.Supervisor.{
  UpdateState, is_active, Status, StatusFile, Library, Host, Settings, Outcome, Action, ◌>>=◌, ◌>>◌,
  pure,
}
use altr_stream.Supervisor.Actions.{call}
use altr_stream.Supervisor.Requests.{option_or, or_other, shown}
use altr_stream.Supervisor.Rollback.{settle}
use altr_stream.Supervisor.Process.{process_pending_request}

-- The value of a state.
abbrev pub state_text : UpdateState → Text
state_text UpdateState.idle = codes "idle"
state_text UpdateState.requested = codes "requested"
state_text UpdateState.staging = codes "staging"
state_text UpdateState.applying = codes "applying"
state_text UpdateState.health_check = codes "health_check"
state_text UpdateState.completed = codes "completed"
state_text UpdateState.failed = codes "failed"
state_text UpdateState.cancelled = codes "cancelled"
state_text UpdateState.rolling_back = codes "rolling_back"
state_text UpdateState.rolled_back = codes "rolled_back"

module _ {W : Type 0} (library : Library) (host : Host W) (settings : Settings) where
  abbrev pub same_parsed : Option Parsed → Option Parsed → Bool
  unfolding eq
  same_parsed (some v) (some w) = eq v.version w.version
  same_parsed _ _ = false

  -- The node runs the target: both versions are there, and equal.
  unfoldable pub reached_target : Option Text → Option Text → Bool
  unfolding try_parse eq
  reached_target (some (c ∷ live)) (some (d ∷ target)) =
      same_parsed (try_parse library.matching (c ∷ live)) (try_parse library.matching (d ∷ target))
  reached_target _ _ = false

  -- `status_data.get("current_version", "unknown")`
  abbrev pub current_or : Option (Option Text) → Option Text
  current_or none = some (codes "unknown")
  current_or (some version) = version

  unfoldable pub reconciled : Status → Option Text → Bool → Status
  unfolding or_other
  reconciled status live true = record {
    request_id = status.request_id;
    state = UpdateState.completed;
    current_version = some live;
    target_version = status.target_version;
    progress_percent = 100;
    message =
        codes "Service is running target version v"
        ++ (option_or status.target_version [] ++ codes ".");
    error = none;
    rollback_performed = false;
  }
  reconciled status live false =
      let actual = or_other live (current_or status.current_version) in
      record {
        request_id = status.request_id;
        state = UpdateState.failed;
        current_version = some actual;
        target_version = status.target_version;
        progress_percent = 0;
        message =
            codes "Update workflow interrupted by supervisor restart while in '"
            ++ (state_text status.state ++ codes "'.");
        error = some (
            codes "Supervisor was restarted during active state '"
            ++ (state_text status.state
                ++ (codes "'. Node is running v" ++ (shown actual ++ codes "."))));
        rollback_performed = false;
      }

  unfoldable pub reconcile_if : Bool → Status → Action W Outcome
  unfolding reconciled reached_target settle
  reconcile_if false status = pure (Outcome.returned none)
  reconcile_if true status = do
    live ← call host.get_live_version
    settle library host (reconciled status live (reached_target live status.target_version))

  unfoldable pub reconcile_file : StatusFile → Action W Outcome
  unfolding reconcile_if
  reconcile_file StatusFile.missing = pure (Outcome.returned none)
  reconcile_file StatusFile.unreadable = pure (Outcome.returned none)
  reconcile_file (StatusFile.holds status) = reconcile_if (is_active status.state) status

  unfoldable pub reconcile_startup_state : Action W Outcome
  unfolding reconcile_file
  reconcile_startup_state s = reconcile_file s.status_file s

  -- An exception of a round ends the loop.
  abbrev pub unless_raised : Outcome → Action W Bool → Action W Bool
  unless_raised (Outcome.returned status) next = next
  unless_raised Outcome.raised next = pure false

  -- Rounds of the loop, and whether it goes on.
  unfoldable pub rounds : ℕ → Action W Bool
  unfolding process_pending_request
  rounds zero = pure true
  rounds (suc n) = do
    outcome ← process_pending_request library host settings
    unless_raised outcome (rounds n)

  -- `run_loop`, for `n` rounds, without the pid file and the signals
  unfoldable pub run_loop : ℕ → Action W Bool
  unfolding reconcile_startup_state rounds
  run_loop n = reconcile_startup_state >> rounds n
