-- ===== src/Supervisor/Rollback.antt =====
-- The end of an update of supervisor.py: the health check, its success, or the rollback.
use altr_stream.Base.{
  Text, codes, text_eq, ℕ, Bool, true, false, ◌&&◌, [], ◌++◌, Option, none, some,
}
use altr_stream.Supervisor.{UpdateState, Status, Library, Host, Outcome, Action, ◌>>=◌, ◌>>◌, pure}
use altr_stream.Supervisor.Actions.{
  call, write_status, cleanup_request_file, call_recreate_service, copy_status_in,
  call_wait_for_health, persist_image_update,
}
use altr_stream.Supervisor.Requests.{Request, option_or, or_other, lstrip_v}

-- The status of a request: state, percent, current version, message, error, rollback_performed.
unfoldable pub status_of :
    Request → UpdateState → ℕ → Option Text → Text → Option Text → Bool → Status
status_of req state percent current message error rollback = record {
  request_id = req.request_id;
  state = state;
  current_version = some current;
  target_version = some req.target_version;
  progress_percent = percent;
  message = message;
  error = error;
  rollback_performed = rollback;
}

module _ {W : Type 0} (library : Library) (host : Host W) where
  -- A terminal status is written, and the request is gone.
  unfoldable pub settle : Status → Action W Outcome
  unfolding write_status cleanup_request_file
  settle status = do
    write_status host status
    cleanup_request_file host
    pure (Outcome.returned (some status))

  -- The status that is written if the previous version is not verified.
  unfoldable pub unverified : Request → Text → Option Text → Bool → Status
  unfolding status_of
  unverified req previous_version live performed =
      let message =
        codes "Update to "
        ++ req.target_version
        ++ codes " failed and rollback verification failed." in
      let error =
        codes "Update to "
        ++ req.target_version
        ++ (codes " failed healthcheck. Rollback verification failed: expected "
            ++ (previous_version
                ++ (codes ", but node is running "
                    ++ (option_or live (codes "unknown") ++ codes ".")))) in
      status_of req UpdateState.failed 100 (or_other live req.current_version) message (some error)
        performed

  unfoldable pub restored : Request → Text → Option Text → Status
  unfolding status_of
  restored req previous_version live =
      let version = option_or live previous_version in
      let message =
        codes "Rolled back to previous version " ++ (version ++ codes " due to failure.") in
      let error =
        codes "New version "
        ++ (req.target_version
            ++ (codes " failed health verification; successfully rolled back to "
                ++ (version ++ codes "."))) in
      status_of req UpdateState.rolled_back 100 (some version) message (some error) true

  -- The end of a rollback, restored or not.
  unfoldable pub conclude : Request → Text → Text → Bool → Option Text → Bool → Action W Outcome
  unfolding settle unverified restored persist_image_update
  conclude req previous_image previous_version performed live true = do
    persist_image_update library previous_image
    settle (restored req previous_version live)
  conclude req previous_image previous_version performed live false =
      settle (unverified req previous_version live performed)

  -- `clean_live == clean_exp`
  unfoldable pub same_version : Option Text → Text → Bool
  unfolding lstrip_v text_eq
  same_version live version = text_eq (lstrip_v (option_or live [])) (lstrip_v version)

  -- The decision; `lstrip` of a previous version that is None raises.
  unfoldable pub decide :
      Request → Text → Option Text → Bool → Bool → Option Text → Action W Outcome
  unfolding conclude same_version
  decide req previous_image none performed healthy live = pure Outcome.raised
  decide req previous_image (some version) performed healthy live =
      conclude req previous_image version performed live (healthy && same_version live version)

  -- The rollback, up to its decision: after a recreation that did not raise, the health is checked.
  unfoldable pub verify_rollback : Request → Text → Option Text → Bool → Action W Outcome
  unfolding decide copy_status_in call_wait_for_health
  verify_rollback req previous_image previous_version true = do
    synced ← copy_status_in host
    healthy ← call_wait_for_health host previous_version
    live ← call host.get_live_version
    decide req previous_image previous_version true healthy live
  verify_rollback req previous_image previous_version false =
      decide req previous_image previous_version false false none

  unfoldable pub rolling_back : Request → Text → Status
  unfolding status_of
  rolling_back req previous_image =
      status_of req UpdateState.rolling_back 85 req.current_version
        (codes "Activation failed. Rolling back to " ++ (previous_image ++ codes "..."))
        (some (codes "Health check verification failed.")) true

  -- Part 5.
  unfoldable pub roll_back_to : Request → Text → Option Text → Action W Outcome
  unfolding rolling_back write_status call_recreate_service verify_rollback
  roll_back_to req previous_image previous_version = do
    write_status host (rolling_back req previous_image)
    ok ← call_recreate_service host previous_image
    verify_rollback req previous_image previous_version ok

  unfoldable pub completed : Request → Status
  unfolding status_of
  completed req =
      status_of req UpdateState.completed 100 (some req.target_version)
        (codes "Update to " ++ (req.target_version ++ codes " completed successfully.")) none false

  -- Part 4, or part 5.
  unfoldable pub activate : Request → Text → Option Text → Bool → Action W Outcome
  unfolding persist_image_update settle completed roll_back_to
  activate req previous_image previous_version true = do
    persist_image_update library req.target_image
    settle (completed req)
  activate req previous_image previous_version false =
      roll_back_to req previous_image previous_version

  unfoldable pub checking_health : Request → Status
  unfolding status_of
  checking_health req =
      status_of req UpdateState.health_check 75 req.current_version
        (codes "Verifying new version healthcheck...") none false

  -- Part 3, which is skipped if the service was not recreated.
  unfoldable pub check_health : Request → Text → Option Text → Bool → Action W Outcome
  unfolding checking_health write_status call_wait_for_health activate
  check_health req previous_image previous_version true = do
    write_status host (checking_health req)
    healthy ← call_wait_for_health host (some req.target_version)
    activate req previous_image previous_version healthy
  check_health req previous_image previous_version false =
      activate req previous_image previous_version false
