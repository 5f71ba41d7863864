-- ===== src/Supervisor/Process.antt =====
-- `process_pending_request` of supervisor.py, part by part, from its last part to its first.
use altr_stream.Base.{Text, codes, text_eq, Bool, true, false, ◌||◌, ◌++◌, Option, none, some}
use altr_stream.Semver.{eq, gt}
use altr_stream.Semver.Parse.{Parsed, try_parse, format_str}
use altr_stream.Supervisor.{
  UpdateState, Status, StatusFile, Library, Host, Settings, allow_local_images, Outcome, Action,
  ◌>>=◌, ◌>>◌, pure,
}
use altr_stream.Supervisor.Actions.{
  call, write_status, call_pull_image, call_image_exists, call_recreate_service, copy_status_in,
}
use altr_stream.Supervisor.Requests.{
  Request, parse_request, is_blank, text_or, option_or, or_blank, or_other, shown, tag_or,
}
use altr_stream.Supervisor.Rollback.{status_of, settle, check_health}

module _ {W : Type 0} (library : Library) (host : Host W) (settings : Settings) where
  unfoldable pub copy_if : Bool → Action W Bool
  unfolding copy_status_in
  copy_if true = copy_status_in host
  copy_if false = pure false

  -- The `try` of part 2: whether both calls passed.
  unfoldable pub recreate_and_copy : Text → Action W Bool
  unfolding call_recreate_service copy_if
  recreate_and_copy image = do ok ← call_recreate_service host image; copy_if ok

  unfoldable pub applying : Request → Status
  unfolding status_of
  applying req =
      status_of req UpdateState.applying 50 req.current_version
        (codes "Recreating application container with updated image...") none false

  -- The new image over the old one.
  unfoldable pub replace_image : Request → Option Text → Option Text → Action W Outcome
  unfolding applying write_status recreate_and_copy check_health
  replace_image req previous_version none = pure Outcome.raised
  replace_image req previous_version (some current_image) = do
    let previous_image =
        text_or current_image (codes "ghcr.io/helloaltr/altr-stream:" ++ shown req.current_version)
    write_status host (applying req)
    applied ← recreate_and_copy req.target_image
    check_health library host req previous_image previous_version applied

  -- Part 2.
  unfoldable pub apply_image : Request → Option Text → Action W Outcome
  unfolding replace_image
  apply_image req previous_version = do
    current_image ← call host.get_current_image
    replace_image req previous_version current_image

  unfoldable pub unpulled : Request → Text → Status
  unfolding status_of
  unpulled req message =
      status_of req UpdateState.failed 0 req.current_version (codes "Failed to pull image.")
        (some message) false

  -- What follows a pull that raised, and a look for the image, which may raise too.
  unfoldable pub pull_failed : Request → Option Text → Text → Option Bool → Action W Outcome
  unfolding apply_image settle unpulled
  pull_failed req previous_version message none = pure Outcome.raised
  pull_failed req previous_version message (some true) = apply_image req previous_version
  pull_failed req previous_version message (some false) = settle library host (unpulled req message)

  unfoldable pub exists_locally : Text → Action W (Option Bool)
  unfolding call_image_exists
  exists_locally image = by_permission (allow_local_images settings)
    where
      by_permission : Bool → Action W (Option Bool)
      by_permission true = call_image_exists host image
      by_permission false = pure (some false)

  unfoldable pub after_pull : Request → Option Text → Option Text → Action W Outcome
  unfolding apply_image exists_locally pull_failed
  after_pull req previous_version none = apply_image req previous_version
  after_pull req previous_version (some message) = do
    found ← exists_locally req.target_image
    pull_failed req previous_version message found

  unfoldable pub staging : Request → Status
  unfolding status_of
  staging req =
      status_of req UpdateState.staging 25 req.current_version
        (codes "Downloading target image "
          ++ (req.target_image
              ++ codes " (this may take several minutes on slower connections)..."))
        none false

  -- Part 1.
  unfoldable pub stage : Request → Option Text → Action W Outcome
  unfolding staging write_status call_pull_image after_pull
  stage req previous_version = do
    write_status host (staging req)
    raised ← call_pull_image host req.target_image
    after_pull req previous_version raised

  -- The node already runs the target, or a newer version.
  unfoldable pub already_running : Request → Parsed → Status
  unfolding status_of format_str
  already_running req running =
      status_of req UpdateState.completed 100 (some (format_str library.matching running))
        (codes "Service is already running v" ++ (req.target_version ++ codes ".")) none false

  unfoldable pub running_newer : Request → Parsed → Status
  unfolding status_of format_str
  running_newer req running =
      let version = format_str library.matching running in
      let message =
        codes "Cannot update to older version v"
        ++ (req.target_version ++ (codes " (service is on v" ++ (version ++ codes ")."))) in
      let error =
        codes "Target version v"
        ++ (req.target_version ++ (codes " is older than running v" ++ (version ++ codes "."))) in
      status_of req UpdateState.failed 0 (some version) message (some error) false

  -- Not the target's version: a newer one is kept.
  unfoldable pub unless_newer : Request → Text → Parsed → Bool → Action W Outcome
  unfolding settle running_newer stage
  unless_newer req version running true = settle library host (running_newer req running)
  unless_newer req version running false = stage req (or_other (some version) req.current_version)

  unfoldable pub unless_same : Request → Text → Parsed → Parsed → Bool → Action W Outcome
  unfolding settle already_running unless_newer gt
  unless_same req version running target true = settle library host (already_running req running)
  unless_same req version running target false =
      unless_newer req version running (gt library.matching.digits running.version target.version)

  unfoldable pub compare_versions :
      Request → Text → Option Parsed → Option Parsed → Action W Outcome
  unfolding unless_same eq stage
  compare_versions req version (some running) (some target) =
      unless_same req version running target (eq running.version target.version)
  compare_versions req version _ _ = stage req (or_other (some version) req.current_version)

  abbrev pub tag_if : Text → Option Text → Option Text
  tag_if version none = none
  tag_if version (some image) = some (tag_or version image)

  unfoldable pub with_tag : Text → Bool → Action W (Option Text)
  with_tag version true = do image ← call host.get_current_image; pure (tag_if version image)
  with_tag version false = pure (some version)

  -- The version that runs: of the node, of the request, or of the image's tag, none where asking for
  -- the image raises.
  unfoldable pub running_version : Request → Action W (Option Text)
  unfolding text_eq with_tag
  running_version req = do
    live ← call host.get_live_version
    let version = option_or live (or_blank req.current_version)
    with_tag version (is_blank version || text_eq version (codes "unknown"))

  -- The request against the version that runs.
  unfoldable pub reconcile_request : Request → Option Text → Action W Outcome
  unfolding try_parse compare_versions
  reconcile_request req none = pure Outcome.raised
  reconcile_request req (some version) =
      compare_versions req version (try_parse library.matching version)
        (try_parse library.matching req.target_version)

  unfoldable pub invalid_request : Text → Status
  invalid_request message = record {
    request_id = none;
    state = UpdateState.failed;
    current_version = some (some (codes "unknown"));
    target_version = none;
    progress_percent = 0;
    message = codes "Update request validation failed.";
    error = some (codes "Invalid update request: " ++ message);
    rollback_performed = false;
  }

  -- A request that was read, or that reading raised for.
  unfoldable pub process_request : Text → Option Request → Action W Outcome
  unfolding settle invalid_request running_version reconcile_request
  process_request content none = do
    status ← settle library host (invalid_request (library.invalid content))
    pure (Outcome.returned none)
  process_request content (some req) = do
    version ← running_version req
    reconcile_request req version

  unfoldable pub process_content : Option Text → Action W Outcome
  unfolding parse_request process_request
  process_content none = pure (Outcome.returned none)
  process_content (some content) = process_request content (parse_request library content)

  unfoldable pub put_status : Option StatusFile → Action W (Unit {0})
  put_status none s = (tt, s)
  put_status (some file) s = (tt, record s { status_file = file })

  unfoldable pub put_request : Option Text → Action W (Unit {0})
  unfolding put_status
  put_request none = pure tt
  put_request (some content) = do
    (λ s. (tt, record s { request_file = some content }))
    file ← call host.copy_status
    put_status file

  -- Without a request on the host, the container's request is copied, and its status with it.
  unfoldable pub synchronize : Option Text → Action W (Unit {0})
  unfolding put_request
  synchronize (some content) = pure tt
  synchronize none = do content ← call host.copy_request; put_request content

  unfoldable pub process_pending_request : Action W Outcome
  unfolding synchronize process_content
  process_pending_request = do
    (λ s. synchronize s.request_file s)
    (λ s. process_content s.request_file s)
