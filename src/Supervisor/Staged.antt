-- ===== src/Supervisor/Staged.antt =====
-- The supervisor follows the workflow: an update, from the pull of its image on.
use altr_stream.Base.{
  Text, Bool, true, false, Option, none, some, ◌≡◌, inl, inr, Bool-cases, if◌then◌else◌,
}
use altr_stream.Supervisor.{Library, Host, Settings, allow_local_images, Machine}
use altr_stream.Supervisor.Actions.{
  write_status, call_pull_image, call_image_exists, call_recreate_service, call_wait_for_health,
  succeeded, note_found,
}
use altr_stream.Supervisor.Requests.{Request, is_allowed}
use altr_stream.Supervisor.Rollback.{checking_health, check_health}
use altr_stream.Supervisor.Process.{
  replace_image, copy_if, recreate_and_copy, apply_image, applying, unpulled, staging, pull_failed,
  exists_locally, after_pull, stage,
}
use altr_stream.Supervisor.Workflow.{Phase, Step, Reached}
use altr_stream.Supervisor.Follows.{
  Leads, Runs, write_status-Leads, settle-Runs, call_recreate_service-Leads, copy_status_in-Leads,
  call_wait_for_health-Leads, activate-Runs,
}

module _ {W : Type 0} (library : Library) (host : Host W) (settings : Settings) where
  check_health-Runs :
      (req : Request) (image : Text) (version : Option Text) (ok : Bool)
      → Runs
          (check_health library host req image version ok)
          (if ok then Phase.started req.target_image req.target_version else Phase.broken)
  unfolding check_health
  check_health-Runs req image version true s h =
      let t = (write_status host (checking_health library host req) s).1 in
      let (ok, u) = call_wait_for_health host (some req.target_version) t in
      activate-Runs library host req image version ok u (
        call_wait_for_health-Leads library host (some req.target_version) Step.healthy
          Step.unhealthy t
          (write_status-Leads library host (checking_health library host req) Step.check s h))
  check_health-Runs req image version false s h =
      activate-Runs library host req image version false s h

  copy_if-Leads :
      (image version : Text) (ok : Bool)
      → Leads
          (copy_if library host settings ok)
          (if ok then Phase.replaced image version else Phase.broken)
          (λ good. if good then Phase.started image version else Phase.broken)
  unfolding copy_if
  copy_if-Leads image version true s h =
      copy_status_in-Leads library host Step.copy Step.copy_fails s h
  copy_if-Leads image version false s h = h

  replace_image-Runs :
      (req : Request) (version image : Option Text)
      → Runs
          (replace_image library host settings req version image)
          (Phase.ready req.target_image req.target_version)
  unfolding replace_image recreate_and_copy
  replace_image-Runs req version none s h = (_, h)
  replace_image-Runs req version (some image) s h =
      let t = (write_status host (applying library host settings req) s).1 in
      let (ok, u) = call_recreate_service host req.target_image t in
      let (applied, v) = copy_if library host settings ok u in
      check_health-Runs req _ version applied v (
        copy_if-Leads req.target_image req.target_version ok u (
          call_recreate_service-Leads library host req.target_image Step.recreate
            Step.recreate_fails t
            (write_status-Leads library host (applying library host settings req) Step.apply s h)))

  apply_image-Runs :
      (req : Request) (version : Option Text)
      → Runs
          (apply_image library host settings req version)
          (Phase.ready req.target_image req.target_version)
  unfolding apply_image
  apply_image-Runs req version s h =
      let (image, w) = host.get_current_image s.world in
      replace_image-Runs req version image (record s { world = w }) h

  -- After a look for the image.
  abbrev looked : Text → Text → Option Bool → Phase
  looked image version (some true) = Phase.ready image version
  looked image version _ = Phase.unpulled image version

  note_found-Reached :
      (image version : Text) (found : Option Bool) (s : Machine W)
      → Reached s.events (Phase.unpulled image version)
      → Reached (note_found host image found s).1.events (looked image version found)
  note_found-Reached image version none s h = h
  note_found-Reached image version (some true) s h = Reached.later h Step.find
  note_found-Reached image version (some false) s h = Reached.later h Step.find_none

  exists_locally-Leads :
      (image version : Text)
      → Leads
          (exists_locally library host settings image)
          (Phase.unpulled image version)
          (looked image version)
  unfolding exists_locally call_image_exists
  exists_locally-Leads image version s h = elim (Bool-cases (allow_local_images settings)) [
    | inl e ↦ rw e (
        let (found, w) = host.image_exists_locally image s.world in
        note_found-Reached image version found (record s { world = w }) h)
    | inr e ↦ rw e h
  ]

  pull_failed-Runs :
      (req : Request) (version : Option Text) (message : Text) (found : Option Bool)
      → Runs
          (pull_failed library host settings req version message found)
          (looked req.target_image req.target_version found)
  unfolding pull_failed
  pull_failed-Runs req version message none s h = (_, h)
  pull_failed-Runs req version message (some true) s h = apply_image-Runs req version s h
  pull_failed-Runs req version message (some false) s h =
      settle-Runs library host (unpulled library host settings req message) Step.give_up s h

  after_pull-Runs :
      (req : Request) (version raised : Option Text)
      → Runs (after_pull library host settings req version raised) (
          if succeeded host raised
          then Phase.ready req.target_image req.target_version
          else Phase.unpulled req.target_image req.target_version)
  unfolding after_pull
  after_pull-Runs req version none s h = apply_image-Runs req version s h
  after_pull-Runs req version (some message) s h =
      let (found, t) = exists_locally library host settings req.target_image s in
      pull_failed-Runs req version message found t
        (exists_locally-Leads req.target_image req.target_version s h)

  call_pull_image-Leads :
      (image version : Text)
      → Leads (call_pull_image host image) (Phase.staged image version) (λ raised.
        if succeeded host raised then Phase.ready image version else Phase.unpulled image version)
  unfolding call_pull_image
  call_pull_image-Leads image version s h =
      elim (Bool-cases (succeeded host (host.pull_image image s.world).0)) [
        | inl e ↦ rw e (Reached.later h Step.pull)
        | inr e ↦ rw e (Reached.later h Step.pull_fails)
      ]

  pub stage-Runs :
      (req : Request) (version : Option Text)
      → is_allowed req.target_image ≡ true
      → Runs (stage library host settings req version) Phase.waiting
  unfolding stage
  stage-Runs req version allowed s h =
      let t = (write_status host (staging library host settings req) s).1 in
      let (raised, u) = call_pull_image host req.target_image t in
      after_pull-Runs req version raised u (
        call_pull_image-Leads req.target_image req.target_version t (
          write_status-Leads library host (staging library host settings req) (Step.accept allowed)
            s h))
