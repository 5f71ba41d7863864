-- ===== src/Supervisor/Settles.antt =====
-- Every request comes to an end.
use altr_stream.Base.{
  Text, Bool, true, false, ◌&&◌, ◌∷◌, [], Option, none, some, ◌≡◌, refl, Bool-cases, inl, inr,
}
use altr_stream.Semver.Parse.{Parsed, try_parse}
use altr_stream.Supervisor.{Library, Host, Settings, allow_local_images, Machine}
use altr_stream.Supervisor.Actions.{
  write_status, call_pull_image, call_recreate_service, copy_status_in, call_wait_for_health,
  call_image_exists, persist_image_update,
}
use altr_stream.Supervisor.Requests.{Request, or_other, parse_request}
use altr_stream.Supervisor.Rollback.{
  restored, unverified, conclude, same_version, verify_rollback, decide, roll_back_to, rolling_back,
  completed, activate, checking_health, check_health,
}
use altr_stream.Supervisor.Process.{
  replace_image, with_tag, tag_if, reconcile_request, recreate_and_copy, applying, apply_image,
  exists_locally, unpulled, pull_failed, after_pull, staging, stage, running_version, running_newer,
  unless_newer, already_running, unless_same, compare_versions, invalid_request, process_request,
}
use altr_stream.Supervisor.Settled.{Failing, Ended, Settles, settle-Settles}

or_other-none : (a b : Option Text) → or_other a b ≡ none → b ≡ none
unfolding or_other
or_other-none none b h = h
or_other-none (some []) b h = h
or_other-none (some (c ∷ s)) b h = cc

module _ {W : Type 0} (library : Library) (host : Host W) (settings : Settings) where
  conclude-Settles :
      (req : Request) (image version : Text) (performed : Bool) (live : Option Text) (same : Bool)
      → Settles library host settings (conclude library host req image version performed live same)
  unfolding conclude
  conclude-Settles req image version performed live true s =
      settle-Settles library host settings (restored library host req version live) refl
        (persist_image_update library image s).1
  conclude-Settles req image version performed live false s =
      settle-Settles library host settings (unverified library host req version live performed) refl
        s

  -- A previous version that is None comes from a null.
  module _ (version : Option Text) (null : version ≡ none → Failing library host settings) where
    decide-Settles :
        (req : Request) (image : Text) (performed healthy : Bool) (live : Option Text)
        → Settles library host settings
            (decide library host req image version performed healthy live)
    unfolding decide
    decide-Settles req image performed healthy live s = by_version version null
      where
        by_version :
            (v : Option Text)
            → (v ≡ none → Failing library host settings)
            → let (outcome, t) = decide library host req image v performed healthy live s in
              Ended library host settings outcome t
        by_version none n = n refl
        by_version (some v) n =
            conclude-Settles req image v performed live
              (healthy && same_version library host live v) s

    verify_rollback-Settles :
        (req : Request) (image : Text) (ok : Bool)
        → Settles library host settings (verify_rollback library host req image version ok)
    unfolding verify_rollback
    verify_rollback-Settles req image false s = decide-Settles req image false false none s
    verify_rollback-Settles req image true s =
        let t = (copy_status_in host s).1 in
        let (healthy, u) = call_wait_for_health host version t in
        let (live, w) = host.get_live_version u.world in
        decide-Settles req image true healthy live (record u { world = w })

    activate-Settles :
        (req : Request) (image : Text) (ok : Bool)
        → Settles library host settings (activate library host req image version ok)
    unfolding activate roll_back_to
    activate-Settles req image true s =
        settle-Settles library host settings (completed library host req) refl
          (persist_image_update library req.target_image s).1
    activate-Settles req image false s =
        let t = (write_status host (rolling_back library host req image) s).1 in
        let (ok, u) = call_recreate_service host image t in verify_rollback-Settles req image ok u

    check_health-Settles :
        (req : Request) (image : Text) (ok : Bool)
        → Settles library host settings (check_health library host req image version ok)
    unfolding check_health
    check_health-Settles req image true s =
        let t = (write_status host (checking_health library host req) s).1 in
        let (ok, u) = call_wait_for_health host (some req.target_version) t in
        activate-Settles req image ok u
    check_health-Settles req image false s = activate-Settles req image false s

    replace_image-Settles :
        (req : Request) (image : Option Text) (w : W)
        → (host.get_current_image w).0 ≡ image
        → Settles library host settings (replace_image library host settings req version image)
    unfolding replace_image
    replace_image-Settles req none w e s = Failing.no_current_image w e
    replace_image-Settles req (some image) w e s =
        let t = (write_status host (applying library host settings req) s).1 in
        let (ok, u) = recreate_and_copy library host settings req.target_image t in
        check_health-Settles req _ ok u

    apply_image-Settles :
        (req : Request)
        → Settles library host settings (apply_image library host settings req version)
    unfolding apply_image
    apply_image-Settles req s =
        let (image, w) = host.get_current_image s.world in
        replace_image-Settles req image s.world refl (record s { world = w })

    pull_failed-Settles :
        (req : Request) (message : Text) (found : Option Bool)
        → (found ≡ none → Failing library host settings)
        → Settles library host settings
            (pull_failed library host settings req version message found)
    unfolding pull_failed
    pull_failed-Settles req message none failing s = failing refl
    pull_failed-Settles req message (some true) failing s = apply_image-Settles req s
    pull_failed-Settles req message (some false) failing s =
        settle-Settles library host settings (unpulled library host settings req message) refl s

    exists_locally-Failing :
        (image : Text) (s : Machine W)
        → (exists_locally library host settings image s).0 ≡ none
        → Failing library host settings
    unfolding exists_locally call_image_exists
    exists_locally-Failing image s h = elim (Bool-cases (allow_local_images settings)) [
      | inl e ↦ Failing.no_inspection image s.world e (rw e at h)
      | inr e ↦ cc (rw e at h)
    ]

    after_pull-Settles :
        (req : Request) (raised : Option Text)
        → Settles library host settings (after_pull library host settings req version raised)
    unfolding after_pull
    after_pull-Settles req none s = apply_image-Settles req s
    after_pull-Settles req (some message) s =
        let (found, t) = exists_locally library host settings req.target_image s in
        pull_failed-Settles req message found (exists_locally-Failing req.target_image s) t

    stage-Settles :
        (req : Request) → Settles library host settings (stage library host settings req version)
    unfolding stage
    stage-Settles req s =
        let t = (write_status host (staging library host settings req) s).1 in
        let (raised, u) = call_pull_image host req.target_image t in after_pull-Settles req raised u

  -- A request whose current version is null is one of the exceptions.
  module _ (req : Request) (null : req.current_version ≡ none → Failing library host settings) where
    stage_from-Settles :
        (version : Text)
        → Settles library host settings
            (stage library host settings req (or_other (some version) req.current_version))
    stage_from-Settles version s =
        stage-Settles (or_other (some version) req.current_version)
          (λ e. null (or_other-none (some version) req.current_version e)) req s

    unless_newer-Settles :
        (version : Text) (running : Parsed) (newer : Bool)
        → Settles library host settings
            (unless_newer library host settings req version running newer)
    unfolding unless_newer
    unless_newer-Settles version running true s =
        settle-Settles library host settings (running_newer library host settings req running) refl
          s
    unless_newer-Settles version running false s = stage_from-Settles version s

    compare_versions-Settles :
        (version : Text) (running target : Option Parsed)
        → Settles library host settings
            (compare_versions library host settings req version running target)
    unfolding compare_versions unless_same
    compare_versions-Settles version (some running) (some target) s = by_test _
      where
        by_test :
            (same : Bool)
            → let (outcome, t) =
                unless_same library host settings req version running target same s in
              Ended library host settings outcome t
        by_test true =
            settle-Settles library host settings (already_running library host settings req running)
              refl s
        by_test false = unless_newer-Settles version running _ s
    compare_versions-Settles version (some running) none s = stage_from-Settles version s
    compare_versions-Settles version none target s = stage_from-Settles version s

    with_tag-Failing :
        (version : Text) (b : Bool) (s : Machine W)
        → (with_tag library host settings version b s).0 ≡ none
        → Failing library host settings
    unfolding with_tag
    with_tag-Failing version true s h =
        Failing.no_current_image s.world (no_image (host.get_current_image s.world).0 h)
      where
        no_image : (o : Option Text) → tag_if library host settings version o ≡ none → o ≡ none
        no_image none g = refl
        no_image (some image) g = cc
    with_tag-Failing version false s h = cc

    reconcile_request-Settles :
        (version : Option Text)
        → (version ≡ none → Failing library host settings)
        → Settles library host settings (reconcile_request library host settings req version)
    unfolding reconcile_request
    reconcile_request-Settles none failing s = failing refl
    reconcile_request-Settles (some version) failing s =
        compare_versions-Settles version (try_parse library.matching version)
          (try_parse library.matching req.target_version) s

    running_version-Failing :
        (s : Machine W)
        → (running_version library host settings req s).0 ≡ none
        → Failing library host settings
    unfolding running_version
    running_version-Failing s h = with_tag-Failing _ _ _ h

  pub process_request-Settles :
      (content : Text) (req : Option Request)
      → parse_request library content ≡ req
      → Settles library host settings (process_request library host settings content req)
  unfolding process_request
  process_request-Settles content none e s =
      settle-Settles library host settings
        (invalid_request library host settings (library.invalid content)) refl s
  process_request-Settles content (some req) e s =
      let null = Failing.null_version content req e in
      let (version, t) = running_version library host settings req s in
      reconcile_request-Settles req null version (running_version-Failing req null s) t
