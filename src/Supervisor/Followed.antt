-- ===== src/Supervisor/Followed.antt =====
-- The supervisor follows the workflow: an update, from its request on.
use altr_stream.Base.{
  Text, codes, ◌||◌, text_eq, Bool, true, false, ◌&&◌, not, [], Option, none, some, ◌≡◌, refl,
  if◌then◌else◌,
}
use altr_stream.Merger.{Dict}
use altr_stream.Semver.Parse.{Parsed, try_parse}
use altr_stream.Supervisor.{StatusFile, Library, Host, Settings, Machine}
use altr_stream.Supervisor.Requests.{
  Request, is_allowed, has_char, is_blank, get_or, or_blank, is_valid_request, request_of,
  checked_request, parse_request, option_or,
}
use altr_stream.Supervisor.Process.{
  reconcile_request, compare_versions, unless_newer, running_newer, unless_same, already_running,
  with_tag, running_version, invalid_request, process_request, process_content, synchronize,
  put_request, put_status, process_pending_request,
}
use altr_stream.Supervisor.Workflow.{Phase, Step, Reached}
use altr_stream.Supervisor.Staged.{stage-Runs}
use altr_stream.Supervisor.Follows.{Leads, Ends, Runs, settle-Runs}

allowed_of_checks : (a b c : Bool) → (not (a || not b) && c) ≡ true → b ≡ true
allowed_of_checks a true c h = refl
allowed_of_checks true false c h = cc
allowed_of_checks false false c h = cc

if-eq-some :
    {A : Type 0} (b : Bool) (x y : A) → (if b then some x else none) ≡ some y → (b ≡ true) × (x ≡ y)
if-eq-some true x y h = (refl, cc)
if-eq-some false x y h = cc

checked_request-allowed :
    (o : Option (Dict (Option Text))) (req : Request)
    → checked_request o ≡ some req
    → is_allowed req.target_image ≡ true
unfolding checked_request is_valid_request request_of
checked_request-allowed none req h = cc
checked_request-allowed (some d) req h =
    let (valid, same) = if-eq-some (is_valid_request d) (request_of d) req h in
    let image = or_blank (get_or (codes "target_image") [] d) in
    let version = or_blank (get_or (codes "target_version") [] d) in
    rw (← same) (
      allowed_of_checks (is_blank image) (is_allowed image)
        (not (is_blank version || has_char (codes ";;|&`$<>") version)) valid)

parse_request-allowed :
    (library : Library) (content : Text) (req : Request)
    → parse_request library content ≡ some req
    → is_allowed req.target_image ≡ true
unfolding parse_request
parse_request-allowed library content req e = checked_request-allowed (library.loads content) req e

module _ {W : Type 0} (library : Library) (host : Host W) (settings : Settings) where
  unless_newer-Runs :
      (req : Request) (version : Text) (running : Parsed) (newer : Bool)
      → is_allowed req.target_image ≡ true
      → Runs (unless_newer library host settings req version running newer) Phase.waiting
  unfolding unless_newer
  unless_newer-Runs req version running true allowed s h =
      settle-Runs library host (running_newer library host settings req running) Step.refuse s h
  unless_newer-Runs req version running false allowed s h =
      stage-Runs library host settings req _ allowed s h

  unless_same-Runs :
      (req : Request) (version : Text) (running target : Parsed) (same : Bool)
      → is_allowed req.target_image ≡ true
      → Runs (unless_same library host settings req version running target same) Phase.waiting
  unfolding unless_same
  unless_same-Runs req version running target true allowed s h =
      settle-Runs library host (already_running library host settings req running) Step.satisfied s
        h
  unless_same-Runs req version running target false allowed s h =
      unless_newer-Runs req version running _ allowed s h

  compare_versions-Runs :
      (req : Request) (version : Text) (running target : Option Parsed)
      → is_allowed req.target_image ≡ true
      → Runs (compare_versions library host settings req version running target) Phase.waiting
  unfolding compare_versions
  compare_versions-Runs req version (some running) (some target) allowed s h =
      unless_same-Runs req version running target _ allowed s h
  compare_versions-Runs req version (some running) none allowed s h =
      stage-Runs library host settings req _ allowed s h
  compare_versions-Runs req version none target allowed s h =
      stage-Runs library host settings req _ allowed s h

  running_version-Leads :
      (req : Request) {p : Phase} → Leads (running_version library host settings req) p (λ _. p)
  unfolding running_version with_tag
  running_version-Leads req s h =
      let live = option_or (host.get_live_version s.world).0 (or_blank req.current_version) in
      by_test (is_blank live || text_eq live (codes "unknown")) live
        (record s { world = (host.get_live_version s.world).1 }) h
    where
      by_test :
          {p : Phase} (b : Bool) (version : Text)
          → Leads (with_tag library host settings version b) p (λ _. p)
      by_test true version t g = g
      by_test false version t g = g

  reconcile_request-Runs :
      (req : Request) (version : Option Text)
      → is_allowed req.target_image ≡ true
      → Runs (reconcile_request library host settings req version) Phase.waiting
  unfolding reconcile_request
  reconcile_request-Runs req none allowed s h = (_, h)
  reconcile_request-Runs req (some version) allowed s h =
      compare_versions-Runs req version (try_parse library.matching version)
        (try_parse library.matching req.target_version) allowed s h

  process_request-Runs :
      (content : Text) (req : Option Request)
      → ((r : Request) → req ≡ some r → is_allowed r.target_image ≡ true)
      → Runs (process_request library host settings content req) Phase.waiting
  unfolding process_request
  process_request-Runs content none allowed s h =
      settle-Runs library host (invalid_request library host settings (library.invalid content))
        Step.refuse s h
  process_request-Runs content (some req) allowed s h =
      let (version, t) = running_version library host settings req s in
      reconcile_request-Runs req version (allowed req refl) t (running_version-Leads req s h)

  process_content-Runs :
      (content : Option Text) → Runs (process_content library host settings content) Phase.waiting
  unfolding process_content
  process_content-Runs none s h = h
  process_content-Runs (some content) s h =
      process_request-Runs content (parse_request library content)
        (parse_request-allowed library content) s h

  -- Copying files in from the container is no action of an update.
  events-synchronize :
      (content : Option Text) (s : Machine W)
      → (synchronize library host settings content s).1.events ≡ s.events
  unfolding synchronize put_request put_status
  events-synchronize (some content) s = refl
  events-synchronize none s = from_request (host.copy_request s.world).0 _
    where
      from_status :
          (file : Option StatusFile) (t : Machine W)
          → (put_status library host settings file t).1.events ≡ t.events
      from_status none t = refl
      from_status (some file) t = refl

      from_request :
          (found : Option Text) (t : Machine W)
          → (put_request library host settings found t).1.events ≡ t.events
      from_request none t = refl
      from_request (some found) t = from_status _ _

  -- A round of the supervisor, whatever the container engine and the node do, is a run of the update
  -- workflow from a waiting update: to a waiting update if the round returns, and to where the
  -- workflow stands then if an exception ends it.
  pub process_pending_request-Runs :
      (s : Machine W)
      → Reached s.events Phase.waiting
      → let (outcome, t) = process_pending_request library host settings s in Ends outcome t.events
  unfolding process_pending_request
  process_pending_request-Runs s h =
      let t = (synchronize library host settings s.request_file s).1 in
      process_content-Runs t.request_file t (rw (events-synchronize s.request_file s) h)
