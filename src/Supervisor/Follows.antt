-- ===== src/Supervisor/Follows.antt =====
-- The supervisor follows the workflow: each action, and the rollback.
use altr_stream.Base.{
  Text, Bool, true, false, ◌&&◌, Option, none, some, List, ◌≡◌, refl, inl, inr, Bool-cases,
  if◌then◌else◌,
}
use altr_stream.Supervisor.{UpdateState, Status, Library, Host, Event, Machine, Outcome, Action}
use altr_stream.Supervisor.Actions.{
  write_status, cleanup_request_file, call_recreate_service, copy_status_in, call_wait_for_health,
  unlink, text_of, persist_image_update,
}
use altr_stream.Supervisor.Requests.{Request}
use altr_stream.Supervisor.Rollback.{
  unverified, rolling_back, completed, settle, restored, conclude, same_version, verify_rollback,
  decide, roll_back_to, activate,
}
use altr_stream.Supervisor.Workflow.{Phase, Step, Reached}

-- An action leads from a phase to one that may depend on what it returns.
abbrev pub Leads : {W A : Type 0} → Action W A → Phase → (A → Phase) → Type 0
Leads m p q = (s : Machine _) → Reached s.events p → Reached (m s).1.events (q (m s).0)

-- A round that returns leaves an update waiting; an exception leaves it in some phase.
abbrev pub Ends : Outcome → List Event → Type 0
Ends (Outcome.returned status) es = Reached es Phase.waiting
Ends Outcome.raised es = (p : Phase) × Reached es p

abbrev pub Runs : {W : Type 0} → Action W Outcome → Phase → Type 0
Runs m p = (s : Machine _) → Reached s.events p → Ends (m s).0 (m s).1.events

module _ {W : Type 0} (library : Library) (host : Host W) where
  events-unlink : (file : Option Text) (s : Machine W) → (unlink host file s).1.events ≡ s.events
  unfolding unlink
  events-unlink none s = refl
  events-unlink (some content) s = elim (Bool-cases (host.unlink_request s.world).0) [
    | inl e ↦ rw e refl
    | inr e ↦ rw e refl
  ]

  pub write_status-Leads :
      {p q : Phase} (status : Status)
      → Step p (Event.wrote status.state) q
      → Leads (write_status host status) p (λ _. q)
  unfolding write_status
  write_status-Leads status st s h = Reached.later h st

  pub settle-Runs :
      {p : Phase} (status : Status)
      → Step p (Event.wrote status.state) Phase.closing
      → Runs (settle library host status) p
  unfolding settle cleanup_request_file
  settle-Runs status st s h =
      let t = (write_status host status s).1 in
      Reached.later (rw (events-unlink t.request_file t) (write_status-Leads status st s h))
        Step.close

  pub call_recreate_service-Leads :
      {p q r : Phase} (image : Text)
      → Step p (Event.recreated image true) q
      → Step p (Event.recreated image false) r
      → Leads (call_recreate_service host image) p (λ ok. if ok then q else r)
  unfolding call_recreate_service
  call_recreate_service-Leads image good bad s h =
      elim (Bool-cases (host.recreate_service image s.world).0) [
        | inl e ↦ rw e (Reached.later h good)
        | inr e ↦ rw e (Reached.later h bad)
      ]

  pub copy_status_in-Leads :
      {p q r : Phase}
      → Step p (Event.copied true) q
      → Step p (Event.copied false) r
      → Leads (copy_status_in host) p (λ ok. if ok then q else r)
  unfolding copy_status_in
  copy_status_in-Leads good bad s h =
      elim (Bool-cases (host.copy_to_container s.status_file s.world).0) [
        | inl e ↦ rw e (Reached.later h good)
        | inr e ↦ rw e (Reached.later h bad)
      ]

  copy_back-Leads :
      (image : Text)
      → Leads (copy_status_in host) (Phase.restored image) (λ _. Phase.returned image)
  unfolding copy_status_in
  copy_back-Leads image s h = Reached.later h (Step.copy_back _)

  pub call_wait_for_health-Leads :
      {p q r : Phase} (version : Option Text)
      → Step p (Event.checked (text_of host version) true) q
      → Step p (Event.checked (text_of host version) false) r
      → Leads (call_wait_for_health host version) p (λ ok. if ok then q else r)
  unfolding call_wait_for_health
  call_wait_for_health-Leads version good bad s h =
      elim (Bool-cases (host.wait_for_health version s.world).0) [
        | inl e ↦ rw e (Reached.later h good)
        | inr e ↦ rw e (Reached.later h bad)
      ]

  persist-Leads :
      {p q : Phase} (image : Text)
      → Step p (Event.persisted image) q
      → Leads {W = W} (persist_image_update library image) p (λ _. q)
  unfolding persist_image_update
  persist-Leads image st s h = Reached.later h st

  restored-Runs :
      (req : Request) (image version : Text) (live : Option Text)
      → Runs (conclude library host req image version true live true) (Phase.rechecked image)
  unfolding conclude
  restored-Runs req image version live s h =
      settle-Runs (restored library host req version live) Step.went_back
        (persist_image_update library image s).1 (persist-Leads image Step.keep_previous s h)

  lost-Runs :
      {p : Phase} (req : Request) (image version : Text) (performed : Bool) (live : Option Text)
      → Step p (Event.wrote UpdateState.failed) Phase.closing
      → Runs (conclude library host req image version performed live false) p
  unfolding conclude
  lost-Runs req image version performed live st s h =
      settle-Runs (unverified library host req version live performed) st s h

  conclude-Runs :
      (req : Request) (image version : Text) (healthy same : Bool) (live : Option Text)
      → Runs
          (conclude library host req image version true live (healthy && same))
          (if healthy then Phase.rechecked image else Phase.lost)
  conclude-Runs req image version true true live s h = restored-Runs req image version live s h
  conclude-Runs req image version true false live s h =
      lost-Runs req image version true live Step.differs s h
  conclude-Runs req image version false same live s h =
      lost-Runs req image version true live Step.lose s h

  decide-Runs :
      (req : Request) (image : Text) (version : Option Text) (healthy : Bool) (live : Option Text)
      → Runs
          (decide library host req image version true healthy live)
          (if healthy then Phase.rechecked image else Phase.lost)
  unfolding decide
  decide-Runs req image none healthy live s h = (_, h)
  decide-Runs req image (some version) healthy live s h =
      conclude-Runs req image version healthy (same_version library host live version) live s h

  not_restored-Runs :
      (req : Request) (image : Text) (version : Option Text)
      → Runs (decide library host req image version false false none) Phase.lost
  unfolding decide
  not_restored-Runs req image none s h = (_, h)
  not_restored-Runs req image (some version) s h =
      lost-Runs req image version false none Step.lose s h

  verify_rollback-Runs :
      (req : Request) (image : Text) (version : Option Text) (ok : Bool)
      → Runs
          (verify_rollback library host req image version ok)
          (if ok then Phase.restored image else Phase.lost)
  unfolding verify_rollback
  verify_rollback-Runs req image version false s h = not_restored-Runs req image version s h
  verify_rollback-Runs req image version true s h =
      let t = (copy_status_in host s).1 in
      let (healthy, u) = call_wait_for_health host version t in
      let (live, w) = host.get_live_version u.world in
      decide-Runs req image version healthy live (record u { world = w })
        (call_wait_for_health-Leads version Step.recheck Step.recheck_fails t
          (copy_back-Leads image s h))

  roll_back_to-Runs :
      (req : Request) (image : Text) (version : Option Text)
      → Runs (roll_back_to library host req image version) Phase.broken
  unfolding roll_back_to
  roll_back_to-Runs req image version s h =
      let t = (write_status host (rolling_back library host req image) s).1 in
      let (ok, u) = call_recreate_service host image t in
      verify_rollback-Runs req image version ok u (
        call_recreate_service-Leads image Step.restore Step.restore_fails t
          (write_status-Leads (rolling_back library host req image) Step.roll_back s h))

  pub activate-Runs :
      (req : Request) (image : Text) (version : Option Text) (ok : Bool)
      → Runs
          (activate library host req image version ok)
          (if ok then Phase.verified req.target_image else Phase.broken)
  unfolding activate
  activate-Runs req image version true s h =
      settle-Runs (completed library host req) Step.complete
        (persist_image_update library req.target_image s).1
        (persist-Leads req.target_image Step.keep s h)
  activate-Runs req image version false s h = roll_back_to-Runs req image version s h
