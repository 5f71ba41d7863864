-- ===== src/Tests/Updates.antt =====
-- Updates on a node that stays unhealthy, and the supervisor's theorems there.
use altr_stream.Base.{codes, text_eq, true, false, List, [], ◌∷◌, none, some, All, ◌≡◌, refl}
use altr_stream.Supervisor.{
  UpdateState, StatusFile, Library, Host, Settings, Event, Machine, Outcome,
}
use altr_stream.Supervisor.Process.{process_pending_request}
use altr_stream.Supervisor.Startup.{rounds}
use altr_stream.Supervisor.Workflow.{Reached}
use altr_stream.Supervisor.Followed.{process_pending_request-Runs}
use altr_stream.Supervisor.Follows.{Ends}
use altr_stream.Supervisor.Requests.{or_blank, or_other}
use altr_stream.Supervisor.History.{Permitted, AllVerified, rounds-Permitted, rounds-AllVerified}

abbrev library : Library
library = record {
  matching = record {
    digits = record { is_digit = λ c. false; int = λ s. 0 };
    match = λ s. none;
    strip = λ s. s;
    show = λ n. [];
  };
  loads = λ s. some (
      (codes "target_image", some s)
      ∷ (codes "target_version", some (codes "2.0.0"))
      ∷ (codes "current_version", some (codes "v1.0.0"))
      ∷ []);
  invalid = λ s. codes "ValueError";
  rstrip = λ s. s;
  has_image_line = λ s. false;
  sub_image_line = λ i s. s;
  sub_compose_image = λ i s. s;
}

-- The node answers with the version of the request's file, and its health only for that.
abbrev host : Host (Unit {0})
host = record {
  pull_image = λ i w. (none, w);
  image_exists_locally = λ i w. (some false, w);
  get_current_image = λ w. (some (codes "altr-stream:1.0.0"), w);
  recreate_service = λ i w. (true, w);
  copy_to_container = λ f w. (true, w);
  copy_request = λ w. (none, w);
  copy_status = λ w. (none, w);
  remove_in_container = λ w. (true, w);
  get_live_version = λ w. (some (codes "1.0.0"), w);
  wait_for_health = λ v w. (text_eq (or_blank v) (codes "1.0.0"), w);
  unlink_request = λ w. (true, w);
}

abbrev settings : Settings
settings = record {
  allowed_at_start = false;
  allowed_by_environment = false;
  allowed_by_file = false;
}

abbrev requested : Machine (Unit {0})
requested = record {
  request_file = some (codes "altr-stream:2.0.0");
  status_file = StatusFile.missing;
  env_file = some [];
  compose_file = none;
  world = tt;
  events = [];
}

abbrev rolled_back_events : List Event
rolled_back_events =
    Event.removed_request true
    ∷ Event.wrote UpdateState.rolled_back
    ∷ Event.persisted (codes "altr-stream:1.0.0")
    ∷ Event.checked (codes "1.0.0") true
    ∷ Event.copied true
    ∷ Event.recreated (codes "altr-stream:1.0.0") true
    ∷ Event.wrote UpdateState.rolling_back
    ∷ Event.checked (codes "2.0.0") false
    ∷ Event.wrote UpdateState.health_check
    ∷ Event.copied true
    ∷ Event.recreated (codes "altr-stream:2.0.0") true
    ∷ Event.wrote UpdateState.applying
    ∷ Event.pulled (codes "altr-stream:2.0.0") true
    ∷ Event.wrote UpdateState.staging
    ∷ []

rolls_back : (process_pending_request library host settings requested).1.events ≡ rolled_back_events
unfolding process_pending_request text_eq or_other
rolls_back = refl

-- A container engine that cannot be run, where images of this machine are allowed.
abbrev no_engine : Host (Unit {0})
no_engine = record host {
  pull_image = λ i w. (some (codes "FileNotFoundError"), w);
  image_exists_locally = λ i w. (none, w);
  get_current_image = λ w. (none, w);
  recreate_service = λ i w. (false, w);
  copy_to_container = λ f w. (false, w);
  remove_in_container = λ w. (false, w);
}

abbrev with_local_images : Settings
with_local_images = record settings { allowed_at_start = true }

-- The round ends with the request in place, and the update staging.
left_staging :
    let (outcome, t) = process_pending_request library no_engine with_local_images requested in
    (outcome ≡ Outcome.raised)
    × (t.request_file ≡ requested.request_file)
    × (t.events
        ≡ Event.pulled (codes "altr-stream:2.0.0") false ∷ Event.wrote UpdateState.staging ∷ [])
unfolding process_pending_request text_eq or_other
left_staging = (refl, refl, refl)

process_pending_request-Runs_example :
    let (outcome, t) = process_pending_request library host settings requested in
    Ends outcome t.events
process_pending_request-Runs_example =
    process_pending_request-Runs library host settings requested Reached.start

rounds-Permitted_example : All Permitted (rounds library host settings 2 requested).1.events
rounds-Permitted_example = rounds-Permitted library host settings 2 requested refl

rounds-AllVerified_example : AllVerified (rounds library host settings 2 requested).1.events
rounds-AllVerified_example = rounds-AllVerified library host settings 2 requested refl
