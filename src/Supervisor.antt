-- ===== src/Supervisor.antt =====
-- src/altr_stream/supervisor/supervisor.py and the states of domain/updates.py: the process beside
-- the application that carries out update requests.
pub mod Actions
pub mod Requests
pub mod Rollback
pub mod Process
pub mod Workflow
pub mod Follows
pub mod Staged
pub mod Followed
pub mod Startup
pub mod Settled
pub mod Settles
pub mod Inactive
pub mod History
use altr_stream.Base.{Text, codes, ℕ, Bool, true, false, ◌||◌, List, Option}
use altr_stream.Merger.{Dict}
use altr_stream.Semver.Parse.{Matching}

-- UpdateStatusState
pub data UpdateState : Type 0 where
  idle requested staging applying health_check completed failed cancelled : UpdateState
  rolling_back rolled_back : UpdateState

-- `is_active`
abbrev pub is_active : UpdateState → Bool
is_active UpdateState.requested = true
is_active UpdateState.staging = true
is_active UpdateState.applying = true
is_active UpdateState.health_check = true
is_active UpdateState.rolling_back = true
is_active _ = false

-- `is_terminal`
abbrev pub is_terminal : UpdateState → Bool
is_terminal UpdateState.completed = true
is_terminal UpdateState.failed = true
is_terminal UpdateState.cancelled = true
is_terminal UpdateState.rolled_back = true
is_terminal UpdateState.idle = true
is_terminal _ = false

-- What update-status.json holds; a key that is not written is none. Of `current_version`, where the
-- code tells them apart, a key that is not written is none, and a null is `some none`.
pub record Status : Type 0 where
  pub request_id : Option Text
  pub state : UpdateState
  pub current_version : Option (Option Text)
  pub target_version : Option Text
  pub progress_percent : ℕ
  pub message : Text
  pub error : Option Text
  pub rollback_performed : Bool

-- The status file, read: a file that json does not read, or an object with a state that is none of
-- the states, is `unreadable`.
pub data StatusFile : Type 0 where
  missing unreadable : StatusFile
  holds : Status → StatusFile

-- What the supervisor uses of Python: json.loads of a request, for an object of texts and nulls
-- (none), str.lstrip and rstrip, str of an exception, and the regular expressions over the .env and compose files.
pub record Library : Type 0 where
  pub matching : Matching
  pub loads : Text → Option (Dict (Option Text))
  pub invalid : Text → Text  -- the exception for a request that is not valid
  pub rstrip : Text → Text
  pub has_image_line : Text → Bool
  pub sub_image_line : Text → Text → Text
  pub sub_compose_image : Text → Text → Text

-- The container engine and the node's health endpoint, over the state `W` of the machine they run
-- on. An operation that may raise returns false, or the exception's text, for that where the
-- supervisor catches it; `image_exists_locally` and `get_current_image` return none, since the
-- supervisor catches nothing there: the docker client lets all exceptions but a timeout through.
pub record Host (W : Type 0) : Type 0 where
  pub pull_image : Text → W → Option Text × W
  pub image_exists_locally : Text → W → Option Bool × W
  pub get_current_image : W → Option Text × W
  pub recreate_service : Text → W → Bool × W
  -- The status file is copied into the container.
  pub copy_to_container : StatusFile → W → Bool × W
  -- The files of the container, none if there is nothing to copy.
  pub copy_request : W → Option Text × W
  pub copy_status : W → Option StatusFile × W
  pub remove_in_container : W → Bool × W
  pub get_live_version : W → Option Text × W
  pub wait_for_health : Option Text → W → Bool × W
  -- Path.unlink of the request file, false for an OSError
  pub unlink_request : W → Bool × W

-- Where `allow_local_images` looks: the argument or the environment at the start, the environment,
-- the file .allow_local_images.
pub record Settings : Type 0 where
  pub allowed_at_start : Bool
  pub allowed_by_environment : Bool
  pub allowed_by_file : Bool

abbrev pub allow_local_images : Settings → Bool
allow_local_images settings =
    settings.allowed_at_start || settings.allowed_by_environment || settings.allowed_by_file

-- What the supervisor did, in the order it did it.
pub data Event : Type 0 where
  wrote : UpdateState → Event
  pulled : Text → Bool → Event
  found_locally : Text → Bool → Event
  recreated : Text → Bool → Event
  copied : Bool → Event
  checked : Text → Bool → Event
  persisted : Text → Event
  removed_request : Bool → Event

-- The files of the supervisor, the machine, and a record of what was done, the newest first.
pub record Machine (W : Type 0) : Type 0 where
  pub request_file : Option Text
  pub status_file : StatusFile
  pub env_file : Option Text
  pub compose_file : Option Text
  pub world : W
  pub events : List Event

-- How a round ends: it returns, or an exception leaves it.
pub data Outcome : Type 0 where
  returned : Option Status → Outcome
  raised : Outcome

abbrev pub Action : Type 0 → Type 0 → Type 0
Action W A = Machine W → A × Machine W

infixl 5 ◌>>=◌ ◌>>◌
abbrev pub ◌>>=◌ : {W A B : Type 0} → Action W A → (A → Action W B) → Action W B
◌>>=◌ m f s = let (a, t) = m s in f a t

abbrev pub ◌>>◌ : {W A B : Type 0} → Action W A → Action W B → Action W B
m >> k = m >>= λ _. k

abbrev pub pure : {W A : Type 0} → A → Action W A
pure a s = (a, s)
