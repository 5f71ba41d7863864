-- ===== src/Supervisor/Settled.antt =====
-- What it means that a round has settled its request, and that a last status settles it.
use altr_stream.Base.{
  Text, Bool, true, List, ◌∷◌, Option, none, some, ◌≡◌, refl, Bool-cases, inl, inr,
}
use altr_stream.Supervisor.{
  is_terminal, Status, StatusFile, Library, Host, Settings, allow_local_images, Machine, Outcome,
  Event, Action,
}
use altr_stream.Supervisor.Actions.{write_status, cleanup_request_file, unlink}
use altr_stream.Supervisor.Requests.{Request, parse_request}
use altr_stream.Supervisor.Rollback.{settle}

-- The last action removed the request, or could not, and the status file has a terminal state.
pub record IsSettled {W : Type 0} (s : Machine W) : Type 0 where
  pub status : Status
  pub is_last : s.status_file ≡ StatusFile.holds status
  pub terminal : is_terminal status.state ≡ true
  pub gone : Bool
  pub earlier : List Event
  pub last_action : s.events ≡ Event.removed_request gone ∷ earlier
  pub no_request : gone ≡ true → s.request_file ≡ none

-- The exceptions that leave a round: the container engine that cannot be asked for the current
-- image, or for an image of this machine where those are allowed, and a request whose current
-- version is null.
pub data Failing {W : Type 0} (library : Library) (host : Host W) (settings : Settings)
    : Type 0 where
  no_current_image : (w : W) → (host.get_current_image w).0 ≡ none → Failing library host settings
  no_inspection :
      (image : Text) (w : W)
      → allow_local_images settings ≡ true
      → (host.image_exists_locally image w).0 ≡ none
      → Failing library host settings
  null_version :
      (content : Text) (req : Request)
      → parse_request library content ≡ some req
      → req.current_version ≡ none
      → Failing library host settings

module _ {W : Type 0} (library : Library) (host : Host W) (settings : Settings) where
  -- A round that returns has settled its request; any other was left by one of the exceptions.
  abbrev pub Ended : Outcome → Machine W → Type 0
  Ended (Outcome.returned status) s = IsSettled s
  Ended Outcome.raised s = Failing library host settings

  abbrev pub Settles : Action W Outcome → Type 0
  Settles m = (s : Machine W) → Ended (m s).0 (m s).1

  no_request-unlink :
      (file : Option Text) (s : Machine W)
      → s.request_file ≡ file
      → (unlink host file s).0 ≡ true
      → (unlink host file s).1.request_file ≡ none
  unfolding unlink
  no_request-unlink none s e h = e
  no_request-unlink (some content) s e h = elim (Bool-cases (host.unlink_request s.world).0) [
    | inl g ↦ rw g refl
    | inr g ↦ cc (rw g at h)
  ]

  status_file-unlink :
      (file : Option Text) (s : Machine W) → (unlink host file s).1.status_file ≡ s.status_file
  unfolding unlink
  status_file-unlink none s = refl
  status_file-unlink (some content) s = elim (Bool-cases (host.unlink_request s.world).0) [
    | inl e ↦ rw e refl
    | inr e ↦ rw e refl
  ]

  pub settle-IsSettled :
      (status : Status)
      → is_terminal status.state ≡ true
      → (s : Machine W) → IsSettled (settle library host status s).1
  unfolding settle write_status cleanup_request_file
  settle-IsSettled status h s =
      let t = (write_status host status s).1 in
      record {
        status = status;
        is_last = status_file-unlink t.request_file t;
        terminal = h;
        gone = (unlink host t.request_file t).0;
        earlier = (unlink host t.request_file t).1.events;
        last_action = refl;
        no_request = no_request-unlink t.request_file t refl;
      }

  pub settle-Settles :
      (status : Status) → is_terminal status.state ≡ true → Settles (settle library host status)
  unfolding settle
  settle-Settles status h s = settle-IsSettled status h s
