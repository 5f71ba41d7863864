-- ===== src/Supervisor/Inactive.antt =====
-- Between two rounds no update is under way.
use altr_stream.Base.{Bool, true, false, ◌≡◌}
use altr_stream.Supervisor.{is_active, StatusFile, Library, Host, Settings, Outcome, Machine}
use altr_stream.Supervisor.Process.{process_content}
use altr_stream.Supervisor.Settled.{Failing}

-- The status file does not say that an update is under way.
abbrev pub IsInactive : StatusFile → Type 0
IsInactive StatusFile.missing = Unit {0}
IsInactive StatusFile.unreadable = Unit {0}
IsInactive (StatusFile.holds status) = is_active status.state ≡ false

module _ {W : Type 0} (library : Library) (host : Host W) (settings : Settings) where
  -- After a round that returns the status file is inactive.
  abbrev Left : Outcome → Machine W → Type 0
  Left (Outcome.returned status) s = IsInactive s.status_file
  Left Outcome.raised s = Failing library host settings

  -- What a round does with a request that stands on the host by then.
  abbrev Leaves : Machine W → Type 0
  Leaves s =
      let (outcome, t) = process_content library host settings s.request_file s in Left outcome t

  -- A loop that goes on stands between two rounds, with no update under way; any other was left by
  -- one of the exceptions.
  abbrev pub Stands : Bool → Machine W → Type 0
  Stands true s = IsInactive s.status_file
  Stands false s = Failing library host settings
