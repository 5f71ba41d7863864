-- ===== src/Supervisor/History.antt =====
-- What the workflow says of everything that a supervisor ever did.
use altr_stream.Base.{ℕ, zero, suc, true, List, [], ◌∷◌, All, ◌≡◌}
use altr_stream.Supervisor.{Event, Library, Host, Settings, Outcome, Machine}
use altr_stream.Supervisor.Requests.{is_allowed}
use altr_stream.Supervisor.Process.{process_pending_request}
use altr_stream.Supervisor.Startup.{unless_raised, rounds}
use altr_stream.Supervisor.Workflow.{Phase, Step, Reached}
use altr_stream.Supervisor.Followed.{process_pending_request-Runs}
use altr_stream.Supervisor.Follows.{Ends}

-- An image that is pulled, or used from this machine in its place, is an allowed one.
abbrev pub Permitted : Event → Type 0
Permitted (Event.pulled image ok) = is_allowed image ≡ true
Permitted (Event.found_locally image ok) = is_allowed image ≡ true
Permitted _ = Unit {0}

-- The image that an update has yet to get is allowed.
abbrev Allows : Phase → Type 0
Allows (Phase.staged i v) = is_allowed i ≡ true
Allows (Phase.unpulled i v) = is_allowed i ≡ true
Allows _ = Unit {0}

Step-Permitted : {p q : Phase} {e : Event} → Step p e q → Allows p → Permitted e × Allows q
Step-Permitted (Step.accept h) a = (tt, h)
Step-Permitted Step.pull a = (a, tt)
Step-Permitted Step.pull_fails a = (a, a)
Step-Permitted Step.find a = (a, tt)
Step-Permitted Step.find_none a = (a, a)
Step-Permitted _ a = (tt, tt)

Reached-Permitted : {es : List Event} {p : Phase} → Reached es p → All Permitted es × Allows p
Reached-Permitted Reached.start = (tt, tt)
Reached-Permitted (Reached.later r st) =
    let (before, a) = Reached-Permitted r in
    let (now, b) = Step-Permitted st a in ((now, before), b)

-- The last action was a health check that passed.
abbrev pub Passed : List Event → Type 0
Passed (Event.checked version true ∷ es) = Unit {0}
Passed _ = ⊥

-- Only an image whose node just passed a health check is persisted.
abbrev pub Verified : Event → List Event → Type 0
Verified (Event.persisted image) es = Passed es
Verified _ es = Unit {0}

abbrev pub AllVerified : List Event → Type 0
AllVerified [] = Unit {0}
AllVerified (e ∷ es) = Verified e es × AllVerified es

abbrev Checks : Phase → List Event → Type 0
Checks (Phase.verified i) es = Passed es
Checks (Phase.rechecked i) es = Passed es
Checks _ es = Unit {0}

Step-Verified :
    (es : List Event) {p q : Phase} {e : Event}
    → Step p e q
    → Checks p es
    → Verified e es × Checks q (e ∷ es)
Step-Verified es Step.keep c = (c, tt)
Step-Verified es Step.keep_previous c = (c, tt)
Step-Verified es _ c = (tt, tt)

Reached-AllVerified : {es : List Event} {p : Phase} → Reached es p → AllVerified es × Checks p es
Reached-AllVerified Reached.start = (tt, tt)
Reached-AllVerified (Reached.later r st) =
    let (before, c) = Reached-AllVerified r in
    let (now, d) = Step-Verified _ st c in ((now, before), d)

module _ {W : Type 0} (library : Library) (host : Host W) (settings : Settings) where
  -- The rounds are a run of the workflow.
  rounds-Reached :
      (n : ℕ) (s : Machine W)
      → Reached s.events Phase.waiting
      → (p : Phase) × Reached (rounds library host settings n s).1.events p
  unfolding rounds
  rounds-Reached zero s h = (_, h)
  rounds-Reached (suc n) s h =
      let (outcome, t) = process_pending_request library host settings s in
      go_on outcome t (process_pending_request-Runs library host settings s h) (rounds-Reached n t)
    where
      go_on :
          (outcome : Outcome) (t : Machine W)
          → Ends outcome t.events
          → (Reached t.events Phase.waiting
              → (p : Phase) × Reached (rounds library host settings n t).1.events p)
          → let u =
              (unless_raised library host settings outcome (rounds library host settings n) t).1 in
            (p : Phase) × Reached u.events p
      go_on (Outcome.returned status) t g rest = rest g
      go_on Outcome.raised t g rest = g

  -- Whatever the requests say and the container engine does: in any number of rounds, every image that
  -- the supervisor pulls, or takes from this machine where the pull fails, is of an allowed registry.
  pub rounds-Permitted :
      (n : ℕ) (s : Machine W)
      → s.events ≡ []
      → All Permitted (rounds library host settings n s).1.events
  rounds-Permitted n s e = (Reached-Permitted (rounds-Reached n s (rw e Reached.start)).1).0

  -- In any number of rounds, an image is written into the .env and compose files only directly after
  -- a health check that passed, for the new image as for the one that is gone back to.
  pub rounds-AllVerified :
      (n : ℕ) (s : Machine W)
      → s.events ≡ []
      → AllVerified (rounds library host settings n s).1.events
  rounds-AllVerified n s e = (Reached-AllVerified (rounds-Reached n s (rw e Reached.start)).1).0
