-- ===== src/Supervisor/Workflow.antt =====
-- The workflow of an update, without the data: which action may follow which.
use altr_stream.Base.{Text, Bool, true, false, List, [], ◌∷◌, ◌≡◌}
use altr_stream.Supervisor.{UpdateState, Event}
use altr_stream.Supervisor.Requests.{is_allowed}

-- How far an update is: an `image` is brought to a node that shall run a `version`, and `previous` is
-- the image to go back to.
pub data Phase : Type 0 where
  waiting closing broken lost kept went_back : Phase
  staged unpulled ready applying replaced started checking : (image version : Text) → Phase
  verified : (image : Text) → Phase
  restoring restored returned rechecked : (previous : Text) → Phase

pub data Step : Phase → Event → Phase → Type 0 where
  -- a request that is invalid or older, or that the node already satisfies
  refuse : Step Phase.waiting (Event.wrote UpdateState.failed) Phase.closing
  satisfied : Step Phase.waiting (Event.wrote UpdateState.completed) Phase.closing
  accept :
      {i v : Text}
      → is_allowed i ≡ true
      → Step Phase.waiting (Event.wrote UpdateState.staging) (Phase.staged i v)
  -- the image comes from a registry, or is here already
  pull : {i v : Text} → Step (Phase.staged i v) (Event.pulled i true) (Phase.ready i v)
  pull_fails : {i v : Text} → Step (Phase.staged i v) (Event.pulled i false) (Phase.unpulled i v)
  find : {i v : Text} → Step (Phase.unpulled i v) (Event.found_locally i true) (Phase.ready i v)
  find_none :
      {i v : Text} → Step (Phase.unpulled i v) (Event.found_locally i false) (Phase.unpulled i v)
  give_up : {i v : Text} → Step (Phase.unpulled i v) (Event.wrote UpdateState.failed) Phase.closing
  -- the service is recreated with it
  apply :
      {i v : Text} → Step (Phase.ready i v) (Event.wrote UpdateState.applying) (Phase.applying i v)
  recreate : {i v : Text} → Step (Phase.applying i v) (Event.recreated i true) (Phase.replaced i v)
  recreate_fails : {i v : Text} → Step (Phase.applying i v) (Event.recreated i false) Phase.broken
  copy : {i v : Text} → Step (Phase.replaced i v) (Event.copied true) (Phase.started i v)
  copy_fails : {i v : Text} → Step (Phase.replaced i v) (Event.copied false) Phase.broken
  -- only a node that is healthy with the version is kept
  check :
      {i v : Text}
      → Step (Phase.started i v) (Event.wrote UpdateState.health_check) (Phase.checking i v)
  healthy : {i v : Text} → Step (Phase.checking i v) (Event.checked v true) (Phase.verified i)
  unhealthy : {i v : Text} → Step (Phase.checking i v) (Event.checked v false) Phase.broken
  keep : {i : Text} → Step (Phase.verified i) (Event.persisted i) Phase.kept
  complete : Step Phase.kept (Event.wrote UpdateState.completed) Phase.closing
  -- any other is rolled back
  roll_back :
      {p : Text} → Step Phase.broken (Event.wrote UpdateState.rolling_back) (Phase.restoring p)
  restore : {p : Text} → Step (Phase.restoring p) (Event.recreated p true) (Phase.restored p)
  restore_fails : {p : Text} → Step (Phase.restoring p) (Event.recreated p false) Phase.lost
  copy_back : {p : Text} (b : Bool) → Step (Phase.restored p) (Event.copied b) (Phase.returned p)
  recheck : {p w : Text} → Step (Phase.returned p) (Event.checked w true) (Phase.rechecked p)
  recheck_fails : {p w : Text} → Step (Phase.returned p) (Event.checked w false) Phase.lost
  keep_previous : {p : Text} → Step (Phase.rechecked p) (Event.persisted p) Phase.went_back
  went_back : Step Phase.went_back (Event.wrote UpdateState.rolled_back) Phase.closing
  differs : {p : Text} → Step (Phase.rechecked p) (Event.wrote UpdateState.failed) Phase.closing
  lose : Step Phase.lost (Event.wrote UpdateState.failed) Phase.closing
  close : {b : Bool} → Step Phase.closing (Event.removed_request b) Phase.waiting

-- A history, the newest action first, after which an update is in a phase.
pub data Reached : List Event → Phase → Type 0 where
  start : Reached [] Phase.waiting
  later :
      {es : List Event} {e : Event} {p q : Phase} → Reached es p → Step p e q → Reached (e ∷ es) q
