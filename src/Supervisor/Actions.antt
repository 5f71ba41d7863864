-- ===== src/Supervisor/Actions.antt =====
-- The steps of the supervisor: calls of the container engine and writes of its files.
use altr_stream.Base.{
  Text, codes, text_eq, Bool, true, false, [], ◌∷◌, ◌++◌, Option, none, some, if◌then◌else◌,
}
use altr_stream.Supervisor.{Status, StatusFile, Library, Host, Event, Action, ◌>>=◌, ◌>>◌, pure}

module _ {W : Type 0} where
  -- A call of the machine.
  abbrev pub call : {A : Type 0} → (W → A × W) → Action W A
  call f s = let (a, w) = f s.world in (a, record s { world = w })

  abbrev pub note : Event → Action W (Unit {0})
  note e s = (tt, record s { events = e ∷ s.events })

  abbrev pub set_status : Status → Action W (Unit {0})
  set_status status s = (tt, record s { status_file = StatusFile.holds status })

module _ {W : Type 0} (host : Host W) where
  abbrev pub sync_status : Action W Bool
  sync_status s = call (host.copy_to_container s.status_file) s

  -- `_write_status_atomic`: a failed copy into the container is only logged
  unfoldable pub write_status : Status → Action W (Unit {0})
  write_status status = do
    set_status status
    note (Event.wrote status.state)
    synced ← sync_status
    pure tt

  -- A file that unlink raises for is kept.
  unfoldable pub unlink : Option Text → Action W Bool
  unlink none = pure true
  unlink (some content) = do gone ← call host.unlink_request; clear_if gone
    where
      clear_if : Bool → Action W Bool
      clear_if true s = (true, record s { request_file = none })
      clear_if false s = (false, s)

  -- `_cleanup_request_file`
  unfoldable pub cleanup_request_file : Action W (Unit {0})
  unfolding unlink
  cleanup_request_file = do
    gone ← (λ s. unlink s.request_file s)
    note (Event.removed_request gone)
    inside ← call host.remove_in_container
    pure tt

  abbrev pub succeeded : Option Text → Bool
  succeeded none = true
  succeeded (some message) = false

  unfoldable pub call_pull_image : Text → Action W (Option Text)
  call_pull_image image = do
    raised ← call (host.pull_image image)
    note (Event.pulled image (succeeded raised))
    pure raised

  abbrev pub note_found : Text → Option Bool → Action W (Unit {0})
  note_found image none = pure tt
  note_found image (some found) = note (Event.found_locally image found)

  -- none where the call raises
  unfoldable pub call_image_exists : Text → Action W (Option Bool)
  call_image_exists image = do
    found ← call (host.image_exists_locally image)
    note_found image found
    pure found

  unfoldable pub call_recreate_service : Text → Action W Bool
  call_recreate_service image = do
    ok ← call (host.recreate_service image)
    note (Event.recreated image ok)
    pure ok

  unfoldable pub copy_status_in : Action W Bool
  copy_status_in = do ok ← sync_status; note (Event.copied ok); pure ok

  -- A version that is None is written like no version.
  abbrev pub text_of : Option Text → Text
  text_of none = []
  text_of (some version) = version

  unfoldable pub call_wait_for_health : Option Text → Action W Bool
  call_wait_for_health version = do
    ok ← call (host.wait_for_health version)
    note (Event.checked (text_of version) ok)
    pure ok

module _ (library : Library) where
  -- The .env file with the image, if there is one.
  abbrev pub new_env : Text → Option Text → Option Text
  new_env image none = none
  new_env image (some content) = some (
      if library.has_image_line content
      then library.sub_image_line image content
      else library.rstrip content ++ (codes "\nALTR_STREAM_IMAGE=" ++ (image ++ codes "\n")))

  -- The compose file is written only if the substitution changes it.
  abbrev pub new_compose : Text → Option Text → Option Text
  unfolding text_eq
  new_compose image none = none
  new_compose image (some content) =
      let updated = library.sub_compose_image image content in
      some (if text_eq updated content then content else updated)

  -- `_persist_image_update`
  unfoldable pub persist_image_update : {W : Type 0} → Text → Action W (Unit {0})
  unfolding text_eq
  persist_image_update {W} image = write >> note (Event.persisted image)
    where
      write : Action W (Unit {0})
      write s = (
        tt,
        record s {
          env_file = new_env image s.env_file;
          compose_file = new_compose image s.compose_file;
        },
      )
