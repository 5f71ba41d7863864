-- ===== src/Supervisor/Requests.antt =====
-- The request of an update, its validation, and the texts of versions and images, of supervisor.py.
use altr_stream.Base.{
  Text, codes, ◌==◌, Bool, true, false, ◌&&◌, ◌||◌, not, [], ◌∷◌, ◌++◌, Option, none, some,
  if◌then◌else◌,
}
use altr_stream.Merger.{Dict, get}
use altr_stream.Supervisor.{Library}

-- A request that is valid, with the defaults of its keys.
pub record Request : Type 0 where
  pub request_id : Option Text
  pub current_version : Option Text  -- none for a null
  pub target_version : Text
  pub target_image : Text

-- `req.get(k, default)`, none for a null
abbrev pub get_or : Text → Text → Dict (Option Text) → Option Text
unfolding get
get_or k default d = elim (get k d) [ none ↦ some default | some v ↦ v ]

abbrev pub unless_null : Option (Option Text) → Option Text
unless_null none = none
unless_null (some v) = v

-- A text that is tested before it is used: a null is false like the blank text.
abbrev pub or_blank : Option Text → Text
or_blank none = []
or_blank (some v) = v

unfoldable pub begins_with : Text → Text → Bool
begins_with [] s = true
begins_with (c ∷ p) [] = false
begins_with (c ∷ p) (d ∷ s) = c == d && begins_with p s

unfoldable pub has_char : Text → Text → Bool
has_char [] s = false
has_char (c ∷ cs) s = in_text s || has_char cs s
  where
    in_text : Text → Bool
    in_text [] = false
    in_text (d ∷ t) = c == d || in_text t

abbrev pub is_blank : Text → Bool
is_blank [] = true
is_blank (c ∷ s) = false

-- ALLOWED_IMAGE_PREFIXES
unfoldable pub is_allowed : Text → Bool
unfolding begins_with
is_allowed image =
    begins_with (codes "ghcr.io/helloaltr/altr-stream:") image
    || begins_with (codes "altr-stream:") image

-- `_validate_request` does not raise.
unfoldable pub is_valid_request : Dict (Option Text) → Bool
unfolding get is_allowed has_char
is_valid_request req =
    let target_image = or_blank (get_or (codes "target_image") [] req) in
    let target_version = or_blank (get_or (codes "target_version") [] req) in
    not (is_blank target_image || not (is_allowed target_image))
    && not (is_blank target_version || has_char (codes ";;|&`$<>") target_version)

unfoldable pub request_of : Dict (Option Text) → Request
unfolding get
request_of req = record {
  request_id = unless_null (get (codes "request_id") req);
  current_version = get_or (codes "current_version") (codes "unknown") req;
  target_version = or_blank (get_or (codes "target_version") (codes "unknown") req);
  target_image = or_blank (get_or (codes "target_image") [] req);
}

unfoldable pub checked_request : Option (Dict (Option Text)) → Option Request
unfolding is_valid_request request_of
checked_request none = none
checked_request (some req) = if is_valid_request req then some (request_of req) else none

-- The request that the file holds, none where reading or validating it raises.
unfoldable pub parse_request : Library → Text → Option Request
unfolding checked_request
parse_request library content = checked_request (library.loads content)

-- `s.lstrip("v")`
unfoldable pub lstrip_v : Text → Text
lstrip_v [] = []
lstrip_v (c ∷ s) = let rest = lstrip_v s in if c == b'v' then rest else c ∷ s

-- `text or other`
abbrev pub text_or : Text → Text → Text
text_or [] t = t
text_or (c ∷ s) t = c ∷ s

abbrev pub option_or : Option Text → Text → Text
option_or none t = t
option_or (some s) t = text_or s t

-- `text or other`, where both may be None
unfoldable pub or_other : Option Text → Option Text → Option Text
or_other none t = t
or_other (some []) t = t
or_other (some (c ∷ s)) t = some (c ∷ s)

-- A text or None in an f-string
abbrev pub shown : Option Text → Text
shown none = codes "None"
shown (some s) = s

-- `s.split(":")[-1]`, for an `s` with a colon
unfoldable pub after_colon : Text → Text → Text
after_colon part [] = part
after_colon part (c ∷ s) =
    let new = after_colon [] s in
    let longer = after_colon (part ++ c ∷ []) s in if c == b':' then new else longer

-- The tag of an image, which replaces the version if the image has one.
unfoldable pub tag_or : Text → Text → Text
unfolding has_char after_colon
tag_or version image = if has_char (codes ":") image then after_colon [] image else version
