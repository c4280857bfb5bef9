-- ===== src/Errors/Classify.antt =====
-- `classify_error` (src/output.rs): typed kinds first, then markers in the message, then the types
-- of library errors. How a message reads is a parameter.
use sshw.Base.{
  Bool, true, false, ◌||◌, Text, codes, List, [], ◌∷◌, ◌++◌, Option, none, some, if◌then◌else◌, any,
  starts_with, to_ascii_lowercase,
}
use sshw.Errors.{
  ErrorKind, safety, config, auth, ssh, io, policy, unknown, Message, Layer, classified,
  classified_context, context, published_write, credential_cleanup, partial_run, ssh2_error,
  io_error, message, Error, classified_kind, contextual_error_kind,
}

-- `str::contains`.
unfoldable pub contains_text : Text → Text → Bool
unfolding starts_with
contains_text needle [] = starts_with needle []
contains_text needle (c ∷ s) = starts_with needle (c ∷ s) || contains_text needle s

abbrev policy_markers : List Text
policy_markers = codes "blocked by policy" ∷ codes "policy file" ∷ codes "policy enforcement" ∷ []

abbrev config_markers : List Text
config_markers =
    codes "unknown server"
    ∷ codes "no default server configured"
    ∷ codes "failed to load config"
    ∷ codes "failed to load profile registry"
    ∷ codes "failed to save config"
    ∷ codes "profile '"
    ∷ codes "cannot use --home and --profile"
    ∷ codes "not present in the registry"
    ∷ codes "profile add requires"
    ∷ codes "privilege configuration"
    ∷ codes "confirmation requires an interactive terminal"
    ∷ codes "add cancelled"
    ∷ codes "trust cancelled"
    ∷ codes "removal cancelled"
    ∷ codes "privilege update cancelled"
    ∷ codes "privilege clear cancelled"
    ∷ codes "--password-stdin cannot be used with --auth agent"
    ∷ []

abbrev auth_markers : List Text
auth_markers =
    codes "missing credential"
    ∷ codes "credential backend unavailable"
    ∷ codes "authentication"
    ∷ codes "password cannot be empty"
    ∷ codes "must be a single line"
    ∷ []

abbrev ssh_markers : List Text
ssh_markers =
    codes "host key"
    ∷ codes "known_hosts"
    ∷ codes "failed to connect to"
    ∷ codes "failed to resolve"
    ∷ codes "ssh handshake"
    ∷ codes "ssh session"
    ∷ codes "ssh transfer"
    ∷ codes "ended before the completion marker"
    ∷ codes "malformed completion marker"
    ∷ []

abbrev io_markers : List Text
io_markers = codes "local file already exists" ∷ codes "not a regular file" ∷ []

contains_any : List Text → Text → Bool
contains_any markers s = any (λ marker. contains_text marker s) markers

abbrev is_ssh2 : Layer → Bool
is_ssh2 (ssh2_error m) = true
is_ssh2 _ = false

abbrev is_io : Layer → Bool
is_io (io_error m) = true
is_io _ = false

-- `published` is what a `PublishedWriteError` shows before the message of its source.
module _ (render : Message → Text) (published : Text) where
  -- What the outermost layer shows.
  display : Error → Text
  display [] = []
  display (classified kind ∷ e) = display e
  display (partial_run ∷ e) = display e
  display (published_write ∷ e) = published ++ display e
  display (classified_context kind m ∷ e) = render m
  display (context m ∷ e) = render m
  display (credential_cleanup m ∷ e) = render m
  display (ssh2_error m ∷ e) = render m
  display (io_error m ∷ e) = render m
  display (message m ∷ e) = render m

  -- `{err:#}`: what every layer shows.
  pub alternate : Error → Text
  unfolding display
  alternate [] = []
  alternate (l ∷ []) = display (l ∷ [])
  alternate (l ∷ k ∷ e) = display (l ∷ k ∷ e) ++ codes ": " ++ alternate (k ∷ e)

  pub classify_message : Text → Error → ErrorKind
  classify_message s e =
      if contains_text (codes "requires --yes") s
      then safety
      else if contains_any policy_markers s
      then policy
      else if contains_any config_markers s
      then config
      else if contains_any auth_markers s
      then auth
      else if contains_any ssh_markers s || any is_ssh2 e
      then ssh
      else if contains_any io_markers s || any is_io e
      then io
      else unknown

  pub classify_untyped : Option ErrorKind → Error → ErrorKind
  classify_untyped (some kind) e = kind
  classify_untyped none e = classify_message (to_ascii_lowercase (alternate e)) e

  classify_typed : Option ErrorKind → Error → ErrorKind
  classify_typed (some kind) e = kind
  classify_typed none e = classify_untyped (contextual_error_kind e) e

  unfoldable pub classify_error : Error → ErrorKind
  unfolding classify_typed classify_untyped
  classify_error e = classify_typed (classified_kind e) e
