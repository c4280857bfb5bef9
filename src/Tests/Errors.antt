-- ===== src/Tests/Errors.antt =====
-- Runs of the classification of errors.
use sshw.Base.{true, Text, codes, [], ◌∷◌, ◌≡◌, refl}
use sshw.Errors.{
  auth, Message, says, unknown_server, unknown_account, default_account_kept, privilege_missing,
  cleanup_failed, message, Error, app_error, classified_error, classified_kind,
}
use sshw.Errors.Precedence.{has_kind}

abbrev render : Message → Text
render (says text) = text
render (unknown_server name) = codes "unknown server"
render (unknown_account server user) = codes "unknown account"
render (default_account_kept server user) = codes "cannot remove default account"
render (privilege_missing server user) = codes "privilege configuration missing"
render (cleanup_failed action) = codes "credential cleanup failed"

abbrev published : Text
published = codes "published: "

abbrev untyped : Error
untyped = message (says (codes "disk is full")) ∷ []

abbrev typed : Error
typed = app_error auth (says (codes "denied"))

typed-has_kind : has_kind render published typed ≡ true
unfolding app_error classified_error classified_kind
typed-has_kind = refl
