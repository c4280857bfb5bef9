-- ===== src/Errors/Precedence.antt =====
-- A kind that an error was given is the kind that it is reported with.
use sshw.Base.{Bool, true, ◌||◌, Text, ◌∷◌, ◌≡◌, ◌≢◌, arith, if◌then◌else◌, is_some}
use sshw.Errors.{
  ErrorKind, Message, context, Error, exit_code, remote_nonzero_exit_code, classified_kind,
  contextual_error_kind, with_error_kind,
}
use sshw.Errors.Classify.{classify_error}

-- Every kind has an exit code of its own; none is that of success or of a failed remote command.
pub exit_code-injective :
    (k j : ErrorKind)
    → (exit_code k ≡ exit_code j → k ≡ j)
      × (exit_code k ≢ 0)
      × (exit_code k ≢ remote_nonzero_exit_code)
unfolding exit_code
exit_code-injective k j = (λ h. ground arith, λ h. ground arith, λ h. ground arith)

module _ (render : Message → Text) (published : Text) where
  abbrev pub has_kind : Error → Bool
  has_kind e = is_some (classified_kind e) || is_some (contextual_error_kind e)

  -- An error that has no kind yet is reported with the kind that it is given, and one that has a
  -- kind keeps it, whatever kinds are offered further out.
  pub classify-with_error_kind :
      (kind : ErrorKind) (e : Error)
      → classify_error render published (with_error_kind kind e)
        ≡ (if has_kind e then classify_error render published e else kind)
  unfolding classify_error with_error_kind classified_kind
  classify-with_error_kind kind e = ground arith

  -- A second call changes nothing.
  pub with_error_kind_twice :
      (k j : ErrorKind) (e : Error) → with_error_kind j (with_error_kind k e) ≡ with_error_kind k e
  unfolding with_error_kind classified_kind
  with_error_kind_twice k j e = ground arith

  -- Contexts added outside do not hide a kind.
  pub classify-context :
      (m : Message) (e : Error)
      → has_kind e ≡ true
      → classify_error render published (context m ∷ e) ≡ classify_error render published e
  unfolding classify_error classified_kind contextual_error_kind
  classify-context m e h = ground arith
