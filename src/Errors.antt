-- ===== src/Errors.antt =====
-- Errors of the application (src/error.rs, and `ErrorKind` of src/output.rs). An `anyhow::Error` is
-- its chain of layers, the outermost first; a wrapper's `source` is the rest of the chain.
pub mod Classify
pub mod Precedence
use sshw.Base.{
  ℕ, Bool, true, false, ◌||◌, Text, codes, List, [], ◌∷◌, Option, none, some, if◌then◌else◌,
  is_some, any, ◌≡◌, ◌⊎◌, inl, inr, refl,
}

pub data ErrorKind : Type 0 where
  safety config auth ssh io policy usage unknown : ErrorKind

unfoldable pub exit_code : ErrorKind → ℕ
exit_code safety = 2
exit_code config = 3
exit_code auth = 4
exit_code ssh = 5
exit_code io = 6
exit_code policy = 7
exit_code usage = 9
exit_code unknown = 1

-- `REMOTE_NONZERO_EXIT_CODE`.
abbrev pub remote_nonzero_exit_code : ℕ
remote_nonzero_exit_code = 8

-- What a layer says: a fixed text, or a text formatted from the values that it shows.
pub data Message : Type 0 where
  says : Text → Message
  unknown_server : Text → Message
  unknown_account : Text → Text → Message
  default_account_kept : Text → Text → Message
  privilege_missing : Text → Text → Message
  cleanup_failed : Text → Message

pub data Layer : Type 0 where
  -- `ClassifiedError`, which shows what its source shows
  classified : ErrorKind → Layer
  -- the context `ClassifiedContext`
  classified_context : ErrorKind → Message → Layer
  -- any other `anyhow` context
  context : Message → Layer
  -- `PublishedWriteError`
  published_write : Layer
  -- `CredentialCleanupError`
  credential_cleanup : Message → Layer
  -- `PartialRunError`, which shows what its source shows
  partial_run : Layer
  -- errors of the libraries at the end of a chain
  ssh2_error : Message → Layer
  io_error : Message → Layer
  message : Message → Layer

abbrev pub Error : Type 0
Error = List Layer

unfoldable pub classified_error : ErrorKind → Error → Error
classified_error kind source = classified kind ∷ source

unfoldable pub app_error : ErrorKind → Message → Error
unfolding classified_error
app_error kind m = classified_error kind (message m ∷ [])

unfoldable pub context_with_error_kind : Error → ErrorKind → Message → Error
context_with_error_kind source kind m = classified_context kind m ∷ source

-- The first `ClassifiedError` of the chain.
unfoldable pub classified_kind : Error → Option ErrorKind
classified_kind [] = none
classified_kind (classified kind ∷ e) = some kind
classified_kind (_ ∷ e) = classified_kind e

abbrev pub or_else : Option ErrorKind → Option ErrorKind → Option ErrorKind
or_else none k = k
or_else (some kind) k = some kind

-- `downcast_ref::<ClassifiedContext>`: it looks through contexts, and not into a wrapped error.
unfoldable pub outer_context_kind : Error → Option ErrorKind
outer_context_kind (classified_context kind m ∷ e) = some kind
outer_context_kind (context m ∷ e) = outer_context_kind e
outer_context_kind _ = none

-- The search in the sources of partial runs.
unfoldable pub partial_context_kind : Error → Option ErrorKind
partial_context_kind [] = none
partial_context_kind (partial_run ∷ e) = or_else (outer_context_kind e) (partial_context_kind e)
partial_context_kind (_ ∷ e) = partial_context_kind e

unfoldable pub contextual_error_kind : Error → Option ErrorKind
unfolding outer_context_kind partial_context_kind
contextual_error_kind e = or_else (outer_context_kind e) (partial_context_kind e)

-- `ResultErrorKindExt::with_error_kind`, on the error: a kind that is there stays.
unfoldable pub with_error_kind : ErrorKind → Error → Error
unfolding classified_error
with_error_kind kind e =
    if is_some (classified_kind e) || is_some (contextual_error_kind e)
    then e
    else classified_error kind e

abbrev is_published : Layer → Bool
is_published published_write = true
is_published _ = false

unfoldable pub credential_cleanup_error : Error → Text → Error
unfolding classified_error
credential_cleanup_error source action =
    classified_error auth (credential_cleanup (cleanup_failed action) ∷ source)

-- storage.rs: whether a failed save had already replaced the file.
unfoldable pub write_was_published : Error → Bool
unfolding any
write_was_published = any is_published

-- A fallible step: a value, or an error.
pub data Result {ℓ} (T : Type ℓ) : Type ℓ where
  err : Error → Result T
  ok : T → Result T

-- `if !test { return Err(e) }`
abbrev pub ensure : Bool → Error → Result (Unit {0})
ensure false e = err e
ensure true e = ok tt

module _ {ℓ} {T : Type ℓ} where
  abbrev pub map_err : ErrorKind → Result T → Result T
  map_err kind (err e) = err (with_error_kind kind e)
  map_err kind (ok value) = ok value

  pub Result-cases :
      (outcome : Result T)
      → ((value : T) × (outcome ≡ ok value)) ⊎ ((e : Error) × (outcome ≡ err e))
  Result-cases (err e) = inr (e, refl)
  Result-cases (ok value) = inl (value, refl)

module _ {ℓ κ} {T : Type ℓ} {U : Type κ} where
  -- `?`
  infixl 5 ◌>>=◌
  abbrev pub ◌>>=◌ : Result T → (T → Result U) → Result U
  err e >>= next = err e
  ok value >>= next = next value

  -- What came before a successful end succeeded.
  pub >>=-eq-ok :
      (step : Result T) (next : T → Result U) {end : U}
      → (step >>= next) ≡ ok end
      → (value : T) × (step ≡ ok value) × (next value ≡ ok end)
  >>=-eq-ok (err e) next h = cc
  >>=-eq-ok (ok value) next h = (value, refl, h)

  -- A step with a state, which stays when the step fails.
  abbrev pub and_then {ι} : {S : Type ι} → S × Result T → (T → S → S × Result U) → S × Result U
  and_then (state, err e) next = (state, err e)
  and_then (state, ok value) next = next value state

-- A step whose value is not used.
infixl 5 ◌>>◌
abbrev pub ◌>>◌ {ι} : {U : Type ι} (step : Result (Unit {0})) (next : Result U) → Result U
step >> next = step >>= λ done. next
