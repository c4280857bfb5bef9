-- ===== src/Ssh/Drain/Shown.antt =====
-- What the sink is given of the two streams (src/ssh/ssh2_client.rs, `drain_both_streams`).
use sshw.Base.{
  ℕ, ◌<◌, true, List, [], ◌∷◌, ◌++◌, length, ◌≡◌, refl, append_assoc, append-nil, sym, ap₂, ◌∙◌,
}
use sshw.Errors.{Result, err, ok}
use sshw.Ssh.Channel.{
  Bytes, ReadEvent, read, would_block, read_failed, append_output_bounded,
  append_output_bounded_fits, usize_max,
}
use sshw.Ssh.Drain.{
  OutputStream, stdout, stderr, Turn, Drained, nothing_read, stdout_taken, stderr_taken, on_stdout,
  on_stderr, drain_loop,
}
use sshw.Ssh.Drain.Bounded.{Keeps, state, drain_loop-Keeps}

-- What the sink was given of one stream.
unfoldable pub bytes_of : OutputStream → List (OutputStream × Bytes) → Bytes
bytes_of stream [] = []
bytes_of stdout ((stdout, bytes) ∷ shown) = bytes ++ bytes_of stdout shown
bytes_of stdout ((stderr, bytes) ∷ shown) = bytes_of stdout shown
bytes_of stderr ((stdout, bytes) ∷ shown) = bytes_of stderr shown
bytes_of stderr ((stderr, bytes) ∷ shown) = bytes ++ bytes_of stderr shown

-- The sink was given what the buffers hold.
abbrev pub IsShown : Drained → Type 0
IsShown s = (bytes_of stdout s.shown ≡ s.out) × (bytes_of stderr s.shown ≡ s.err)

bytes_of-append :
    (stream : OutputStream) (shown more : List (OutputStream × Bytes))
    → bytes_of stream (shown ++ more) ≡ bytes_of stream shown ++ bytes_of stream more
unfolding bytes_of
bytes_of-append stream [] more = refl
bytes_of-append stdout ((stdout, bytes) ∷ shown) more =
    rw (bytes_of-append stdout shown more) (sym (append_assoc bytes _ _))
bytes_of-append stdout ((stderr, bytes) ∷ shown) more = bytes_of-append stdout shown more
bytes_of-append stderr ((stdout, bytes) ∷ shown) more = bytes_of-append stderr shown more
bytes_of-append stderr ((stderr, bytes) ∷ shown) more =
    rw (bytes_of-append stderr shown more) (sym (append_assoc bytes _ _))

-- What the sink and the buffer get behind the rest.
shown-append :
    (stream : OutputStream) (bytes text : Bytes) (shown more : List (OutputStream × Bytes))
    → bytes_of stream shown ≡ text
    → bytes_of stream more ≡ bytes
    → bytes_of stream (shown ++ more) ≡ text ++ bytes
shown-append stream bytes text shown more h k = bytes_of-append stream shown more ∙ ap₂ ◌++◌ h k

module _ (output_limit : ℕ) (small : output_limit < usize_max) where
  stdout_taken-IsShown :
      (bytes : Bytes) (sink : Result (Unit {0})) (s : Drained) (step : Result Bytes)
      → append_output_bounded s.out bytes (length s.err) output_limit ≡ step
      → IsShown s
      → IsShown (stdout_taken output_limit true bytes sink s step).0
  unfolding stdout_taken bytes_of
  stdout_taken-IsShown bytes sink s (err e) q h = h
  stdout_taken-IsShown bytes sink s (ok out) q h = (
    shown-append stdout bytes s.out s.shown ((stdout, bytes) ∷ []) h.0 (append-nil bytes)
        ∙ sym (append_output_bounded_fits s.out bytes out (length s.err) output_limit small q).0,
    shown-append stderr [] s.err s.shown ((stdout, bytes) ∷ []) h.1 refl ∙ append-nil s.err,
  )

  stderr_taken-IsShown :
      (bytes : Bytes) (sink : Result (Unit {0})) (s : Drained) (step : Result Bytes)
      → append_output_bounded s.err bytes (length s.out) output_limit ≡ step
      → IsShown s
      → IsShown (stderr_taken output_limit true bytes sink s step).0
  unfolding stderr_taken bytes_of
  stderr_taken-IsShown bytes sink s (err e) q h = h
  stderr_taken-IsShown bytes sink s (ok text) q h = (
    shown-append stdout [] s.out s.shown ((stderr, bytes) ∷ []) h.0 refl ∙ append-nil s.out,
    shown-append stderr bytes s.err s.shown ((stderr, bytes) ∷ []) h.1 (append-nil bytes)
        ∙ sym (append_output_bounded_fits s.err bytes text (length s.out) output_limit small q).0,
  )

  stdout-IsShown :
      (event : ReadEvent) (sink : Result (Unit {0}))
      → Keeps IsShown (on_stdout output_limit true event sink)
  unfolding on_stdout
  stdout-IsShown (read []) sink s h = h
  stdout-IsShown would_block sink s h = h
  stdout-IsShown (read_failed e) sink s h = h
  stdout-IsShown (read (b ∷ bytes)) sink s h = stdout_taken-IsShown (b ∷ bytes) sink s _ refl h

  stderr-IsShown :
      (event : ReadEvent) (sink : Result (Unit {0}))
      → Keeps IsShown (on_stderr output_limit true event sink)
  unfolding on_stderr
  stderr-IsShown (read []) sink s h = h
  stderr-IsShown would_block sink s h = h
  stderr-IsShown (read_failed e) sink s h = h
  stderr-IsShown (read (b ∷ bytes)) sink s h = stderr_taken-IsShown (b ∷ bytes) sink s _ refl h

-- However the run stands, the sink was given of each stream what its buffer holds.
pub drain_loop-IsShown :
    (output_limit : ℕ) (turns : List Turn)
    → output_limit < usize_max
    → IsShown (state (drain_loop output_limit true turns nothing_read))
unfolding bytes_of
drain_loop-IsShown output_limit turns small =
    drain_loop-Keeps output_limit true IsShown (stdout-IsShown output_limit small)
      (stderr-IsShown output_limit small) turns nothing_read (refl, refl)
