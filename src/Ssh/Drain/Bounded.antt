-- ===== src/Ssh/Drain/Bounded.antt =====
-- Invariants of the loop that reads both streams (src/ssh/ssh2_client.rs, `drain_both_streams`).
use sshw.Base.{
  Text, subst, some-injective, ℕ, ◌+◌, ◌≤◌, ◌<◌, Bool, true, false, ◌&&◌, List, [], ◌∷◌, some,
  length, if◌then◌else◌, ◌≡◌, refl, arith, Bool-cases, inl, inr,
}
use sshw.Errors.{Result, err, ok, and_then}
use sshw.Ssh.Channel.{
  Bytes, ReadEvent, read, would_block, read_failed, append_output_bounded,
  append_output_bounded_fits, usize_max,
}
use sshw.Ssh.Drain.{
  Turn, Drained, nothing_read, stdout_taken, stderr_taken, on_stdout, on_stderr, visit_stdout,
  visit_stderr, drain_turn, DrainRun, draining, drained, drain_loop, Outputs, complete, partial,
  drain_both_streams, outcome,
}

-- A step whose state keeps `P`, also where it fails.
abbrev pub Keeps : (Drained → Type 0) → (Drained → Drained × Result (Unit {0})) → Type 0
Keeps P step = (s : Drained) → P s → P (step s).0

abbrev pub state : DrainRun → Drained
state (draining s) = s
state (drained s outcome) = s

and_then-Keeps :
    (P : Drained → Type 0) (step : Drained × Result (Unit {0}))
    (next : Drained → Drained × Result (Unit {0}))
    → P step.0
    → Keeps P next
    → P (and_then step (λ done. next)).0
and_then-Keeps P (s, err e) next h k = h
and_then-Keeps P (s, ok done) next h k = k s h

unless-Keeps :
    (P : Drained → Type 0) (test : Bool) (step : Drained → Drained × Result (Unit {0}))
    (s : Drained)
    → P s
    → Keeps P step
    → P (if test then (s, ok tt) else step s).0
unless-Keeps P true step s h k = h
unless-Keeps P false step s h k = k s h

module _ (output_limit : ℕ) (has_sink : Bool) (P : Drained → Type 0)
    (stdout-Keeps : (event : ReadEvent) (sink : Result (Unit {0}))
      → Keeps P (on_stdout output_limit has_sink event sink))
    (stderr-Keeps : (event : ReadEvent) (sink : Result (Unit {0}))
      → Keeps P (on_stderr output_limit has_sink event sink)) where
  drain_turn-Keeps : (turn : Turn) → Keeps P (drain_turn output_limit has_sink turn)
  unfolding drain_turn
  drain_turn-Keeps turn s h =
      and_then-Keeps P (s, turn.deadline)
        (λ s.
          and_then (visit_stdout output_limit has_sink turn s)
            (λ done. visit_stderr output_limit has_sink turn))
        h
        (λ s h.
          and_then-Keeps P (visit_stdout output_limit has_sink turn s)
            (visit_stderr output_limit has_sink turn)
            (unless-Keeps P s.out_done
              (on_stdout output_limit has_sink turn.stdout_read turn.stdout_sink) s h
              (stdout-Keeps turn.stdout_read turn.stdout_sink))
            (λ s h.
              unless-Keeps P s.err_done
                (on_stderr output_limit has_sink turn.stderr_read turn.stderr_sink) s h
                (stderr-Keeps turn.stderr_read turn.stderr_sink)))

  iteration-Keeps :
      (turns : List Turn) (over : Bool) {s : Drained} (step : Drained × Result (Unit {0}))
      → P s
      → P step.0
      → (P step.0 → P (state (drain_loop output_limit has_sink turns step.0)))
      → P (
          state (
            if over then drained s (ok tt) else elim step.1 [
              | err e ↦ drained step.0 (err e)
              | ok done ↦ drain_loop output_limit has_sink turns step.0
            ]))
  iteration-Keeps turns true step h k rest = h
  iteration-Keeps turns false (next, err e) h k rest = k
  iteration-Keeps turns false (next, ok done) h k rest = rest k

  -- The loop keeps what its reads keep.
  pub drain_loop-Keeps :
      (turns : List Turn) (s : Drained) → P s → P (state (drain_loop output_limit has_sink turns s))
  unfolding drain_loop
  drain_loop-Keeps [] s h = elim (Bool-cases (s.out_done && s.err_done)) [
    | inl e ↦ rw e h
    | inr e ↦ rw e h
  ]
  drain_loop-Keeps (turn ∷ turns) s h =
      iteration-Keeps turns (s.out_done && s.err_done) (drain_turn output_limit has_sink turn s) h
        (drain_turn-Keeps turn s h)
        (drain_loop-Keeps turns (drain_turn output_limit has_sink turn s).0)

-- Both outputs fit in the limit together.
abbrev IsBounded : ℕ → Drained → Type 0
IsBounded limit s = length s.out + length s.err ≤ limit

module _ (output_limit : ℕ) (small : output_limit < usize_max) where
  stdout_taken-IsBounded :
      (has_sink : Bool) (bytes : Bytes) (sink : Result (Unit {0})) (s : Drained)
      (step : Result Bytes)
      → append_output_bounded s.out bytes (length s.err) output_limit ≡ step
      → IsBounded output_limit s
      → IsBounded output_limit (stdout_taken output_limit has_sink bytes sink s step).0
  unfolding stdout_taken
  stdout_taken-IsBounded has_sink bytes sink s (err e) q h = h
  stdout_taken-IsBounded true bytes sink s (ok out) q h =
      (append_output_bounded_fits s.out bytes out (length s.err) output_limit small q).1
  stdout_taken-IsBounded false bytes sink s (ok out) q h =
      (append_output_bounded_fits s.out bytes out (length s.err) output_limit small q).1

  stderr_taken-IsBounded :
      (has_sink : Bool) (bytes : Bytes) (sink : Result (Unit {0})) (s : Drained)
      (step : Result Bytes)
      → append_output_bounded s.err bytes (length s.out) output_limit ≡ step
      → IsBounded output_limit s
      → IsBounded output_limit (stderr_taken output_limit has_sink bytes sink s step).0
  unfolding stderr_taken
  stderr_taken-IsBounded has_sink bytes sink s (err e) q h = h
  stderr_taken-IsBounded true bytes sink s (ok text) q h =
      omega
        (arith, (append_output_bounded_fits s.err bytes text (length s.out) output_limit small q).1)
  stderr_taken-IsBounded false bytes sink s (ok text) q h =
      omega
        (arith, (append_output_bounded_fits s.err bytes text (length s.out) output_limit small q).1)

  stdout-IsBounded :
      (has_sink : Bool) (event : ReadEvent) (sink : Result (Unit {0}))
      → Keeps (IsBounded output_limit) (on_stdout output_limit has_sink event sink)
  unfolding on_stdout
  stdout-IsBounded has_sink (read []) sink s h = h
  stdout-IsBounded has_sink would_block sink s h = h
  stdout-IsBounded has_sink (read_failed e) sink s h = h
  stdout-IsBounded has_sink (read (b ∷ bytes)) sink s h =
      stdout_taken-IsBounded has_sink (b ∷ bytes) sink s _ refl h

  stderr-IsBounded :
      (has_sink : Bool) (event : ReadEvent) (sink : Result (Unit {0}))
      → Keeps (IsBounded output_limit) (on_stderr output_limit has_sink event sink)
  unfolding on_stderr
  stderr-IsBounded has_sink (read []) sink s h = h
  stderr-IsBounded has_sink would_block sink s h = h
  stderr-IsBounded has_sink (read_failed e) sink s h = h
  stderr-IsBounded has_sink (read (b ∷ bytes)) sink s h =
      stderr_taken-IsBounded has_sink (b ∷ bytes) sink s _ refl h

-- Both outputs together are within a limit; those of a failed run are so before they are decoded.
abbrev pub WithinLimit : (Bytes → Text) → ℕ → Outputs → Type 0
WithinLimit decode limit (complete out err_out) = length out + length err_out ≤ limit
WithinLimit decode limit (partial e out err_out) =
    (raw : Bytes) × (raw' : Bytes) × (out ≡ decode raw)
    × (err_out ≡ decode raw')
    × (length raw + length raw' ≤ limit)

-- Whatever the channel, the clock and the sink answer, both outputs together are within the limit
-- if it is below the largest usize; those of a failed run are decoded from bytes within the limit.
pub drain_both_streams_bounded :
    (decode : Bytes → Text) (output_limit : ℕ) (has_sink : Bool) (turns : List Turn)
    (outputs : Outputs)
    → output_limit < usize_max
    → drain_both_streams decode output_limit has_sink turns ≡ some outputs
    → WithinLimit decode output_limit outputs
unfolding drain_both_streams
drain_both_streams_bounded decode output_limit has_sink turns outputs small h =
    go (drain_loop output_limit has_sink turns nothing_read)
      (drain_loop-Keeps output_limit has_sink (IsBounded output_limit)
        (stdout-IsBounded output_limit small has_sink)
        (stderr-IsBounded output_limit small has_sink) turns nothing_read (omega arith))
      h
  where
    go :
        (run : DrainRun)
        → IsBounded output_limit (state run)
        → outcome decode run ≡ some outputs
        → WithinLimit decode output_limit outputs
    go (draining s) k q = cc
    go (drained s (ok done)) k q = subst (WithinLimit decode output_limit) (some-injective _ _ q) k
    go (drained s (err e)) k q =
        subst (WithinLimit decode output_limit) (some-injective _ _ q) (s.out, s.err, refl, refl, k)
