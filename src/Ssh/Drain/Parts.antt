-- ===== src/Ssh/Drain/Parts.antt =====
-- What one turn of the loop adds to the buffers, whatever it ends with (src/ssh/ssh2_client.rs,
-- `drain_both_streams`).
use sshw.Base.{
  ℕ, ◌<◌, Bool, true, false, [], ◌∷◌, ◌++◌, length, if◌then◌else◌, ◌≡◌, refl, arith, ◌⊎◌, inl, inr,
  sym, append-nil, subst,
}
use sshw.Errors.{Result, err, ok, and_then, Result-cases}
use sshw.Ssh.Channel.{
  Bytes, ReadEvent, read, would_block, read_failed, append_output_bounded,
  append_output_bounded_fits, usize_max,
}
use sshw.Ssh.Drain.{
  Turn, Drained, stdout_taken, stderr_taken, on_stdout, on_stderr, visit_stdout, visit_stderr,
  drain_turn,
}
use sshw.Ssh.Drain.Exact.{unread}

-- A buffer behind a turn that failed: as before it, or with what its read delivered.
abbrev pub Part : Bytes → Bool → ReadEvent → Bytes → Type 0
Part before over event after = (after ≡ before) ⊎ (after ≡ before ++ unread over (event ∷ []))

module _ (output_limit : ℕ) (small : output_limit < usize_max) (has_sink : Bool) where
  stdout_taken-Part :
      (b : ℕ) (bytes : Bytes) (sink : Result (Unit {0})) (s : Drained) (step : Result Bytes)
      → append_output_bounded s.out (b ∷ bytes) (length s.err) output_limit ≡ step
      → Part s.out false
          (read (b ∷ bytes))
          (stdout_taken output_limit has_sink (b ∷ bytes) sink s step).0.out
        × ((stdout_taken output_limit has_sink (b ∷ bytes) sink s step).0.err ≡ s.err)
  unfolding stdout_taken
  stdout_taken-Part b bytes sink s (err e) q = (inl refl, refl)
  stdout_taken-Part b bytes sink s (ok out) q =
      let fits =
        append_output_bounded_fits s.out (b ∷ bytes) out (length s.err) output_limit small q in
      (inr (ground (arith, fits.0, append-nil (b ∷ bytes))), ground arith)

  stderr_taken-Part :
      (b : ℕ) (bytes : Bytes) (sink : Result (Unit {0})) (s : Drained) (step : Result Bytes)
      → append_output_bounded s.err (b ∷ bytes) (length s.out) output_limit ≡ step
      → Part s.err false
          (read (b ∷ bytes))
          (stderr_taken output_limit has_sink (b ∷ bytes) sink s step).0.err
        × ((stderr_taken output_limit has_sink (b ∷ bytes) sink s step).0.out ≡ s.out)
  unfolding stderr_taken
  stderr_taken-Part b bytes sink s (err e) q = (inl refl, refl)
  stderr_taken-Part b bytes sink s (ok text) q =
      let fits =
        append_output_bounded_fits s.err (b ∷ bytes) text (length s.out) output_limit small q in
      (inr (ground (arith, fits.0, append-nil (b ∷ bytes))), ground arith)

  on_stdout-Part :
      (event : ReadEvent) (sink : Result (Unit {0})) (s : Drained)
      → Part s.out false event (on_stdout output_limit has_sink event sink s).0.out
        × ((on_stdout output_limit has_sink event sink s).0.err ≡ s.err)
  unfolding on_stdout
  on_stdout-Part (read []) sink s = (inl refl, refl)
  on_stdout-Part would_block sink s = (inl refl, refl)
  on_stdout-Part (read_failed e) sink s = (inl refl, refl)
  on_stdout-Part (read (b ∷ bytes)) sink s = stdout_taken-Part b bytes sink s _ refl

  on_stderr-Part :
      (event : ReadEvent) (sink : Result (Unit {0})) (s : Drained)
      → Part s.err false event (on_stderr output_limit has_sink event sink s).0.err
        × ((on_stderr output_limit has_sink event sink s).0.out ≡ s.out)
  unfolding on_stderr
  on_stderr-Part (read []) sink s = (inl refl, refl)
  on_stderr-Part would_block sink s = (inl refl, refl)
  on_stderr-Part (read_failed e) sink s = (inl refl, refl)
  on_stderr-Part (read (b ∷ bytes)) sink s = stderr_taken-Part b bytes sink s _ refl

  stdout_unless :
      (over : Bool) (event : ReadEvent) (s : Drained) (step : Drained × Result (Unit {0}))
      → Part s.out false event step.0.out × (step.0.err ≡ s.err)
      → Part s.out over event (if over then (s, ok tt) else step).0.out
        × ((if over then (s, ok tt) else step).0.err ≡ s.err)
  stdout_unless true event s step h = (inl refl, refl)
  stdout_unless false event s step h = h

  stderr_unless :
      (over : Bool) (event : ReadEvent) (s : Drained) (step : Drained × Result (Unit {0}))
      → Part s.err false event step.0.err × (step.0.out ≡ s.out)
      → Part s.err over event (if over then (s, ok tt) else step).0.err
        × ((if over then (s, ok tt) else step).0.out ≡ s.out)
  stderr_unless true event s step h = (inl refl, refl)
  stderr_unless false event s step h = h

  visit_stdout-Part :
      (turn : Turn) (s : Drained)
      → Part s.out s.out_done turn.stdout_read (visit_stdout output_limit has_sink turn s).0.out
        × ((visit_stdout output_limit has_sink turn s).0.err ≡ s.err)
  visit_stdout-Part turn s =
      stdout_unless s.out_done turn.stdout_read s
        (on_stdout output_limit has_sink turn.stdout_read turn.stdout_sink s)
        (on_stdout-Part turn.stdout_read turn.stdout_sink s)

  visit_stderr-Part :
      (turn : Turn) (s : Drained)
      → Part s.err s.err_done turn.stderr_read (visit_stderr output_limit has_sink turn s).0.err
        × ((visit_stderr output_limit has_sink turn s).0.out ≡ s.out)
  visit_stderr-Part turn s =
      stderr_unless s.err_done turn.stderr_read s
        (on_stderr output_limit has_sink turn.stderr_read turn.stderr_sink s)
        (on_stderr-Part turn.stderr_read turn.stderr_sink s)

  stdout_taken_keeps :
      (bytes : Bytes) (sink : Result (Unit {0})) (s : Drained) (step : Result Bytes)
      → (stdout_taken output_limit has_sink bytes sink s step).0.err_done ≡ s.err_done
  unfolding stdout_taken
  stdout_taken_keeps bytes sink s (err e) = refl
  stdout_taken_keeps bytes sink s (ok out) = ground arith

  on_stdout_keeps :
      (event : ReadEvent) (sink : Result (Unit {0})) (s : Drained)
      → (on_stdout output_limit has_sink event sink s).0.err_done ≡ s.err_done
  unfolding on_stdout
  on_stdout_keeps (read []) sink s = refl
  on_stdout_keeps would_block sink s = refl
  on_stdout_keeps (read_failed e) sink s = refl
  on_stdout_keeps (read (b ∷ bytes)) sink s = stdout_taken_keeps (b ∷ bytes) sink s _

  visit_stdout_keeps :
      (turn : Turn) (s : Drained)
      → (visit_stdout output_limit has_sink turn s).0.err_done ≡ s.err_done
  visit_stdout_keeps turn s = ground (arith, on_stdout_keeps turn.stdout_read turn.stdout_sink s)

  -- What a turn has done to both buffers, whatever it ends with.
  abbrev pub Parts : Turn → Drained → Drained → Type 0
  Parts turn s end =
      Part s.out s.out_done turn.stdout_read end.out
      × Part s.err s.err_done turn.stderr_read end.err

  stderr_behind :
      (turn : Turn) (s : Drained) (step : Drained × Result (Unit {0}))
      → visit_stdout output_limit has_sink turn s ≡ step
      → Part s.out s.out_done turn.stdout_read step.0.out
      → step.0.err ≡ s.err
      → step.0.err_done ≡ s.err_done
      → Parts turn s (and_then step (λ done. visit_stderr output_limit has_sink turn)).0
  stderr_behind turn s (mid, err e) q part kept kept_done = (part, inl kept)
  stderr_behind turn s (mid, ok u) q part kept kept_done =
      let (part', kept') = visit_stderr-Part turn mid in
      (
        subst (λ out. Part s.out s.out_done turn.stdout_read out) (sym kept') part,
        subst
            (λ before.
              Part before s.err_done turn.stderr_read
                (visit_stderr output_limit has_sink turn mid).0.err)
            kept
            (subst
              (λ over.
                Part mid.err over turn.stderr_read
                  (visit_stderr output_limit has_sink turn mid).0.err)
              kept_done part'),
      )

  pub drain_turn-Parts :
      (turn : Turn) (s : Drained) → Parts turn s (drain_turn output_limit has_sink turn s).0
  unfolding drain_turn
  drain_turn-Parts turn s = elim (Result-cases turn.deadline) [
    | inr (e, q) ↦ rw q (inl refl, inl refl)
    | inl (u, q) ↦
        let (part, kept) = visit_stdout-Part turn s in
        rw q (
          stderr_behind turn s (visit_stdout output_limit has_sink turn s) refl part kept
            (visit_stdout_keeps turn s))
  ]
