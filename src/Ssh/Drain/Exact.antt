-- ===== src/Ssh/Drain/Exact.antt =====
-- What a complete reading returns (src/ssh/ssh2_client.rs, `drain_both_streams`).
use sshw.Base.{
  Text, ℕ, ◌<◌, Bool, true, false, ◌&&◌, List, [], ◌∷◌, ◌++◌, map, length, some, if◌then◌else◌, ◌≡◌,
  refl, arith, Bool-cases, ◌⊎◌, inl, inr, sym, ap, ap₂, ◌∙◌, append_assoc, append-nil,
}
use sshw.Errors.{Result, err, ok}
use sshw.Ssh.Channel.{
  Bytes, ReadEvent, read, would_block, read_failed, append_output_bounded,
  append_output_bounded_fits, usize_max,
}
use sshw.Ssh.Drain.{
  Turn, Drained, nothing_read, stdout_taken, stderr_taken, on_stdout, on_stderr, visit_stdout,
  visit_stderr, drain_turn, DrainRun, draining, drained, drain_loop, complete, outcome,
  drain_both_streams,
}
use sshw.Ssh.Drain.Ends.{drain_turn-eq-ok}

-- The bytes of a stream: what its reads deliver before the first that delivers none.
abbrev pub stream_data : List ReadEvent → Bytes
stream_data [] = []
stream_data (read [] ∷ events) = []
stream_data (read (b ∷ bytes) ∷ events) = (b ∷ bytes) ++ stream_data events
stream_data (would_block ∷ events) = stream_data events
stream_data (read_failed e ∷ events) = stream_data events

-- What is still to come of a stream.
abbrev pub unread : Bool → List ReadEvent → Bytes
unread true events = []
unread false events = stream_data events

run_state : Drained → DrainRun → Drained
run_state d (draining s) = s
run_state d (drained s outcome) = s

drained_state : (s t : Drained) (p q : Result (Unit {0})) → drained s p ≡ drained t q → s ≡ t
unfolding run_state
drained_state s t p q h = ap (run_state s) h

pub at_end :
    (s end : Drained) (events events' : List ReadEvent)
    → (s.out_done && s.err_done) ≡ true
    → s ≡ end
    → (end.out ≡ s.out ++ unread s.out_done events) × (end.err ≡ s.err ++ unread s.err_done events')
at_end s end events events' over q =
    let out_over : s.out_done ≡ true = ground arith in
    let err_over : s.err_done ≡ true = ground arith in
    (
      ap (λ s. s.out) (sym q) ∙ rw out_over (sym (append-nil s.out)),
      ap (λ s. s.err) (sym q) ∙ rw err_over (sym (append-nil s.err)),
    )

pub iteration_drained :
    (over : Bool) (s end : Drained) (step : Drained × Result (Unit {0})) (rest : Drained → DrainRun)
    → (if over
        then drained s (ok tt)
        else elim step.1 [ err e ↦ drained step.0 (err e) | ok done ↦ rest step.0 ])
      ≡ drained end (ok tt)
    → ((over ≡ true) × (s ≡ end))
      ⊎ ((next : Drained) × (step ≡ (next, ok tt)) × (rest next ≡ drained end (ok tt)))
iteration_drained true s end step rest h = inl (refl, drained_state s end (ok tt) (ok tt) h)
iteration_drained false s end (next, err e) rest h = cc
iteration_drained false s end (next, ok done) rest h = inr (next, refl, h)

outcome-eq-complete :
    (decode : Bytes → Text) (run : DrainRun) (out err_out : Bytes)
    → outcome decode run ≡ some (complete out err_out)
    → (s : Drained) × (run ≡ drained s (ok tt)) × (s.out ≡ out) × (s.err ≡ err_out)
outcome-eq-complete decode (draining s) out err_out h = cc
outcome-eq-complete decode (drained s (err e)) out err_out h = cc
outcome-eq-complete decode (drained s (ok done)) out err_out h =
    (s, refl, ground arith, ground arith)

module _ (output_limit : ℕ) (small : output_limit < usize_max) (has_sink : Bool) where
  stdout_taken_appends :
      (bytes : Bytes) (sink : Result (Unit {0})) (s next : Drained) (step : Result Bytes)
      → append_output_bounded s.out bytes (length s.err) output_limit ≡ step
      → stdout_taken output_limit has_sink bytes sink s step ≡ (next, ok tt)
      → (next.out ≡ s.out ++ bytes)
        × (next.out_done ≡ s.out_done)
        × (next.err ≡ s.err)
        × (next.err_done ≡ s.err_done)
  unfolding stdout_taken
  stdout_taken_appends bytes sink s next (err e) q h = cc
  stdout_taken_appends bytes sink s next (ok out) q h =
      let fits = append_output_bounded_fits s.out bytes out (length s.err) output_limit small q in
      elim (Bool-cases has_sink) [
        | inl e ↦ (ground (arith, fits.0), ground arith, ground arith, ground arith)
        | inr e ↦ (ground (arith, fits.0), ground arith, ground arith, ground arith)
      ]

  on_stdout_advances :
      (event : ReadEvent) (sink : Result (Unit {0})) (s next : Drained) (events : List ReadEvent)
      → s.out_done ≡ false
      → on_stdout output_limit has_sink event sink s ≡ (next, ok tt)
      → (next.out ++ unread next.out_done events ≡ s.out ++ stream_data (event ∷ events))
        × (next.err ≡ s.err)
        × (next.err_done ≡ s.err_done)
  unfolding on_stdout
  on_stdout_advances (read []) sink s next events live h =
      (ground arith, ground arith, ground arith)
  on_stdout_advances would_block sink s next events live h =
      (ground arith, ground arith, ground arith)
  on_stdout_advances (read_failed e) sink s next events live h = cc
  on_stdout_advances (read (b ∷ bytes)) sink s next events live h =
      let (text, done, kept, kept_done) = stdout_taken_appends (b ∷ bytes) sink s next _ refl h in
      (ground (arith, append_assoc s.out (b ∷ bytes) (stream_data events)), kept, kept_done)

  pub visit_stdout_advances :
      (turn : Turn) (s next : Drained) (events : List ReadEvent)
      → visit_stdout output_limit has_sink turn s ≡ (next, ok tt)
      → (next.out ++ unread next.out_done events
          ≡ s.out ++ unread s.out_done (turn.stdout_read ∷ events))
        × (next.err ≡ s.err)
        × (next.err_done ≡ s.err_done)
  visit_stdout_advances turn s next events h = elim (Bool-cases s.out_done) [
    | inl over ↦ (ground arith, ground arith, ground arith)
    | inr live ↦
        let (text, kept, kept_done) =
          on_stdout_advances turn.stdout_read turn.stdout_sink s next events live (ground arith) in
        (ground arith, kept, kept_done)
  ]

  stderr_taken_appends :
      (bytes : Bytes) (sink : Result (Unit {0})) (s next : Drained) (step : Result Bytes)
      → append_output_bounded s.err bytes (length s.out) output_limit ≡ step
      → stderr_taken output_limit has_sink bytes sink s step ≡ (next, ok tt)
      → (next.err ≡ s.err ++ bytes)
        × (next.err_done ≡ s.err_done)
        × (next.out ≡ s.out)
        × (next.out_done ≡ s.out_done)
  unfolding stderr_taken
  stderr_taken_appends bytes sink s next (err e) q h = cc
  stderr_taken_appends bytes sink s next (ok text) q h =
      let fits = append_output_bounded_fits s.err bytes text (length s.out) output_limit small q in
      elim (Bool-cases has_sink) [
        | inl e ↦ (ground (arith, fits.0), ground arith, ground arith, ground arith)
        | inr e ↦ (ground (arith, fits.0), ground arith, ground arith, ground arith)
      ]

  on_stderr_advances :
      (event : ReadEvent) (sink : Result (Unit {0})) (s next : Drained) (events : List ReadEvent)
      → s.err_done ≡ false
      → on_stderr output_limit has_sink event sink s ≡ (next, ok tt)
      → (next.err ++ unread next.err_done events ≡ s.err ++ stream_data (event ∷ events))
        × (next.out ≡ s.out)
        × (next.out_done ≡ s.out_done)
  unfolding on_stderr
  on_stderr_advances (read []) sink s next events live h =
      (ground arith, ground arith, ground arith)
  on_stderr_advances would_block sink s next events live h =
      (ground arith, ground arith, ground arith)
  on_stderr_advances (read_failed e) sink s next events live h = cc
  on_stderr_advances (read (b ∷ bytes)) sink s next events live h =
      let (text, done, kept, kept_done) = stderr_taken_appends (b ∷ bytes) sink s next _ refl h in
      (ground (arith, append_assoc s.err (b ∷ bytes) (stream_data events)), kept, kept_done)

  pub visit_stderr_advances :
      (turn : Turn) (s next : Drained) (events : List ReadEvent)
      → visit_stderr output_limit has_sink turn s ≡ (next, ok tt)
      → (next.err ++ unread next.err_done events
          ≡ s.err ++ unread s.err_done (turn.stderr_read ∷ events))
        × (next.out ≡ s.out)
        × (next.out_done ≡ s.out_done)
  visit_stderr_advances turn s next events h = elim (Bool-cases s.err_done) [
    | inl over ↦ (ground arith, ground arith, ground arith)
    | inr live ↦
        let (text, kept, kept_done) =
          on_stderr_advances turn.stderr_read turn.stderr_sink s next events live (ground arith) in
        (ground arith, kept, kept_done)
  ]

  drain_loop-appends :
      (turns : List Turn) (s end : Drained)
      → drain_loop output_limit has_sink turns s ≡ drained end (ok tt)
      → (end.out ≡ s.out ++ unread s.out_done (map (λ turn. turn.stdout_read) turns))
        × (end.err ≡ s.err ++ unread s.err_done (map (λ turn. turn.stderr_read) turns))
  unfolding drain_loop
  drain_loop-appends [] s end h = elim (Bool-cases (s.out_done && s.err_done)) [
    | inl over ↦
        let same_state : s ≡ end = drained_state s end (ok tt) (ok tt) (ground arith) in
        at_end s end [] [] over same_state
    | inr more ↦ absurd (ground arith)
  ]
  drain_loop-appends (turn ∷ turns) s end h =
      elim (iteration_drained (s.out_done && s.err_done) s end
        (drain_turn output_limit has_sink turn s) (drain_loop output_limit has_sink turns) h) [
          | inl (over, q) ↦ at_end s end _ _ over q
          | inr (next, step, rest) ↦
              let (time, mid, out, err_out) =
                drain_turn-eq-ok output_limit has_sink turn s next step in
              let (grows, kept, kept_done) =
                visit_stdout_advances turn s mid (map (λ turn. turn.stdout_read) turns) out in
              let (grows', kept', kept_done') =
                visit_stderr_advances turn mid next (map (λ turn. turn.stderr_read) turns)
                  err_out in
              let (all_out, all_err) = drain_loop-appends turns next end rest in
              (
                all_out
                    ∙ ap₂ (λ text done. text ++ unread done (map (λ turn. turn.stdout_read) turns))
                        kept' kept_done'
                    ∙ grows,
                all_err
                    ∙ grows'
                    ∙ ap₂
                        (λ text done.
                          text
                          ++ unread done (turn.stderr_read ∷ map (λ turn. turn.stderr_read) turns))
                        kept kept_done,
              )
        ]

-- A reading that succeeds returns what each stream delivered before its end, in order and whole,
-- however the reads of the two alternate and whether or not a sink watches.
pub drain_both_streams-complete :
    (decode : Bytes → Text) (output_limit : ℕ) (has_sink : Bool) (turns : List Turn)
    (out err_out : Bytes)
    → output_limit < usize_max
    → drain_both_streams decode output_limit has_sink turns ≡ some (complete out err_out)
    → (out ≡ stream_data (map (λ turn. turn.stdout_read) turns))
      × (err_out ≡ stream_data (map (λ turn. turn.stderr_read) turns))
unfolding drain_both_streams
drain_both_streams-complete decode output_limit has_sink turns out err_out small h =
    let (s, run, p, q) =
      outcome-eq-complete decode (drain_loop output_limit has_sink turns nothing_read) out err_out
        h in
    let (all_out, all_err) =
      drain_loop-appends output_limit small has_sink turns nothing_read s run in
    (sym p ∙ all_out, sym q ∙ all_err)
