-- ===== src/Ssh/Drain/Ends.antt =====
-- When the loop that reads both streams ends (src/ssh/ssh2_client.rs, `drain_both_streams`).
use sshw.Base.{
  Text, ℕ, Bool, true, false, ◌&&◌, List, [], ◌∷◌, some, if◌then◌else◌, ◌≡◌, refl, arith,
  Bool-cases, ◌⊎◌, inl, inr, sym, ap, ◌∙◌,
}
use sshw.Errors.{partial_run, Error, Result, err, ok, and_then}
use sshw.Ssh.Channel.{Bytes, ReadEvent, read, would_block, read_failed}
use sshw.Ssh.Drain.{
  Turn, Drained, nothing_read, stdout_taken, stderr_taken, on_stdout, on_stderr, visit_stdout,
  visit_stderr, drain_turn, DrainRun, draining, drained, drain_loop, Outputs, complete, partial,
  outcome, drain_both_streams,
}

abbrev Step : Type 0
Step = Drained × Result (Unit {0})

and_then-eq-ok :
    (step : Step) (next : Drained → Step) (end : Drained)
    → and_then step (λ done. next) ≡ (end, ok tt)
    → (mid : Drained) × (step ≡ (mid, ok tt)) × (next mid ≡ (end, ok tt))
and_then-eq-ok (s, err e) next end h = cc
and_then-eq-ok (s, ok done) next end h = (s, refl, h)

module _ (output_limit : ℕ) (has_sink : Bool) where
  -- A turn without an error read both streams, one after the other.
  pub drain_turn-eq-ok :
      (turn : Turn) (s next : Drained)
      → drain_turn output_limit has_sink turn s ≡ (next, ok tt)
      → (turn.deadline ≡ ok tt)
        × (mid : Drained) × (visit_stdout output_limit has_sink turn s ≡ (mid, ok tt))
        × (visit_stderr output_limit has_sink turn mid ≡ (next, ok tt))
  unfolding drain_turn
  drain_turn-eq-ok turn s next h =
      let (start, q, r) =
        and_then-eq-ok (s, turn.deadline)
          (λ s.
            and_then (visit_stdout output_limit has_sink turn s)
              (λ done. visit_stderr output_limit has_sink turn))
          next h in
      let (mid, out, err_out) =
        and_then-eq-ok (visit_stdout output_limit has_sink turn start)
          (visit_stderr output_limit has_sink turn) next r in
      (cc, mid, cc, err_out)

  stdout_taken_ends :
      (bytes : Bytes) (sink : Result (Unit {0})) (s : Drained) (step : Result Bytes)
      → ((stdout_taken output_limit has_sink bytes sink s step).0.out_done ≡ s.out_done)
        × ((stdout_taken output_limit has_sink bytes sink s step).0.err_done ≡ s.err_done)
  unfolding stdout_taken
  stdout_taken_ends bytes sink s (err e) = (refl, refl)
  stdout_taken_ends bytes sink s (ok out) = ground arith

  stderr_taken_ends :
      (bytes : Bytes) (sink : Result (Unit {0})) (s : Drained) (step : Result Bytes)
      → ((stderr_taken output_limit has_sink bytes sink s step).0.out_done ≡ s.out_done)
        × ((stderr_taken output_limit has_sink bytes sink s step).0.err_done ≡ s.err_done)
  unfolding stderr_taken
  stderr_taken_ends bytes sink s (err e) = (refl, refl)
  stderr_taken_ends bytes sink s (ok text) = ground arith

  on_stdout_ends :
      (event : ReadEvent) (sink : Result (Unit {0})) (s : Drained)
      → (event ≡ read [] → (on_stdout output_limit has_sink event sink s).0.out_done ≡ true)
        × ((on_stdout output_limit has_sink event sink s).0.err_done ≡ s.err_done)
  unfolding on_stdout
  on_stdout_ends (read []) sink s = (λ e. refl, refl)
  on_stdout_ends (read (b ∷ bytes)) sink s = (λ e. cc, (stdout_taken_ends (b ∷ bytes) sink s _).1)
  on_stdout_ends would_block sink s = (λ e. cc, refl)
  on_stdout_ends (read_failed e) sink s = (λ e. cc, refl)

  on_stderr_ends :
      (event : ReadEvent) (sink : Result (Unit {0})) (s : Drained)
      → (event ≡ read [] → (on_stderr output_limit has_sink event sink s).0.err_done ≡ true)
        × ((on_stderr output_limit has_sink event sink s).0.out_done ≡ s.out_done)
  unfolding on_stderr
  on_stderr_ends (read []) sink s = (λ e. refl, refl)
  on_stderr_ends (read (b ∷ bytes)) sink s = (λ e. cc, (stderr_taken_ends (b ∷ bytes) sink s _).0)
  on_stderr_ends would_block sink s = (λ e. cc, refl)
  on_stderr_ends (read_failed e) sink s = (λ e. cc, refl)

  visit_stdout_ends :
      (turn : Turn) (s : Drained)
      → ((s.out_done ≡ true) ⊎ (turn.stdout_read ≡ read [])
          → (visit_stdout output_limit has_sink turn s).0.out_done ≡ true)
        × ((visit_stdout output_limit has_sink turn s).0.err_done ≡ s.err_done)
  visit_stdout_ends turn s = elim (Bool-cases s.out_done) [
    | inl e ↦ (λ h. ground arith, ground arith)
    | inr e ↦
        let (ends, keeps) = on_stdout_ends turn.stdout_read turn.stdout_sink s in
        (
          λ h. elim h [ inl e' ↦ absurd (ground arith) | inr q ↦ ground (arith, ends q) ],
          ground (arith, keeps),
        )
  ]

  visit_stderr_ends :
      (turn : Turn) (s : Drained)
      → ((s.err_done ≡ true) ⊎ (turn.stderr_read ≡ read [])
          → (visit_stderr output_limit has_sink turn s).0.err_done ≡ true)
        × ((visit_stderr output_limit has_sink turn s).0.out_done ≡ s.out_done)
  visit_stderr_ends turn s = elim (Bool-cases s.err_done) [
    | inl e ↦ (λ h. ground arith, ground arith)
    | inr e ↦
        let (ends, keeps) = on_stderr_ends turn.stderr_read turn.stderr_sink s in
        (
          λ h. elim h [ inl e' ↦ absurd (ground arith) | inr q ↦ ground (arith, ends q) ],
          ground (arith, keeps),
        )
  ]

  drain_turn_ends :
      (turn : Turn) (s next : Drained)
      → drain_turn output_limit has_sink turn s ≡ (next, ok tt)
      → ((s.out_done ≡ true) ⊎ (turn.stdout_read ≡ read []) → next.out_done ≡ true)
        × ((s.err_done ≡ true) ⊎ (turn.stderr_read ≡ read []) → next.err_done ≡ true)
  drain_turn_ends turn s next h =
      let (time, mid, out, err_out) = drain_turn-eq-ok turn s next h in
      let (ends, keeps) = visit_stdout_ends turn s in
      let (ends', keeps') = visit_stderr_ends turn mid in
      (
        λ e.
            sym (ap (λ step. step.0.out_done) err_out)
            ∙ keeps'
            ∙ sym (ap (λ step. step.0.out_done) out)
            ∙ ends e,
        λ e. elim e [
          | inl q ↦
              sym (ap (λ step. step.0.err_done) err_out)
              ∙ ends' (inl (sym (ap (λ step. step.0.err_done) out) ∙ keeps ∙ q))
          | inr q ↦ sym (ap (λ step. step.0.err_done) err_out) ∙ ends' (inr q)
        ],
      )

-- One of the turns reads the end of a stream.
abbrev Ends : (Turn → ReadEvent) → List Turn → Type 0
Ends event [] = ⊥
Ends event (turn ∷ turns) = (event turn ≡ read []) ⊎ Ends event turns

-- One of the turns finds that the deadline has passed.
abbrev IsLate : List Turn → Type 0
IsLate [] = ⊥
IsLate (turn ∷ turns) = ((e : Error) × (turn.deadline ≡ err e)) ⊎ IsLate turns

abbrev IsOver : DrainRun → Type 0
IsOver (draining s) = ⊥
IsOver (drained s outcome) = Unit {0}

-- A turn that cannot happen after the end of a stream's own turns.
later_end :
    (done done' : Bool) (event : Turn → ReadEvent) (turn : Turn) (turns : List Turn)
    → ((done ≡ true) ⊎ (event turn ≡ read []) → done' ≡ true)
    → (done ≡ true) ⊎ Ends event (turn ∷ turns)
    → (done' ≡ true) ⊎ Ends event turns
later_end done done' event turn turns step (inl e) = inl (step (inl e))
later_end done done' event turn turns step (inr (inl e)) = inl (step (inr e))
later_end done done' event turn turns step (inr (inr m)) = inr m

iteration-IsOver :
    (over : Bool) (s : Drained) (step : Step) (rest : Drained → DrainRun)
    → ((next : Drained) → step ≡ (next, ok tt) → IsOver (rest next))
    → IsOver (
        if over
        then drained s (ok tt)
        else elim step.1 [ err e ↦ drained step.0 (err e) | ok done ↦ rest step.0 ])
iteration-IsOver true s step rest h = tt
iteration-IsOver false s (next, err e) rest h = tt
iteration-IsOver false s (next, ok done) rest h = h next refl

module _ (output_limit : ℕ) (has_sink : Bool) where
  drain_loop-IsOver :
      (turns : List Turn) (s : Drained)
      → (s.out_done ≡ true) ⊎ Ends (λ turn. turn.stdout_read) turns
      → (s.err_done ≡ true) ⊎ Ends (λ turn. turn.stderr_read) turns
      → IsOver (drain_loop output_limit has_sink turns s)
  unfolding drain_loop
  drain_loop-IsOver [] s (inl p) (inl q) = rw p (rw q tt)
  drain_loop-IsOver [] s (inr p) q = absurd p
  drain_loop-IsOver [] s p (inr q) = absurd q
  drain_loop-IsOver (turn ∷ turns) s p q =
      iteration-IsOver (s.out_done && s.err_done) s (drain_turn output_limit has_sink turn s)
        (drain_loop output_limit has_sink turns)
        (λ next h.
          let (ends, ends') = drain_turn_ends output_limit has_sink turn s next h in
          drain_loop-IsOver turns next
            (later_end s.out_done next.out_done (λ turn. turn.stdout_read) turn turns ends p)
            (later_end s.err_done next.err_done (λ turn. turn.stderr_read) turn turns ends' q))

  drain_loop_late :
      (turns : List Turn) (s : Drained)
      → IsLate turns
      → IsOver (drain_loop output_limit has_sink turns s)
  unfolding drain_loop
  drain_loop_late [] s late = absurd late
  drain_loop_late (turn ∷ turns) s late =
      iteration-IsOver (s.out_done && s.err_done) s (drain_turn output_limit has_sink turn s)
        (drain_loop output_limit has_sink turns)
        (λ next h. elim late [
          | inl (e, q) ↦
              let (time, mid, out, err_out) =
                drain_turn-eq-ok output_limit has_sink turn s next h in
              absurd cc
          | inr m ↦ drain_loop_late turns next m
        ])

-- The reading is over, with the outputs or with an error, as soon as both streams have ended in
-- its turns, or one of the turns finds that the deadline has passed.
pub drain_both_streams-Ends :
    (decode : Bytes → Text) (output_limit : ℕ) (has_sink : Bool) (turns : List Turn)
    → (Ends (λ turn. turn.stdout_read) turns × Ends (λ turn. turn.stderr_read) turns) ⊎ IsLate turns
    → (outputs : Outputs) × (drain_both_streams decode output_limit has_sink turns ≡ some outputs)
unfolding drain_both_streams
drain_both_streams-Ends decode output_limit has_sink turns h =
    outcome_of (drain_loop output_limit has_sink turns nothing_read) (elim h [
      | inl (p, q) ↦ drain_loop-IsOver output_limit has_sink turns nothing_read (inr p) (inr q)
      | inr late ↦ drain_loop_late output_limit has_sink turns nothing_read late
    ])
  where
    outcome_of :
        (run : DrainRun) → IsOver run → (outputs : Outputs) × (outcome decode run ≡ some outputs)
    outcome_of (draining s) over = absurd over
    outcome_of (drained s (ok done)) over = (complete s.out s.err, refl)
    outcome_of (drained s (err e)) over =
        (partial (partial_run ∷ e) (decode s.out) (decode s.err), refl)
