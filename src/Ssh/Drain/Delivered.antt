-- ===== src/Ssh/Drain/Delivered.antt =====
-- What the loop that reads both streams keeps of what they deliver, and what it shows
-- (src/ssh/ssh2_client.rs, `drain_both_streams`).
use sshw.Base.{Bool, true, false, List, [], ◌∷◌, ◌++◌, map, ◌≡◌, refl, ◌⊎◌}
use sshw.Errors.{err, ok}
use sshw.Ssh.Channel.{ReadEvent}
use sshw.Ssh.Drain.{Turn, Drained, DrainRun, draining, drained}
use sshw.Ssh.Drain.Exact.{stream_data, unread}
use sshw.Ssh.Drain.Parts.{Parts}

abbrev pub outs : List Turn → List ReadEvent
outs turns = map (λ turn. turn.stdout_read) turns

abbrev pub errs : List Turn → List ReadEvent
errs turns = map (λ turn. turn.stderr_read) turns

-- The buffers behind a run hold, behind what they held before it, what was delivered: all of it while
-- the run goes on or when it is over; if it failed, what was delivered before the turn that failed,
-- with what this turn delivered or without it.
abbrev Whole : Drained → List Turn → Drained → Type 0
Whole s turns end =
    (end.out ≡ s.out ++ unread s.out_done (outs turns))
    × (end.err ≡ s.err ++ unread s.err_done (errs turns))

abbrev Delivers : Drained → List Turn → DrainRun → Type 0
Delivers s turns (draining end) = Whole s turns end
Delivers s turns (drained end (ok u)) = Whole s turns end
Delivers s turns (drained end (err e)) =
    (before : List Turn) × (turn : Turn) × (after : List Turn) × (turns ≡ before ++ (turn ∷ after))
    × ((end.out ≡ s.out ++ unread s.out_done (outs before))
        ⊎ (end.out ≡ s.out ++ unread s.out_done (outs (before ++ turn ∷ []))))
    × ((end.err ≡ s.err ++ unread s.err_done (errs before))
        ⊎ (end.err ≡ s.err ++ unread s.err_done (errs (before ++ turn ∷ []))))

-- What a turn without an error adds to what is to come.
abbrev Advances : Turn → Drained → Drained → Type 0
Advances turn s next =
    ((events : List ReadEvent)
      → next.out ++ unread next.out_done events
        ≡ s.out ++ unread s.out_done (turn.stdout_read ∷ events))
    × ((events : List ReadEvent)
        → next.err ++ unread next.err_done events
          ≡ s.err ++ unread s.err_done (turn.stderr_read ∷ events))

unread-nil : (over : Bool) → unread over [] ≡ []
unread-nil true = refl
unread-nil false = refl

-- What a run has kept of some turns: all that both streams delivered before their ends, while it goes
-- on and when it is over; if it failed, all that was delivered before one of the turns, and of each
-- stream what this turn delivered or nothing of it.
abbrev pub Delivered : List Turn → DrainRun → Type 0
Delivered turns (draining end) =
    (end.out ≡ stream_data (outs turns)) × (end.err ≡ stream_data (errs turns))
Delivered turns (drained end (ok u)) =
    (end.out ≡ stream_data (outs turns)) × (end.err ≡ stream_data (errs turns))
Delivered turns (drained end (err e)) =
    (before : List Turn) × (turn : Turn) × (after : List Turn) × (turns ≡ before ++ (turn ∷ after))
    × ((end.out ≡ stream_data (outs before)) ⊎ (end.out ≡ stream_data (outs (before ++ turn ∷ []))))
    × ((end.err ≡ stream_data (errs before)) ⊎ (end.err ≡ stream_data (errs (before ++ turn ∷ []))))
