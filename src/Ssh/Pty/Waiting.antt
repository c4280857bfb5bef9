-- ===== src/Ssh/Pty/Waiting.antt =====
-- How long the loop under a terminal waits for its prompt, and how much it collects
-- (src/ssh/ssh2_client.rs, `pty_collect_loop`).
use sshw.Base.{
  ℕ, ◌≤◌, ◌<◌, Bool, true, false, not, ◌&&◌, Text, List, [], ◌∷◌, ◌++◌, length, leb, if◌then◌else◌,
  ◌≡◌, inl, inr, refl, sym, ap, ◌∙◌, arith, Bool-cases, append_assoc, subst, starts_with, is_empty,
  starts_with-eq-true, starts_with-append,
}
use sshw.Errors.{Result, err, ok, Result-cases}
use sshw.Errors.Classify.{contains_text}
use sshw.Ssh.Channel.{
  Bytes, ReadEvent, read, would_block, read_failed, append_output_bounded,
  append_output_bounded_fits, usize_max,
}
use sshw.Ssh.Framing.{contains_subslice}
use sshw.Ssh.Pty.Exchange.{exchange_keeps, collected}
use sshw.Ssh.Pty.{
  PtyTurn, Collected, nothing_collected, exchange, Next, prompt_wait, next_turn, break, fail,
  after_exchange, closed_by, should_inject, react, see_marker, read_appended, on_read, pty_turn,
  PtyRun, waiting, ended, pty_collect_loop,
}

starts_with_grows :
    (needle s more : Text) → starts_with needle s ≡ true → starts_with needle (s ++ more) ≡ true
starts_with_grows needle s more h =
    let (rest, e) = starts_with-eq-true needle s h in
    ap (λ t. starts_with needle (t ++ more)) e
    ∙ ap (starts_with needle) (append_assoc needle rest more)
    ∙ starts_with-append needle (rest ++ more)

contains_text_grows :
    (needle s more : Text) → contains_text needle s ≡ true → contains_text needle (s ++ more) ≡ true
unfolding contains_text
contains_text_grows needle [] [] h = h
contains_text_grows needle [] (d ∷ more) h =
    ground (arith, starts_with_grows needle [] (d ∷ more) h)
contains_text_grows needle (c ∷ s) more h = elim (Bool-cases (starts_with needle (c ∷ s))) [
  | inl e ↦ ground (arith, starts_with_grows needle (c ∷ s) more e)
  | inr e ↦ ground (arith, contains_text_grows needle s more (ground arith))
]

contains_subslice_grows :
    (s more needle : Text)
    → contains_subslice s needle ≡ true
    → contains_subslice (s ++ more) needle ≡ true
unfolding contains_subslice is_empty
contains_subslice_grows s more [] h = ground arith
contains_subslice_grows s more (c ∷ needle) h =
    ground (arith, contains_text_grows (c ∷ needle) s more (ground arith))

waiting_or : Collected → PtyRun → Collected
waiting_or d (waiting s) = s
waiting_or d (ended s outcome) = d

waiting_state : (s t : Collected) → waiting s ≡ waiting t → s ≡ t
unfolding waiting_or
waiting_state s t h = ap (waiting_or s) h

module _ (decode : Bytes → Text) (begin_marker : Bytes) (output_limit : ℕ) where
  -- What the invariant says of a state: a command that counts as started printed its marker, and
  -- the output is within its limit.
  abbrev Sound : Collected → Type 0
  Sound s =
      (s.command_started ≡ true → contains_subslice s.out begin_marker ≡ true)
      × (length s.out ≤ output_limit)

  -- A turn goes on after the prompt's time only with a command that has started.
  abbrev OnTime : PtyTurn → Next → Type 0
  OnTime turn (next_turn s) = Sound s × (prompt_wait ≤ turn.elapsed → s.command_started ≡ true)
  OnTime turn (break s) = Sound s
  OnTime turn (fail s e) = length s.out ≤ output_limit

  after_exchange-OnTime :
      (turn : PtyTurn) (step : Collected × Result (Unit {0}))
      → Sound step.0
      → OnTime turn (after_exchange turn step)
  unfolding after_exchange
  after_exchange-OnTime turn (s, err e) h = h.1
  after_exchange-OnTime turn (s, ok done) h =
      elim (Bool-cases (not s.command_started && leb 30000 turn.elapsed)) [
        | inl late ↦ rw late h.1
        | inr early ↦ rw early (h, λ le. ground arith)
      ]

  closed_by-Sound :
      (inject : Bool) (step : Collected × Result (Unit {0}))
      → Sound step.0
      → Sound (closed_by inject step).0
  closed_by-Sound inject (s, err e) h = h
  closed_by-Sound inject (s, ok done) h = h

  test-Sound :
      (test inject : Bool) (turn : PtyTurn) (s : Collected)
      → Sound s
      → Sound (if test then closed_by inject (exchange inject turn s) else (s, ok tt)).0
  test-Sound false inject turn s h = h
  test-Sound true inject turn s h =
      let (out, started) = exchange_keeps inject turn s in
      closed_by-Sound inject (exchange inject turn s) (
        λ e. ap (λ t. contains_subslice t begin_marker) out ∙ h.0 (sym started ∙ e),
        subst (λ t. length t ≤ output_limit) (sym out) h.1,
      )

  react-OnTime :
      (turn : PtyTurn) (s : Collected)
      → Sound s
      → OnTime turn (react decode begin_marker output_limit turn s)
  unfolding react
  react-OnTime turn s h =
      after_exchange-OnTime turn _
        (test-Sound _ (should_inject decode begin_marker output_limit s) turn s h)

  see_marker-OnTime :
      (turn : PtyTurn) (s : Collected)
      → Sound s
      → OnTime turn (
          react decode begin_marker output_limit turn
            (see_marker decode begin_marker output_limit s))
  unfolding see_marker
  see_marker-OnTime turn s h =
      elim (Bool-cases (not s.command_started && contains_subslice s.out begin_marker)) [
        | inl seen ↦
            rw seen
              (react-OnTime turn (record s { command_started = true }) (λ e. ground arith, h.1))
        | inr unseen ↦ rw unseen (react-OnTime turn s h)
      ]

  read_appended-OnTime :
      (turn : PtyTurn) (s : Collected) (bytes : Bytes) (step : Result Bytes)
      → output_limit < usize_max
      → append_output_bounded s.out bytes 0 output_limit ≡ step
      → Sound s
      → OnTime turn (read_appended decode begin_marker output_limit turn s step)
  unfolding read_appended
  read_appended-OnTime turn s bytes (err e) small q h = h.1
  read_appended-OnTime turn s bytes (ok out) small q h =
      let (whole, fits) = append_output_bounded_fits s.out bytes out 0 output_limit small q in
      see_marker-OnTime turn (record s { out = out })
        (
          λ e.
              subst (λ t. contains_subslice t begin_marker ≡ true) (sym whole)
                (contains_subslice_grows s.out bytes begin_marker (h.0 e)),
          omega (arith, fits),
        )

  on_read-OnTime :
      (turn : PtyTurn) (s : Collected) (event : ReadEvent)
      → output_limit < usize_max
      → Sound s
      → OnTime turn (on_read decode begin_marker output_limit turn s event)
  unfolding on_read
  on_read-OnTime turn s (read []) small h = h
  on_read-OnTime turn s (read (b ∷ bytes)) small h =
      read_appended-OnTime turn s (b ∷ bytes) _ small refl h
  on_read-OnTime turn s would_block small h = see_marker-OnTime turn s h
  on_read-OnTime turn s (read_failed e) small h = h.1

  pty_turn-OnTime :
      (turn : PtyTurn) (s : Collected)
      → output_limit < usize_max
      → Sound s
      → OnTime turn (pty_turn decode begin_marker output_limit turn s)
  unfolding pty_turn
  pty_turn-OnTime turn s small h = elim (Result-cases turn.deadline) [
    | inr (e, q) ↦ rw q h.1
    | inl (done, q) ↦ rw q (on_read-OnTime turn s turn.read_event small h)
  ]

  -- The rest of a run behind a turn.
  abbrev continue : List PtyTurn → Next → PtyRun
  continue turns (next_turn s) = pty_collect_loop decode begin_marker output_limit turns s
  continue turns (break s) = ended s (ok tt)
  continue turns (fail s e) = ended s (err e)

  module _ (small : output_limit < usize_max) where
    continue_late :
        (turn : PtyTurn) (next : Next) (s : Collected)
        → OnTime turn next
        → prompt_wait ≤ turn.elapsed
        → continue [] next ≡ waiting s
        → contains_subslice s.out begin_marker ≡ true
    unfolding pty_collect_loop
    continue_late turn (next_turn t) s h late q =
        ap (λ s. contains_subslice s.out begin_marker) (waiting_state s t (sym q))
        ∙ h.0.0 (h.1 late)
    continue_late turn (break t) s h late q = cc
    continue_late turn (fail t e) s h late q = cc

    continue-OnTime :
        (turn : PtyTurn) (turns : List PtyTurn) (next : Next) (s : Collected)
        → OnTime turn next
        → ((t : Collected)
            → Sound t
            → pty_collect_loop decode begin_marker output_limit turns t ≡ waiting s
            → contains_subslice s.out begin_marker ≡ true)
        → continue turns next ≡ waiting s
        → contains_subslice s.out begin_marker ≡ true
    continue-OnTime turn turns (next_turn t) s h rest q = rest t h.0 q
    continue-OnTime turn turns (break t) s h rest q = cc
    continue-OnTime turn turns (fail t e) s h rest q = cc

    loop_late :
        (turns : List PtyTurn) (turn : PtyTurn) (start s : Collected)
        → Sound start
        → pty_collect_loop decode begin_marker output_limit (turns ++ turn ∷ []) start ≡ waiting s
        → prompt_wait ≤ turn.elapsed
        → contains_subslice s.out begin_marker ≡ true
    unfolding pty_collect_loop
    loop_late [] turn start s h q late =
        continue_late turn (pty_turn decode begin_marker output_limit turn start) s
          (pty_turn-OnTime turn start small h) late q
    loop_late (first ∷ turns) turn start s h q late =
        continue-OnTime first (turns ++ turn ∷ [])
          (pty_turn decode begin_marker output_limit first start) s
          (pty_turn-OnTime first start small h) (λ t k r. loop_late turns turn t s k r late) q

    continue_bounded :
        (turn : PtyTurn) (turns : List PtyTurn) (next : Next)
        → OnTime turn next
        → ((t : Collected)
            → Sound t
            → length
                (collected decode begin_marker output_limit
                  (pty_collect_loop decode begin_marker output_limit turns t)).out
              ≤ output_limit)
        → length (collected decode begin_marker output_limit (continue turns next)).out
          ≤ output_limit
    continue_bounded turn turns (next_turn t) h rest = rest t h.0
    continue_bounded turn turns (break t) h rest = h.1
    continue_bounded turn turns (fail t e) h rest = h

    loop_bounded :
        (turns : List PtyTurn) (start : Collected)
        → Sound start
        → length
            (collected decode begin_marker output_limit
              (pty_collect_loop decode begin_marker output_limit turns start)).out
          ≤ output_limit
    unfolding pty_collect_loop
    loop_bounded [] start h = h.1
    loop_bounded (turn ∷ turns) start h =
        continue_bounded turn turns (pty_turn decode begin_marker output_limit turn start)
          (pty_turn-OnTime turn start small h) (loop_bounded turns)

-- A run that goes on behind a turn at or after the prompt's time has seen the command's marker:
-- nobody waits longer for a prompt.
pub pty_collect_loop_prompt :
    (decode : Bytes → Text) (begin_marker : Bytes) (output_limit : ℕ) (turns : List PtyTurn)
    (turn : PtyTurn) (s : Collected)
    → output_limit < usize_max
    → pty_collect_loop decode begin_marker output_limit (turns ++ turn ∷ []) nothing_collected
      ≡ waiting s
    → prompt_wait ≤ turn.elapsed
    → contains_subslice s.out begin_marker ≡ true
pty_collect_loop_prompt decode begin_marker output_limit turns turn s small q late =
    loop_late decode begin_marker output_limit small turns turn nothing_collected s
      (λ e. cc, omega arith) q late

-- Whatever the channel sends, what is collected stays within the limit.
pub pty_collect_loop_bounded :
    (decode : Bytes → Text) (begin_marker : Bytes) (output_limit : ℕ) (turns : List PtyTurn)
    → output_limit < usize_max
    → length
        (collected decode begin_marker output_limit
          (pty_collect_loop decode begin_marker output_limit turns nothing_collected)).out
      ≤ output_limit
pty_collect_loop_bounded decode begin_marker output_limit turns small =
    loop_bounded decode begin_marker output_limit small turns nothing_collected
      (λ e. cc, omega arith)
