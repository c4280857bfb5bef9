-- ===== src/Ssh/Pty/Exchange.antt =====
-- What the loop under a terminal writes, and when (src/ssh/ssh2_client.rs, `pty_collect_loop`).
use sshw.Base.{
  ℕ, Bool, true, false, not, ◌&&◌, Text, List, [], ◌∷◌, ◌++◌, leb, if◌then◌else◌, ◌≡◌, ◌⊎◌, inl,
  inr, refl, sym, ap, ◌∙◌, arith, Bool-cases, append_assoc, append-nil, subst,
}
use sshw.Errors.{Result, err, ok, Result-cases}
use sshw.Ssh.Channel.{Bytes, ReadEvent, read, would_block, read_failed, append_output_bounded}
use sshw.Ssh.Framing.{contains_subslice, output_has_password_prompt}
use sshw.Ssh.Pty.{
  Sent, password_line, veof, eof, PtyTurn, Collected, nothing_collected, exchange, Next, next_turn,
  break, fail, after_exchange, closed_by, should_inject, react, see_marker, read_appended, on_read,
  pty_turn, PtyRun, waiting, ended, pty_collect_loop,
}

-- The whole input of a run, with the password or without it.
abbrev script : Bool → List Sent
script true = password_line ∷ veof ∷ eof ∷ []
script false = veof ∷ eof ∷ []

-- What was written is the script up to some write of it.
abbrev Follows : Bool → List Sent → Type 0
Follows with_password sent = (rest : List Sent) × (script with_password ≡ sent ++ rest)

-- The exchange changes nothing but what was written.
pub exchange_keeps :
    (inject : Bool) (turn : PtyTurn) (s : Collected)
    → ((exchange inject turn s).0.out ≡ s.out)
      × ((exchange inject turn s).0.command_started ≡ s.command_started)
unfolding exchange
exchange_keeps inject turn s = (ground arith, ground arith)

-- The exchange writes its script in order, and all of it if no call fails.
exchange_lem :
    (inject : Bool) (turn : PtyTurn) (s : Collected)
    → s.sent ≡ []
    → Follows inject (exchange inject turn s).0.sent
      × ((exchange inject turn s).1 ≡ ok tt → (exchange inject turn s).0.sent ≡ script inject)
unfolding exchange
exchange_lem inject turn s h = elim (Result-cases turn.apply_before) [
  | inr (e, p) ↦ ((script inject, ground arith), λ q. absurd (ground arith))
  | inl (d, p) ↦ elim (Bool-cases inject) [
    | inl b ↦ elim (Result-cases turn.write_password) [
      | inr (e, p1) ↦ ((veof ∷ eof ∷ [], ground arith), λ q. absurd (ground arith))
      | inl (d1, p1) ↦ elim (Result-cases turn.write_veof) [
        | inr (e, p2) ↦ ((eof ∷ [], ground arith), λ q. absurd (ground arith))
        | inl (d2, p2) ↦ elim (Result-cases turn.apply_between) [
          | inr (e, p3) ↦ ((eof ∷ [], ground arith), λ q. absurd (ground arith))
          | inl (d3, p3) ↦ (([], ground arith), λ q. ground arith)
        ]
      ]
    ]
    | inr b ↦ elim (Result-cases turn.write_veof) [
      | inr (e, p2) ↦ ((eof ∷ [], ground arith), λ q. absurd (ground arith))
      | inl (d2, p2) ↦ elim (Result-cases turn.apply_between) [
        | inr (e, p3) ↦ ((eof ∷ [], ground arith), λ q. absurd (ground arith))
        | inl (d3, p3) ↦ (([], ground arith), λ q. ground arith)
      ]
    ]
  ]
]

module _ (decode : Bytes → Text) (begin_marker : Bytes) (output_limit : ℕ) where
  -- At some moment the output ended in a password prompt, before the command's marker.
  abbrev Prompted : Bytes → Type 0
  Prompted out =
      (seen : Bytes) × (later : Bytes) × (out ≡ seen ++ later)
      × (output_has_password_prompt (decode seen) ≡ true)
      × (contains_subslice seen begin_marker ≡ false)

  -- How a run stands between two turns: nothing is written, or all of a script.
  abbrev Standing : Collected → Type 0
  Standing s =
      ((s.input_closed ≡ false) × (s.sent ≡ []))
      ⊎ (((s.input_closed ≡ true) × (s.sent ≡ script false))
          ⊎ ((s.input_closed ≡ true) × (s.sent ≡ script true) × Prompted s.out))

  -- What was written never passes a script, and a password followed a prompt.
  abbrev pub Written : Collected → Type 0
  Written s = Follows false s.sent ⊎ (Follows true s.sent × Prompted s.out)

  abbrev After : Next → Type 0
  After (next_turn s) = Standing s
  After (break s) = Standing s
  After (fail s e) = Written s

  Standing-Written : (s : Collected) → Standing s → Written s
  Standing-Written s (inl (p, q)) = inl (veof ∷ eof ∷ [], ground arith)
  Standing-Written s (inr (inl (p, q))) = inl ([], ground arith)
  Standing-Written s (inr (inr (p, q, prompted))) = inr (([], ground arith), prompted)

  after_exchange_ok :
      (turn : PtyTurn) (s : Collected) → Standing s → After (after_exchange turn (s, ok tt))
  unfolding after_exchange
  after_exchange_ok turn s h = elim (Bool-cases (not s.command_started && leb 30000 turn.elapsed)) [
    | inl late ↦ rw late (Standing-Written s h)
    | inr early ↦ rw early h
  ]

  closed_by-After :
      (inject : Bool) (turn : PtyTurn) (step : Collected × Result (Unit {0}))
      → Follows inject step.0.sent
      → (step.1 ≡ ok tt → step.0.sent ≡ script inject)
      → (inject ≡ true → Prompted step.0.out)
      → After (after_exchange turn (closed_by inject step))
  unfolding after_exchange
  closed_by-After true turn (s, err e) f all p = inr (f, p refl)
  closed_by-After false turn (s, err e) f all p = inl f
  closed_by-After true turn (s, ok done) f all p =
      after_exchange_ok turn _ (inr (inr (refl, all refl, p refl)))
  closed_by-After false turn (s, ok done) f all p =
      after_exchange_ok turn _ (inr (inl (refl, all refl)))

  -- A password that is to be written answers the prompt at the end of the output.
  should_inject-Prompted :
      (s : Collected)
      → (s.command_started ≡ false → contains_subslice s.out begin_marker ≡ false)
      → should_inject decode begin_marker output_limit s ≡ true
      → Prompted s.out
  unfolding should_inject
  should_inject-Prompted s unseen h =
      (s.out, [], sym (append-nil s.out), ground arith, unseen (ground arith))

  exchange-After :
      (inject : Bool) (turn : PtyTurn) (s : Collected)
      → s.sent ≡ []
      → (inject ≡ true → Prompted s.out)
      → After (after_exchange turn (closed_by inject (exchange inject turn s)))
  exchange-After inject turn s empty prompted =
      let (out, started) = exchange_keeps inject turn s in
      let (follows, all) = exchange_lem inject turn s empty in
      closed_by-After inject turn (exchange inject turn s) follows all
        (λ b. subst Prompted (sym out) (prompted b))

  test-After :
      (test inject : Bool) (turn : PtyTurn) (s : Collected)
      → Standing s
      → (test ≡ true → s.input_closed ≡ false)
      → (inject ≡ true → Prompted s.out)
      → After (
          after_exchange turn
            (if test then closed_by inject (exchange inject turn s) else (s, ok tt)))
  test-After false inject turn s h live prompted = after_exchange_ok turn s h
  test-After true inject turn s (inl (p, empty)) live prompted =
      exchange-After inject turn s empty prompted
  test-After true inject turn s (inr (inl (p, q))) live prompted =
      absurd (let e = live refl in ground arith)
  test-After true inject turn s (inr (inr (p, q, r))) live prompted =
      absurd (let e = live refl in ground arith)

  react-After :
      (turn : PtyTurn) (s : Collected)
      → Standing s
      → (s.command_started ≡ false → contains_subslice s.out begin_marker ≡ false)
      → After (react decode begin_marker output_limit turn s)
  unfolding react
  react-After turn s h unseen =
      test-After _ (should_inject decode begin_marker output_limit s) turn s h (λ e. ground arith)
        (should_inject-Prompted s unseen)

  see_marker-After :
      (turn : PtyTurn) (s : Collected)
      → Standing s
      → After (
          react decode begin_marker output_limit turn
            (see_marker decode begin_marker output_limit s))
  unfolding see_marker
  see_marker-After turn s h =
      elim (Bool-cases (not s.command_started && contains_subslice s.out begin_marker)) [
        | inl seen ↦ rw seen (react-After turn (record s { command_started = true }) h (λ e. cc))
        | inr unseen ↦ rw unseen (react-After turn s h (λ e. ground arith))
      ]

  Standing-grows :
      (s : Collected) (out more : Bytes)
      → out ≡ s.out ++ more
      → Standing s
      → Standing (record s { out = out })
  Standing-grows s out more q (inl h) = inl h
  Standing-grows s out more q (inr (inl h)) = inr (inl h)
  Standing-grows s out more q (inr (inr (p, r, (seen, later, e, prompt, unmarked)))) = inr (
      inr (
        p,
        r,
        (
          seen,
          later ++ more,
          q ∙ ap (λ t. t ++ more) e ∙ append_assoc seen later more,
          prompt,
          unmarked,
        ),
      ))

  read_appended-After :
      (turn : PtyTurn) (s : Collected) (bytes : Bytes) (step : Result Bytes)
      → append_output_bounded s.out bytes 0 output_limit ≡ step
      → Standing s
      → After (read_appended decode begin_marker output_limit turn s step)
  unfolding read_appended append_output_bounded
  read_appended-After turn s bytes (err e) q h = Standing-Written s h
  read_appended-After turn s bytes (ok out) q h =
      see_marker-After turn (record s { out = out }) (Standing-grows s out bytes (ground arith) h)

  on_read-After :
      (turn : PtyTurn) (s : Collected) (event : ReadEvent)
      → Standing s
      → After (on_read decode begin_marker output_limit turn s event)
  unfolding on_read
  on_read-After turn s (read []) h = h
  on_read-After turn s (read (b ∷ bytes)) h = read_appended-After turn s (b ∷ bytes) _ refl h
  on_read-After turn s would_block h = see_marker-After turn s h
  on_read-After turn s (read_failed e) h = Standing-Written s h

  pty_turn-After :
      (turn : PtyTurn) (s : Collected)
      → Standing s
      → After (pty_turn decode begin_marker output_limit turn s)
  unfolding pty_turn
  pty_turn-After turn s h = elim (Result-cases turn.deadline) [
    | inr (e, q) ↦ rw q (Standing-Written s h)
    | inl (done, q) ↦ rw q (on_read-After turn s turn.read_event h)
  ]

  abbrev pub collected : PtyRun → Collected
  collected (waiting s) = s
  collected (ended s outcome) = s

  pty_collect_loop_writes :
      (turns : List PtyTurn) (s : Collected)
      → Standing s
      → Written (collected (pty_collect_loop decode begin_marker output_limit turns s))
  unfolding pty_collect_loop
  pty_collect_loop_writes [] s h = Standing-Written s h
  pty_collect_loop_writes (turn ∷ turns) s h =
      next_writes turns (pty_turn decode begin_marker output_limit turn s) (pty_turn-After turn s h)
        (pty_collect_loop_writes turns)
    where
      next_writes :
          (turns : List PtyTurn) (next : Next)
          → After next
          → ((s : Collected)
              → Standing s
              → Written (collected (pty_collect_loop decode begin_marker output_limit turns s)))
          → Written (
              collected (elim next [
                | next_turn s ↦ pty_collect_loop decode begin_marker output_limit turns s
                | break s ↦ ended s (ok tt)
                | fail s e ↦ ended s (err e)
              ]))
      next_writes turns (next_turn s) k rest = rest s k
      next_writes turns (break s) k rest = Standing-Written s k
      next_writes turns (fail s e) k rest = k

-- Whatever the channel and the clock answer, a run has written some of the password's line, the
-- terminal's end of file and the end of the input, in this order and each at most once; and the
-- password only after the output ended in a password prompt and before the command's marker.
pub pty_collect_loop-Written :
    (decode : Bytes → Text) (begin_marker : Bytes) (output_limit : ℕ) (turns : List PtyTurn)
    → Written decode begin_marker output_limit (
        collected decode begin_marker output_limit
          (pty_collect_loop decode begin_marker output_limit turns nothing_collected))
pty_collect_loop-Written decode begin_marker output_limit turns =
    pty_collect_loop_writes decode begin_marker output_limit turns nothing_collected
      (inl (refl, refl))
