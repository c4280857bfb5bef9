-- ===== src/Ssh/Transfer/Whole.antt =====
-- What reaches the server when a file is sent (src/ssh/ssh2_client.rs, `copy_file_with_deadline` and
-- `put_inner`).
use sshw.Base.{
  ℕ, zero, suc, ◌+◌, ◌-◌, ◌≤◌, true, List, [], ◌∷◌, ◌++◌, length, ltb, ◌≡◌, ◌≢◌, List-cases, refl,
  sym, ap, ◌∙◌, arith, Bool-cases, ◌⊎◌, inl, inr, append_assoc, append-nil,
}
use sshw.Errors.{ok, Result-cases}
use sshw.Ssh.Channel.{Bytes}
use sshw.Ssh.Transfer.{
  WriteTurn, CopyTurn, Reports, Copying, copying, copied, failed, take, drop, write_chunk,
  after_chunk, copy_loop, put_reports, buffer_size, min, copy_file_with_deadline,
}

take-drop : (n : ℕ) (bytes : Bytes) → take n bytes ++ drop n bytes ≡ bytes
unfolding take drop
take-drop zero bytes = refl
take-drop (suc n) [] = refl
take-drop (suc n) (b ∷ bytes) = ap (◌∷◌ b) (take-drop n bytes)

length-append : (s t : Bytes) → length (s ++ t) ≡ length s + length t
length-append [] t = omega arith
length-append (c ∷ s) t = ground (arith, length-append s t)

ℕ-cases : (n : ℕ) → (n ≡ zero) ⊎ ((m : ℕ) × (n ≡ suc m))
ℕ-cases zero = inl refl
ℕ-cases (suc m) = inr (m, refl)

-- A chunk that was written stands whole behind what the channel had.
write_chunk-copied :
    (reports : Reports) (turns : List WriteTurn) (bytes sent now : Bytes)
    → write_chunk reports turns bytes sent ≡ copied now tt
    → now ≡ sent ++ bytes
unfolding write_chunk
write_chunk-copied reports turns [] sent now h = ground (arith, append-nil sent)
write_chunk-copied reports [] (b ∷ bytes) sent now h = cc
write_chunk-copied reports (turn ∷ turns) (b ∷ bytes) sent now h =
    elim (Result-cases turn.deadline) [
      | inr (e, q) ↦ absurd (ground arith)
      | inl (u, q) ↦ elim (Result-cases turn.write) [
        | inr (e, r) ↦ absurd (ground arith)
        | inl (n, r) ↦ elim (ℕ-cases n) [
          | inl z ↦ absurd (ground arith)
          | inr (m, z) ↦
              write_chunk-copied reports turns (drop (suc m) (b ∷ bytes))
                (sent ++ take (suc m) (b ∷ bytes)) now (ground arith)
              ∙ append_assoc sent (take (suc m) (b ∷ bytes)) (drop (suc m) (b ∷ bytes))
              ∙ ap (λ t. sent ++ t) (take-drop (suc m) (b ∷ bytes))
        ]
      ]
    ]

copied-cases :
    (step : Copying (Unit {0}))
    → ((now : Bytes) × (step ≡ copied now tt))
      ⊎ ((now : Bytes) (end : ℕ) (next : Bytes → Copying ℕ)
          → after_chunk step next ≢ copied now end)
copied-cases (copying sent) = inr (λ now end next e. cc)
copied-cases (failed sent e) = inr (λ now end next e. cc)
copied-cases (copied sent u) = inl (sent, refl)

-- The reads deliver a file from its front, and no read more than it was asked for.
abbrev pub Reads : Bytes → List CopyTurn → Type 0
Reads content [] = Unit {0}
Reads content (turn ∷ turns) =
    (n : ℕ) (bytes : Bytes)
    → turn.read n ≡ ok bytes
    → (length bytes ≤ n) × (after : Bytes) × (content ≡ bytes ++ after) × Reads after turns

-- What is left of the file behind what was sent.
abbrev Front : ℕ → Bytes → Bytes → ℕ → Type 0
Front expected content now done =
    (done ≡ length now) × (done ≤ expected) × (after : Bytes) × (content ≡ now ++ after)

step_lem :
    (reports : Reports) (at_end : Bytes → ℕ → Copying ℕ) (expected : ℕ) (turn : CopyTurn)
    (turns : List CopyTurn) (sent : Bytes) (done b : ℕ) (bytes : Bytes) {u : Unit {0}}
    → ltb done expected ≡ true
    → turn.deadline ≡ ok u
    → turn.read (min (expected - done) buffer_size) ≡ ok (b ∷ bytes)
    → copy_loop reports at_end expected (turn ∷ turns) done sent
      ≡ after_chunk
          (write_chunk reports turn.writes (b ∷ bytes) sent)
          (copy_loop reports at_end expected turns (done + length (b ∷ bytes)))
unfolding copy_loop
step_lem reports at_end expected turn turns sent done b bytes more time read =
    rw more (rw time (rw read refl))

-- A read within what is left keeps the number within the announced one.
next_le :
    (expected done : ℕ) {n : ℕ}
    → ltb done expected ≡ true
    → n ≤ min (expected - done) buffer_size
    → done + n ≤ expected
next_le expected done more fits = ground arith

-- A loop that ends at the end of the file ends with what it had.
abbrev pub EndsWhere : (Bytes → ℕ → Copying ℕ) → Type 0
EndsWhere at_end =
    (sent : Bytes) (done : ℕ) (now : Bytes) (end : ℕ)
    → at_end sent done ≡ copied now end
    → (now ≡ sent) × (end ≡ done)

pub copy_loop-Front :
    (reports : Reports) (at_end : Bytes → ℕ → Copying ℕ) (honest : EndsWhere at_end) (expected : ℕ)
    (turns : List CopyTurn) (content rest sent now : Bytes) (done end : ℕ)
    → Reads rest turns
    → content ≡ sent ++ rest
    → done ≡ length sent
    → done ≤ expected
    → copy_loop reports at_end expected turns done sent ≡ copied now end
    → Front expected content now end
unfolding copy_loop
copy_loop-Front reports at_end honest expected [] content rest sent now done end reads c l le h =
    (ground arith, ground arith, rest, ground arith)
copy_loop-Front reports at_end honest expected (turn ∷ turns) content rest sent now done end reads c
      l le h =
    elim (Bool-cases (ltb done expected)) [
      | inr over ↦ (ground arith, ground arith, rest, ground arith)
      | inl more ↦ elim (Result-cases turn.deadline) [
        | inr (e, q) ↦ absurd (ground arith)
        | inl (u, q) ↦ elim (Result-cases (turn.read (min (expected - done) buffer_size))) [
          | inr (e, r) ↦ absurd (ground arith)
          | inl (bytes, r) ↦ elim (List-cases bytes) [
            | inl z ↦
                let (now_sent, end_done) = honest sent done now end (ground arith) in
                (ground arith, ground arith, rest, ground arith)
            | inr (b, more_bytes, z) ↦
                elim (copied-cases (write_chunk reports turn.writes (b ∷ more_bytes) sent)) [
                  | inr n ↦ absurd (
                      n now end _ (
                        sym (
                          step_lem reports at_end expected turn turns sent done b more_bytes more q
                            (r ∙ ap ok z))
                        ∙ h))
                  | inl (chunk, w) ↦
                      let (fits, after, split, later) =
                        reads (min (expected - done) buffer_size) (b ∷ more_bytes) (ground arith) in
                      let whole : chunk ≡ sent ++ (b ∷ more_bytes) =
                        write_chunk-copied reports turn.writes (b ∷ more_bytes) sent chunk w in
                      copy_loop-Front reports at_end honest expected turns content after chunk now
                        (done + length (b ∷ more_bytes)) end later
                        (c
                          ∙ ap (λ t. sent ++ t) split
                          ∙ sym (append_assoc sent (b ∷ more_bytes) after)
                          ∙ ap (λ t. t ++ after) (sym whole))
                        (ground (arith, ap length whole, length-append sent (b ∷ more_bytes)))
                        (next_le expected done more fits)
                        (sym (
                            step_lem reports at_end expected turn turns sent done b more_bytes more
                              q (r ∙ ap ok z)
                            ∙ ap
                                (λ step. after_chunk step (
                                  copy_loop reports at_end expected turns
                                    (done + length (b ∷ more_bytes))))
                                w)
                          ∙ h)
                ]
          ]
        ]
      ]
    ]

-- A loop that never ends at the end of the file ends with the announced number.
pub copy_loop_full :
    (reports : Reports) (at_end : Bytes → ℕ → Copying ℕ) (expected : ℕ) (turns : List CopyTurn)
    (sent now : Bytes) (done end : ℕ)
    → ((sent : Bytes) (done : ℕ) (now : Bytes) (end : ℕ) → at_end sent done ≢ copied now end)
    → copy_loop reports at_end expected turns done sent ≡ copied now end
    → expected ≤ end
unfolding copy_loop
copy_loop_full reports at_end expected [] sent now done end never h = ground arith
copy_loop_full reports at_end expected (turn ∷ turns) sent now done end never h =
    elim (Bool-cases (ltb done expected)) [
      | inr over ↦ ground arith
      | inl more ↦ elim (Result-cases turn.deadline) [
        | inr (e, q) ↦ absurd (ground arith)
        | inl (u, q) ↦ elim (Result-cases (turn.read (min (expected - done) buffer_size))) [
          | inr (e, r) ↦ absurd (ground arith)
          | inl (bytes, r) ↦ elim (List-cases bytes) [
            | inl z ↦ absurd (never sent done now end (ground arith))
            | inr (b, more_bytes, z) ↦
                elim (copied-cases (write_chunk reports turn.writes (b ∷ more_bytes) sent)) [
                  | inr n ↦ absurd (
                      n now end _ (
                        sym (
                          step_lem reports at_end expected turn turns sent done b more_bytes more q
                            (r ∙ ap ok z))
                        ∙ h))
                  | inl (chunk, w) ↦
                      copy_loop_full reports at_end expected turns chunk now
                        (done + length (b ∷ more_bytes)) end never
                        (sym (
                            step_lem reports at_end expected turn turns sent done b more_bytes more
                              q (r ∙ ap ok z)
                            ∙ ap
                                (λ step. after_chunk step (
                                  copy_loop reports at_end expected turns
                                    (done + length (b ∷ more_bytes))))
                                w)
                          ∙ h)
                ]
          ]
        ]
      ]
    ]

copied_value : Bytes × ℕ → Copying ℕ → Bytes × ℕ
copied_value d (copied now end) = (now, end)
copied_value d (copying now) = d
copied_value d (failed now e) = d

copied_where : EndsWhere copied
unfolding copied_value
copied_where sent done now end h =
    let pair : (sent, done) ≡ (now, end) = ap (copied_value (sent, done)) h in
    (ap (λ p. p.0) (sym pair), ap (λ p. p.1) (sym pair))

-- The copied number is that of the bytes that the channel took, is not above the announced one, and
-- these bytes are the front of the file.
pub copy_file_with_deadline-Front :
    (expected : ℕ) (turns : List CopyTurn) (content now : Bytes) (end : ℕ)
    → Reads content turns
    → copy_file_with_deadline expected turns ≡ copied now end
    → Front expected content now end
unfolding copy_file_with_deadline
copy_file_with_deadline-Front expected turns content now end reads h =
    copy_loop-Front put_reports copied copied_where expected turns content content [] now 0 end
      reads refl refl (omega arith) h
