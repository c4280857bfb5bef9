-- ===== src/Tests/Ssh.antt =====
-- Runs of the output of a channel: the frame of a `su` command, both streams, and a terminal.
use sshw.Base.{
  ℕ, true, false, Text, codes, List, [], ◌∷◌, ◌++◌, some, map, ◌≡◌, ◌⊎◌, inl, inr, refl, arith, all,
  is_ascii_digit,
}
use sshw.Errors.{auth, ssh, Error, ok, err, classified_kind, app_error, says}
use sshw.Errors.Classify.{contains_text}
use sshw.Ssh.Channel.{read, would_block}
use sshw.Ssh.Framing.{
  su_begin_marker, su_end_prefix, extract_su_output, parse_i32, normalise_newlines,
  contains_subslice,
}
use sshw.Ssh.Framing.RoundTrip.{onlcr, print_status, extract_su_output-print}
use sshw.Ssh.Framing.Sound.{extract_su_output-eq-ok, extract_su_output-eq-err}
use sshw.Ssh.Drain.{Turn, Outputs, complete, drain_both_streams}
use sshw.Ssh.Drain.Bounded.{WithinLimit, drain_both_streams_bounded}
use sshw.Ssh.Drain.Delivered.{Delivered}
use sshw.Ssh.Drain.Ends.{drain_both_streams-Ends}
use sshw.Ssh.Drain.Exact.{stream_data, drain_both_streams-complete}
use sshw.Ssh.Pty.{
  PtyTurn, Collected, nothing_collected, waiting, password_line, veof, eof, pty_collect_loop,
}
use sshw.Ssh.Pty.Exchange.{Written, collected, pty_collect_loop-Written}
use sshw.Ssh.Pty.Waiting.{pty_collect_loop_prompt}

abbrev noise : Text
noise = codes "Password: "

abbrev nonce : Text
nonce = codes "c0de"

abbrev output : Text
output = codes "up 3 days" ++ b'\n' ∷ []

abbrev raw : Text
raw =
    noise
    ++ (su_begin_marker nonce
        ++ (b'\r'
            ∷ b'\n'
            ∷ (onlcr output ++ (su_end_prefix nonce ++ (print_status 42 ++ (codes "__" ++ []))))))

no_begin :
    contains_text (su_begin_marker nonce) (noise ++ (codes "__SSHW_BEGIN_" ++ nonce ++ codes "_"))
    ≡ false
unfolding contains_text su_begin_marker
no_begin = refl

no_end :
    contains_text (su_end_prefix nonce) (onlcr output ++ (codes "__SSHW_END_" ++ nonce)) ≡ false
unfolding contains_text su_end_prefix
no_end = refl

extract_su_output-print_example : extract_su_output raw nonce ≡ ok (output, 42)
extract_su_output-print_example =
    extract_su_output-print noise nonce output [] 42 no_begin no_end
      (refl, (refl, (refl, (refl, (refl, (refl, (refl, (refl, (refl, (refl, tt))))))))))
      (omega arith)

read_back : extract_su_output raw nonce ≡ ok (output, 42)
unfolding extract_su_output
read_back = refl

extract_su_output-eq-ok_example :
    (noise' : Text) × (line : Text) × (body : Text) × (digits : Text) × (trailer : Text) × (raw
      ≡ noise'
        ++ (su_begin_marker nonce
            ++ (line ++ (body ++ (su_end_prefix nonce ++ (digits ++ (codes "__" ++ trailer)))))))
    × (output ≡ normalise_newlines body)
    × (all is_ascii_digit digits ≡ true)
    × (parse_i32 digits ≡ some 42)
extract_su_output-eq-ok_example = extract_su_output-eq-ok raw nonce output 42 read_back

abbrev refused : Error
refused =
    app_error auth (says (codes "su authentication failed or password prompt was not answered"))

refused_output : extract_su_output noise nonce ≡ err refused
unfolding extract_su_output
refused_output = refl

extract_su_output-eq-err_example :
    ((contains_text (su_begin_marker nonce) noise ≡ false) × (classified_kind refused ≡ some auth))
    ⊎ ((contains_text (su_begin_marker nonce) noise ≡ true) × (classified_kind refused ≡ some ssh))
extract_su_output-eq-err_example = extract_su_output-eq-err noise nonce refused refused_output

-- Two streams that alternate, and end one after the other.
abbrev turn_of_both : Turn
turn_of_both = record {
  deadline = ok tt;
  stdout_read = read (codes "out");
  stdout_sink = ok tt;
  stderr_read = read (codes "err");
  stderr_sink = ok tt;
}

abbrev turn_of_end : Turn
turn_of_end = record {
  deadline = ok tt;
  stdout_read = read [];
  stdout_sink = ok tt;
  stderr_read = would_block;
  stderr_sink = ok tt;
}

abbrev turn_of_last : Turn
turn_of_last = record {
  deadline = ok tt;
  stdout_read = would_block;
  stdout_sink = ok tt;
  stderr_read = read [];
  stderr_sink = ok tt;
}

abbrev turns : List Turn
turns = turn_of_both ∷ turn_of_end ∷ turn_of_last ∷ []

-- Text is read as itself.
abbrev utf8 : Text → Text
utf8 bytes = bytes

all_read : drain_both_streams utf8 8 true turns ≡ some (complete (codes "out") (codes "err"))
unfolding drain_both_streams
all_read = refl

drain_both_streams_bounded_example : WithinLimit utf8 8 (complete (codes "out") (codes "err"))
drain_both_streams_bounded_example =
    drain_both_streams_bounded utf8 8 true turns (complete (codes "out") (codes "err"))
      (omega arith) all_read

drain_both_streams-Ends_example :
    (outputs : Outputs) × (drain_both_streams utf8 8 true turns ≡ some outputs)
drain_both_streams-Ends_example =
    drain_both_streams-Ends utf8 8 true turns (inl (inr (inl refl), inr (inr (inl refl))))

drain_both_streams-complete_example :
    (codes "out" ≡ stream_data (map (λ turn. turn.stdout_read) turns))
    × (codes "err" ≡ stream_data (map (λ turn. turn.stderr_read) turns))
drain_both_streams-complete_example =
    drain_both_streams-complete utf8 8 true turns (codes "out") (codes "err") (omega arith) all_read

-- A terminal that asks for a password, and then says that the command runs.
abbrev turn_with : Text → ℕ → PtyTurn
turn_with text elapsed = record {
  deadline = ok tt;
  read_event = read text;
  apply_before = ok tt;
  write_password = ok tt;
  write_veof = ok tt;
  apply_between = ok tt;
  send_eof = ok tt;
  elapsed = elapsed;
}

pty_collect_loop-Written_example : Written utf8 (codes "BEGIN") 64 (
    collected utf8
      (codes "BEGIN")
      64
      (pty_collect_loop utf8 (codes "BEGIN") 64 (turn_with noise 10 ∷ []) nothing_collected))
pty_collect_loop-Written_example =
    pty_collect_loop-Written utf8 (codes "BEGIN") 64 (turn_with noise 10 ∷ [])

abbrev running : Collected
running = record {
  out = noise ++ codes "BEGIN";
  injected = true;
  input_closed = true;
  command_started = true;
  sent = password_line ∷ veof ∷ eof ∷ [];
}

still_waiting :
    pty_collect_loop utf8
      (codes "BEGIN")
      64
      ((turn_with noise 10 ∷ []) ++ turn_with (codes "BEGIN") 30000 ∷ [])
      nothing_collected
    ≡ waiting running
unfolding pty_collect_loop
still_waiting = refl

pty_collect_loop_prompt_example : contains_subslice running.out (codes "BEGIN") ≡ true
pty_collect_loop_prompt_example =
    pty_collect_loop_prompt utf8 (codes "BEGIN") 64 (turn_with noise 10 ∷ [])
      (turn_with (codes "BEGIN") 30000) running (omega arith) still_waiting (omega arith)
