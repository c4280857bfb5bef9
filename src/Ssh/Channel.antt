-- ===== src/Ssh/Channel.antt =====
-- What a channel answers to a read, and the buffer that collects it (src/ssh/ssh2_client.rs).
use sshw.Base.{
  ℕ, ◌+◌, List, [], ◌∷◌, ◌++◌, Option, none, some, if◌then◌else◌, length, leb, ltb, codes, ◌≡◌, ◌≤◌,
  ◌<◌, arith,
}
use sshw.Errors.{ssh, context, says, Error, Result, err, ok, app_error, classified_error}

abbrev pub Bytes : Type 0
Bytes = List ℕ

-- `channel.read(&mut buf)`: no bytes are the end of the stream.
pub data ReadEvent : Type 0 where
  read : Bytes → ReadEvent
  would_block : ReadEvent
  read_failed : Error → ReadEvent

-- A library error of the channel, as the loops report it.
unfoldable pub session_error : Error → Error
unfolding classified_error
session_error e = classified_error ssh (context (says (codes "ssh session error")) ∷ e)

abbrev pub usize_max : ℕ
usize_max = 18446744073709551615

-- `usize::checked_add`
unfoldable pub checked_add : ℕ → ℕ → Option ℕ
checked_add a b = if leb (a + b) usize_max then some (a + b) else none

-- `checked_add` twice, and `unwrap_or(usize::MAX)`
unfoldable pub combined_length : ℕ → ℕ → ℕ → ℕ
unfolding checked_add
combined_length target other bytes = elim (checked_add target other) [
  | none ↦ usize_max
  | some len ↦ elim (checked_add len bytes) [ none ↦ usize_max | some sum ↦ sum ]
]

abbrev pub limit_error : Error
limit_error = app_error ssh (says (codes "ssh session output exceeded the byte limit"))

-- `append_output_bounded`; the result is the buffer with the new bytes behind it.
unfoldable pub append_output_bounded : Bytes → Bytes → ℕ → ℕ → Result Bytes
unfolding combined_length
append_output_bounded target bytes other_len output_limit =
    if ltb output_limit (combined_length (length target) other_len (length bytes))
    then err limit_error
    else ok (target ++ bytes)

length-append : (s t : Bytes) → length (s ++ t) ≡ length s + length t
length-append [] t = omega arith
length-append (c ∷ s) t = ground (arith, length-append s t)

-- Below the largest `usize` no sum overflows unnoticed: what is appended fits in the limit.
pub append_output_bounded_fits :
    (target bytes result : Bytes) (other_len output_limit : ℕ)
    → output_limit < usize_max
    → append_output_bounded target bytes other_len output_limit ≡ ok result
    → (result ≡ target ++ bytes) × (length result + other_len ≤ output_limit)
unfolding append_output_bounded combined_length checked_add
append_output_bounded_fits target bytes result other_len output_limit small h =
    (ground arith, ground (arith, length-append target bytes))

-- And what fits is appended.
pub append_output_bounded_takes :
    (target bytes : Bytes) (other_len output_limit : ℕ)
    → output_limit < usize_max
    → length target + other_len + length bytes ≤ output_limit
    → append_output_bounded target bytes other_len output_limit ≡ ok (target ++ bytes)
unfolding append_output_bounded combined_length checked_add
append_output_bounded_takes target bytes other_len output_limit small h = ground arith
