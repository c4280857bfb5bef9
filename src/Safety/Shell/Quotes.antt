-- ===== src/Safety/Shell/Quotes.antt =====
-- Quotes do not hide a word.
use sshw.Base.{
  ℕ, Text, [], ◌∷◌, ◌++◌, append_assoc, append-nil, Option, none, some, ◌≡◌, ◌≢◌, ap, sym, ◌∙◌,
  arith, AllOf,
}
use sshw.Safety.Shell.{opens_quote, plain, char_class, scan_words, shellish_words_and_separators}
use sshw.Safety.Shell.Positions.{open_quote, scan_words-plain, is_quote-char_class}

-- Everything up to the closing quote belongs to the word.
scan_words_quoted :
    (w s : Text) (q : ℕ) (current : Text)
    → AllOf (λ c. c ≢ q) w
    → scan_words (w ++ q ∷ s) (some q) current ≡ scan_words s none (current ++ w)
unfolding scan_words
scan_words_quoted [] s q current h = rw append-nil (ground arith)
scan_words_quoted (c ∷ w) s q current (hc, h) =
    ground (arith, scan_words_quoted w s q (current ++ c ∷ []) h, append_assoc current (c ∷ []) w)

-- Two texts that read alike from everywhere outside quotes read alike behind any text that
-- leaves no quote open.
scan_words_behind :
    (before s t : Text) (quote : Option ℕ) (current : Text)
    → ((word' : Text) → scan_words s none word' ≡ scan_words t none word')
    → open_quote before quote ≡ none
    → scan_words (before ++ s) quote current ≡ scan_words (before ++ t) quote current
unfolding scan_words
scan_words_behind [] s t none current h k = h current
scan_words_behind [] s t (some q) current h k = absurd (cc k)
scan_words_behind (d ∷ before) s t (some q) current h k = scan_words_behind before s t _ _ h k
scan_words_behind (d ∷ before) s t none current h k = ground (
  arith,
  is_quote-char_class d,
  scan_words_behind before s t (some d) current h,
  scan_words_behind before s t none [] h,
  scan_words_behind before s t none (current ++ d ∷ []) h,
)

plain-ne-quote :
    (w : Text) (q : ℕ)
    → char_class q ≡ opens_quote
    → AllOf (λ c. char_class c ≡ plain) w
    → AllOf (λ c. c ≢ q) w
plain-ne-quote [] q k h = tt
plain-ne-quote (c ∷ w) q k (hc, h) = (λ e. cc (ap char_class e), plain-ne-quote w q k h)

-- Quotes around part of a word, wherever they stand outside other quotes, change neither the words
-- nor the separators that the command is read as.
pub words-quoted :
    (before w after : Text) (q : ℕ)
    → open_quote before none ≡ none
    → char_class q ≡ opens_quote
    → AllOf (λ c. char_class c ≡ plain) w
    → shellish_words_and_separators (before ++ (q ∷ w ++ q ∷ after))
      ≡ shellish_words_and_separators (before ++ (w ++ after))
unfolding shellish_words_and_separators scan_words
words-quoted before w after q h k p =
    scan_words_behind before (q ∷ w ++ q ∷ after) (w ++ after) none []
      (λ current.
        rw (k, scan_words)
          (scan_words_quoted w after q current (plain-ne-quote w q k p)
            ∙ sym (scan_words-plain w after current p)))
      h
