-- ===== src/Policy/Paths/Traversal.antt =====
-- `..` segments, and that no rule admits a path with one.
use sshw.Base.{
  ℕ, true, ◌||◌, Text, List, [], ◌∷◌, ◌++◌, none, ◌≡◌, ◌⊎◌, inl, inr, arith, text_eq, any,
  any-append, append_assoc, split, split_at_separator, is_path_separator,
}
use sshw.Policy.Paths.{dotdot, has_parent_traversal, path_match}

-- Nothing, or a text that ends in a separator.
abbrev pub EndsSegment : Text → Type 0
EndsSegment a = (a ≡ []) ⊎ ((b : Text) × (c : ℕ) × (is_path_separator c ≡ true) × (a ≡ b ++ c ∷ []))

-- Nothing, or a text that begins with a separator.
abbrev pub StartsSegment : Text → Type 0
StartsSegment a = (a ≡ []) ⊎ ((b : Text) × (c : ℕ) × (is_path_separator c ≡ true) × (a ≡ c ∷ b))

-- A separator cuts a path into two that are looked at on their own.
pub has_parent_traversal-append :
    (a b : Text) (c : ℕ)
    → is_path_separator c ≡ true
    → has_parent_traversal (a ++ c ∷ b) ≡ (has_parent_traversal a || has_parent_traversal b)
unfolding has_parent_traversal
has_parent_traversal-append a b c h =
    rw (split_at_separator is_path_separator a b c h) (any-append _ _ _)

traversal_alone : has_parent_traversal dotdot ≡ true
unfolding has_parent_traversal split is_path_separator any
traversal_alone = ground arith

traversal_before : (b : Text) → StartsSegment b → has_parent_traversal (dotdot ++ b) ≡ true
traversal_before b (inl e) = rw e traversal_alone
traversal_before b (inr (rest, c, sep, e)) =
    rw e (ground (arith, has_parent_traversal-append dotdot rest c sep, traversal_alone))

-- `..` between segment ends is found.
pub has_parent_traversal_of_segment :
    (a b : Text) → EndsSegment a → StartsSegment b → has_parent_traversal (a ++ dotdot ++ b) ≡ true
has_parent_traversal_of_segment a b (inl e) t = rw e (traversal_before b t)
has_parent_traversal_of_segment a b (inr (front, c, sep, e)) t =
    rw (e, append_assoc, append_assoc)
      (ground (arith, has_parent_traversal-append front (dotdot ++ b) c sep, traversal_before b t))

-- No list of rules admits a path with a `..` segment, wherever the segment stands.
pub path_match_of_segment :
    (allowlist : List Text) (a b : Text)
    → EndsSegment a
    → StartsSegment b
    → path_match allowlist (a ++ dotdot ++ b) ≡ none
unfolding path_match
path_match_of_segment allowlist a b s t = rw (has_parent_traversal_of_segment a b s t)
