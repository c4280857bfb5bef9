-- ===== src/Policy/Paths/Containment.antt =====
-- What the path rules admit, stated without the code's string operations.
use sshw.Base.{
  ◌∙◌, true, false, Bool-cases, Option-cases, Text, codes, List, ◌∷◌, ◌++◌, some, ◌≡◌, ◌↔◌, ◌⊎◌,
  inl, inr, ap, arith, same, text_eq, find_map, Member, find_map-eq-some, find_map-eq-none,
  strip_prefix, strip_prefix-append, strip_prefix-eq-some, starts_with-append, starts_with-eq-true,
  trim, is_empty,
}
use sshw.Policy.Paths.{
  path_within, has_parent_traversal, is_windows_absolute_path, trim_end_slashes, to_forward_slashes,
  rule_match, windows_form, path_match, path_is_allowed,
}

-- `path` is `base`, or `base` and a slash and more.
abbrev pub Under : Text → Text → Type 0
Under base path = (path ≡ base) ⊎ ((rest : Text) × (path ≡ base ++ b'/' ∷ rest))

-- `path_within` is lexical containment.
pub path_within-Under : (base path : Text) → (path_within base path ≡ true) ↔ Under base path
unfolding path_within
path_within-Under base path = (
  λ h. elim (Bool-cases (same path base)) [
    | inl e ↦ inl (ground arith)
    | inr n ↦ elim (Option-cases (strip_prefix base path)) [
      | inl e ↦ absurd (ground arith)
      | inr (rest, e) ↦
          let (more, q) = starts_with-eq-true (codes "/") rest (ground arith) in
          inr (more, strip_prefix-eq-some base path rest e ∙ ap (λ t. base ++ t) q)
    ]
  ],
  λ u. elim u [
    | inl e ↦ ground arith
    | inr (rest, e) ↦ rw e (
        ground (arith, strip_prefix-append base (b'/' ∷ rest), starts_with-append (codes "/") rest))
  ],
)

-- The rule that an entry stands for: its trailing slashes do not count.
abbrev pub base_of : Text → Text
base_of entry = trim_end_slashes (trim entry)

-- The same for a Windows rule, whose separators are made slashes.
abbrev pub windows_base_of : Text → Text
windows_base_of entry = trim_end_slashes (to_forward_slashes (base_of entry))

-- An entry admits a path: a Windows entry only Windows paths, compared with slashes for
-- separators; any other entry the paths under it as they are spelled.
pub record CoversWindows (entry path : Text) : Type 0 where
  pub rule_is_windows : is_windows_absolute_path (trim entry) ≡ true
  pub path_is_windows : is_windows_absolute_path path ≡ true
  pub nonempty : is_empty (base_of entry) ≡ false
  pub nonempty_windows : is_empty (windows_base_of entry) ≡ false
  pub under : Under (windows_base_of entry) (to_forward_slashes path)

pub record CoversPlain (entry path : Text) : Type 0 where
  pub rule_is_plain : is_windows_absolute_path (trim entry) ≡ false
  pub nonempty : is_empty (base_of entry) ≡ false
  pub under : Under (base_of entry) path

abbrev pub Covers : Text → Text → Type 0
Covers entry path = CoversWindows entry path ⊎ CoversPlain entry path

rule_match-Covers :
    (entry path rule : Text)
    → rule_match (windows_form path) path entry ≡ some rule
    → Covers entry path
unfolding rule_match
rule_match-Covers entry path rule h = elim (Bool-cases (is_windows_absolute_path (trim entry))) [
  | inl w ↦ inl (record {
    rule_is_windows = w;
    path_is_windows = ground arith;
    nonempty = ground arith;
    nonempty_windows = ground arith;
    under = (path_within-Under _ _).0 (ground arith);
  })
  | inr n ↦ inr (record {
    rule_is_plain = n;
    nonempty = ground arith;
    under = (path_within-Under _ _).0 (ground arith);
  })
]

Covers-rule_match :
    (entry path : Text)
    → Covers entry path
    → rule_match (windows_form path) path entry ≡ some (base_of entry)
unfolding rule_match
Covers-rule_match entry path (inl c) =
    ground (arith, (path_within-Under (windows_base_of entry) (to_forward_slashes path)).1 c.under)
Covers-rule_match entry path (inr c) =
    ground (arith, (path_within-Under (base_of entry) path).1 c.under)

-- A path is allowed exactly when it has no `..` segment and some entry of the list covers it.
pub path_is_allowed-Covers :
    (allowlist : List Text) (path : Text)
    → (path_is_allowed allowlist path ≡ true) ↔ (
        (has_parent_traversal path ≡ false)
        × ((entry : Text) × Member entry allowlist × Covers entry path))
unfolding path_is_allowed path_match
path_is_allowed-Covers allowlist path = (
  λ h. elim (Option-cases (find_map (rule_match (windows_form path) path) allowlist)) [
    | inl e ↦ absurd (ground arith)
    | inr (rule, e) ↦
        let (entry, m, q) = find_map-eq-some _ allowlist rule e in
        (ground arith, (entry, m, rule_match-Covers entry path rule q))
  ],
  λ (t, (entry, m, c)).
      elim (Option-cases (find_map (rule_match (windows_form path) path) allowlist)) [
        | inl e ↦
            absurd (
              ground
                (arith, find_map-eq-none _ entry allowlist e m, Covers-rule_match entry path c))
        | inr (rule, e) ↦ ground arith
      ],
)
