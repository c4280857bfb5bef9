-- ===== src/Safety/Hazards.antt =====
-- What the safety rails block, stated without the code's loops.
use sshw.Base.{
  Bool, true, false, Bool-cases, ◌||◌, ◌&&◌, Text, codes, List, [], ◌∷◌, ◌++◌, ◌≡◌, ◌≢◌, ◌↔◌, ◌⊎◌,
  inl, inr, refl, ap, arith, if◌then◌else◌, text_eq, any, Member, any-eq-true, any_of_Member,
  starts_with, to_ascii_lowercase,
}
use sshw.Safety.{allow, classify_command}
use sshw.Safety.Shell.{command_name_is}
use sshw.Safety.Shell.Positions.{RunsSudo, has_sudo_command-RunsSudo}
use sshw.Safety.Tokens.{
  shellish_tokens, any_with_rest, is_recursive_flag, is_force_flag, rm_flags,
  has_rm_recursive_force,
}

module _ (f : Text → List Text → Bool) where
  any_with_rest_of_split :
      (before : List Text) (token : Text) (rest : List Text)
      → f token rest ≡ true
      → any_with_rest f (before ++ token ∷ rest) ≡ true
  unfolding any_with_rest
  any_with_rest_of_split [] token rest h = ground arith
  any_with_rest_of_split (t ∷ before) token rest h =
      ground (arith, any_with_rest_of_split before token rest h)

  split_of_any_with_rest :
      (tokens : List Text)
      → any_with_rest f tokens ≡ true
      → (before : List Text) × (token : Text) × (rest : List Text) × (tokens
          ≡ before ++ token ∷ rest)
        × (f token rest ≡ true)
  unfolding any_with_rest
  split_of_any_with_rest [] h = absurd (ground arith)
  split_of_any_with_rest (t ∷ ts) h = elim (Bool-cases (f t ts)) [
    | inl e ↦ ([], t, ts, refl, e)
    | inr n ↦
        let (before, token, rest, q, e) = split_of_any_with_rest ts (rw n at h) in
        (t ∷ before, token, rest, ap (λ r. t ∷ r) q, e)
  ]

-- A token that begins with a dash and passes a test.
abbrev dashed : (Text → Bool) → Text → Bool
dashed p arg = starts_with (codes "-") arg && p arg

rm_flags-any :
    (args : List Text) (recursive force : Bool)
    → rm_flags args recursive force ≡ (
        (recursive || any (dashed is_recursive_flag) args)
        && (force || any (dashed is_force_flag) args))
unfolding rm_flags any
rm_flags-any [] recursive force = ground arith
rm_flags-any (arg ∷ args) recursive force = ground (
  arith,
  rm_flags-any args
      (if starts_with (codes "-") arg then recursive || is_recursive_flag arg else recursive)
      (if starts_with (codes "-") arg then force || is_force_flag arg else force),
)

-- `rm` somewhere, and behind it, in any order, a flag for recursion and one for force.
pub record RemovesForced (tokens : List Text) : Type 0 where
  pub before : List Text
  pub program : Text
  pub args : List Text
  pub split_here : tokens ≡ before ++ program ∷ args
  pub is_rm : command_name_is program (codes "rm") ≡ true
  pub recursive : Text
  pub recursive_given : Member recursive args
  pub recursive_flag : (starts_with (codes "-") recursive && is_recursive_flag recursive) ≡ true
  pub force : Text
  pub force_given : Member force args
  pub force_flag : (starts_with (codes "-") force && is_force_flag force) ≡ true

-- The check of the tokens fires exactly if there is an `rm` with both flags behind it.
pub has_rm_recursive_force-RemovesForced :
    (tokens : List Text) → (has_rm_recursive_force tokens ≡ true) ↔ RemovesForced tokens
unfolding has_rm_recursive_force
has_rm_recursive_force-RemovesForced tokens = (
  λ h.
      let (before, program, args, q, e) = split_of_any_with_rest _ tokens h in
      let (r, rm, rf) =
        any-eq-true (dashed is_recursive_flag) args
          (ground (arith, rm_flags-any args false false)) in
      let (f, fm, ff) =
        any-eq-true (dashed is_force_flag) args (ground (arith, rm_flags-any args false false)) in
      record {
        before = before;
        program = program;
        args = args;
        split_here = q;
        is_rm = ground arith;
        recursive = r;
        recursive_given = rm;
        recursive_flag = rf;
        force = f;
        force_given = fm;
        force_flag = ff;
      },
  λ d. rw (d.split_here) (
      any_with_rest_of_split _ d.before d.program d.args (
        ground (
          arith,
          rm_flags-any d.args false false,
          any_of_Member (dashed is_recursive_flag) d.recursive d.args d.recursive_given
              d.recursive_flag,
          any_of_Member (dashed is_force_flag) d.force d.args d.force_given d.force_flag,
        ))),
)

-- Without consent a command is not allowed if its tokens force a recursive removal, or if it runs
-- `sudo`, in lower case.
classify_command_of_hazard :
    (command : Text)
    → RemovesForced (shellish_tokens (to_ascii_lowercase command))
      ⊎ RunsSudo (to_ascii_lowercase command)
    → classify_command command false ≢ allow
unfolding classify_command
classify_command_of_hazard command (inl d) h = ground (
  arith,
  (has_rm_recursive_force-RemovesForced (shellish_tokens (to_ascii_lowercase command))).1 d,
)
classify_command_of_hazard command (inr d) h =
    ground (arith, has_sudo_command-RunsSudo (to_ascii_lowercase command) d)
