-- ===== src/PolicyChange/Monotone.antt =====
-- What a change of the rules does to what the policy allows (src/cli/policy_cmd.rs, `change_rule`).
use sshw.Base.{
  Bool, true, false, ◌&&◌, ◌||◌, Text, List, ◌≡◌, refl, ap, ◌∙◌, subst, arith, Bool-cases, inl, inr,
  any, same, text_eq, trim,
}
use sshw.Errors.{Result, ok, err, ◌>>=◌, ◌>>◌}
use sshw.Config.{SshwConfig}
use sshw.Policy.{AccountRule, PolicyFile}
use sshw.Policy.File.{rules_of}
use sshw.Policy.Paths.{rule_match, windows_form, path_match, path_is_allowed, has_parent_traversal}
use sshw.Policy.Commands.{
  allows_command, allows_put, allows_get, account_match, allows_account, command_match, entry_match,
}
use sshw.PolicyChange.{
  PolicyRule, command, put, get, account, policy_remote_path, change_entries, change_rule,
  same_account,
}
use sshw.PolicyChange.Entries.{
  Within, change_entries-Within-removed, change_entries-Within-added, any-change_entries,
  find_map-Within, find-Within,
}

path_is_allowed-Within :
    (xs ys : List Text) (path : Text)
    → Within xs ys
    → path_is_allowed xs path ≡ true
    → path_is_allowed ys path ≡ true
unfolding path_is_allowed path_match
path_is_allowed-Within xs ys path within h = elim (Bool-cases (has_parent_traversal path)) [
  | inl e ↦ absurd (ground arith)
  | inr e ↦
      let more =
        find_map-Within (rule_match (windows_form path) path) xs ys within (ground arith) in
      ground arith
]

-- The entries of one policy file are entries of another.
abbrev EntriesWithin : PolicyFile → PolicyFile → Type 0
EntriesWithin a b =
    Within a.allow_commands b.allow_commands
    × Within a.allow_put_paths b.allow_put_paths
    × Within a.allow_get_paths b.allow_get_paths
    × Within a.allow_accounts b.allow_accounts

-- What the rules of one policy file allow, those of another allow.
abbrev pub AllowsWithin : PolicyFile → PolicyFile → Type 0
AllowsWithin a b =
    ((command : Text)
      → allows_command (rules_of a) command ≡ true
      → allows_command (rules_of b) command ≡ true)
    × ((path : Text) → allows_put (rules_of a) path ≡ true → allows_put (rules_of b) path ≡ true)
    × ((path : Text) → allows_get (rules_of a) path ≡ true → allows_get (rules_of b) path ≡ true)
    × ((server user : Text) (is_default : Bool)
        → allows_account (rules_of a) server user is_default ≡ true
        → allows_account (rules_of b) server user is_default ≡ true)

or_more : (d x y : Bool) → (x ≡ true → y ≡ true) → d || x ≡ true → d || y ≡ true
or_more true x y more h = refl
or_more false x y more h = more h

entries-AllowsWithin : (a b : PolicyFile) → EntriesWithin a b → AllowsWithin a b
unfolding allows_command command_match allows_put allows_get allows_account account_match rules_of
entries-AllowsWithin a b (commands, puts, gets, accounts) = (
  λ value. find_map-Within (entry_match (trim value)) a.allow_commands b.allow_commands commands,
  λ path. path_is_allowed-Within a.allow_put_paths b.allow_put_paths path puts,
  λ path. path_is_allowed-Within a.allow_get_paths b.allow_get_paths path gets,
  λ server user is_default. or_more is_default _ _ (
      find-Within (λ entry. same entry.server server && same entry.user user) a.allow_accounts
        b.allow_accounts accounts),
)

same_entries : {A : Type 0} (xs : List A) → Within xs xs
same_entries xs x m = m

-- Which of two values is within the other after an addition or a removal.
abbrev pub Ordered : {A : Type 0} → (A → A → Type 0) → Bool → A → A → Type 0
Ordered within true before after = within before after
Ordered within false before after = within after before

changed_entries :
    {A : Type 0} (eq : A → A → Bool) (adding : Bool) (value : A) (entries : List A)
    → Ordered Within adding entries (change_entries eq adding value entries)
changed_entries eq true value entries = change_entries-Within-added eq value entries
changed_entries eq false value entries = change_entries-Within-removed eq value entries

-- A change of one list of a file.
commands-Ordered :
    (adding : Bool) (file : PolicyFile) (entries : List Text)
    → Ordered Within adding file.allow_commands entries
    → Ordered EntriesWithin adding file (record file { allow_commands = entries })
commands-Ordered true file entries w = (w, same_entries _, same_entries _, same_entries _)
commands-Ordered false file entries w = (w, same_entries _, same_entries _, same_entries _)

puts-Ordered :
    (adding : Bool) (file : PolicyFile) (entries : List Text)
    → Ordered Within adding file.allow_put_paths entries
    → Ordered EntriesWithin adding file (record file { allow_put_paths = entries })
puts-Ordered true file entries w = (same_entries _, w, same_entries _, same_entries _)
puts-Ordered false file entries w = (same_entries _, w, same_entries _, same_entries _)

gets-Ordered :
    (adding : Bool) (file : PolicyFile) (entries : List Text)
    → Ordered Within adding file.allow_get_paths entries
    → Ordered EntriesWithin adding file (record file { allow_get_paths = entries })
gets-Ordered true file entries w = (same_entries _, same_entries _, w, same_entries _)
gets-Ordered false file entries w = (same_entries _, same_entries _, w, same_entries _)

accounts-Ordered :
    (adding : Bool) (file : PolicyFile) (entries : List AccountRule)
    → Ordered Within adding file.allow_accounts entries
    → Ordered EntriesWithin adding file (record file { allow_accounts = entries })
accounts-Ordered true file entries w = (same_entries _, same_entries _, same_entries _, w)
accounts-Ordered false file entries w = (same_entries _, same_entries _, same_entries _, w)

-- Whether the file has an entry for the value of a path.
has_path : List Text → Result Text → Bool
has_path entries (ok value) = any (λ entry. same entry value) entries
has_path entries (err e) = false

-- Whether the file has the rule as an entry.
unfoldable pub has_rule : PolicyFile → PolicyRule → Bool
unfolding has_path
has_rule file (command value) = any (λ entry. same entry value) file.allow_commands
has_rule file (put path) = has_path file.allow_put_paths (policy_remote_path path)
has_rule file (get path) = has_path file.allow_get_paths (policy_remote_path path)
has_rule file (account server user) =
    any (λ entry. same_account entry (record { server = server; user = user })) file.allow_accounts

abbrev Changed : Bool → PolicyFile → PolicyRule → PolicyFile → Type 0
Changed adding file rule after =
    Ordered EntriesWithin adding file after × (has_rule after rule ≡ adding)

same_text : (a : Text) → same a a ≡ true
same_text a = ground arith

same_account_refl : (a : AccountRule) → same_account a a ≡ true
unfolding same_account
same_account_refl a = ground arith

then_ok :
    (P : PolicyFile → Type 0) (r : Result (Unit {0})) (x y : PolicyFile)
    → P x
    → (r >> ok x) ≡ ok y
    → P y
then_ok P (ok u) x y p h = let same_file : x ≡ y = ground arith in subst P same_file p
then_ok P (err e) x y p h = absurd (ground arith)

bind_ok :
    (r : Result Text) (next : Text → Result PolicyFile) (y : PolicyFile)
    → (r >>= next) ≡ ok y
    → (value : Text) × (r ≡ ok value) × (next value ≡ ok y)
bind_ok (ok value) next y h = (value, refl, h)
bind_ok (err e) next y h = absurd (ground arith)

change_rule-Changed :
    (loaded : Result SshwConfig) (file after : PolicyFile) (rule : PolicyRule) (adding : Bool)
    → change_rule loaded file rule adding ≡ ok after
    → Changed adding file rule after
unfolding change_rule has_rule
change_rule-Changed loaded file after (account server user) adding h =
    let rule : AccountRule = record { server = server; user = user } in
    then_ok (Changed adding file (account server user)) _ _ after
      (
        accounts-Ordered adding file _
            (changed_entries same_account adding rule file.allow_accounts),
        any-change_entries same_account adding rule file.allow_accounts (same_account_refl rule),
      )
      h
change_rule-Changed loaded file after (command value) adding h =
    then_ok (Changed adding file (command value)) _ _ after
      (
        commands-Ordered adding file _
            (changed_entries (λ a b. same a b) adding value file.allow_commands),
        any-change_entries (λ a b. same a b) adding value file.allow_commands (same_text value),
      )
      h
change_rule-Changed loaded file after (put path) adding h =
    let (value, r, q) = bind_ok (policy_remote_path path) _ after h in
    then_ok (Changed adding file (put path)) _ _ after
      (
        puts-Ordered adding file _
            (changed_entries (λ a b. same a b) adding value file.allow_put_paths),
        ap (has_path _) r
            ∙ any-change_entries (λ a b. same a b) adding value file.allow_put_paths
                (same_text value),
      )
      q
change_rule-Changed loaded file after (get path) adding h =
    let (value, r, q) = bind_ok (policy_remote_path path) _ after h in
    then_ok (Changed adding file (get path)) _ _ after
      (
        gets-Ordered adding file _
            (changed_entries (λ a b. same a b) adding value file.allow_get_paths),
        ap (has_path _) r
            ∙ any-change_entries (λ a b. same a b) adding value file.allow_get_paths
                (same_text value),
      )
      q

Ordered-AllowsWithin :
    (adding : Bool) (file after : PolicyFile)
    → Ordered EntriesWithin adding file after
    → Ordered AllowsWithin adding file after
Ordered-AllowsWithin true file after w = entries-AllowsWithin file after w
Ordered-AllowsWithin false file after w = entries-AllowsWithin after file w

-- A change of the rules that succeeds leaves the rule as an entry exactly if it adds; it takes no
-- permission away if it adds and gives none if it removes: every command, upload, download and
-- account that the one policy allows, the other allows.
pub change_rule-AllowsWithin :
    (loaded : Result SshwConfig) (file after : PolicyFile) (rule : PolicyRule) (adding : Bool)
    → change_rule loaded file rule adding ≡ ok after
    → (has_rule after rule ≡ adding) × Ordered AllowsWithin adding file after
change_rule-AllowsWithin loaded file after rule adding h =
    let (within, there) = change_rule-Changed loaded file after rule adding h in
    (there, Ordered-AllowsWithin adding file after within)
