-- ===== src/PolicyChange/Handler/Written.antt =====
-- What a policy command writes (src/cli/policy_cmd.rs, `run_policy`).
use sshw.Base.{
  none, Option-cases, Bool, true, false, ◌&&◌, Text, Option, some, same, ◌≡◌, refl, sym, arith, ◌⊎◌,
  inl, inr, Bool-cases, option_eq, text_eq, subst,
}
use sshw.Errors.{policy, Result, ok, err, map_err, and_then, Result-cases}
use sshw.Storage.{Disk, Stage, observe, write_owner_only_atomic}
use sshw.Storage.Publish.{Outcome, write_owner_only_atomic-Outcome}
use sshw.Config.{SshwConfig}
use sshw.Policy.{PolicyFile, default_policy_file}
use sshw.Policy.File.{
  Json, read_optional_policy, parse_policy_file, load_policy_with_revision,
  save_policy_if_unchanged,
}
use sshw.PolicyChange.Handler.{
  init, show, enable, disable, allow, remove, PolicyCommand, PolicyReport, mutating, policy_before,
  policy_after, is_changed, save_changed, run_loaded, run_policy,
}
use sshw.PolicyChange.Handler.Effect.{Effect, Differs, after-Effect, changed_lem}

module _ (json : Json) where
  open json use {print_policy}

  -- The destination is as before or holds the new text, and it holds it after a success.
  abbrev Saved : Text → Disk → Disk × Result (Unit {0}) → Type 0
  Saved text disk (after, r) =
      ((after.file ≡ disk.file) ⊎ (after.file ≡ some text)) × (r ≡ ok tt → after.file ≡ some text)

  Outcome-Saved :
      (text : Text) (disk : Disk) (step : Result (Unit {0}) × Disk)
      → Outcome text disk step
      → Saved text disk (step.1, step.0)
  Outcome-Saved text disk (ok u, after) (e, s) = (inr e, λ h. e)
  Outcome-Saved text disk (err e, after) (inl (p, q)) = (inr q, λ h. q)
  Outcome-Saved text disk (err e, after) (inr (p, q)) = (inl q, λ h. cc)

  policy-Saved :
      (readable : Bool) (fails : Stage → Bool) (file : PolicyFile) (revision : Option Text)
      (disk : Disk)
      → Saved (print_policy file) disk (
        (save_policy_if_unchanged json readable fails file revision disk).1,
        (save_policy_if_unchanged json readable fails file revision disk).0,
      )
  unfolding save_policy_if_unchanged
  policy-Saved readable fails file revision disk =
      elim (Result-cases (read_optional_policy (observe readable disk))) [
        | inr (e, q) ↦ (inl (ground arith), λ h. absurd (ground arith))
        | inl (current, q) ↦ elim (Bool-cases (same current revision)) [
          | inr s ↦ (inl (ground arith), λ h. absurd (ground arith))
          | inl s ↦
              let (dest, done) =
                Outcome-Saved (print_policy file) disk
                  (write_owner_only_atomic fails (print_policy file) disk)
                  (write_owner_only_atomic-Outcome fails (print_policy file) disk) in
              let same_step : save_policy_if_unchanged json readable fails file revision disk
                  ≡ write_owner_only_atomic fails (print_policy file) disk =
                ground arith in
              subst (λ step. Saved (print_policy file) disk (step.1, step.0)) (sym same_step)
                (dest, done)
        ]
      ]

  mapped_ok : (r : Result (Unit {0})) → map_err policy r ≡ ok tt → r ≡ ok tt
  mapped_ok (ok u) h = refl
  mapped_ok (err e) h = absurd (ground arith)

  -- A save that is made only if there is something to write.
  save_changed-Saved :
      (readable : Bool) (fails : Stage → Bool) (writes : Bool) (file : PolicyFile)
      (revision : Option Text) (disk : Disk)
      → (((save_changed json readable fails writes file revision disk).0.file ≡ disk.file)
          ⊎ ((writes ≡ true)
              × ((save_changed json readable fails writes file revision disk).0.file
                  ≡ some (print_policy file))))
        × (writes ≡ true
            → (save_changed json readable fails writes file revision disk).1 ≡ ok tt
            → (save_changed json readable fails writes file revision disk).0.file
              ≡ some (print_policy file))
  unfolding save_changed
  save_changed-Saved readable fails false file revision disk =
      (inl refl, λ w. absurd (ground arith))
  save_changed-Saved readable fails true file revision disk =
      let (dest, done) = policy-Saved readable fails file revision disk in
      (elim dest [ inl kept ↦ inl kept | inr new ↦ inr (refl, new) ], λ w h. done (mapped_ok _ h))

  -- The file on the disk reads as a policy.
  abbrev pub Held : Disk → PolicyFile → Type 0
  Held disk file = (text : Text) × (disk.file ≡ some text) × (parse_policy_file json text ≡ ok file)

  -- The policy that a command starts from: the one in the file; without a file, the default one, for
  -- `init` and `show` only; and `init` only without a file.
  abbrev pub Start : PolicyCommand → Disk → PolicyFile → Type 0
  Start init disk before = (disk.file ≡ none) × (before ≡ default_policy_file)
  Start show disk before = Held disk before ⊎ ((disk.file ≡ none) × (before ≡ default_policy_file))
  Start enable disk before = Held disk before
  Start disable disk before = Held disk before
  Start (allow rule) disk before = Held disk before
  Start (remove rule) disk before = Held disk before

  -- A loaded policy is the one in the file.
  abbrev LoadedAs : Option PolicyFile → Disk → Type 0
  LoadedAs none disk = disk.file ≡ none
  LoadedAs (some file) disk = Held disk file

  loaded-LoadedAs :
      (readable : Bool) (disk : Disk) (existing : Option PolicyFile) (revision : Option Text)
      → load_policy_with_revision json (observe readable disk) ≡ ok (existing, revision)
      → LoadedAs existing disk
  unfolding load_policy_with_revision read_optional_policy
  loaded-LoadedAs false disk existing revision h = absurd (ground arith)
  loaded-LoadedAs true disk existing revision h = elim (Option-cases disk.file) [
    | inl e ↦
        let nothing : none ≡ existing = ground arith in
        subst (λ loaded. LoadedAs loaded disk) nothing e
    | inr (text, e) ↦ elim (Result-cases (parse_policy_file json text)) [
      | inr (error, q) ↦ absurd (ground arith)
      | inl (file, q) ↦
          let found : some file ≡ existing = ground arith in
          subst (λ loaded. LoadedAs loaded disk) found (text, e, q)
    ]
  ]

  before-Start :
      (action : PolicyCommand) (existing : Option PolicyFile) (disk : Disk) (before : PolicyFile)
      → LoadedAs existing disk
      → policy_before action existing ≡ ok before
      → Start action disk before
  unfolding policy_before
  before-Start init none disk before l h = (l, ground arith)
  before-Start show none disk before l h = inr (l, ground arith)
  before-Start enable none disk before l h = absurd (ground arith)
  before-Start disable none disk before l h = absurd (ground arith)
  before-Start (allow rule) none disk before l h = absurd (ground arith)
  before-Start (remove rule) none disk before l h = absurd (ground arith)
  before-Start init (some file) disk before l h = absurd (ground arith)
  before-Start show (some file) disk before l h =
      let same_file : file ≡ before = ground arith in inl (subst (Held disk) same_file l)
  before-Start enable (some file) disk before l h =
      let same_file : file ≡ before = ground arith in subst (Held disk) same_file l
  before-Start disable (some file) disk before l h =
      let same_file : file ≡ before = ground arith in subst (Held disk) same_file l
  before-Start (allow rule) (some file) disk before l h =
      let same_file : file ≡ before = ground arith in subst (Held disk) same_file l
  before-Start (remove rule) (some file) disk before l h =
      let same_file : file ≡ before = ground arith in subst (Held disk) same_file l

  -- A report is of the policy that the command makes; it is in the file, or it is the one that the
  -- command started from and the file is as it was.
  abbrev pub Told : PolicyCommand → Disk → Disk → PolicyReport → Type 0
  Told action disk end report =
      (before : PolicyFile) × Start action disk before
      × Effect action before report.file
      × (((report.changed ≡ true) × (end.file ≡ some (print_policy report.file)))
          ⊎ ((report.changed ≡ false) × (report.file ≡ before) × (end.file ≡ disk.file)))

  -- The file is as it was, or a command wrote a policy that differs from the one it started from, or
  -- that is new; and a success is told as it is.
  abbrev pub Written : PolicyCommand → Disk → Disk × Result PolicyReport → Type 0
  Written action disk (end, outcome) =
      ((end.file ≡ disk.file)
        ⊎ ((before : PolicyFile) × (after : PolicyFile) × Start action disk before
            × Effect action before after
            × Differs action before after
            × (end.file ≡ some (print_policy after))))
      × ((report : PolicyReport) → outcome ≡ ok report → Told action disk end report)

  -- A step that saves if something changed, and the report behind it.
  reported :
      (action : PolicyCommand) (disk : Disk) (before after : PolicyFile) (changed writes : Bool)
      (step : Disk × Result (Unit {0}))
      → Start action disk before
      → Effect action before after
      → ((changed ≡ true) × (writes ≡ true) × Differs action before after)
        ⊎ ((changed ≡ false) × (writes ≡ false) × (after ≡ before))
      → ((step.0.file ≡ disk.file) ⊎ ((writes ≡ true) × (step.0.file ≡ some (print_policy after))))
      → (writes ≡ true → step.1 ≡ ok tt → step.0.file ≡ some (print_policy after))
      → Written action disk
          (and_then step (λ u disk. (disk, ok (record { file = after; changed = changed }))))
  reported action disk before after changed writes (end, err e) start effect (inl (c, w, differs))
        dest done =
      (
        elim dest [
          | inl kept ↦ inl kept
          | inr (w', new) ↦ inr (before, after, start, effect, differs, new)
        ],
        λ report h. cc,
      )
  reported action disk before after changed writes (end, ok u) start effect (inl (c, w, differs))
        dest done =
      (
        elim dest [
          | inl kept ↦ inl kept
          | inr (w', new) ↦ inr (before, after, start, effect, differs, new)
        ],
        λ report h.
            let told : PolicyReport = record { file = after; changed = changed } in
            let made : told ≡ report = ground arith in
            subst (Told action disk end) made (before, start, effect, inl (c, done w refl)),
      )
  reported action disk before after changed writes (end, err e) start effect (inr (c, w, same_file))
        dest done =
      (elim dest [ inl kept ↦ inl kept | inr (w', new) ↦ absurd (ground arith) ], λ report h. cc)
  reported action disk before after changed writes (end, ok u) start effect (inr (c, w, same_file))
        dest done =
      let kept : end.file ≡ disk.file = elim dest [
        | inl kept ↦ kept
        | inr (w', new) ↦ absurd (ground arith)
      ] in
      (
        inl kept,
        λ report h.
            let told : PolicyReport = record { file = after; changed = changed } in
            let made : told ≡ report = ground arith in
            subst (Told action disk end) made (before, start, effect, inr (c, same_file, kept)),
      )

  run_loaded-Written :
      (readable : Bool) (fails : Stage → Bool) (loaded : Result SshwConfig) (action : PolicyCommand)
      (existing : Option PolicyFile) (revision : Option Text) (disk : Disk)
      → LoadedAs existing disk
      → Written action disk (run_loaded json readable fails loaded action existing revision disk)
  unfolding run_loaded
  run_loaded-Written readable fails loaded action existing revision disk l =
      elim (Result-cases (policy_before action existing)) [
        | inr (e, b) ↦ (inl (ground arith), λ report h. absurd (ground arith))
        | inl (before, b) ↦ elim (Result-cases (policy_after loaded action before)) [
          | inr (e, a) ↦ (inl (ground arith), λ report h. absurd (ground arith))
          | inl (after, a) ↦
              let changed : Bool = is_changed action before after in
              let writes : Bool = mutating action && changed in
              let effect = after-Effect loaded action before after a in
              let (dest, done) = save_changed-Saved readable fails writes after revision disk in
              let step : Disk × Result (Unit {0}) =
                save_changed json readable fails writes after revision disk in
              let same_step : run_loaded json readable fails loaded action existing revision disk
                  ≡ and_then step
                      (λ u disk. (disk, ok (record { file = after; changed = changed }))) =
                rw b (rw a refl) in
              subst (Written action disk) (sym same_step) (
                reported action disk before after changed writes step
                  (before-Start action existing disk before l b) effect
                  (changed_lem action before after effect) dest done)
        ]
      ]

  -- Whatever a policy command ends with: the file is as it was, or the command wrote the policy that
  -- it makes of the one that the file held, which is another one, or of the default one if `init` found
  -- no file. A command that succeeds reports the policy that it makes, with the rule that it allows as
  -- an entry, without the one that it removes, or with the enforcement that it sets; this policy is
  -- in the file, or nothing changed, and is said so.
  pub run_policy-Written :
      (readable readable' : Bool) (fails : Stage → Bool) (loaded : Result SshwConfig)
      (action : PolicyCommand) (disk : Disk)
      → Written action disk (run_policy json readable readable' fails loaded action disk)
  unfolding run_policy
  run_policy-Written readable readable' fails loaded action disk =
      elim (Result-cases (load_policy_with_revision json (observe readable disk))) [
        | inr (e, q) ↦ (inl (ground arith), λ report h. absurd (ground arith))
        | inl ((existing, revision), q) ↦
            let same_step : run_policy json readable readable' fails loaded action disk
                ≡ run_loaded json readable' fails loaded action existing revision disk =
              rw q refl in
            subst (Written action disk) (sym same_step) (
              run_loaded-Written readable' fails loaded action existing revision disk
                (loaded-LoadedAs readable disk existing revision q))
      ]
