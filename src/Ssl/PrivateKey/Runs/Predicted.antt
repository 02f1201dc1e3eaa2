-- ===== src/Ssl/PrivateKey/Runs/Predicted.antt =====
-- What the check mode says of a run that is not in check mode.
use freeipa_cloud_prov.Prelude.{
  ◌≡◌, inl, inr, refl, sym, ◌∙◌, ap, arith, Bool, true, false, not, ◌||◌, some, List, [], ◌++◌,
  Bool-cases, if_false,
}
use freeipa_cloud_prov.Prelude.Texts.{Text, codes}
use freeipa_cloud_prov.Result.{ok, err_or_ok, ok_unique}
use freeipa_cloud_prov.Exec.{pure, ◌>>=◌, bind_ok}
use freeipa_cloud_prov.Ssl.Files.{
  Failure, fail_json, File, Files, Os, exists, file_at, file_at-without_file, dirname, remove_file,
}
use freeipa_cloud_prov.Ssl.Fingerprint.{Crypto}
use freeipa_cloud_prov.Ssl.PrivateKey.{
  State, present, absent, KeyMaker, Params, Report, generate, dump, present_branch, absent_branch,
  branch, main, create_if_needed,
}
use freeipa_cloud_prov.Ssl.PrivateKey.Runs.{needed, Generated, generate_ok, create_if_needed_kept}

module _ (os : Os) (crypto : Crypto) (maker : KeyMaker) (p : Params) where
  -- The attributes of a file that stands at the path are as they are wanted.
  abbrev pub Quiet : Files → Type 0
  Quiet files =
      (file : File)
      → file_at files p.path ≡ some file
      → (os.set_fs_attributes p.path file).1 ≡ false

  -- The same task in check mode
  abbrev pub checking : Params
  checking = record p { check_mode = true }

  -- The change that the check mode says.
  abbrev pub predicted : State → Files → Bool
  predicted present files = p.force || not (exists os p.path files)
  predicted absent files = exists os p.path files

  abbrev no_directory : Failure
  no_directory = fail_json (
      codes "The directory "
      ++ (dirname p.path ++ codes " does not exist or the file is not a directory"))

  pub main-branch :
      (files : Files) (r : Report)
      → (main os crypto maker p files).0 ≡ ok r
      → (os.isdir (dirname p.path) ≡ true)
        × (main os crypto maker p files ≡ branch os crypto maker p p.state files)
  unfolding main
  main-branch files r h = elim (Bool-cases (os.isdir (dirname p.path))) [
    | inl there ↦ (there, rw there refl)
    | inr missing ↦
        err_or_ok (main os crypto maker p files).0 {e = no_directory} (rw missing refl) h
  ]

  pub main_there :
      os.isdir (dirname p.path) ≡ true
      → (files : Files)
      → main os crypto maker checking files ≡ branch os crypto maker checking p.state files
  unfolding main
  main_there there files = rw there refl

  pub present_branch_wet :
      (files : Files)
      → p.check_mode ≡ false
      → present_branch os crypto maker p files
        ≡ (generate os crypto maker p >>= λ done. pure (dump os crypto maker p done.0 done.1)) files
  unfolding present_branch
  present_branch_wet files wet = if_false p.check_mode _ _ wet

  -- A run that succeeds has generated.
  pub present_generates :
      (files : Files) (r : Report)
      → p.check_mode ≡ false
      → (present_branch os crypto maker p files).0 ≡ ok r
      → (done : Bool × List (Text × Text)) × (r ≡ dump os crypto maker p done.0 done.1)
        × ((present_branch os crypto maker p files).1 ≡ (generate os crypto maker p files).1)
        × Generated os crypto maker p files done
  present_generates files r wet h =
      let (done, g, step) =
        bind_ok (generate os crypto maker p) (λ done. pure (dump os crypto maker p done.0 done.1))
          files r (ap (λ x. x.0) (sym (present_branch_wet files wet)) ∙ h) in
      (
        done,
        ok_unique (present_branch os crypto maker p files).0
            (ap (λ x. x.0) (present_branch_wet files wet ∙ step)) h,
        ap (λ x. x.1) (present_branch_wet files wet ∙ step),
        generate_ok os crypto maker p files done g,
      )

  absent_changed :
      (files : Files) (r : Report)
      → p.check_mode ≡ false
      → (absent_branch os crypto maker p files).0 ≡ ok r
      → (r.changed ≡ exists os p.path files)
        × (exists os p.path ((absent_branch os crypto maker p files).1) ≡ false)
  unfolding absent_branch remove_file exists
  absent_changed files r wet h = (ground arith, ground (arith, file_at-without_file p.path files))

  -- A file that was there is kept, unless a key is made.
  needed_or_kept :
      {files middle : Files}
      → create_if_needed os crypto maker p files ≡ (ok (needed os crypto maker p files), middle)
      → needed os crypto maker p files ≡ false
      → middle ≡ files
  needed_or_kept {files} made idle =
      ap (λ r. r.1) (sym made ∙ create_if_needed_kept os crypto maker p files idle)

  changed_predicted :
      (files middle : Files) (file : File)
      → (needed os crypto maker p files ≡ false → middle ≡ files)
      → Quiet files
      → file_at middle p.path ≡ some file
      → (needed os crypto maker p files || (os.set_fs_attributes p.path file).1)
        ≡ predicted present files
  changed_predicted files middle file kept quiet there =
      elim (Bool-cases (needed os crypto maker p files)) [
        | inl made ↦ ground arith
        | inr idle ↦
            ground (arith, quiet file (ap (λ fs. file_at fs p.path) (sym (kept idle)) ∙ there))
      ]

  present_changed :
      (files : Files) (r : Report)
      → p.check_mode ≡ false
      → Quiet files
      → (present_branch os crypto maker p files).0 ≡ ok r
      → r.changed ≡ predicted present files
  present_changed files r wet quiet h =
      let (done, dumped, _, made) = present_generates files r wet h in
      let whole : done ≡ (
        needed os crypto maker p files || (os.set_fs_attributes p.path made.read.file).1,
        made.fingerprint,
      ) =
        ok_unique (generate os crypto maker p files).0 (ap (λ x. x.0) made.outcome) made.succeeds in
      ap (λ x. x.changed) dumped
      ∙ ap (λ x. x.0) whole
      ∙ changed_predicted files made.middle made.read.file (needed_or_kept made.made) quiet
          made.read.there

  branch_changed :
      (w : State) (files : Files) (r : Report)
      → p.check_mode ≡ false
      → (w ≡ present → Quiet files)
      → (branch os crypto maker p w files).0 ≡ ok r
      → r.changed ≡ predicted w files
  branch_changed present files r wet quiet h = present_changed files r wet (quiet refl) h
  branch_changed absent files r wet quiet h = (absent_changed files r wet h).0

  branch_checked :
      (w : State) (files : Files)
      → branch os crypto maker checking w files
        ≡ (ok (dump os crypto maker p (predicted w files) []), files)
  unfolding present_branch absent_branch
  branch_checked present files = refl
  branch_checked absent files = refl

  -- Where a run out of check mode succeeds, the same task in check mode reports the same change,
  -- without a fingerprint, and leaves the files as they are. In state `present`, a file that stands
  -- at the path before has its attributes as they are wanted.
  pub main_checked :
      (files : Files) (r : Report)
      → p.check_mode ≡ false
      → (p.state ≡ present → Quiet files)
      → (main os crypto maker p files).0 ≡ ok r
      → main os crypto maker checking files ≡ (ok (dump os crypto maker p r.changed []), files)
  main_checked files r wet quiet h =
      let (there, run) = main-branch files r h in
      let same : r.changed ≡ predicted p.state files =
        branch_changed p.state files r wet quiet (ap (λ x. x.0) (sym run) ∙ h) in
      main_there there files
      ∙ branch_checked p.state files
      ∙ ap (λ b. (ok (dump os crypto maker p b []), files)) (sym same)

  -- A run to the state `absent` that succeeds, out of check mode, leaves nothing at the path, and
  -- reports a change exactly where there was something.
  pub main_absent :
      (files : Files) (r : Report)
      → p.check_mode ≡ false
      → p.state ≡ absent
      → (main os crypto maker p files).0 ≡ ok r
      → (r.changed ≡ exists os p.path files)
        × (exists os p.path ((main os crypto maker p files).1) ≡ false)
  main_absent files r wet asks h =
      let (there, run) = main-branch files r h in
      let gone : main os crypto maker p files ≡ absent_branch os crypto maker p files =
        run ∙ ap (λ w. branch os crypto maker p w files) asks in
      rw gone (absent_changed files r wet (ap (λ x. x.0) (sym gone) ∙ h))
