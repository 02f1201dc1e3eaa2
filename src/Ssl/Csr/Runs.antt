-- ===== src/Ssl/Csr/Runs.antt =====
-- Runs of openssl_csr.
use freeipa_cloud_prov.Prelude.{
  Option-cases, ◌≡◌, inl, inr, refl, sym, ◌∙◌, ap, arith, Bool, true, false, not, ◌||◌, none, some,
  ◌++◌, Bool-cases, if_false,
}
use freeipa_cloud_prov.Prelude.Texts.{codes}
use freeipa_cloud_prov.Result.{ok, err, err_or_ok, ok_unique}
use freeipa_cloud_prov.Exec.{pure, ◌>>=◌, bind_ok}
use freeipa_cloud_prov.Exec.Returns.{Returns-pure, Returns-after}
use freeipa_cloud_prov.Ssl.Files.{
  Failure, fail_json, type_error, File, Files, Os, exists, dirname, file_at, remove_file,
  set_fs_attributes_if_different,
}
use freeipa_cloud_prov.Ssl.PrivateKey.{State, present, absent}
use freeipa_cloud_prov.Ssl.Csr.{
  Params, Signer, Report, dump, create, create_if_needed, generate, present_branch, absent_branch,
  branch, main, subject_of, all_accepted, is_ascii, alt_name_of, read_key,
}

module _ (os : Os) (signer : Signer) (p : Params) where
  -- The attributes of a file that stands at the path, or of the directory, are as they are wanted.
  abbrev pub Quiet : Files → Type 0
  Quiet files =
      ((file : File)
        → file_at files p.path ≡ some file
        → (os.set_fs_attributes p.path file).1 ≡ false)
      × (os.isdir p.path ≡ true → os.directory_differs p.path ≡ false)

  abbrev pub checking : Params
  checking = record p { check_mode = true }

  abbrev pub predicted : State → Files → Bool
  predicted present files = p.force || not (exists os p.path files)
  predicted absent files = exists os p.path files

  abbrev no_directory : Failure
  no_directory = fail_json (codes "The directory " ++ (p.path ++ codes " does not exist"))

  attributes_kept :
      (files : Files) (differs : Bool)
      → Quiet files
      → (set_fs_attributes_if_different os p.path files).0 ≡ ok differs
      → differs ≡ false
  unfolding set_fs_attributes_if_different
  attributes_kept files differs (file_quiet, directory_quiet) h =
      elim (Option-cases (file_at files p.path)) [
        | inl missing ↦ ground (arith, directory_quiet)
        | inr (file, there) ↦ ground (arith, file_quiet file there)
      ]

  create_if_needed_kept :
      (files : Files)
      → predicted present files ≡ false
      → create_if_needed os signer p files ≡ (ok false, files)
  unfolding create_if_needed
  create_if_needed_kept files idle =
      let kept : (not (exists os p.path files) || p.force) ≡ false = ground arith in rw kept refl

  create_if_needed_ok :
      (files : Files) (made : Bool)
      → (create_if_needed os signer p files).0 ≡ ok made
      → made ≡ predicted present files
  unfolding create_if_needed
  create_if_needed_ok files made h = elim (Bool-cases (not (exists os p.path files) || p.force)) [
    | inl wanted ↦
        (Returns-after {Q = λ b. b ≡ true} (create os signer p) (λ _. Returns-pure true refl)).value
          files made (rw wanted at h)
        ∙ ground arith
    | inr idle ↦ ground arith
  ]

  generate_changed :
      (files : Files) (changed : Bool)
      → Quiet files
      → (generate os signer p files).0 ≡ ok changed
      → changed ≡ predicted present files
  unfolding generate
  generate_changed files changed quiet h =
      let (made, hm, step) = bind_ok (create_if_needed os signer p) _ files changed h in
      let (differs, hd, step') =
        bind_ok (set_fs_attributes_if_different os p.path)
          (λ differs. pure {E = Failure} {S = Files} (made || differs)) _ changed (rw step at h) in
      ok_unique (generate os signer p files).0 (ap (λ x. x.0) (step ∙ step')) h
      ∙ elim (Bool-cases (predicted present files)) [
        | inl wanted ↦ ground (arith, create_if_needed_ok files made hm)
        | inr idle ↦
            let same : (create_if_needed os signer p files).1 ≡ files =
              ap (λ r. r.1) (create_if_needed_kept files idle) in
            ground (
              arith,
              create_if_needed_ok files made hm,
              attributes_kept files differs quiet
                  (ap (λ fs. (set_fs_attributes_if_different os p.path fs).0) (sym same) ∙ hd),
            )
      ]

  main-branch :
      (files : Files) (r : Report)
      → (main os signer p files).0 ≡ ok r
      → (os.isdir (dirname p.path) ≡ true)
        × (main os signer p files ≡ branch os signer p p.state files)
  unfolding main
  main-branch files r h = elim (Bool-cases (os.isdir (dirname p.path))) [
    | inl there ↦ (there, rw there refl)
    | inr missing ↦ err_or_ok (main os signer p files).0 {e = no_directory} (rw missing refl) h
  ]

  present_reports :
      (files : Files) (r : Report)
      → p.check_mode ≡ false
      → Quiet files
      → (present_branch os signer p files).0 ≡ ok r
      → r ≡ dump p (predicted present files)
  present_reports files r wet quiet h =
      let here : present_branch os signer p files
          ≡ (generate os signer p >>= λ changed. pure (dump p changed)) files =
        unfold present_branch in if_false p.check_mode _ _ wet in
      let (changed, g, step) =
        bind_ok (generate os signer p) (λ changed. pure (dump p changed)) files r
          (ap (λ x. x.0) (sym here) ∙ h) in
      ok_unique (present_branch os signer p files).0 (ap (λ x. x.0) (here ∙ step)) h
      ∙ ap (dump p) (generate_changed files changed quiet g)

  absent_reports :
      (files : Files) (r : Report)
      → p.check_mode ≡ false
      → (absent_branch os signer p files).0 ≡ ok r
      → r ≡ dump p (exists os p.path files)
  unfolding absent_branch remove_file exists
  absent_reports files r wet h = ground arith

  branch_reports :
      (w : State) (files : Files) (r : Report)
      → p.check_mode ≡ false
      → (w ≡ present → Quiet files)
      → (branch os signer p w files).0 ≡ ok r
      → r ≡ dump p (predicted w files)
  branch_reports present files r wet quiet h = present_reports files r wet (quiet refl) h
  branch_reports absent files r wet quiet h = absent_reports files r wet h

  branch_checked :
      (w : State) (files : Files)
      → branch os signer checking w files ≡ (ok (dump p (predicted w files)), files)
  unfolding present_branch absent_branch subject_of alt_name_of
  branch_checked present files = refl
  branch_checked absent files = refl

  checking_there :
      os.isdir (dirname p.path) ≡ true
      → (files : Files) → main os signer checking files ≡ branch os signer checking p.state files
  unfolding main
  checking_there there files = rw there refl

  -- Where a run out of check mode succeeds, the same task in check mode gives the same report and
  -- leaves the files as they are. In state `present`, what stands at the path before has its
  -- attributes as they are wanted.
  pub check_mode_agrees :
      (files : Files) (r : Report)
      → p.check_mode ≡ false
      → (p.state ≡ present → Quiet files)
      → (main os signer p files).0 ≡ ok r
      → main os signer checking files ≡ (ok r, files)
  check_mode_agrees files r wet quiet h =
      let (there, run) = main-branch files r h in
      let same : r ≡ dump p (predicted p.state files) =
        branch_reports p.state files r wet quiet (ap (λ x. x.0) (sym run) ∙ h) in
      checking_there there files ∙ branch_checked p.state files ∙ ap (λ x. (ok x, files)) (sym same)

  create_no_key :
      (files : Files)
      → p.privatekey_path ≡ none
      → all_accepted signer (subject_of p) ≡ true
      → is_ascii (alt_name_of p) ≡ true
      → signer.accepts_alt_name (alt_name_of p) ≡ true
      → create os signer p files ≡ (err type_error, files)
  unfolding create read_key
  create_no_key files no_key accepted ascii named = rw (accepted, ascii, named, no_key) refl

  create_if_needed_fails :
      (files : Files)
      → predicted present files ≡ true
      → create os signer p files ≡ (err type_error, files)
      → create_if_needed os signer p files ≡ (err type_error, files)
  unfolding create_if_needed
  create_if_needed_fails files wanted fails =
      let needed : (not (exists os p.path files) || p.force) ≡ true = ground arith in
      rw (needed, fails) refl

  no_key_present :
      (files : Files)
      → p.check_mode ≡ false
      → predicted present files ≡ true
      → create os signer p files ≡ (err type_error, files)
      → present_branch os signer p files ≡ (err type_error, files)
  no_key_present files wet wanted fails =
      let here : present_branch os signer p files
          ≡ (generate os signer p >>= λ changed. pure (dump p changed)) files =
        unfold present_branch in if_false p.check_mode _ _ wet in
      here ∙ (unfold generate in rw (create_if_needed_fails files wanted fails) refl)

  -- A run to the state `present` without the path of a private key ends with a `TypeError` where a
  -- request is to be made, and leaves the files as they are. The run is out of check mode, the
  -- directory is there, and the subject and the alternative names are accepted.
  pub main_no_key :
      (files : Files)
      → p.check_mode ≡ false
      → p.state ≡ present
      → os.isdir (dirname p.path) ≡ true
      → predicted present files ≡ true
      → p.privatekey_path ≡ none
      → all_accepted signer (subject_of p) ≡ true
      → is_ascii (alt_name_of p) ≡ true
      → signer.accepts_alt_name (alt_name_of p) ≡ true
      → main os signer p files ≡ (err type_error, files)
  unfolding main
  main_no_key files wet asks there wanted no_key accepted ascii named = rw there (
      ap (λ w. branch os signer p w files) asks
      ∙ no_key_present files wet wanted (create_no_key files no_key accepted ascii named))
