-- ===== src/Ssl/PrivateKey/Runs/Again.antt =====
-- What a run leaves, and what the next one does.
use freeipa_cloud_prov.Prelude.{
  ℕ, ◌≡◌, inl, inr, refl, sym, ◌∙◌, ap, arith, Bool, true, false, Option, some, List, Bool-cases,
}
use freeipa_cloud_prov.Prelude.Texts.{Text}
use freeipa_cloud_prov.Result.{ok, err_or_ok, ok_unique, Result-cases}
use freeipa_cloud_prov.Exec.{Exec, pure, ◌>>=◌}
use freeipa_cloud_prov.Ssl.Files.{
  Failure, fail_json, os_error, File, Files, Os, exists, file_at, with_file, written,
  file_at-with_file, dirname,
}
use freeipa_cloud_prov.Ssl.Fingerprint.{Crypto, get_fingerprint, fingerprint_of}
use freeipa_cloud_prov.Ssl.Fingerprint.Reads.{Read, get_fingerprint_of}
use freeipa_cloud_prov.Ssl.PrivateKey.{
  present, KeyMaker, Params, Report, key_mode, write_key, create, create_if_needed, generate,
  present_branch, branch, dump, main,
}
use freeipa_cloud_prov.Ssl.PrivateKey.Runs.{
  needed, Generated, create_if_needed_kept, generated_from,
}
use freeipa_cloud_prov.Ssl.PrivateKey.Runs.Predicted.{
  main-branch, present_generates, present_branch_wet,
}

module _ (os : Os) (crypto : Crypto) (maker : KeyMaker) (p : Params) where
  -- Setting attributes leaves the content, as Ansible documents.
  abbrev pub KeepsContent : Type 0
  KeepsContent = (file : File) → (os.set_fs_attributes p.path file).0.content ≡ file.content

  -- Attributes that were set are as they are wanted.
  abbrev pub Settles : Type 0
  Settles =
      (file : File) → (os.set_fs_attributes p.path (os.set_fs_attributes p.path file).0).1 ≡ false

  -- The path has a file with this content.
  abbrev pub Has : Text → Files → Type 0
  Has content files = (file : File) × (file_at files p.path ≡ some file) × (file.content ≡ content)

  -- A run to the state `present` that succeeds generates.
  main_generates :
      (files : Files) (r : Report)
      → p.check_mode ≡ false
      → p.state ≡ present
      → (main os crypto maker p files).0 ≡ ok r
      → (done : Bool × List (Text × Text)) × (r ≡ dump os crypto maker p done.0 done.1)
        × (main os crypto maker p files).1 ≡ (generate os crypto maker p files).1
        × (os.isdir (dirname p.path) ≡ true)
        × Generated os crypto maker p files done
  main_generates files r wet asks h =
      let (there, run) = main-branch os crypto maker p files r h in
      let here : main os crypto maker p files ≡ present_branch os crypto maker p files =
        run ∙ ap (λ w. branch os crypto maker p w files) asks in
      let (done, dumped, left, made) =
        present_generates os crypto maker p files r wet (ap (λ x. x.0) (sym here) ∙ h) in
      (done, dumped, ap (λ x. x.1) here ∙ left, there, made)

  fresh :
      (files middle : Files)
      → needed os crypto maker p files ≡ true
      → create_if_needed os crypto maker p files ≡ (ok (needed os crypto maker p files), middle)
      → (key : ℕ) × (maker.generate_key p.type p.size ≡ ok key)
        × (middle
            ≡ written os p.path (key_mode os crypto maker p) (maker.dump_privatekey key) files)
  unfolding create_if_needed create write_key
  fresh files middle wanted h = elim (Result-cases (maker.generate_key p.type p.size)) [
    | inr (text, fails) ↦
        err_or_ok (create_if_needed os crypto maker p files).0 {e = fail_json text} (ground arith)
          (ap (λ x. x.0) h)
    | inl (key, makes) ↦ elim (Bool-cases (os.can_write p.path)) [
      | inr refused ↦
          err_or_ok (create_if_needed os crypto maker p files).0 {e = os_error} (ground arith)
            (ap (λ x. x.0) h)
      | inl can ↦ (key, makes, ground arith)
    ]
  ]

  some_unique {ℓ} : {A : Type ℓ} (o : Option A) {a b : A} → o ≡ some a → o ≡ some b → b ≡ a
  some_unique o one other = cc

  fingerprint_dumped :
      (files : Files) (r : Report) (done : Bool × List (Text × Text))
      → r ≡ dump os crypto maker p done.0 done.1
      → (made : Generated os crypto maker p files done) → r.fingerprint ≡ made.fingerprint
  fingerprint_dumped files r done dumped made =
      ap (λ x. x.fingerprint) dumped
      ∙ ap (λ x. x.1)
          (ok_unique (generate os crypto maker p files).0 (ap (λ x. x.0) made.outcome)
            made.succeeds)

  -- A run to the state `present` that succeeds where the file is missing, or forced, leaves the
  -- dump of a key that was made with the wanted type and size, and reports the fingerprint of that
  -- key. The run is out of check mode, setting attributes leaves the content of a file, and the
  -- dump of a key is loaded as that key.
  pub main_creates :
      (files : Files) (r : Report)
      → p.check_mode ≡ false
      → p.state ≡ present
      → needed os crypto maker p files ≡ true
      → KeepsContent
      → ((key : ℕ) → crypto.load_privatekey (maker.dump_privatekey key) ≡ some key)
      → (main os crypto maker p files).0 ≡ ok r
      → (key : ℕ) × (maker.generate_key p.type p.size ≡ ok key)
        × Has (maker.dump_privatekey key) ((main os crypto maker p files).1)
        × (r.fingerprint ≡ fingerprint_of crypto key)
  main_creates files r wet asks wanted keeps loads h =
      let (done, dumped, left, there, made) = main_generates files r wet asks h in
      let (key, makes, new) = fresh files made.middle wanted made.made in
      let content : made.read.file.content ≡ maker.dump_privatekey key =
        (let here = ap (λ fs. file_at fs p.path) new ∙ file_at-with_file p.path _ files in
          ap (λ file. file.content)
            (some_unique (file_at made.middle p.path) here made.read.there)) in
      let same : made.read.key ≡ key =
        some_unique (crypto.load_privatekey made.read.file.content)
          (ap crypto.load_privatekey content ∙ loads key) made.read.loads in
      (
        key,
        makes,
        (
          (os.set_fs_attributes p.path made.read.file).0,
          ap (λ fs. file_at fs p.path) (left ∙ ap (λ x. x.1) made.outcome)
              ∙ file_at-with_file p.path _ made.middle,
          keeps made.read.file ∙ content,
        ),
        fingerprint_dumped files r done dumped made
            ∙ made.read.gives
            ∙ ap (fingerprint_of crypto) same,
      )

  settled :
      (files middle : Files) (fingerprint : List (Text × Text))
      → p.force ≡ false
      → KeepsContent
      → Settles
      → (read : Read crypto p.path middle fingerprint)
      → files ≡ with_file p.path (os.set_fs_attributes p.path read.file).0 middle
      → (generate os crypto maker p files).0 ≡ ok (false, fingerprint)
  settled files middle fingerprint gentle keeps settles read h =
      let file : File = (os.set_fs_attributes p.path read.file).0 in
      let there : file_at files p.path ≡ some file =
        ap (λ fs. file_at fs p.path) h ∙ file_at-with_file p.path file middle in
      let idle : needed os crypto maker p files ≡ false = unfold exists in ground arith in
      let reads : get_fingerprint crypto p.path files ≡ (ok fingerprint, files) =
        get_fingerprint_of crypto p.path files file read.key there
          (ap crypto.load_privatekey (keeps read.file) ∙ read.loads)
        ∙ ap (λ x. (ok x, files)) (sym read.gives) in
      ap (λ x. x.0)
        (generated_from os crypto maker p files files fingerprint file false
          (create_if_needed_kept os crypto maker p files idle) reads there)
      ∙ ap (λ b. ok (b, fingerprint)) (settles read.file)

  pub main_run :
      (files : Files)
      → os.isdir (dirname p.path) ≡ true
      → p.state ≡ present
      → p.check_mode ≡ false
      → main os crypto maker p files
        ≡ (generate os crypto maker p >>= λ done. pure (dump os crypto maker p done.0 done.1)) files
  main_run files there asks wet =
      let here : main os crypto maker p files ≡ present_branch os crypto maker p files =
        (unfold main in rw there (ap (λ w. branch os crypto maker p w files) asks)) in
      here ∙ present_branch_wet os crypto maker p files wet

  -- After a run to the state `present` that succeeds, the next one succeeds too, reports no change
  -- and the same fingerprint. The run is out of check mode and not forced; setting attributes
  -- leaves the content of a file, and attributes that were set are as they are wanted.
  pub main_again :
      (files : Files) (r : Report)
      → p.check_mode ≡ false
      → p.state ≡ present
      → p.force ≡ false
      → KeepsContent
      → Settles
      → (main os crypto maker p files).0 ≡ ok r
      → (main os crypto maker p ((main os crypto maker p files).1)).0
        ≡ ok (dump os crypto maker p false r.fingerprint)
  main_again files r wet asks gentle keeps settles h =
      let (done, dumped, left, there, made) = main_generates files r wet asks h in
      let second =
        settled (main os crypto maker p files).1 made.middle made.fingerprint gentle keeps settles
          made.read (left ∙ ap (λ x. x.1) made.outcome) in
      ap (λ x. x.0) (main_run (main os crypto maker p files).1 there asks wet)
      ∙ dump_of (generate os crypto maker p) (λ done. dump os crypto maker p done.0 done.1) _ _
          second
      ∙ ap (λ f. ok (dump os crypto maker p false f))
          (sym (fingerprint_dumped files r done dumped made))
    where
      dump_of :
          (m : Exec Failure Files (Bool × List (Text × Text)))
          (f : Bool × List (Text × Text) → Report) (s : Files) (a : Bool × List (Text × Text))
          → (m s).0 ≡ ok a
          → ((m >>= λ x. pure (f x)) s).0 ≡ ok (f a)
      dump_of m f s a e = rw e refl
