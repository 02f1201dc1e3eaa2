-- ===== src/Ssl/PrivateKey/Runs/Kept.antt =====
-- A run that is not forced leaves the content of a key that is there.
use freeipa_cloud_prov.Prelude.{◌≡◌, sym, ◌∙◌, subst, arith, Bool, true, false, if◌then◌else◌}
use freeipa_cloud_prov.Prelude.Texts.{Text}
use freeipa_cloud_prov.Result.{Result, err}
use freeipa_cloud_prov.Exec.Preserves.{
  Preserves, Preserves-lift, Preserves-pure, Preserves-if, Preserves-bind,
}
use freeipa_cloud_prov.Ssl.Files.{
  Failure, Files, Os, exists, set_fs_attributes_if_different, file_at-with_file, dirname,
}
use freeipa_cloud_prov.Ssl.Fingerprint.{Crypto, get_fingerprint}
use freeipa_cloud_prov.Ssl.Fingerprint.Reads.{get_fingerprint-same}
use freeipa_cloud_prov.Ssl.PrivateKey.{
  present, KeyMaker, Params, Report, create_if_needed, generate, present_branch, branch, main,
}
use freeipa_cloud_prov.Ssl.PrivateKey.Runs.{needed, create_if_needed_kept, attributes_set}
use freeipa_cloud_prov.Ssl.PrivateKey.Runs.Again.{KeepsContent, Has}

module _ (os : Os) (crypto : Crypto) (maker : KeyMaker) (p : Params) where
  attributes_keep :
      (c : Text)
      → KeepsContent os crypto maker p
      → Preserves (Has os crypto maker p c) (set_fs_attributes_if_different os p.path)
  attributes_keep c keeps = record {
    after = λ files (file, there, content). rw (attributes_set os crypto maker p files file there) (
      (os.set_fs_attributes p.path file).0,
      file_at-with_file p.path _ files,
      keeps file ∙ content,
    );
  }

  create_keeps :
      (c : Text)
      → p.force ≡ false
      → Preserves (Has os crypto maker p c) (create_if_needed os crypto maker p)
  create_keeps c gentle = record {
    after = λ files (file, there, content).
        let idle : needed os crypto maker p files ≡ false = unfold exists in ground arith in
        rw (create_if_needed_kept os crypto maker p files idle) (file, there, content);
  }

  reading_keeps : (c : Text) → Preserves (Has os crypto maker p c) (get_fingerprint crypto p.path)
  reading_keeps c = record { after = λ files h. rw (get_fingerprint-same crypto p.path files) h }

  if_Has :
      (c : Text) (b : Bool) (x y : Result Failure Report × Files)
      → Has os crypto maker p c x.1
      → Has os crypto maker p c y.1
      → Has os crypto maker p c (if b then x else y).1
  if_Has c true x y h k = h
  if_Has c false x y h k = k

  present_keeps :
      (c : Text)
      → p.force ≡ false
      → KeepsContent os crypto maker p
      → Preserves (Has os crypto maker p c) (present_branch os crypto maker p)
  unfolding present_branch generate
  present_keeps c gentle keeps = record {
    after = λ files h. if_Has c p.check_mode _ _ h (
        (Preserves-bind
            (Preserves-bind (create_keeps c gentle) (λ made.
              Preserves-bind (reading_keeps c) (λ fingerprint.
                Preserves-bind (attributes_keep c keeps) (λ differs. Preserves-pure _))))
            (λ done. Preserves-pure _)).after
          files h);
  }

  -- A run to the state `present` that is not forced leaves the content of a file that is there,
  -- whether the run succeeds or not. Setting attributes leaves the content of a file.
  pub main_keeps :
      (files : Files) (content : Text)
      → p.state ≡ present
      → p.force ≡ false
      → KeepsContent os crypto maker p
      → Has os crypto maker p content files
      → Has os crypto maker p content ((main os crypto maker p files).1)
  unfolding main
  main_keeps files content asks gentle keeps h =
      (Preserves-if (os.isdir (dirname p.path))
          (subst (λ w. Preserves (Has os crypto maker p content) (branch os crypto maker p w))
            (sym asks) (present_keeps content gentle keeps))
          (Preserves-lift (err _))).after
        files h
