-- ===== src/Ssl/PrivateKey/Runs.antt =====
-- Runs of openssl_privatekey.
pub mod Predicted
pub mod Again
pub mod Kept
pub mod Made
use freeipa_cloud_prov.Prelude.{
  ℕ, ◌≡◌, ◌⊎◌, inl, inr, refl, sym, ◌∙◌, ap, arith, Bool, true, false, not, ◌&&◌, ◌||◌, Option,
  none, some, List, [], ◌∷◌, Bool-cases, if◌then◌else◌,
}
use freeipa_cloud_prov.Prelude.Texts.{Text}
use freeipa_cloud_prov.Result.{Result, ok, err, err_or_ok, ok_unique, Result-cases}
use freeipa_cloud_prov.Exec.{Exec, pure, raise, ◌>>=◌, ◌>>◌, bind_ok}
use freeipa_cloud_prov.Ssl.Files.{
  Failure, os_error, File, Files, Os, exists, file_at, with_file, written,
  set_fs_attributes_if_different,
}
use freeipa_cloud_prov.Ssl.Fingerprint.{Crypto, get_fingerprint, fingerprint_of}
use freeipa_cloud_prov.Ssl.Fingerprint.Reads.{Read, get_fingerprint-same, get_fingerprint_ok}
use freeipa_cloud_prov.Ssl.PrivateKey.{
  KeyMaker, Params, write_key, key_mode, create, create_if_needed, generate,
}

module _ (os : Os) (crypto : Crypto) (maker : KeyMaker) (p : Params) where
  -- Whether a key is wanted that is not there, or forced.
  abbrev pub needed : Files → Bool
  needed files = not (exists os p.path files) || p.force

  pub create_if_needed_ok :
      (files : Files) (made : Bool)
      → (create_if_needed os crypto maker p files).0 ≡ ok made
      → made ≡ needed files
  unfolding create_if_needed create write_key
  create_if_needed_ok files made h = ground arith

  pub create_if_needed_kept :
      (files : Files)
      → needed files ≡ false
      → create_if_needed os crypto maker p files ≡ (ok false, files)
  unfolding create_if_needed
  create_if_needed_kept files h = rw h refl

  -- What a run that generates did: the file that it read, and the answer on its attributes.
  pub record Generated (files : Files) (done : Bool × List (Text × Text)) : Type 0 where
    pub middle : Files
    pub fingerprint : List (Text × Text)
    pub made : create_if_needed os crypto maker p files ≡ (ok (needed files), middle)
    pub read : Read crypto p.path middle fingerprint
    pub succeeds : (generate os crypto maker p files).0 ≡ ok done
    pub outcome : generate os crypto maker p files ≡ (
      ok (needed files || (os.set_fs_attributes p.path read.file).1, fingerprint),
      with_file p.path (os.set_fs_attributes p.path read.file).0 middle,
    )

  attributes_set :
      (files : Files) (file : File)
      → file_at files p.path ≡ some file
      → set_fs_attributes_if_different os p.path files ≡ (
        ok (os.set_fs_attributes p.path file).1,
        with_file p.path (os.set_fs_attributes p.path file).0 files,
      )
  unfolding set_fs_attributes_if_different
  attributes_set files file there = rw there refl

  generated_from :
      (files middle : Files) (fingerprint : List (Text × Text)) (file : File) (made : Bool)
      → create_if_needed os crypto maker p files ≡ (ok made, middle)
      → get_fingerprint crypto p.path middle ≡ (ok fingerprint, middle)
      → file_at middle p.path ≡ some file
      → generate os crypto maker p files ≡ (
        ok (made || (os.set_fs_attributes p.path file).1, fingerprint),
        with_file p.path (os.set_fs_attributes p.path file).0 middle,
      )
  unfolding generate
  generated_from files middle fingerprint file made creates reads there =
      rw (creates, reads, attributes_set middle file there) refl

  pub generate_ok :
      (files : Files) (done : Bool × List (Text × Text))
      → (generate os crypto maker p files).0 ≡ ok done
      → Generated files done
  unfolding generate
  generate_ok files done h =
      let (made, hm, step) = bind_ok (create_if_needed os crypto maker p) _ files done h in
      let middle : Files = (create_if_needed os crypto maker p files).1 in
      let (fingerprint, hf, step') =
        bind_ok (get_fingerprint crypto p.path) _ middle done (rw step at h) in
      let read = get_fingerprint_ok crypto p.path middle fingerprint hf in
      let creates : create_if_needed os crypto maker p files ≡ (ok (needed files), middle) =
        ap (λ r. (r, middle)) (hm ∙ ap (λ b. ok b) (create_if_needed_ok files made hm)) in
      record {
        middle = middle;
        fingerprint = fingerprint;
        made = creates;
        read = read;
        succeeds = h;
        outcome =
            generated_from files middle fingerprint read.file (needed files) creates
              (ap (λ r. (r, (get_fingerprint crypto p.path middle).1)) hf
                ∙ ap (λ s. (ok fingerprint, s)) (get_fingerprint-same crypto p.path middle))
              read.there;
      }
