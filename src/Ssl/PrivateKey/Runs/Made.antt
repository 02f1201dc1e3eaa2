-- ===== src/Ssl/PrivateKey/Runs/Made.antt =====
-- A run that makes a key.
use freeipa_cloud_prov.Prelude.{ℕ, ◌≡◌, refl, true, false, some}
use freeipa_cloud_prov.Result.{ok}
use freeipa_cloud_prov.Ssl.Files.{
  File, Files, Os, file_at, with_file, mode_of, file_at-with_file, dirname,
}
use freeipa_cloud_prov.Ssl.Fingerprint.{Crypto, fingerprint_of}
use freeipa_cloud_prov.Ssl.Fingerprint.Reads.{get_fingerprint_of}
use freeipa_cloud_prov.Ssl.PrivateKey.{
  present, KeyMaker, Params, key_mode, write_key, create, create_if_needed, generate, dump, main,
}
use freeipa_cloud_prov.Ssl.PrivateKey.Runs.{needed, generated_from}
use freeipa_cloud_prov.Ssl.PrivateKey.Runs.Again.{main_run}

module _ (os : Os) (crypto : Crypto) (maker : KeyMaker) (p : Params) where
  -- The file that a key is written to: a file that was there keeps its mode.
  abbrev pub key_file : Files → ℕ → File
  key_file files key = record {
    content = maker.dump_privatekey key;
    mode = mode_of os (key_mode os crypto maker p) (file_at files p.path);
  }

  create_makes :
      (files : Files) (key : ℕ)
      → maker.generate_key p.type p.size ≡ ok key
      → os.can_write p.path ≡ true
      → create os crypto maker p files ≡ (ok tt, with_file p.path (key_file files key) files)
  unfolding create write_key
  create_makes files key makes can = rw (create, makes, can) refl

  create_if_needed_makes :
      (files : Files) (key : ℕ)
      → needed os crypto maker p files ≡ true
      → maker.generate_key p.type p.size ≡ ok key
      → os.can_write p.path ≡ true
      → create_if_needed os crypto maker p files
        ≡ (ok true, with_file p.path (key_file files key) files)
  unfolding create_if_needed
  create_if_needed_makes files key wanted makes can =
      rw (wanted, create_makes files key makes can) refl

  generate_makes :
      (files : Files) (key : ℕ)
      → needed os crypto maker p files ≡ true
      → maker.generate_key p.type p.size ≡ ok key
      → os.can_write p.path ≡ true
      → crypto.load_privatekey (maker.dump_privatekey key) ≡ some key
      → generate os crypto maker p files ≡ (
        ok (true, fingerprint_of crypto key),
        with_file p.path
            (os.set_fs_attributes p.path (key_file files key)).0
            (with_file p.path (key_file files key) files),
      )
  generate_makes files key wanted makes can loads =
      let file : File = key_file files key in
      let middle : Files = with_file p.path file files in
      let there : file_at middle p.path ≡ some file = file_at-with_file p.path file files in
      generated_from os crypto maker p files middle (fingerprint_of crypto key) file true
        (create_if_needed_makes files key wanted makes can)
        (get_fingerprint_of crypto p.path middle file key there loads) there

  -- Where the file is missing, or forced, a run to the state `present` succeeds with a change and
  -- the fingerprint of the key that is made, and leaves the dump of that key at the path, with the
  -- attributes set. The run is out of check mode, the directory is there, the key can be made,
  -- written, and loaded from its dump.
  pub main_makes :
      (files : Files) (key : ℕ)
      → os.isdir (dirname p.path) ≡ true
      → p.check_mode ≡ false
      → p.state ≡ present
      → needed os crypto maker p files ≡ true
      → maker.generate_key p.type p.size ≡ ok key
      → os.can_write p.path ≡ true
      → crypto.load_privatekey (maker.dump_privatekey key) ≡ some key
      → ((main os crypto maker p files).0
          ≡ ok (dump os crypto maker p true (fingerprint_of crypto key)))
        × (file_at (main os crypto maker p files).1 p.path
            ≡ some (os.set_fs_attributes p.path (key_file files key)).0)
  main_makes files key there wet asks wanted makes can loads =
      let whole = generate_makes files key wanted makes can loads in
      rw (main_run os crypto maker p files there asks wet, whole)
        (refl, file_at-with_file p.path _ (with_file p.path (key_file files key) files))
