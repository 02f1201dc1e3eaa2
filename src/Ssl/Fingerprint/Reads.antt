-- ===== src/Ssl/Fingerprint/Reads.antt =====
-- A fingerprint that is given is that of the key in the file.
use freeipa_cloud_prov.Prelude.{◌≡◌, inl, inr, Option-cases, arith, some, List, ℕ}
use freeipa_cloud_prov.Prelude.Texts.{Text}
use freeipa_cloud_prov.Result.{ok, err_or_ok, ok_unique}
use freeipa_cloud_prov.Ssl.Files.{crypto_error, io_error, File, Files, read_file, file_at}
use freeipa_cloud_prov.Ssl.Fingerprint.{Crypto, fingerprint_of, get_fingerprint}

module _ (crypto : Crypto) (path : Text) where
  -- The file and the key that a fingerprint is taken of.
  pub record Read (files : Files) (fingerprint : List (Text × Text)) : Type 0 where
    pub file : File
    pub key : ℕ
    pub there : file_at files path ≡ some file
    pub loads : crypto.load_privatekey file.content ≡ some key
    pub gives : fingerprint ≡ fingerprint_of crypto key

  pub get_fingerprint-same : (files : Files) → (get_fingerprint crypto path files).1 ≡ files
  unfolding get_fingerprint read_file
  get_fingerprint-same files = ground arith

  -- The key is the one that the content is loaded as.
  found_key :
      (files : Files) (fingerprint : List (Text × Text)) (file : File)
      → file_at files path ≡ some file
      → (get_fingerprint crypto path files).0 ≡ ok fingerprint
      → Read files fingerprint
  unfolding get_fingerprint read_file
  found_key files fingerprint file there h =
      elim (Option-cases (crypto.load_privatekey file.content)) [
        | inl fails ↦
            err_or_ok (get_fingerprint crypto path files).0 {e = crypto_error} (ground arith) h
        | inr (key, loads) ↦ record {
          file = file;
          key = key;
          there = there;
          loads = loads;
          gives = ok_unique (get_fingerprint crypto path files).0 (ground arith) h;
        }
      ]

  -- A fingerprint that is given is that of the key that the file is loaded as.
  pub get_fingerprint_ok :
      (files : Files) (fingerprint : List (Text × Text))
      → (get_fingerprint crypto path files).0 ≡ ok fingerprint
      → Read files fingerprint
  unfolding get_fingerprint read_file
  get_fingerprint_ok files fingerprint h = elim (Option-cases (file_at files path)) [
    | inl missing ↦ err_or_ok (get_fingerprint crypto path files).0 {e = io_error} (ground arith) h
    | inr (file, there) ↦ found_key files fingerprint file there h
  ]

  pub get_fingerprint_of :
      (files : Files) (file : File) (key : ℕ)
      → file_at files path ≡ some file
      → crypto.load_privatekey file.content ≡ some key
      → get_fingerprint crypto path files ≡ (ok (fingerprint_of crypto key), files)
  unfolding get_fingerprint read_file
  get_fingerprint_of files file key there loads = ground arith
