-- ===== src/Tests/Keys.antt =====
-- The theorems on the keys and the requests, applied to concrete files.
use freeipa_cloud_prov.Prelude.{
  arith, ℕ, ◌≡◌, refl, Bool, true, false, not, Option, none, some, List, [], ◌∷◌, eqb,
}
use freeipa_cloud_prov.Prelude.Texts.{Text, codes, same_text, join}
use freeipa_cloud_prov.Prelude.Numerals.{ℤ, pos}
use freeipa_cloud_prov.Result.{Result, ok, err}
use freeipa_cloud_prov.Ssl.Files.{
  File, Files, Os, file_at, dirname, exists, read_file, set_fs_attributes_if_different, type_error,
}
use freeipa_cloud_prov.Ssl.Fingerprint.{Crypto, get_fingerprint, pairs}
use freeipa_cloud_prov.Ssl.PrivateKey.{
  State, present, absent, KeyType, rsa, dsa, KeyMaker, Report, dump, create, create_if_needed,
  write_key, generate, present_branch,
}
use freeipa_cloud_prov.Ssl.PrivateKey.Runs.Predicted.{checking, main_checked}
use freeipa_cloud_prov.Ssl.PrivateKey.Runs.Again.{Has, main_again}
use freeipa_cloud_prov.Ssl.PrivateKey.Runs.Made.{main_makes}
use freeipa_cloud_prov.Ssl.PrivateKey.Runs.Kept.{main_keeps}
use freeipa_cloud_prov.Ssl.PrivateKey as PrivateKey
use freeipa_cloud_prov.Ssl.Csr as Csr
use freeipa_cloud_prov.Ssl.Csr.Runs as CsrRuns

-- One directory, in which all can be written; attributes are left or set to the mode 0600.
abbrev os_with : (Text → File → File × Bool) → Os
os_with set = record {
  isdir = λ path. same_text path (codes "/etc/ssl");
  can_write = λ path. true;
  can_remove = λ path. true;
  remove_error = λ path. [];
  write_error = λ path. [];
  masked = λ mode. mode;
  set_fs_attributes = set;
  directory_differs = λ path. false;
}

abbrev leaving : Os
leaving = os_with (λ path file. (file, false))

abbrev setting : Os
setting = os_with (λ path file. (record file { mode = 384 }, not (eqb file.mode 384)))

-- A key is dumped as one character.
abbrev load : Text → Option ℕ
load (c ∷ []) = some c
load (c ∷ d ∷ cs) = none
load [] = none

abbrev crypto : Crypto
crypto = record {
  load_privatekey = load;
  dump_publickey = some (λ key. key ∷ []);
  algorithms = (codes "md5", λ text. codes "8475") ∷ [];
}

abbrev make : KeyType → ℤ → Result Text ℕ
make rsa size = ok 7
make dsa size = ok 8

abbrev maker : KeyMaker
maker = record { generate_key = make; dump_privatekey = λ key. key ∷ [] }

abbrev key_task : PrivateKey.Params
key_task = record {
  size = pos 4096;
  state = present;
  type = rsa;
  force = false;
  path = codes "/etc/ssl/a.pem";
  mode = 0;
  check_mode = false;
}

abbrev fingerprint : List (Text × Text)
fingerprint = (codes "md5", codes "84:75") ∷ []

-- A key with the mode that a task asks for by default.
abbrev safe_files : Files
safe_files = (codes "/etc/ssl/a.pem", record { content = 5 ∷ []; mode = 384 }) ∷ []

abbrev kept : Report
kept = dump setting crypto maker key_task false fingerprint

kept_ok : (PrivateKey.main setting crypto maker key_task safe_files).0 ≡ ok kept
unfolding PrivateKey.main dirname present_branch generate create_if_needed exists create write_key
    get_fingerprint read_file set_fs_attributes_if_different pairs join
kept_ok = refl

main_checked_example :
    PrivateKey.main setting crypto maker (checking setting crypto maker key_task) safe_files
    ≡ (ok (dump setting crypto maker key_task kept.changed []), safe_files)
main_checked_example =
    main_checked setting crypto maker key_task safe_files kept refl
      (λ asks file there. ground (arith, there)) kept_ok

abbrev set_report : Report
set_report = dump setting crypto maker key_task true fingerprint

set_ok : (PrivateKey.main setting crypto maker key_task []).0 ≡ ok set_report
unfolding PrivateKey.main dirname present_branch generate create_if_needed exists create write_key
    get_fingerprint read_file set_fs_attributes_if_different pairs join
set_ok = refl

main_makes_example :
    ((PrivateKey.main setting crypto maker key_task []).0 ≡ ok set_report)
    × (file_at (PrivateKey.main setting crypto maker key_task []).1 key_task.path
        ≡ some (record { content = 7 ∷ []; mode = 384 }))
unfolding dirname exists pairs join
main_makes_example =
    main_makes setting crypto maker key_task [] 7 refl refl refl refl refl refl refl

main_again_example :
    (PrivateKey.main setting crypto maker key_task
      ((PrivateKey.main setting crypto maker key_task []).1)).0
    ≡ ok (dump setting crypto maker key_task false set_report.fingerprint)
main_again_example =
    main_again setting crypto maker key_task [] set_report refl refl refl (λ file. refl)
      (λ file. refl) set_ok

abbrev old_key : File
old_key = record { content = 5 ∷ []; mode = 420 }

abbrev old_files : Files
old_files = (codes "/etc/ssl/a.pem", old_key) ∷ []

main_keeps_example :
    Has setting crypto maker key_task
      (5 ∷ [])
      ((PrivateKey.main setting crypto maker key_task old_files).1)
main_keeps_example =
    main_keeps setting crypto maker key_task old_files (5 ∷ []) refl refl (λ file. refl)
      (old_key, refl, refl)

-- Every entry and every name is accepted.
abbrev signer : Csr.Signer
signer = record {
  accepts_entry = λ e. true;
  accepts_alt_name = λ names. true;
  load_privatekey = load;
  signed = λ request digest. some (codes "CSR");
}

abbrev csr_task : Option Text → Csr.Params
csr_task key_path = record {
  state = present;
  digest = codes "sha256";
  privatekey_path = key_path;
  version = pos 3;
  force = false;
  subject_alt_name = none;
  path = codes "/etc/ssl/a.csr";
  country_name = none;
  state_or_province_name = none;
  locality_name = none;
  organization_name = none;
  organizational_unit_name = none;
  common_name = some (codes "www.example.com");
  email_address = none;
  check_mode = false;
}

abbrev request_task : Csr.Params
request_task = csr_task (some (codes "/etc/ssl/a.pem"))

csr_ok : (Csr.main leaving signer request_task old_files).0 ≡ ok (Csr.dump request_task true)
unfolding Csr.main dirname Csr.present_branch Csr.generate Csr.create_if_needed exists Csr.create
    Csr.read_key Csr.signed_text Csr.write_csr Csr.subject_of Csr.alt_name_of read_file
    set_fs_attributes_if_different
csr_ok = refl

check_mode_agrees_example :
    Csr.main leaving signer (CsrRuns.checking leaving signer request_task) old_files
    ≡ (ok (Csr.dump request_task true), old_files)
check_mode_agrees_example =
    CsrRuns.check_mode_agrees leaving signer request_task old_files (Csr.dump request_task true)
      refl (λ asks. ((λ file there. refl), λ is_dir. refl)) csr_ok

main_no_key_example : Csr.main leaving signer (csr_task none) [] ≡ (err type_error, [])
unfolding dirname exists Csr.subject_of Csr.alt_name_of
main_no_key_example =
    CsrRuns.main_no_key leaving signer (csr_task none) [] refl refl refl refl refl refl refl refl
