-- ===== src/Ssl/Csr.antt =====
-- The module openssl_csr. What pyOpenSSL accepts and signs is a parameter.
pub mod Runs
use freeipa_cloud_prov.Prelude.{
  ℕ, ◌≡◌, Bool, true, false, not, ◌&&◌, ◌||◌, Option, none, some, List, [], ◌∷◌, ◌++◌,
  if◌then◌else◌, ltb,
}
use freeipa_cloud_prov.Prelude.Lists.{is_empty}
use freeipa_cloud_prov.Prelude.Texts.{Text, codes}
use freeipa_cloud_prov.Prelude.Numerals.{ℤ}
use freeipa_cloud_prov.Result.{ok, err}
use freeipa_cloud_prov.Exec.{pure, raise, gets, ◌>>=◌, ◌>>◌}
use freeipa_cloud_prov.Ssl.Files.{
  fail_json, crypto_error, value_error, type_error, File, Files, M, Os, exists, dirname, written,
  file_at, read_file, set_fs_attributes_if_different, remove_file,
}
use freeipa_cloud_prov.Ssl.PrivateKey.{State, present, absent}

-- `module.params`. A name that is not given is `none`.
pub record Params : Type 0 where
  pub state : State
  pub digest : Text
  pub privatekey_path : Option Text
  pub version : ℤ
  pub force : Bool
  pub subject_alt_name : Option Text
  pub path : Text
  pub country_name : Option Text
  pub state_or_province_name : Option Text
  pub locality_name : Option Text
  pub organization_name : Option Text
  pub organizational_unit_name : Option Text
  pub common_name : Option Text
  pub email_address : Option Text
  pub check_mode : Bool

abbrev pub Subject : Type 0
Subject = List (Text × Text)

-- What is signed: `set_version`, the subject, the extension and the key.
pub record Request : Type 0 where
  pub version : ℤ
  pub subject : Subject
  pub alt_name : Text
  pub key : ℕ

-- pyOpenSSL: whether an entry can be set, whether an alternative name can be read, the key in a
-- text, and the signed request as a text. What is refused raises `crypto.Error`.
pub record Signer : Type 0 where
  pub accepts_entry : Text × Text → Bool
  pub accepts_alt_name : Text → Bool
  pub load_privatekey : Text → Option ℕ
  pub signed : Request → Text → Option Text

-- One entry of `dict((k, v) for k, v in self.subject.items() if v)`
abbrev pub entry : Text → Option Text → Subject
entry key none = []
entry key (some value) = if is_empty value then [] else (key, value) ∷ []

-- `self.subject`, in the order of the source
unfoldable pub subject_of : Params → Subject
subject_of p =
    entry (codes "C") p.country_name
    ++ entry (codes "ST") p.state_or_province_name
    ++ entry (codes "L") p.locality_name
    ++ entry (codes "O") p.organization_name
    ++ entry (codes "OU") p.organizational_unit_name
    ++ entry (codes "CN") p.common_name
    ++ entry (codes "emailAddress") p.email_address

-- `'%s' % value`
abbrev pub shown : Option Text → Text
shown none = codes "None"
shown (some value) = value

-- `self.subjectAltName`
unfoldable pub alt_name_of : Params → Text
alt_name_of p = elim p.subject_alt_name [
  | none ↦ codes "DNS:" ++ shown p.common_name
  | some names ↦ names
]

-- `text.encode('ascii')` of a byte string
abbrev pub is_ascii : Text → Bool
is_ascii [] = true
is_ascii (c ∷ cs) = ltb c 128 && is_ascii cs

-- `setattr(subject, key, value)` for each entry
abbrev pub all_accepted : Signer → Subject → Bool
all_accepted signer [] = true
all_accepted signer (e ∷ es) = signer.accepts_entry e && all_accepted signer es

pub record Report : Type 0 where
  pub csr : Text
  pub subject : Subject
  pub subject_alt_name : Text
  pub changed : Bool

abbrev pub dump : Params → Bool → Report
dump p changed = record {
  csr = p.path;
  subject = subject_of p;
  subject_alt_name = alt_name_of p;
  changed = changed;
}

module _ (os : Os) (signer : Signer) (p : Params) where
  -- `open(self.privatekey_path).read()`; there is no file name in `None`.
  unfoldable pub read_key : M Text
  read_key = elim p.privatekey_path [ none ↦ raise type_error | some path ↦ read_file path ]

  -- The file is opened like any other new one; both kinds of error are caught.
  unfoldable pub write_csr : Text → M (Unit {0})
  write_csr content files =
      if os.can_write p.path
      then (ok tt, written os p.path 438 content files)
      else (err (fail_json (os.write_error p.path)), files)

  abbrev pub request_with : ℕ → Request
  request_with key = record {
    version = p.version;
    subject = subject_of p;
    alt_name = alt_name_of p;
    key = key;
  }

  unfoldable pub signed_text : Text → M Text
  signed_text content = elim (signer.load_privatekey content) [
    | none ↦ raise crypto_error
    | some key ↦ elim (signer.signed (request_with key) p.digest) [
      | none ↦ raise crypto_error
      | some text ↦ pure text
    ]
  ]

  unfoldable pub create : M (Unit {0})
  create = do
    if all_accepted signer (subject_of p) then pure tt else raise crypto_error
    if is_ascii (alt_name_of p) then pure tt else raise value_error
    if signer.accepts_alt_name (alt_name_of p) then pure tt else raise crypto_error
    content ← read_key
    text ← signed_text content
    write_csr text

  unfoldable pub create_if_needed : M Bool
  create_if_needed files =
      if not (exists os p.path files) || p.force
      then (create >> pure true) files
      else (ok false, files)

  unfoldable pub generate : M Bool
  generate = do
    made ← create_if_needed
    differs ← set_fs_attributes_if_different os p.path
    pure (made || differs)

  unfoldable pub present_branch : M Report
  present_branch files =
      if p.check_mode
      then (ok (dump p (p.force || not (exists os p.path files))), files)
      else (generate >>= λ changed. pure (dump p changed)) files

  unfoldable pub absent_branch : M Report
  absent_branch files =
      if p.check_mode
      then (ok (dump p (exists os p.path files)), files)
      else (remove_file os p.path >>= λ removed. pure (dump p removed)) files

  abbrev pub branch : State → M Report
  branch present = present_branch
  branch absent = absent_branch

  -- `main`, of a system with pyOpenSSL
  unfoldable pub main : M Report
  main =
      if os.isdir (dirname p.path)
      then branch p.state
      else raise (fail_json (codes "The directory " ++ (p.path ++ codes " does not exist")))
