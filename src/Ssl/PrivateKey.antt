-- ===== src/Ssl/PrivateKey.antt =====
-- The module openssl_privatekey.
pub mod Runs
use freeipa_cloud_prov.Prelude.{
  ℕ, ◌≡◌, Bool, true, false, not, ◌&&◌, ◌||◌, Option, none, some, List, [], ◌∷◌, ◌++◌,
  if◌then◌else◌, eqb,
}
use freeipa_cloud_prov.Prelude.Texts.{Text, codes}
use freeipa_cloud_prov.Prelude.Numerals.{ℤ}
use freeipa_cloud_prov.Result.{Result, ok, err}
use freeipa_cloud_prov.Exec.{pure, raise, gets, ◌>>=◌, ◌>>◌}
use freeipa_cloud_prov.Ssl.Files.{
  fail_json, os_error, File, Files, M, Os, exists, dirname, mode_of, written, file_at,
  set_fs_attributes_if_different, remove_file,
}
use freeipa_cloud_prov.Ssl.Fingerprint.{Crypto, get_fingerprint}

pub data State : Type 0 where
  present absent : State

pub data KeyType : Type 0 where
  rsa dsa : KeyType

-- `module.params`; a mode that is not given is zero.
pub record Params : Type 0 where
  pub size : ℤ
  pub state : State
  pub type : KeyType
  pub force : Bool
  pub path : Text
  pub mode : ℕ
  pub check_mode : Bool

-- `generate_key` is an error where it raises a `TypeError` or a `ValueError` with this text.
pub record KeyMaker : Type 0 where
  pub generate_key : KeyType → ℤ → Result Text ℕ
  pub dump_privatekey : ℕ → Text

-- `dump`
pub record Report : Type 0 where
  pub size : ℤ
  pub type : KeyType
  pub filename : Text
  pub changed : Bool
  pub fingerprint : List (Text × Text)

module _ (os : Os) (crypto : Crypto) (maker : KeyMaker) (p : Params) where
  -- `if not module.params['mode']: module.params['mode'] = int('0600', 8)`
  abbrev pub key_mode : ℕ
  key_mode = if eqb p.mode 0 then 384 else p.mode

  -- `os.open`, `os.write` and `os.close`: what `os.open` raises is an `OSError`.
  unfoldable pub write_key : ℕ → M (Unit {0})
  write_key key files =
      if os.can_write p.path
      then (ok tt, written os p.path key_mode (maker.dump_privatekey key) files)
      else (err os_error, files)

  unfoldable pub create : M (Unit {0})
  create = elim (maker.generate_key p.type p.size) [
    | err text ↦ raise (fail_json text)
    | ok key ↦ write_key key
  ]

  -- Whether a key is made, which is done then.
  unfoldable pub create_if_needed : M Bool
  create_if_needed files =
      if not (exists os p.path files) || p.force
      then (create >> pure true) files
      else (ok false, files)

  unfoldable pub generate : M (Bool × List (Text × Text))
  generate = do
    made ← create_if_needed
    fingerprint ← get_fingerprint crypto p.path
    differs ← set_fs_attributes_if_different os p.path
    pure (made || differs, fingerprint)

  abbrev pub dump : Bool → List (Text × Text) → Report
  dump changed fingerprint = record {
    size = p.size;
    type = p.type;
    filename = p.path;
    changed = changed;
    fingerprint = fingerprint;
  }

  -- The branches of `main`, and the one for the check mode within.
  unfoldable pub present_branch : M Report
  present_branch files =
      if p.check_mode
      then (ok (dump (p.force || not (exists os p.path files)) []), files)
      else (generate >>= λ done. pure (dump done.0 done.1)) files

  unfoldable pub absent_branch : M Report
  absent_branch files =
      if p.check_mode
      then (ok (dump (exists os p.path files) []), files)
      else (remove_file os p.path >>= λ removed. pure (dump removed [])) files

  abbrev pub branch : State → M Report
  branch present = present_branch
  branch absent = absent_branch

  -- `main`, of a system with pyOpenSSL
  unfoldable pub main : M Report
  main =
      if os.isdir (dirname p.path)
      then branch p.state
      else raise (
          fail_json (
            codes "The directory "
            ++ (dirname p.path ++ codes " does not exist or the file is not a directory")))
