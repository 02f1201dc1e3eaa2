-- ===== src/Ssl/Files.antt =====
-- The file system, as far as the modules use it.
use freeipa_cloud_prov.Prelude.{
  ℕ, ◌≡◌, refl, Bool, true, false, not, ◌&&◌, ◌||◌, Option, none, some, List, [], ◌∷◌, arith,
  if◌then◌else◌, eqb,
}
use freeipa_cloud_prov.Prelude.Lists.{is_empty}
use freeipa_cloud_prov.Prelude.Texts.{Text, same_text, rstrip}
use freeipa_cloud_prov.Prelude.SameText.{same_text_refl}
use freeipa_cloud_prov.Dict.{is_some}
use freeipa_cloud_prov.Result.{Result, ok, err}
use freeipa_cloud_prov.Exec.{Exec}

-- What ends a module: a call of `fail_json`, or an exception that nothing catches.
pub data Failure : Type 0 where
  fail_json : Text → Failure
  os_error : Failure
  io_error : Failure
  crypto_error : Failure
  value_error : Failure
  type_error : Failure

pub record File : Type 0 where
  pub content : Text
  pub mode : ℕ

-- The regular files, by their paths.
abbrev pub Files : Type 0
Files = List (Text × File)

abbrev pub M : Type 0 → Type 0
M A = Exec Failure Files A

-- The operating system's answers: which paths are directories, which files can be written and
-- removed, the texts of the errors else, the mode that the mask leaves of one that is asked for; and Ansible's
-- `set_fs_attributes_if_different`, which gives the file as it is then and whether it
-- changed it, and of a directory just this.
pub record Os : Type 0 where
  pub isdir : Text → Bool
  pub can_write : Text → Bool
  pub can_remove : Text → Bool
  pub remove_error : Text → Text
  pub write_error : Text → Text
  pub masked : ℕ → ℕ
  pub set_fs_attributes : Text → File → File × Bool
  pub directory_differs : Text → Bool

abbrev pub file_at : Files → Text → Option File
file_at [] path = none
file_at ((name, file) ∷ files) path =
    let rest = file_at files path in if same_text name path then some file else rest

abbrev pub without_file : Text → Files → Files
without_file path [] = []
without_file path ((name, file) ∷ files) =
    let rest = without_file path files in if same_text name path then rest else (name, file) ∷ rest

abbrev pub with_file : Text → File → Files → Files
with_file path file files = (path, file) ∷ without_file path files

-- `os.path.exists(path)`
unfoldable pub exists : Os → Text → Files → Bool
exists os path files = os.isdir path || is_some (file_at files path)

-- What stands up to the last slash, with it.
abbrev pub up_to_slash : Text → Text
up_to_slash [] = []
up_to_slash (c ∷ cs) =
    let rest = up_to_slash cs in if is_empty rest && not (eqb c b'/') then [] else c ∷ rest

abbrev pub is_slash : ℕ → Bool
is_slash c = eqb c b'/'

-- `os.path.dirname(path)`: slashes behind the directory go, unless there is nothing else.
unfoldable pub dirname : Text → Text
dirname path =
    let head = up_to_slash path in
    let stripped = rstrip is_slash head in if is_empty stripped then head else stripped

-- The mode of a file that is written: one that exists keeps its own.
abbrev pub mode_of : Os → ℕ → Option File → ℕ
mode_of os mode none = os.masked mode
mode_of os mode (some file) = file.mode

abbrev pub written : Os → Text → ℕ → Text → Files → Files
written os path mode content files =
    with_file path (record { content = content; mode = mode_of os mode (file_at files path) }) files

-- `open(path).read()`
unfoldable pub read_file : Text → M Text
read_file path files = elim (file_at files path) [
  | none ↦ (err io_error, files)
  | some file ↦ (ok file.content, files)
]

abbrev pub with_attributes : Os → Text → Files → Option File → Result Failure Bool × Files
with_attributes os path files none = (ok (os.isdir path && os.directory_differs path), files)
with_attributes os path files (some file) =
    let (file', differs) = os.set_fs_attributes path file in
    (ok differs, with_file path file' files)

-- `module.set_fs_attributes_if_different(file_args, False)`
unfoldable pub set_fs_attributes_if_different : Os → Text → M Bool
set_fs_attributes_if_different os path files = with_attributes os path files (file_at files path)

-- `remove` of both classes: whether there was a file. An error other than `ENOENT` is raised, and
-- `main` makes it a call of `fail_json`.
unfoldable pub remove_file : Os → Text → M Bool
unfolding exists
remove_file os path files =
    if not (exists os path files)
    then (ok false, files)
    else if os.isdir path || not (os.can_remove path)
    then (err (fail_json (os.remove_error path)), files)
    else (ok true, without_file path files)

pub file_at-without_file :
    (path : Text) (files : Files) → file_at (without_file path files) path ≡ none
file_at-without_file path [] = refl
file_at-without_file path (_ ∷ files) = ground (arith, file_at-without_file path files)

pub file_at-with_file :
    (path : Text) (file : File) (files : Files)
    → file_at (with_file path file files) path ≡ some file
file_at-with_file path file files = rw (same_text_refl path) refl
