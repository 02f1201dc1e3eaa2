-- ===== src/Ssl/Fingerprint.antt =====
-- `get_fingerprint`. pyOpenSSL and hashlib are parameters.
pub mod RoundTrip
pub mod Reads
use freeipa_cloud_prov.Prelude.{ℕ, Bool, Option, none, some, List, [], ◌∷◌, ◌++◌}
use freeipa_cloud_prov.Prelude.Texts.{Text, join}
use freeipa_cloud_prov.Exec.{pure, raise, ◌>>=◌}
use freeipa_cloud_prov.Ssl.Files.{Files, M, read_file, crypto_error}

-- A key of pyOpenSSL is a number, which names it. `dump_publickey` is `none` for the versions that
-- do not have it. `algorithms` has the names of `hashlib.algorithms` and their hexadecimal digests.
pub record Crypto : Type 0 where
  pub load_privatekey : Text → Option ℕ
  pub dump_publickey : Option (ℕ → Text)
  pub algorithms : List (Text × (Text → Text))

-- `[text[i:i + 2] for i in range(0, len(text), 2)]`
unfoldable pub pairs : Text → List Text
pairs [] = []
pairs (c ∷ []) = (c ∷ []) ∷ []
pairs (c ∷ d ∷ cs) = (c ∷ d ∷ []) ∷ pairs cs

abbrev pub colon : Text
colon = b':' ∷ []

abbrev pub digests : Text → List (Text × (Text → Text)) → List (Text × Text)
digests publickey [] = []
digests publickey ((algo, hexdigest) ∷ algos) =
    (algo, join colon (pairs (hexdigest publickey))) ∷ digests publickey algos

abbrev pub fingerprint_of : Crypto → ℕ → List (Text × Text)
fingerprint_of crypto key = elim crypto.dump_publickey [
  | none ↦ []
  | some dump ↦ digests (dump key) crypto.algorithms
]

unfoldable pub get_fingerprint : Crypto → Text → M (List (Text × Text))
get_fingerprint crypto path = do
  content ← read_file path
  elim (crypto.load_privatekey content) [
    | none ↦ raise crypto_error
    | some key ↦ pure (fingerprint_of crypto key)
  ]
