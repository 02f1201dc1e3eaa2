-- ===== src/Ipa/Texts.antt =====
-- Texts that requests are made of: `"%s=%s" % (k, v)` and the sorting of such texts.
use freeipa_cloud_prov.Prelude.{
  ℕ, zero, suc, ◌+◌, ◌/◌, ◌%◌, String, ◌<>◌, Bool, true, false, List, [], ◌∷◌, ◌++◌, map,
  if◌then◌else◌, ltb, eqb,
}
use freeipa_cloud_prov.Prelude.Texts.{codes}
use freeipa_cloud_prov.Dict.{Dict}
use freeipa_cloud_prov.Ipa.Values.{ℤ, pos, negsuc, Atom, null, bool, int, str, wrapped, nested}

digit : ℕ → String
digit zero = "0"
digit (suc zero) = "1"
digit (suc (suc zero)) = "2"
digit (suc (suc (suc zero))) = "3"
digit (suc (suc (suc (suc zero)))) = "4"
digit (suc (suc (suc (suc (suc zero))))) = "5"
digit (suc (suc (suc (suc (suc (suc zero)))))) = "6"
digit (suc (suc (suc (suc (suc (suc (suc zero))))))) = "7"
digit (suc (suc (suc (suc (suc (suc (suc (suc zero)))))))) = "8"
digit _ = "9"

-- A number has at most as many digits as its successor.
decimal_on : ℕ → ℕ → String
decimal_on zero n = ""
decimal_on (suc fuel) n =
    let more = decimal_on fuel (n / 10) <> digit (n % 10) in if ltb n 10 then digit n else more

unfoldable pub decimal : ℕ → String
unfolding decimal_on digit
decimal n = decimal_on (suc n) n

text_of_int : ℤ → String
text_of_int (pos n) = decimal n
text_of_int (negsuc n) = "-" <> decimal (n + 1)

texts_text : List String → String
texts_text [] = ""
texts_text (s ∷ []) = "u'" <> s <> "'"
texts_text (s ∷ ss) = "u'" <> s <> "', " <> texts_text ss

entries_text : List (String × List String) → String
unfolding texts_text
entries_text [] = ""
entries_text ((k, vs) ∷ []) = "u'" <> k <> "': [" <> texts_text vs <> "]"
entries_text ((k, vs) ∷ t) = "u'" <> k <> "': [" <> texts_text vs <> "], " <> entries_text t

-- `"%s" % a`
unfoldable pub text_of : Atom → String
unfolding text_of_int decimal entries_text
text_of null = "None"
text_of (bool true) = "True"
text_of (bool false) = "False"
text_of (int n) = text_of_int n
text_of (str s) = s
text_of (wrapped k s) = "{u'" <> k <> "': u'" <> s <> "'}"
text_of (nested t) = "{" <> entries_text t <> "}"

-- `"key=val1"`, `"key=val2"`, … of each entry
unfoldable pub attr_texts : Dict (List Atom) → List String
attr_texts [] = []
attr_texts ((k, vs) ∷ t) = map (λ v. k <> "=" <> text_of v) vs ++ attr_texts t

codes_le : List ℕ → List ℕ → Bool
codes_le [] ys = true
codes_le (x ∷ xs) [] = false
codes_le (x ∷ xs) (y ∷ ys) = if ltb x y then true else if eqb x y then codes_le xs ys else false

unfoldable pub text_le : String → String → Bool
unfolding codes_le
text_le s t = codes_le (codes s) (codes t)

unfoldable pub insert_text : String → List String → List String
insert_text s [] = s ∷ []
insert_text s (t ∷ ts) = if text_le s t then s ∷ t ∷ ts else t ∷ insert_text s ts

-- `list.sort`, of texts
unfoldable pub sort_texts : List String → List String
unfolding insert_text text_le
sort_texts [] = []
sort_texts (s ∷ ts) = insert_text s (sort_texts ts)
