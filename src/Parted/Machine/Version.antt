-- ===== src/Parted/Machine/Version.antt =====
-- The version that the expression of `parted_version` finds.
use freeipa_cloud_prov.Prelude.{ℕ, ◌-◌, ◌≡◌, refl, ◌∙◌, ap, true, none, some, [], ◌∷◌, ◌++◌, arith}
use freeipa_cloud_prov.Prelude.Texts.{Text, codes}
use freeipa_cloud_prov.Prelude.Numerals.{is_digit}
use freeipa_cloud_prov.Parted.Units.{all_chars, span, digits_value}
use freeipa_cloud_prov.Parted.Machine.{
  minor_of, version_here, last_version, behind_name, match_version,
}

span-all_chars : (m : Text) → all_chars is_digit m ≡ true → span is_digit m ≡ (m, [])
unfolding span
span-all_chars [] h = refl
span-all_chars (c ∷ cs) h = ground (arith, span-all_chars cs)

version_here_digits : (m : Text) → all_chars is_digit m ≡ true → version_here m ≡ none
unfolding version_here
version_here_digits [] h = rw (span-all_chars [] h, version_here)
version_here_digits (c ∷ cs) h = rw (span-all_chars (c ∷ cs) h, version_here)

last_version_digits : (m : Text) → all_chars is_digit m ≡ true → last_version m ≡ none
unfolding last_version
last_version_digits [] h = refl
last_version_digits (c ∷ cs) h =
    ground (arith, last_version_digits cs, version_here_digits (c ∷ cs) h)

version_here_dot : (m : Text) → version_here (b'.' ∷ m) ≡ none
unfolding version_here span
version_here_dot m = ground arith

span_pair :
    (d : ℕ) (m : Text) → is_digit d ≡ true → span is_digit (d ∷ b'.' ∷ m) ≡ (d ∷ [], b'.' ∷ m)
unfolding span
span_pair d m digit = rw digit

minor_pair :
    (major c : ℕ) (m : Text)
    → all_chars is_digit (c ∷ m) ≡ true
    → minor_of major (b'.' ∷ c ∷ m) ≡ some (major, digits_value 0 (c ∷ m), 0)
minor_pair major c m h = rw (span-all_chars (c ∷ m) h, minor_of)

one_digit : (d : ℕ) → digits_value 0 (d ∷ []) ≡ d - b'0'
unfolding digits_value
one_digit d = omega arith

version_here_pair :
    (d c : ℕ) (m : Text)
    → is_digit d ≡ true
    → all_chars is_digit (c ∷ m) ≡ true
    → version_here (d ∷ b'.' ∷ c ∷ m) ≡ some (d - b'0', digits_value 0 (c ∷ m), 0)
unfolding version_here
version_here_pair d c m digit h =
    rw (span_pair d (c ∷ m) digit, version_here)
      (minor_pair (digits_value 0 (d ∷ [])) c m h
        ∙ ap (λ n. some (n, digits_value 0 (c ∷ m), 0)) (one_digit d))

last_version-append :
    (pre rest : Text) (v : ℕ × ℕ × ℕ)
    → last_version rest ≡ some v
    → last_version (pre ++ rest) ≡ some v
unfolding last_version
last_version-append [] rest v h = h
last_version-append (c ∷ pre) rest v h = rw (last_version-append pre rest v h)

-- Of a line that begins with `parted`, one character more, and ends with a digit, a dot and digits,
-- the major version is that one digit, whatever stands before it, the minor version the digits
-- behind the last dot, and the revision zero.
pub match_version_last :
    (x d c : ℕ) (pre m : Text)
    → is_digit d ≡ true
    → all_chars is_digit (c ∷ m) ≡ true
    → match_version (codes "parted" ++ (x ∷ (pre ++ (d ∷ b'.' ∷ c ∷ m))))
      ≡ some (d - b'0', digits_value 0 (c ∷ m), 0)
unfolding match_version behind_name
match_version_last x d c pre m digit h =
    last_version-append pre (d ∷ b'.' ∷ c ∷ m) (d - b'0', digits_value 0 (c ∷ m), 0)
      (unfold last_version in
        rw (
          last_version_digits (c ∷ m) h,
          version_here_dot (c ∷ m),
          version_here_pair d c m digit h,
        ))
