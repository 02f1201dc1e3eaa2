-- ===== src/Ipa/Classes/Words/Names.antt =====
-- The names that the expressions take out of principals, subjects and keys.
use Prim.Native.Char.{code}
use freeipa_cloud_prov.Prelude.{ℕ, String, ◌≡◌, refl, ap, ◌∙◌, false, some, arith, eqb}
use freeipa_cloud_prov.Ipa.Classes.Words.{
  after_prefix, before, behind, count_mark, principal_name, cn_before_o,
}

-- A text without a character.
abbrev pub Without : ℕ → String → Type 0
Without mark String.[] = Unit
Without mark (String.◌∷◌ c s) = (eqb (code c) mark ≡ false) × Without mark s

-- `s` with `t` behind it
abbrev pub joined : String → String → String
joined String.[] t = t
joined (String.◌∷◌ c s) t = String.◌∷◌ c (joined s t)

before-joined :
    (mark : ℕ) (s t : String)
    → Without mark s
    → before mark t ≡ String.[]
    → before mark (joined s t) ≡ s
unfolding before
before-joined mark String.[] t h hit = hit
before-joined mark (String.◌∷◌ a s) t (other, h) hit = ground (arith, before-joined mark s t h hit)

before-Without : (mark : ℕ) (s : String) → Without mark s → before mark s ≡ s
unfolding before
before-Without mark String.[] h = refl
before-Without mark (String.◌∷◌ a s) (other, h) = ground (arith, before-Without mark s h)

count_mark-Without : (mark : ℕ) (s : String) → Without mark s → count_mark mark s ≡ 0
unfolding count_mark
count_mark-Without mark String.[] h = refl
count_mark-Without mark (String.◌∷◌ a s) (other, h) = ground (arith, count_mark-Without mark s h)

count_mark-joined :
    (mark : ℕ) (s t : String) → Without mark s → count_mark mark (joined s t) ≡ count_mark mark t
unfolding count_mark
count_mark-joined mark String.[] t h = refl
count_mark-joined mark (String.◌∷◌ a s) t (other, h) = ground (arith, count_mark-joined mark s t h)

one_mark : (realm : String) → Without b'@' realm → count_mark b'@' (joined "@" realm) ≡ 1
unfolding count_mark
one_mark realm h = ground (arith, count_mark-Without b'@' realm h)

at_first : (realm : String) → before b'@' (joined "@" realm) ≡ String.[]
unfolding before
at_first realm = refl

comma_first : (rest : String) → before b',' (joined "," rest) ≡ String.[]
unfolding before
comma_first rest = refl

behind_comma : (rest : String) → behind b',' (joined "," rest) ≡ some rest
unfolding behind
behind_comma rest = refl

-- A principal loses its realm, and a name without one stays. Neither the name nor the realm has an
-- `@`.
pub principal_name-joined :
    (name realm : String)
    → Without b'@' name
    → Without b'@' realm
    → (principal_name (joined name (joined "@" realm)) ≡ name) × (principal_name name ≡ name)
unfolding principal_name
principal_name-joined name realm h k = (
  ground (
    arith,
    count_mark-joined b'@' name (joined "@" realm) h,
    one_mark realm k,
    before-joined b'@' name (joined "@" realm) h (at_first realm),
  ),
  ground (arith, count_mark-Without b'@' name h, before-Without b'@' name h),
)

behind-joined :
    (mark : ℕ) (s t u : String)
    → Without mark s
    → behind mark t ≡ some u
    → behind mark (joined s t) ≡ some u
unfolding behind
behind-joined mark String.[] t u h hit = hit
behind-joined mark (String.◌∷◌ a s) t u (other, h) hit =
    ground (arith, behind-joined mark s t u h hit)

after_prefix-joined : (p s : String) → after_prefix p (joined p s) ≡ some s
unfolding after_prefix
after_prefix-joined String.[] s = refl
after_prefix-joined (String.◌∷◌ c p) s = ground (arith, after_prefix-joined p s)

cn_before_o-some :
    (s t rest u : String)
    → after_prefix "CN=" s ≡ some t
    → behind b',' t ≡ some rest
    → after_prefix "O=" rest ≡ some u
    → cn_before_o s ≡ some (before b',' t)
unfolding cn_before_o
cn_before_o-some s t rest u p q r = ground arith

-- The CN of a subject that begins with `CN=` and goes on with `,O=` is the text between. It has no
-- comma.
pub cn_before_o-joined :
    (name rest : String)
    → Without b',' name
    → cn_before_o (joined "CN=" (joined name (joined "," (joined "O=" rest)))) ≡ some name
cn_before_o-joined name rest h =
    let tail : String = joined "," (joined "O=" rest) in
    cn_before_o-some (joined "CN=" (joined name tail)) (joined name tail) (joined "O=" rest) rest
      (after_prefix-joined "CN=" (joined name tail))
      (behind-joined b',' name tail (joined "O=" rest) h (behind_comma _))
      (after_prefix-joined "O=" rest)
    ∙ ap (λ n. some n) (before-joined b',' name tail h (comma_first _))
