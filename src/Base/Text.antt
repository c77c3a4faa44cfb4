-- ===== src/Base/Text.antt =====
-- Texts as lists of code points, with what the program uses of Go's package strings.
-- Texts are valid UTF-8; `len`, which counts bytes, is `byte_length`.
use Prim.Native.Nat.{ℕ, ◌+◌}
use Prim.Native.Char.{code}
use Prim.Native.String.{String}
use mathlib.Core.Path.{◌≡◌, refl}
use mathlib.Core.Logic.{◌↔◌, ◌≢◌}
use mathlib.Core.Bool.{Bool, true, false, ◌&&◌, ◌||◌}
use mathlib.Core.List.{List, [], ◌∷◌, reverse}
use native.Mathlib.Omega.{arith}
use mcp_hugo_server_go.Base.Tests.{leb, nat_beq, nat_beq_iff, if◌then◌else◌, and_true}

abbrev pub Text : Type 0
Text = List ℕ

abbrev pub codes : String → Text
codes String.[] = []
codes (String.◌∷◌ c s) = code c ∷ codes s

unfoldable pub text_beq : Text → Text → Bool
text_beq [] [] = true
text_beq [] (y ∷ ys) = false
text_beq (x ∷ xs) [] = false
text_beq (x ∷ xs) (y ∷ ys) = nat_beq x y && text_beq xs ys

pub text_beq_refl : (xs : Text) → text_beq xs xs ≡ true
unfolding text_beq
text_beq_refl [] = refl
text_beq_refl (x ∷ xs) = ground (arith, text_beq_refl xs)

text_beq_sound : (xs ys : Text) → text_beq xs ys ≡ true → xs ≡ ys
unfolding text_beq
text_beq_sound [] [] h = refl
text_beq_sound [] (y ∷ ys) h = cc
text_beq_sound (x ∷ xs) [] h = cc
text_beq_sound (x ∷ xs) (y ∷ ys) h =
    let (hd, tl) = and_true (nat_beq x y) (text_beq xs ys) h in
    cc ((nat_beq_iff x y).0 hd, text_beq_sound xs ys tl)

pub text_beq_iff : (xs ys : Text) → (text_beq xs ys ≡ true) ↔ (xs ≡ ys)
text_beq_iff xs ys = (text_beq_sound xs ys, λ e. rw e (text_beq_refl ys))

-- The bytes of a code point in UTF-8.
abbrev utf8_length : ℕ → ℕ
utf8_length c = if leb c 0x7F then 1 else if leb c 0x7FF then 2 else if leb c 0xFFFF then 3 else 4

-- `len(s)`
unfoldable pub byte_length : Text → ℕ
byte_length [] = 0
byte_length (c ∷ s) = utf8_length c + byte_length s

-- `unicode.IsSpace`
unfoldable pub is_space : ℕ → Bool
is_space c =
    (leb 0x09 c && leb c 0x0D)
    || nat_beq c 0x20
    || nat_beq c 0x85
    || nat_beq c 0xA0
    || nat_beq c 0x1680
    || (leb 0x2000 c && leb c 0x200A)
    || nat_beq c 0x2028
    || nat_beq c 0x2029
    || nat_beq c 0x202F
    || nat_beq c 0x205F
    || nat_beq c 0x3000

trim_left : Text → Text
trim_left [] = []
trim_left (c ∷ s) = if is_space c then trim_left s else c ∷ s

cons_unless_blank : ℕ → Text → Text
cons_unless_blank c [] = if is_space c then [] else c ∷ []
cons_unless_blank c (d ∷ r) = c ∷ d ∷ r

-- Drops the white space at the end.
trim_right : Text → Text
unfolding cons_unless_blank
trim_right [] = []
trim_right (c ∷ s) = cons_unless_blank c (trim_right s)

-- `strings.TrimSpace`
unfoldable pub trim_space : Text → Text
unfolding trim_left trim_right is_space
trim_space s = trim_right (trim_left s)

-- `strings.HasPrefix(s, p)`
unfoldable pub has_prefix : Text → Text → Bool
has_prefix s [] = true
has_prefix [] (c ∷ p) = false
has_prefix (d ∷ s) (c ∷ p) = nat_beq d c && has_prefix s p

drop_prefix : Text → Text → Text
drop_prefix s [] = s
drop_prefix [] (c ∷ p) = []
drop_prefix (d ∷ s) (c ∷ p) = drop_prefix s p

-- `strings.TrimPrefix(s, p)`
unfoldable pub trim_prefix : Text → Text → Text
unfolding has_prefix drop_prefix
trim_prefix s p = if has_prefix s p then drop_prefix s p else s

-- The text before the first `c`, or the whole text: the first result of `strings.Cut`.
unfoldable pub before_first : ℕ → Text → Text
before_first c [] = []
before_first c (d ∷ s) = if nat_beq d c then [] else d ∷ before_first c s

-- `strings.Fields`: the maximal runs of characters that are no white space.
fields_from : Text → Text → List Text
fields_from [] [] = []
fields_from (c ∷ cur) [] = reverse (c ∷ cur) ∷ []
fields_from [] (c ∷ s) = fields_from (if is_space c then [] else c ∷ []) s
fields_from (d ∷ cur) (c ∷ s) = elim (is_space c) [
  | true ↦ reverse (d ∷ cur) ∷ fields_from [] s
  | false ↦ fields_from (c ∷ d ∷ cur) s
]

unfoldable pub fields : Text → List Text
unfolding fields_from is_space
fields = fields_from []

fields_test : fields (codes "  read  write ") ≡ codes "read" ∷ codes "write" ∷ []
unfolding fields
fields_test = refl

trim_space_test : trim_space (codes "  a b ") ≡ codes "a b"
unfolding trim_space
trim_space_test = refl

pub text_ne : (xs ys : Text) → text_beq xs ys ≡ false → xs ≢ ys
text_ne xs ys h e = cc (h, (text_beq_iff xs ys).1 e)

pub text_beq_ne : (xs ys : Text) → xs ≢ ys → text_beq xs ys ≡ false
text_beq_ne xs ys differ = ground (arith, text_beq_iff xs ys, differ)
