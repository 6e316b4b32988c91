-- ===== src/Prelude/Text.antt =====
-- Go strings as lists of runes (Unicode code points), with the operations of packages strings,
-- unicode and utf8 that the program calls. The rows of the Unicode table above ASCII that
-- unicode.ToLower reads are the argument `table`.
use Prim.Native.Nat.{ℕ, suc, ◌+◌, ◌<◌}
use Prim.Native.Char.{code}
use Prim.Native.String.{String}
use mathlib.Core.Path.{◌≡◌, refl, ap, sym, subst, ◌∙◌}
use mathlib.Core.Logic.{◌↔◌}
use mathlib.Core.Bool.{Bool, true, false, not, ◌&&◌, ◌||◌}
use mathlib.Core.List.{List, [], ◌∷◌, ◌++◌, map}
use native.Mathlib.Omega.{arith}
use driving_app.Prelude.Tests.{ltb, leb, ◌==◌, if◌then◌else◌}

abbrev pub Text : Type 0
Text = List ℕ

-- The runes of a literal.
abbrev pub runes : String → Text
runes String.[] = []
runes (String.◌∷◌ c s) = code c ∷ runes s

unfoldable pub text_eq : Text → Text → Bool
text_eq [] [] = true
text_eq [] (_ ∷ _) = false
text_eq (_ ∷ _) [] = false
text_eq (a ∷ s) (b ∷ t) = a == b && text_eq s t

pub text_eq_refl : (s : Text) → text_eq s s ≡ true
unfolding text_eq
text_eq_refl [] = refl
text_eq_refl (a ∷ s) = ground (arith, text_eq_refl s)

text_eq_sound : (s t : Text) → text_eq s t ≡ true → s ≡ t
unfolding text_eq
text_eq_sound [] [] h = refl
text_eq_sound [] (b ∷ t) h = cc
text_eq_sound (a ∷ s) [] h = cc
text_eq_sound (a ∷ s) (b ∷ t) h = ground (arith, text_eq_sound s t)

pub text_eq_iff : (s t : Text) → (text_eq s t ≡ true) ↔ (s ≡ t)
text_eq_iff s t = (text_eq_sound s t, λ e. ap (text_eq s) (sym e) ∙ text_eq_refl s)

abbrev pub is_empty : Text → Bool
is_empty [] = true
is_empty (_ ∷ _) = false

-- unicode.IsSpace: the ASCII blanks, U+0085, U+00A0 and the property White_Space above Latin-1.
unfoldable pub is_space : ℕ → Bool
is_space c =
    (leb 9 c && leb c 13)
    || c == 32
    || c == 0x85
    || c == 0xA0
    || c == 0x1680
    || (leb 0x2000 c && leb c 0x200a)
    || c == 0x2028
    || c == 0x2029
    || c == 0x202f
    || c == 0x205f
    || c == 0x3000

unfoldable pub trim_left : Text → Text
trim_left [] = []
trim_left (c ∷ s) = let rest = trim_left s in if is_space c then rest else c ∷ s

unfoldable pub trim_right : Text → Text
trim_right [] = []
trim_right (c ∷ s) = let rest = trim_right s in if is_space c && is_empty rest then [] else c ∷ rest

-- strings.TrimSpace
unfoldable pub trim_space : Text → Text
unfolding trim_left trim_right is_space
trim_space s = trim_right (trim_left s)

-- unicode.ToLower, with the rows of the table above ASCII given.
unfoldable pub lower_rune : (ℕ → ℕ) → ℕ → ℕ
lower_rune table c = if ltb c 128 then (if leb b'A' c && leb c b'Z' then c + 32 else c) else table c

-- strings.ToLower
unfoldable pub to_lower : (ℕ → ℕ) → Text → Text
unfolding lower_rune
to_lower table s = map (lower_rune table) s

-- utf8.RuneCountInString
abbrev pub rune_count : Text → ℕ
rune_count [] = 0
rune_count (_ ∷ s) = suc (rune_count s)

-- The bytes of a rune in UTF-8.
abbrev pub rune_len : ℕ → ℕ
rune_len c = if ltb c 0x80 then 1 else if ltb c 0x800 then 2 else if ltb c 0x10000 then 3 else 4

-- len of a string
unfoldable pub byte_len : Text → ℕ
byte_len [] = 0
byte_len (c ∷ s) = rune_len c + byte_len s

abbrev pub All : (ℕ → Type 0) → Text → Type 0
All P [] = Unit
All P (c ∷ s) = P c × All P s

abbrev pub IsBlank : Text → Type 0
IsBlank = All (λ c. is_space c ≡ true)

abbrev pub IsSolid : Text → Type 0
IsSolid = All (λ c. is_space c ≡ false)

abbrev pub IsAscii : Text → Type 0
IsAscii = All (λ c. c < 128)

trim_left-blank : (pre s : Text) → IsBlank pre → trim_left (pre ++ s) ≡ trim_left s
unfolding trim_left
trim_left-blank [] s h = refl
trim_left-blank (c ∷ pre) s h = rw h.0 (trim_left-blank pre s h.1)

trim_right-blank : (post : Text) → IsBlank post → trim_right post ≡ []
unfolding trim_right
trim_right-blank [] h = refl
trim_right-blank (c ∷ post) h = rw (h.0, trim_right-blank post h.1)

trim_right-solid : (s post : Text) → IsSolid s → IsBlank post → trim_right (s ++ post) ≡ s
unfolding trim_right
trim_right-solid [] post h k = trim_right-blank post k
trim_right-solid (c ∷ s) post h k = rw (h.0, trim_right-solid s post h.1 k)

trim_left-solid :
    (c : ℕ) (s post : Text) → is_space c ≡ false → trim_left (c ∷ s ++ post) ≡ c ∷ s ++ post
unfolding trim_left
trim_left-solid c s post h = rw h

trim_space-steps : (s : Text) → trim_space s ≡ trim_right (trim_left s)
unfolding trim_space
trim_space-steps s = refl

-- A word without blanks, given with blanks on both sides, is what trimming leaves.
trim_space-padded :
    (pre : Text) (c : ℕ) (s post : Text)
    → IsBlank pre
    → IsSolid (c ∷ s)
    → IsBlank post
    → trim_space (pre ++ (c ∷ s ++ post)) ≡ c ∷ s
trim_space-padded pre c s post h w k =
    trim_space-steps (pre ++ (c ∷ s ++ post))
    ∙ ap trim_right (trim_left-blank pre (c ∷ s ++ post) h ∙ trim_left-solid c s post w.0)
    ∙ trim_right-solid (c ∷ s) post w k

-- An ASCII rune whose lower case is no blank is none itself.
solid_rune :
    (table : ℕ → ℕ) (c : ℕ) → c < 128 → is_space (lower_rune table c) ≡ false → is_space c ≡ false
unfolding lower_rune is_space
solid_rune table c h e = ground arith

IsSolid-to_lower : (table : ℕ → ℕ) (s : Text) → IsAscii s → IsSolid (to_lower table s) → IsSolid s
unfolding to_lower
IsSolid-to_lower table [] a h = tt
IsSolid-to_lower table (c ∷ s) a h = (solid_rune table c a.0 h.0, IsSolid-to_lower table s a.1 h.1)

-- Blanks around an ASCII word, and the case of its letters, are lost.
pub to_lower-trim_space-padded :
    (table : ℕ → ℕ) (pre word post w : Text)
    → IsBlank pre
    → IsBlank post
    → IsAscii word
    → to_lower table word ≡ w
    → is_empty w ≡ false
    → IsSolid w
    → to_lower table (trim_space (pre ++ (word ++ post))) ≡ w
unfolding to_lower
to_lower-trim_space-padded table pre [] post w h k a e n solid = cc (ap is_empty e)
to_lower-trim_space-padded table pre (c ∷ word) post w h k a e n solid =
    ap (to_lower table) (
      trim_space-padded pre c word post h
        (IsSolid-to_lower table (c ∷ word) a (subst IsSolid (sym e) solid)) k)
    ∙ e

-- Closed texts are checked by evaluation.
unfoldable pub is_solid : Text → Bool
is_solid [] = true
is_solid (c ∷ s) = not (is_space c) && is_solid s

pub is_solid-IsSolid : (s : Text) → is_solid s ≡ true → IsSolid s
unfolding is_solid
is_solid-IsSolid [] h = tt
is_solid-IsSolid (c ∷ s) h = (ground arith, is_solid-IsSolid s (ground arith))
