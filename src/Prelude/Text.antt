-- ===== src/Prelude/Text.antt =====
-- Rust's `str` as the list of its scalar values, with the UTF-8 length and the ASCII case rules
-- that the program uses.
use Prim.Native.Nat.{ℕ, ◌+◌, ◌-◌, ◌≤◌}
use Prim.Native.Char.{code}
use Prim.Native.String.{String}
use mathlib.Core.Path.{◌≡◌, refl}
use mathlib.Core.Logic.{◌↔◌}
use mathlib.Core.Bool.{Bool, true, false, ◌&&◌, ◌||◌}
use mathlib.Core.List.{List, [], ◌∷◌, ◌++◌, reverse}
use native.Mathlib.Omega.{arith}
use kickoutchi.Prelude.Tests.{ltb, leb, nat_beq, if◌then◌else◌, PartialEq}
use kickoutchi.Prelude.Lists.{all}

abbrev pub Text : Type 0
Text = List ℕ

abbrev pub codes : String → Text
codes String.[] = []
codes (String.◌∷◌ c s) = code c ∷ codes s

abbrev pub text_beq : Text → Text → Bool
text_beq [] [] = true
text_beq [] (d ∷ t) = false
text_beq (c ∷ s) [] = false
text_beq (c ∷ s) (d ∷ t) = if nat_beq c d then text_beq s t else false

pub text_beq_refl : (s : Text) → text_beq s s ≡ true
text_beq_refl [] = refl
text_beq_refl (c ∷ s) = ground (arith, text_beq_refl s)

text_beq_sound : (s t : Text) → text_beq s t ≡ true → s ≡ t
text_beq_sound [] [] h = refl
text_beq_sound [] (d ∷ t) h = cc
text_beq_sound (c ∷ s) [] h = cc
text_beq_sound (c ∷ s) (d ∷ t) h = ground (arith, text_beq_sound s t)

text_beq_complete : (s t : Text) → s ≡ t → text_beq s t ≡ true
text_beq_complete s t h = rw h (text_beq_refl t)

pub text_beq_iff : (s t : Text) → (text_beq s t ≡ true) ↔ (s ≡ t)
text_beq_iff s t = (text_beq_sound s t, text_beq_complete s t)

instance abbrev pub text_eq : PartialEq Text
text_eq = record { eq = text_beq; agrees = text_beq_iff }

-- `char::len_utf8` and `str::len`.
abbrev pub utf8_len : ℕ → ℕ
utf8_len c = if ltb c 0x80 then 1 else if ltb c 0x800 then 2 else if ltb c 0x10000 then 3 else 4

abbrev pub byte_len : Text → ℕ
byte_len [] = 0
byte_len (c ∷ s) = utf8_len c + byte_len s

-- `String::from_utf8_lossy(&bytes[..budget])`: a scalar value that the cut splits is replaced
-- once by U+FFFD.
unfoldable pub lossy_prefix : ℕ → Text → Text
lossy_prefix budget [] = []
lossy_prefix budget (c ∷ s) =
    if leb (utf8_len c) budget
    then c ∷ lossy_prefix (budget - utf8_len c) s
    else if nat_beq budget 0
    then []
    else 0xFFFD ∷ []

pub byte_len-lossy_prefix : (budget : ℕ) (s : Text) → byte_len (lossy_prefix budget s) ≤ budget + 2
unfolding lossy_prefix
byte_len-lossy_prefix budget [] = omega arith
byte_len-lossy_prefix budget (c ∷ s) = ground (arith, byte_len-lossy_prefix (budget - utf8_len c) s)

-- `str::strip_prefix`, on a match handing over the rest.
unfoldable pub strip_prefix : Text → Text → (Text → Bool) → Bool
strip_prefix [] t rest = rest t
strip_prefix (c ∷ s) [] rest = false
strip_prefix (c ∷ s) (d ∷ t) rest = if nat_beq c d then strip_prefix s t rest else false

pub strip_prefix-append : (s t : Text) (rest : Text → Bool) → strip_prefix s (s ++ t) rest ≡ rest t
unfolding strip_prefix
strip_prefix-append [] t rest = refl
strip_prefix-append (c ∷ s) t rest = ground (arith, strip_prefix-append s t rest)

abbrev pub is_ascii : Text → Bool
is_ascii = all (λ c. ltb c 128)

abbrev pub ascii_lower : ℕ → ℕ
ascii_lower c = if leb b'A' c && leb c b'Z' then c + 32 else c

-- `str::eq_ignore_ascii_case`.
unfoldable pub eq_ignore_ascii_case : Text → Text → Bool
eq_ignore_ascii_case [] [] = true
eq_ignore_ascii_case [] (d ∷ t) = false
eq_ignore_ascii_case (c ∷ s) [] = false
eq_ignore_ascii_case (c ∷ s) (d ∷ t) =
    if nat_beq (ascii_lower c) (ascii_lower d) then eq_ignore_ascii_case s t else false

pub eq_ignore_ascii_case_refl : (s : Text) → eq_ignore_ascii_case s s ≡ true
unfolding eq_ignore_ascii_case
eq_ignore_ascii_case_refl [] = refl
eq_ignore_ascii_case_refl (c ∷ s) = ground (arith, eq_ignore_ascii_case_refl s)

-- `char::is_whitespace`.
abbrev pub is_whitespace : ℕ → Bool
is_whitespace c =
    (leb 9 c && leb c 13)
    || ((nat_beq c 32)
        || ((nat_beq c 133)
            || ((nat_beq c 160) || ((nat_beq c 5760) || (leb 8192 c && leb c 8202)))))
    || ((nat_beq c 8232)
        || ((nat_beq c 8233) || ((nat_beq c 8239) || ((nat_beq c 8287) || (nat_beq c 12288)))))

unfoldable pub trim_start : Text → Text
trim_start [] = []
trim_start (c ∷ s) = let rest = trim_start s in if is_whitespace c then rest else c ∷ s

-- `str::trim`.
unfoldable pub trim : Text → Text
unfolding trim_start
trim s = reverse (trim_start (reverse (trim_start s)))
