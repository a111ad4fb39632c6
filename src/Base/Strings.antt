-- ===== src/Base/Strings.antt =====
-- Go strings as lists of bytes, and the few functions of package strings that the program calls.
use Prim.Native.Nat.{ℕ, zero, suc, ◌≤◌, ◌+◌, ◌/◌, ◌%◌}
use Prim.Native.Char.{code}
use Prim.Native.String.{String}
use mathlib.Core.Path.{◌≡◌, refl}
use mathlib.Core.Logic.{inl, inr}
use mathlib.Core.Bool.{Bool, true, false, ◌&&◌, ◌||◌}
use mathlib.Core.Option.{Option, none, some}
use mathlib.Core.List.{List, [], ◌∷◌, reverse}
use native.Mathlib.Omega.{arith}
use reimbursement_system.Base.Tests.{leb, ltb, Bool-cases, ==_iff, ◌==◌, if◌then◌else◌}
use reimbursement_system.Base.Lists.{length, drop, length-drop-le}

abbrev pub Text : Type 0
Text = List ℕ

-- The bytes of a character in UTF-8, before the text.
abbrev encode : ℕ → Text → Text
encode n s =
    if ltb n 0x80
    then n ∷ s
    else if ltb n 0x800
    then (0xC0 + n / 64) ∷ (0x80 + n % 64) ∷ s
    else if ltb n 0x10000
    then (0xE0 + n / 4096) ∷ (0x80 + n / 64 % 64) ∷ (0x80 + n % 64) ∷ s
    else (0xF0 + n / 262144) ∷ (0x80 + n / 4096 % 64) ∷ (0x80 + n / 64 % 64) ∷ (0x80 + n % 64) ∷ s

-- A literal of the source. It stays shut, so that no tactic spells it out.
unfoldable pub lit : String → Text
lit String.[] = []
lit (String.◌∷◌ c s) = encode (code c) (lit s)

abbrev pub text_eq : Text → Text → Bool
text_eq [] [] = true
text_eq [] (b ∷ t) = false
text_eq (a ∷ s) [] = false
text_eq (a ∷ s) (b ∷ t) = a == b && text_eq s t

pub text_eq_refl : (s : Text) → text_eq s s ≡ true
text_eq_refl [] = refl
text_eq_refl (a ∷ s) = ground (arith, text_eq_refl s)

pub text_eq_sound : (s t : Text) → text_eq s t ≡ true → s ≡ t
text_eq_sound [] [] h = refl
text_eq_sound [] (b ∷ t) h = cc
text_eq_sound (a ∷ s) [] h = cc
text_eq_sound (a ∷ s) (b ∷ t) h = ground (arith, text_eq_sound s t)

abbrev pub is_empty : Text → Bool
is_empty [] = true
is_empty (c ∷ s) = false

-- strings.IndexByte, with the text before and after the first such byte.
abbrev pub cut_byte : ℕ → Text → Option (Text × Text)
cut_byte b [] = none
cut_byte b (c ∷ s) =
    if c == b
    then some ([], s)
    else elim (cut_byte b s) [ none ↦ none | some p ↦ some (c ∷ p.0, p.1) ]

abbrev ascii_space : ℕ → Bool
ascii_space c = c == 0x20 || (leb 9 c && leb c 13)

-- The spaces of two and of three bytes in UTF-8.
abbrev space2 : ℕ → ℕ → Bool
space2 c d = c == 0xC2 && (d == 0x85 || d == 0xA0)

abbrev space3 : ℕ → ℕ → ℕ → Bool
space3 c d e =
    (c == 0xE1 && (d == 0x9A && e == 0x80))
    || ((c == 0xE2
          && (d == 0x80 && ((leb 0x80 e && leb e 0x8A) || (e == 0xA8 || (e == 0xA9 || e == 0xAF)))))
        || ((c == 0xE2 && (d == 0x81 && e == 0x9F)) || (c == 0xE3 && (d == 0x80 && e == 0x80))))

-- How many bytes the space at the front takes, 0 if none; then the same from the end.
abbrev pub front_space : Text → ℕ
front_space [] = 0
front_space (c ∷ []) = if ascii_space c then 1 else 0
front_space (c ∷ d ∷ []) = if ascii_space c then 1 else if space2 c d then 2 else 0
front_space (c ∷ d ∷ e ∷ s) =
    if ascii_space c then 1 else if space2 c d then 2 else if space3 c d e then 3 else 0

abbrev back_space : Text → ℕ
back_space [] = 0
back_space (c ∷ []) = if ascii_space c then 1 else 0
back_space (c ∷ d ∷ []) = if ascii_space c then 1 else if space2 d c then 2 else 0
back_space (c ∷ d ∷ e ∷ s) =
    if ascii_space c then 1 else if space2 d c then 2 else if space3 e d c then 3 else 0

-- Drops spaces at the front; the length is fuel enough, since each drop shortens the text.
unfoldable pub trim_while : (Text → ℕ) → ℕ → Text → Text
trim_while space zero s = s
trim_while space (suc f) s =
    let rest = trim_while space f (drop (space s) s) in if space s == 0 then s else rest

-- strings.TrimSpace
unfoldable pub trim_space : Text → Text
unfolding trim_while
trim_space s =
    let t = trim_while front_space (length s) s in
    reverse (trim_while back_space (length t) (reverse t))

trims : trim_space (32 ∷ 97 ∷ 0xE3 ∷ 0x80 ∷ 0x80 ∷ 10 ∷ []) ≡ 97 ∷ []
unfolding trim_space
trims = refl

drop_shorter :
    (s : Text) (n : ℕ) {f : ℕ} → length s ≤ suc f → (n == 0) ≡ false → length (drop n s) ≤ f
drop_shorter s zero h k = cc
drop_shorter [] (suc n) h k = omega arith
drop_shorter (c ∷ s) (suc n) h k = omega (arith, length-drop-le n s)

-- The fuel suffices: no space is left at the front.
pub trim_while-done :
    (space : Text → ℕ) (f : ℕ) (s : Text)
    → length s ≤ f
    → space [] ≡ 0
    → space (trim_while space f s) ≡ 0
unfolding trim_while
trim_while-done space zero [] h e = e
trim_while-done space zero (c ∷ s) h e = elim h [ ]
trim_while-done space (suc f) s h e = elim (Bool-cases (space s == 0)) [
  | inl stop ↦ rw stop ((==_iff _ _).0 stop)
  | inr more ↦
      rw more (trim_while-done space f (drop (space s) s) (drop_shorter s (space s) h more) e)
]
