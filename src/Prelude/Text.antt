-- ===== src/Prelude/Text.antt =====
-- Python's `strip` and `upper` on texts of ASCII code points.
use vmlc_backend.Prelude.{
  ℕ, ◌+◌, ◌-◌, Bool, true, false, ◌&&◌, ◌||◌, List, [], ◌∷◌, ◌==◌, leb, if◌then◌else◌, map, ◌≡◌,
  refl,
}
use mathlib.Core.List.{reverse}

abbrev pub Text : Type 0
Text = List ℕ

abbrev is_space : ℕ → Bool
is_space c = c == 32 || (leb 9 c && leb c 13)

abbrev strip_left : Text → Text
strip_left [] = []
strip_left (c ∷ s) = if is_space c then strip_left s else c ∷ s

-- `s.strip()`
unfoldable pub strip : Text → Text
strip s = reverse (strip_left (reverse (strip_left s)))

abbrev upper_char : ℕ → ℕ
upper_char c = if leb b'a' c && leb c b'z' then c - 32 else c

-- `s.upper()`
unfoldable pub upper : Text → Text
upper s = map upper_char s

abbrev lower_char : ℕ → ℕ
lower_char c = if leb b'A' c && leb c b'Z' then c + 32 else c

-- `s.lower()`
unfoldable pub lower : Text → Text
lower s = map lower_char s

-- `s.isdigit()`
abbrev pub all_digits : Text → Bool
all_digits [] = true
all_digits (c ∷ s) = leb b'0' c && leb c b'9' && all_digits s

abbrev pub is_digits : Text → Bool
is_digits [] = false
is_digits (c ∷ s) = all_digits (c ∷ s)

-- `a == b`
abbrev pub text_eq : Text → Text → Bool
text_eq [] [] = true
text_eq [] (d ∷ t) = false
text_eq (c ∷ s) [] = false
text_eq (c ∷ s) (d ∷ t) = c == d && text_eq s t

strip_and_upper : upper (strip (32 ∷ b'b' ∷ 9 ∷ [])) ≡ b'B' ∷ []
unfolding upper strip
strip_and_upper = refl
