-- ===== src/Comms/Phone.antt =====
-- Phone numbers: comms/utils.py.
use vmlc_backend.Prelude.{Bool, false, [], ◌∷◌, ◌==◌, if◌then◌else◌, ◌≡◌, refl, ◌&&◌}
use vmlc_backend.Prelude.Text.{Text, text_eq}

-- `phone.startswith("+234")`
abbrev has_country_code : Text → Bool
has_country_code (p ∷ a ∷ b ∷ c ∷ s) = p == b'+' && a == b'2' && b == b'3' && c == b'4'
has_country_code _ = false

abbrev tail : Text → Text
tail [] = []
tail (c ∷ s) = s

abbrev starts_with_zero : Text → Bool
starts_with_zero [] = false
starts_with_zero (c ∷ s) = c == b'0'

-- `_normalize_phone`
unfoldable pub normalize_phone : Text → Text
normalize_phone p =
    if starts_with_zero p
    then b'2' ∷ b'3' ∷ b'4' ∷ tail p
    else (if has_country_code p then tail p else p)

-- "2349123456789"
abbrev placeholder : Text
placeholder =
    b'2' ∷ b'3' ∷ b'4' ∷ b'9' ∷ b'1' ∷ b'2' ∷ b'3' ∷ b'4' ∷ b'5' ∷ b'6' ∷ b'7' ∷ b'8' ∷ b'9' ∷ []

-- `is_placeholder_phone`
unfoldable pub is_placeholder_phone : Text → Bool
is_placeholder_phone p = text_eq (normalize_phone p) placeholder

-- A number in the local form, in the international form and without the plus has one normal form,
-- and what starts with neither a zero nor "+234" is its own.
pub normalize_phone-forms :
    (s : Text)
    → (normalize_phone (b'0' ∷ s) ≡ b'2' ∷ b'3' ∷ b'4' ∷ s)
      × (normalize_phone (b'+' ∷ b'2' ∷ b'3' ∷ b'4' ∷ s) ≡ b'2' ∷ b'3' ∷ b'4' ∷ s)
      × (normalize_phone (b'2' ∷ b'3' ∷ b'4' ∷ s) ≡ b'2' ∷ b'3' ∷ b'4' ∷ s)
unfolding normalize_phone
normalize_phone-forms [] = (refl, refl, refl)
normalize_phone-forms (c ∷ s) = (refl, refl, refl)
