-- ===== src/Capability/Tests.antt =====
-- Runs of src/capability.rs.
use slope.Base.{ℕ, ◌≡◌, ◌↔◌, refl, ok, List, [], ◌∷◌}
use slope.Capability.{parse_handle, parse_body, parse_digits, push_digit, digit_of, split_radix}
use slope.Capability.Numeral.{IsNumeral, parse_handle-IsNumeral}

-- `0xF_f`.
abbrev hexadecimal : List ℕ
hexadecimal = 48 ∷ 120 ∷ 70 ∷ 95 ∷ 102 ∷ []

reads_255 : parse_handle hexadecimal ≡ ok 255
unfolding parse_handle parse_body parse_digits push_digit digit_of split_radix
reads_255 = refl

parse_handle-IsNumeral_example : (parse_handle hexadecimal ≡ ok 255) ↔ IsNumeral hexadecimal 255
parse_handle-IsNumeral_example = parse_handle-IsNumeral hexadecimal 255
