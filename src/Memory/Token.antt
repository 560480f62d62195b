-- ===== src/Memory/Token.antt =====
-- src/memory/mod.rs, `SlabToken`: a class, a page and a slot packed into 32 bits.
use slope.Base.{ℕ, ◌+◌, ◌*◌, ◌/◌, ◌%◌, ◌^◌, ◌<◌, ◌≡◌, u8_mod, u16_mod, u32_mod, arith}

-- The three fields do not overlap, so `|` is `+`.
unfoldable pub pack : ℕ → ℕ → ℕ → ℕ
pack class page slot = (class * 2 ^ 24) % u32_mod + page * 2 ^ 16 + slot

unfoldable pub class : ℕ → ℕ
class token = token / 2 ^ 24 % u8_mod

unfoldable pub page : ℕ → ℕ
page token = token / 2 ^ 16 % u8_mod

unfoldable pub slot : ℕ → ℕ
slot token = token % u16_mod

-- A token of a class, a page and a slot within their widths gives each of the three back.
pub pack_fields :
    (c p s : ℕ)
    → c < u8_mod
    → p < u8_mod
    → s < u16_mod
    → (class (pack c p s) ≡ c) × (page (pack c p s) ≡ p) × (slot (pack c p s) ≡ s)
unfolding pack class page slot
pack_fields c p s hc hp hs = omega arith
