-- ===== src/Env/Tests.antt =====
-- Runs of src/env.rs, after its own tests.
use slope.Base.{ℕ, ◌≡◌, refl, List, [], ◌∷◌, take}
use slope.Env.{EnvEntry, fnv1a_const, fnv1a_from, collapse}
use slope.Env.Bounded.{AreEntries, collapse-AreEntries}

-- The hash of `a`.
known_hash : fnv1a_const (97 ∷ []) ≡ 0xaf63_dc4c_8601_ec8c
unfolding fnv1a_const fnv1a_from
known_hash = refl

-- `A=1` and `B`.
abbrev block : List (List ℕ)
block = (65 ∷ 61 ∷ 49 ∷ []) ∷ (66 ∷ []) ∷ []

collapse-AreEntries_example :
    (es : List EnvEntry) × AreEntries block es × (collapse block ≡ take 128 es)
collapse-AreEntries_example = collapse-AreEntries block
