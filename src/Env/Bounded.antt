-- ===== src/Env/Bounded.antt =====
-- src/env.rs, `EnvSnapshot::collapse`: the first 128 entries with a separator, in order.
use slope.Base.{
  ℕ, zero, suc, ◌≤◌, ◌≡◌, ◌⊎◌, refl, sym, ap, ◌∙◌, inl, inr, Bool-cases, none, some, Option-cases,
  List, [], ◌∷◌, ◌++◌, length, length-append, take, drop, ltb, u16_max, arith,
}
use slope.Env.{
  max_env_vars, EnvEntry, EnvSnapshot, fnv_offset, fnv1a_const, separator, collapse_onto, collapse,
}
use slope.Env.Entry.{
  NoEquals, of_nothing, IsEntry, fnv1a_from-IsHash, separator-none, separator-some,
}

-- The entry of a string with a separator.
abbrev entry_at : List ℕ → ℕ → EnvEntry
entry_at text sep = record {
  key_hash = fnv1a_const (take sep text);
  value = take u16_max (drop (suc sep) text);
}

-- The entries of all strings that have one.
unfoldable entries_of : List (List ℕ) → List EnvEntry
entries_of [] = []
entries_of (text ∷ texts) =
    let rest = entries_of texts in
    elim (separator text) [ none ↦ rest | some sep ↦ entry_at text sep ∷ rest ]

take-all : (n : ℕ) (xs : List EnvEntry) → length xs ≤ n → take n (xs ++ []) ≡ xs
take-all zero [] h = refl
take-all zero (x ∷ xs) h = absurd (omega arith)
take-all (suc n) [] h = refl
take-all (suc n) (x ∷ xs) h = ap (λ (ys : List EnvEntry). x ∷ ys) (take-all n xs (omega arith))

take-full : (n : ℕ) (xs ys : List EnvEntry) → length xs ≡ n → take n (xs ++ ys) ≡ xs
take-full zero [] ys h = refl
take-full zero (x ∷ xs) ys h = absurd (omega arith)
take-full (suc n) [] ys h = absurd (omega arith)
take-full (suc n) (x ∷ xs) ys h =
    ap (λ (zs : List EnvEntry). x ∷ zs) (take-full n xs ys (omega arith))

append_assoc_one :
    (xs : List EnvEntry) (x : EnvEntry) (ys : List EnvEntry) → (xs ++ x ∷ []) ++ ys ≡ xs ++ x ∷ ys
append_assoc_one [] x ys = refl
append_assoc_one (w ∷ xs) x ys = ap (λ (zs : List EnvEntry). w ∷ zs) (append_assoc_one xs x ys)

collapse_onto-take :
    (snap : EnvSnapshot) (texts : List (List ℕ))
    → length snap ≤ max_env_vars
    → collapse_onto snap texts ≡ take max_env_vars (snap ++ entries_of texts)
unfolding collapse_onto entries_of
collapse_onto-take snap [] h = sym (take-all max_env_vars snap h)
collapse_onto-take snap (text ∷ texts) h = elim (Option-cases (separator text)) [
  | inl e ↦ rw (e, collapse_onto, entries_of) (collapse_onto-take snap texts h)
  | inr (sep, e) ↦ elim (Bool-cases (ltb (length snap) max_env_vars)) [
    | inl room ↦
        let longer : length (snap ++ entry_at text sep ∷ []) ≤ max_env_vars =
          ground (arith, length-append snap (entry_at text sep ∷ [])) in
        rw (e, room, collapse_onto, entries_of)
          (collapse_onto-take (snap ++ entry_at text sep ∷ []) texts longer
            ∙ ap (take max_env_vars) (append_assoc_one snap (entry_at text sep) (entries_of texts)))
    | inr crowded ↦
        let exact : length snap ≡ max_env_vars = ground arith in
        rw (e, crowded, collapse_onto, entries_of)
          (collapse_onto-take snap texts h
            ∙ take-full max_env_vars snap (entries_of texts) exact
            ∙ sym (take-full max_env_vars snap (entry_at text sep ∷ entries_of texts) exact))
  ]
]

-- The entries of the texts that have a `=`, in their order.
abbrev pub AreEntries : List (List ℕ) → List EnvEntry → Type 0
AreEntries [] es = es ≡ []
AreEntries (text ∷ texts) es =
    (NoEquals text × AreEntries texts es)
    ⊎ ((e : EnvEntry) × (later : List EnvEntry) × IsEntry text e
        × AreEntries texts later
        × (es ≡ e ∷ later))

entry_at-IsEntry :
    (text : List ℕ) (sep : ℕ) → separator text ≡ some sep → IsEntry text (entry_at text sep)
unfolding fnv1a_const
entry_at-IsEntry text sep h =
    let (same, before) = separator-some text sep h in
    (
      take sep text,
      drop (suc sep) text,
      same,
      before,
      fnv1a_from-IsHash [] fnv_offset (take sep text) of_nothing,
      refl,
    )

entries_of-AreEntries : (texts : List (List ℕ)) → AreEntries texts (entries_of texts)
unfolding entries_of
entries_of-AreEntries [] = refl
entries_of-AreEntries (text ∷ texts) = elim (Option-cases (separator text)) [
  | inl e ↦ rw (e, entries_of) (inl (separator-none text e, entries_of-AreEntries texts))
  | inr (sep, e) ↦
      rw (e, entries_of)
        (inr (
          entry_at text sep,
          entries_of texts,
          entry_at-IsEntry text sep e,
          entries_of-AreEntries texts,
          refl,
        ))
]

-- The snapshot of an environment is made of the first 128 of the entries of its strings, in
-- order. A string has an entry if it has a `=`: the FNV-1a hash of what stands before the first
-- of them, and the first 65535 bytes of what stands after it.
pub collapse-AreEntries :
    (texts : List (List ℕ))
    → (es : List EnvEntry) × AreEntries texts es × (collapse texts ≡ take 128 es)
unfolding collapse
collapse-AreEntries texts =
    (entries_of texts, entries_of-AreEntries texts, collapse_onto-take [] texts (omega arith))
