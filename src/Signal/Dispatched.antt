-- ===== src/Signal/Dispatched.antt =====
-- src/signal.rs: which handler a notification reaches.
use slope.Base.{
  ℕ, zero, suc, ◌<◌, ◌≡◌, refl, ap, subst, ◌∙◌, ◌==◌, Bool-cases, inl, inr, List, [], ◌∷◌, length,
  length-set, get_or, get_or-set_self, get_or-set_ne, set, replicate, if◌then◌else◌, arith,
}
use slope.Signal.{
  max_discharge_classes, DischargeClass, from_raw, to_raw, DischargeEvent, CoronalMatrix, new,
  set_handler, clear, dispatch,
}

-- Reading a byte as a class and writing it back.
pub to_raw-from_raw : (n : ℕ) → to_raw (from_raw n) ≡ n
unfolding to_raw from_raw
to_raw-from_raw n = ground arith

pub data Call (Handler : Type 0) : Type 0 where
  sets : DischargeClass → Handler → Call Handler
  clears : DischargeClass → Call Handler

module _ {Handler : Type 0} (default_handler : Handler) where
  unfoldable pub after : List (Call Handler) → CoronalMatrix Handler → CoronalMatrix Handler
  after [] m = m
  after (sets c h ∷ calls) m = after calls (set_handler default_handler c h m)
  after (clears c ∷ calls) m = after calls (clear default_handler c m)

  -- The handler of the last call on a class, if there is one.
  abbrev pub chosen : ℕ → Handler → List (Call Handler) → Handler
  chosen n h [] = h
  chosen n h (sets c k ∷ calls) = chosen n (if to_raw c == n then k else h) calls
  chosen n h (clears c ∷ calls) = chosen n (if to_raw c == n then default_handler else h) calls

  get_or-set :
      (hs : List Handler) (i n : ℕ) (h : Handler)
      → n < length hs
      → get_or (set hs i h) n default_handler ≡ (if i == n then h else get_or hs n default_handler)
  get_or-set hs i n h k = elim (Bool-cases (i == n)) [
    | inl e ↦
        let same : i ≡ n = ground arith in
        subst
          (λ j.
            get_or (set hs i h) j default_handler
            ≡ (if i == n then h else get_or hs n default_handler))
          same (rw e (get_or-set_self hs i h default_handler (omega (arith, k, same))))
    | inr e ↦ rw e (get_or-set_ne hs i n h default_handler (ground arith))
  ]

  dispatch-after_from :
      (event : DischargeEvent) (calls : List (Call Handler)) (m : CoronalMatrix Handler)
      → length m.handlers ≡ max_discharge_classes
      → event.class < max_discharge_classes
      → dispatch default_handler event (after calls m)
        ≡ chosen event.class (get_or m.handlers event.class default_handler) calls
  unfolding after dispatch set_handler clear
  dispatch-after_from event [] m h k = refl
  dispatch-after_from event (sets c x ∷ calls) m h k =
      dispatch-after_from event calls (set_handler default_handler c x m)
        (length-set m.handlers (to_raw c) x ∙ h) k
      ∙ ap (λ (y : Handler). chosen event.class y calls)
          (get_or-set m.handlers (to_raw c) event.class x (omega arith))
  dispatch-after_from event (clears c ∷ calls) m h k =
      dispatch-after_from event calls (clear default_handler c m)
        (length-set m.handlers (to_raw c) default_handler ∙ h) k
      ∙ ap (λ (y : Handler). chosen event.class y calls)
          (get_or-set m.handlers (to_raw c) event.class default_handler (omega arith))

  get_or-replicate :
      (n i : ℕ) → get_or (replicate n default_handler) i default_handler ≡ default_handler
  get_or-replicate zero i = refl
  get_or-replicate (suc n) zero = refl
  get_or-replicate (suc n) (suc i) = get_or-replicate n i

  -- After any calls of set and clear on a new table, an event whose class is a byte reaches the
  -- handler of the last call on the class with that number, or the default handler if that call
  -- cleared it or there is none.
  pub dispatch-chosen :
      (event : DischargeEvent) (calls : List (Call Handler))
      → event.class < max_discharge_classes
      → dispatch default_handler event (after calls (new default_handler))
        ≡ chosen event.class default_handler calls
  unfolding new
  dispatch-chosen event calls k =
      dispatch-after_from event calls (new default_handler) refl k
      ∙ ap (λ (y : Handler). chosen event.class y calls)
          (get_or-replicate max_discharge_classes event.class)
