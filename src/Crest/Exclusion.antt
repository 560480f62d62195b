-- ===== src/Crest/Exclusion.antt =====
-- src/quantum_crest.rs, the mailboxes: one thread at a time has the value, and what is taken is what
-- was published, in order, without loss or repetition.
use slope.Base.{
  ℕ, ◌≡◌, ◌≢◌, refl, sym, ◌∙◌, ap, ap₂, subst, ◌⊎◌, inl, inr, some, [], ◌∷◌, ◌++◌, ℕ_discrete,
  arith,
}
use slope.Crest.Mailbox.{free, writing, ready, reading, Mailbox, claim, enter, write, store}
use slope.Crest.Interleaving.{
  Thread, idle, claimed, written, entered, holding, World, at, Step, claims, writes, publishes,
  enters, reads, frees, fails, Steps, done, next, start,
}

-- Every thread but one is outside.
abbrev pub Alone : {T : Type 0} → (ℕ → Thread T) → ℕ → Type 0
Alone threads t = (u : ℕ) → t ≢ u → threads u ≡ idle

abbrev AllIdle : {T : Type 0} → (ℕ → Thread T) → Type 0
AllIdle threads = (u : ℕ) → threads u ≡ idle

-- The one thread inside, and what the cell then holds.
data IsInside {T : Type 0} (w : World T) (t : ℕ) : Type 0 where
  is_claimed :
      (v : T)
      → w.cell.state ≡ writing
      → w.threads t ≡ claimed v
      → w.published ≡ w.taken
      → IsInside w t
  is_written :
      w.cell.state ≡ writing
      → w.threads t ≡ written w.cell.value
      → w.published ≡ w.taken
      → IsInside w t
  is_entered :
      w.cell.state ≡ reading
      → w.threads t ≡ entered
      → w.published ≡ w.taken ++ w.cell.value ∷ []
      → IsInside w t
  is_holding :
      w.cell.state ≡ reading
      → w.threads t ≡ holding w.cell.value
      → w.published ≡ w.taken ++ w.cell.value ∷ []
      → IsInside w t

-- The states that the worlds go through.
data IsConsistent {T : Type 0} (w : World T) : Type 0 where
  at_free : w.cell.state ≡ free → AllIdle w.threads → w.published ≡ w.taken → IsConsistent w
  at_ready :
      w.cell.state ≡ ready
      → AllIdle w.threads
      → w.published ≡ w.taken ++ w.cell.value ∷ []
      → IsConsistent w
  at_inside : (t : ℕ) → IsInside w t → Alone w.threads t → IsConsistent w

-- A thread that is inside is the one.
here :
    {T : Type 0} (w : World T) (u : ℕ)
    → IsConsistent w
    → w.threads u ≢ idle
    → IsInside w u × Alone w.threads u
here w u (at_free s all same) inside = absurd (inside (all u))
here w u (at_ready s all same) inside = absurd (inside (all u))
here w u (at_inside t i alone) inside = elim (ℕ_discrete t u) [
  | yes same ↦ (subst (IsInside w) same i, subst (Alone w.threads) same alone)
  | no d ↦ absurd (inside (alone u d))
]

only_free :
    {T : Type 0} (w : World T)
    → IsConsistent w
    → w.cell.state ≡ free
    → AllIdle w.threads × (w.published ≡ w.taken)
only_free w (at_free s all same) e = (all, same)
only_free w (at_ready s all same) e = absurd cc
only_free w (at_inside t (is_claimed v s l same) alone) e = absurd cc
only_free w (at_inside t (is_written s l same) alone) e = absurd cc
only_free w (at_inside t (is_entered s l same) alone) e = absurd cc
only_free w (at_inside t (is_holding s l same) alone) e = absurd cc

only_ready :
    {T : Type 0} (w : World T)
    → IsConsistent w
    → w.cell.state ≡ ready
    → AllIdle w.threads × (w.published ≡ w.taken ++ w.cell.value ∷ [])
only_ready w (at_free s all same) e = absurd cc
only_ready w (at_ready s all same) e = (all, same)
only_ready w (at_inside t (is_claimed v s l same) alone) e = absurd cc
only_ready w (at_inside t (is_written s l same) alone) e = absurd cc
only_ready w (at_inside t (is_entered s l same) alone) e = absurd cc
only_ready w (at_inside t (is_holding s l same) alone) e = absurd cc

only_claimed :
    {T : Type 0} (w : World T) (u : ℕ) (v : T)
    → IsInside w u
    → w.threads u ≡ claimed v
    → (w.cell.state ≡ writing) × (w.published ≡ w.taken)
only_claimed w u v (is_claimed v' s l same) e = (s, same)
only_claimed w u v (is_written s l same) e = absurd cc
only_claimed w u v (is_entered s l same) e = absurd cc
only_claimed w u v (is_holding s l same) e = absurd cc

only_written :
    {T : Type 0} (w : World T) (u : ℕ) (v : T)
    → IsInside w u
    → w.threads u ≡ written v
    → (w.cell.value ≡ v) × (w.published ≡ w.taken)
only_written w u v (is_claimed v' s l same) e = absurd cc
only_written w u v (is_written s l same) e = (cc, same)
only_written w u v (is_entered s l same) e = absurd cc
only_written w u v (is_holding s l same) e = absurd cc

only_entered :
    {T : Type 0} (w : World T) (u : ℕ)
    → IsInside w u
    → w.threads u ≡ entered
    → (w.cell.state ≡ reading) × (w.published ≡ w.taken ++ w.cell.value ∷ [])
only_entered w u (is_claimed v' s l same) e = absurd cc
only_entered w u (is_written s l same) e = absurd cc
only_entered w u (is_entered s l same) e = (s, same)
only_entered w u (is_holding s l same) e = absurd cc

only_holding :
    {T : Type 0} (w : World T) (u : ℕ) (v : T)
    → IsInside w u
    → w.threads u ≡ holding v
    → (w.cell.value ≡ v) × (w.published ≡ w.taken ++ w.cell.value ∷ [])
only_holding w u v (is_claimed v' s l same) e = absurd cc
only_holding w u v (is_written s l same) e = absurd cc
only_holding w u v (is_entered s l same) e = absurd cc
only_holding w u v (is_holding s l same) e = (cc, same)

at_self :
    {T : Type 0} (t : ℕ) (local : Thread T) (threads : ℕ → Thread T) → at t local threads t ≡ local
unfolding at
at_self t local threads = ground arith

at_other :
    {T : Type 0} (t : ℕ) (local : Thread T) (threads : ℕ → Thread T) (u : ℕ)
    → t ≢ u
    → at t local threads u ≡ threads u
unfolding at
at_other t local threads u d = ground arith

-- A thread that moves leaves the others where they are.
still-Alone :
    {T : Type 0} (threads : ℕ → Thread T) (t : ℕ) (local : Thread T)
    → Alone threads t
    → Alone (at t local threads) t
still-Alone threads t local alone u d = at_other t local threads u d ∙ alone u d

all_idle :
    {T : Type 0} (threads : ℕ → Thread T) (t : ℕ) → Alone threads t → AllIdle (at t idle threads)
all_idle threads t alone u = elim (ℕ_discrete t u) [
  | yes same ↦ subst (λ x. at t idle threads x ≡ idle) same (at_self t idle threads)
  | no d ↦ at_other t idle threads u d ∙ alone u d
]

claim-some :
    {T : Type 0} (m m' : Mailbox T) → claim m ≡ some m' → (m.state ≡ free) × (m'.state ≡ writing)
unfolding claim
claim-some m m' e = ground arith

enter-some :
    {T : Type 0} (m m' : Mailbox T)
    → enter m ≡ some m'
    → (m.state ≡ ready) × (m'.state ≡ reading) × (m'.value ≡ m.value)
unfolding enter
enter-some m m' e = ground arith

inside_of :
    {T : Type 0} (threads : ℕ → Thread T) (t : ℕ) (local : Thread T)
    → threads t ≡ local
    → local ≢ idle
    → threads t ≢ idle
inside_of threads t local e d h = d (sym e ∙ h)

-- One atomic access keeps a world consistent.
Step-IsConsistent : {T : Type 0} {w w' : World T} → Step w w' → IsConsistent w → IsConsistent w'
unfolding write store
Step-IsConsistent (claims w t v m e claimed_it) c =
    let (free_before, now) = claim-some w.cell m claimed_it in
    let (all, same) = only_free w c free_before in
    at_inside t (is_claimed v now (at_self t (claimed v) w.threads) same)
      (still-Alone w.threads t (claimed v) (λ u d. all u))
Step-IsConsistent (writes w t v e) c =
    let (inside, alone) = here w t c (inside_of w.threads t (claimed v) e (λ h. cc)) in
    let (s, same) = only_claimed w t v inside e in
    at_inside t (is_written s (at_self t (written v) w.threads) same)
      (still-Alone w.threads t (written v) alone)
Step-IsConsistent (publishes w t v e) c =
    let (inside, alone) = here w t c (inside_of w.threads t (written v) e (λ h. cc)) in
    let (value, same) = only_written w t v inside e in
    at_ready refl (all_idle w.threads t alone) (ap₂ (λ xs x. xs ++ x ∷ []) same (sym value))
Step-IsConsistent (enters w t m e entered_it) c =
    let (ready_before, now, kept) = enter-some w.cell m entered_it in
    let (all, same) = only_ready w c ready_before in
    at_inside t
      (is_entered now (at_self t entered w.threads) (same ∙ ap (λ x. w.taken ++ x ∷ []) (sym kept)))
      (still-Alone w.threads t entered (λ u d. all u))
Step-IsConsistent (reads w t e) c =
    let (inside, alone) = here w t c (inside_of w.threads t entered e (λ h. cc)) in
    let (s, same) = only_entered w t inside e in
    at_inside t (is_holding s (at_self t (holding w.cell.value) w.threads) same)
      (still-Alone w.threads t (holding w.cell.value) alone)
Step-IsConsistent (frees w t v e) c =
    let (inside, alone) = here w t c (inside_of w.threads t (holding v) e (λ h. cc)) in
    let (value, same) = only_holding w t v inside e in
    at_free refl (all_idle w.threads t alone) (same ∙ ap (λ x. w.taken ++ x ∷ []) value)
Step-IsConsistent (fails w) c = c

Steps-IsConsistent : {T : Type 0} {w w' : World T} → Steps w w' → IsConsistent w → IsConsistent w'
Steps-IsConsistent (done w) c = c
Steps-IsConsistent (next h s) c = Step-IsConsistent s (Steps-IsConsistent h c)

-- What a world that is reached from a free mailbox promises.
pub record IsExclusive {T : Type 0} (w : World T) : Type 0 where
  pub one_inside : (t u : ℕ) → w.threads t ≢ idle → w.threads u ≢ idle → t ≡ u
  pub in_order : (w.published ≡ w.taken) ⊎ (w.published ≡ w.taken ++ w.cell.value ∷ [])
  pub read_back : (t : ℕ) (v : T) → w.threads t ≡ holding v → w.published ≡ w.taken ++ v ∷ []

same_thread : {T : Type 0} (w : World T) (t u : ℕ) → Alone w.threads t → w.threads u ≢ idle → t ≡ u
same_thread w t u alone inside = elim (ℕ_discrete t u) [
  | yes same ↦ same
  | no d ↦ absurd (inside (alone u d))
]

history :
    {T : Type 0} (w : World T)
    → IsConsistent w
    → (w.published ≡ w.taken) ⊎ (w.published ≡ w.taken ++ w.cell.value ∷ [])
history w (at_free s all same) = inl same
history w (at_ready s all same) = inr same
history w (at_inside t (is_claimed v s l same) alone) = inl same
history w (at_inside t (is_written s l same) alone) = inl same
history w (at_inside t (is_entered s l same) alone) = inr same
history w (at_inside t (is_holding s l same) alone) = inr same

-- However the atomic accesses of any number of threads interleave on a mailbox that starts free
-- with nobody inside, at most one thread is inside publish or take, the values taken are those
-- published in order but for at most one that the cell holds, and a thread that has read the cell
-- holds the next published value.
pub Steps-IsExclusive :
    {T : Type 0} (m : Mailbox T) (w : World T) → m.state ≡ free → Steps (start m) w → IsExclusive w
Steps-IsExclusive m w e h =
    let c = Steps-IsConsistent h (at_free e (λ u. refl) refl) in
    record {
      one_inside = λ t u i j. let (_, alone) = here w t c i in same_thread w t u alone j;
      in_order = history w c;
      read_back = λ t v l.
          let (i, alone) = here w t c (inside_of w.threads t (holding v) l (λ h. cc)) in
          let (value, same) = only_holding w t v i l in same ∙ ap (λ x. w.taken ++ x ∷ []) value;
    }
