-- ===== src/Hypermedia/Gate.antt =====
-- src/hypermedia.rs, `ArgusEndpointSession`: its histories.
use slope.Base.{
  ◌⊎◌, ℕ, suc, ◌+◌, ◌-◌, ◌^◌, ◌%◌, ◌≡◌, refl, ap, ◌∙◌, true, false, ◌==◌, Bool-cases, Result, ok,
  err, Result-cases, inl, inr, List, [], ◌∷◌, ◌++◌, arith,
}
use slope.Hypermedia.Endpoint
use slope.Hypermedia.Endpoint.{
  ArgusEndpointLease, ArgusIpcRequest, ArgusEndpointSession, EndpointError, bound_to,
  authorize_request, validate_envelope, prepare, commit, complete, revoke, following,
}

-- The calls that change a session, and what those that succeeded leave in its log.
pub data Call : Type 0 where
  commits : ArgusIpcRequest → Call
  completes : ℕ → Call
  revokes : Call

pub data Event : Type 0 where
  committed : ArgusIpcRequest → Event
  completed : ℕ → Event
  closed : Event

abbrev logged : Result EndpointError (Unit {0}) → Event → List Event
logged (ok u) e = e ∷ []
logged (err x) e = []

abbrev pub call : Call → ArgusEndpointSession → List Event × ArgusEndpointSession
call (commits envelope) s = let (r, s') = commit envelope s in (logged r (committed envelope), s')
call (completes n) s = let (r, s') = complete n s in (logged r (completed n), s')
call revokes s = (closed ∷ [], revoke s)

pub log : List Call → ArgusEndpointSession → List Event
log [] s = []
log (c ∷ cs) s = let (es, s') = call c s in es ++ log cs s'

-- The sequence number of the request number `k`, from zero: 1 to 2^32 - 1, and again.
abbrev pub number : ℕ → ℕ
number k = k % (2 ^ 32 - 1) + 1

-- A log in which requests follow one another, each completed before the next, until the end.
pub data Phase : Type 0 where
  idle flying over : Phase

abbrev pub Orderly : ArgusEndpointLease → ℕ → Phase → List Event → Type 0
Orderly l k p [] = Unit {0}
Orderly l k idle (committed e ∷ es) =
    (e ≡ bound_to l e.request) × (e.request.sequence ≡ number k) × Orderly l k flying es
Orderly l k flying (completed n ∷ es) = (n ≡ number k) × Orderly l (suc k) idle es
Orderly l k p (closed ∷ es) = Orderly l k over es
Orderly l k _ (committed e ∷ es) = ⊥
Orderly l k _ (completed n ∷ es) = ⊥

following-number : (k : ℕ) → following (number k) ≡ number (suc k)
unfolding following
following-number k = omega arith

record Agrees (l : ArgusEndpointLease) (k : ℕ) (p : Phase) (s : ArgusEndpointSession) : Type 0 where
  leased : s.lease ≡ l
  counted : s.next_sequence ≡ number k
  flies : s.in_flight ≡ elim p [ flying ↦ true | _ ↦ false ]
  ended : s.revoked ≡ elim p [ over ↦ true | _ ↦ false ]

validated :
    (e : ArgusIpcRequest) (s : ArgusEndpointSession) (u : Unit {0})
    → validate_envelope e s ≡ ok u
    → (e ≡ bound_to s.lease e.request) × (e.request.sequence ≡ s.next_sequence)
unfolding validate_envelope
validated e s u h = (ground arith, ground arith)

-- A commit that succeeds, and one that fails.
pub commit-cases :
    (e : ArgusIpcRequest) (s : ArgusEndpointSession)
    → ((commit e s ≡ (ok tt, record s { in_flight = true }))
        × (s.revoked ≡ false)
        × (s.in_flight ≡ false)
        × (e ≡ bound_to s.lease e.request)
        × (e.request.sequence ≡ s.next_sequence))
      ⊎ ((x : EndpointError) × (commit e s ≡ (err x, s)))
unfolding commit
commit-cases e s = elim (Bool-cases s.revoked) [
  | inl r ↦ inr (Endpoint.is_revoked, ground arith)
  | inr r ↦ elim (Result-cases (validate_envelope e s)) [
    | inr (x, v) ↦ inr (x, ground arith)
    | inl (u, v) ↦ elim (Bool-cases s.in_flight) [
      | inl f ↦ inr (Endpoint.busy, ground arith)
      | inr f ↦ inl (ground arith, r, f, (validated e s u v).0, (validated e s u v).1)
    ]
  ]
]

pub complete-cases :
    (n : ℕ) (s : ArgusEndpointSession)
    → ((complete n s
          ≡ (ok tt, record s { in_flight = false; next_sequence = following s.next_sequence }))
        × (s.in_flight ≡ true)
        × (n ≡ s.next_sequence))
      ⊎ ((x : EndpointError) × (complete n s ≡ (err x, s)))
unfolding complete
complete-cases n s = elim (Bool-cases s.in_flight) [
  | inr f ↦ inr (Endpoint.not_in_flight, ground arith)
  | inl f ↦ elim (Bool-cases (n == s.next_sequence)) [
    | inl e ↦ inl (ground arith, f, ground arith)
    | inr e ↦ inr (Endpoint.bad_sequence, ground arith)
  ]
]

takes_off :
    (l : ArgusEndpointLease) (k : ℕ) (s : ArgusEndpointSession)
    → Agrees l k idle s
    → Agrees l k flying (record s { in_flight = true })
takes_off l k s a = record { leased = a.leased; counted = a.counted; flies = refl; ended = a.ended }

lands :
    (l : ArgusEndpointLease) (k : ℕ) (s : ArgusEndpointSession)
    → Agrees l k flying s
    → Agrees l
        (suc k)
        idle
        (record s { in_flight = false; next_sequence = following s.next_sequence })
lands l k s a = record {
  leased = a.leased;
  counted = ap following a.counted ∙ following-number k;
  flies = refl;
  ended = a.ended;
}

closes :
    (l : ArgusEndpointLease) (k : ℕ) (p : Phase) (s : ArgusEndpointSession)
    → Agrees l k p s
    → Agrees l k over (revoke s)
unfolding revoke
closes l k p s a = record { leased = a.leased; counted = a.counted; flies = refl; ended = refl }

Orderly-log :
    (l : ArgusEndpointLease) (k : ℕ) (p : Phase) (s : ArgusEndpointSession)
    → Agrees l k p s
    → (cs : List Call) → Orderly l k p (log cs s)
unfolding log
Orderly-log l k p s a [] = tt
Orderly-log l k p s a (revokes ∷ cs) = Orderly-log l k over (revoke s) (closes l k p s a) cs
Orderly-log l k idle s a (commits e ∷ cs) = elim (commit-cases e s) [
  | inr (x, q) ↦ rw q (Orderly-log l k idle s a cs)
  | inl (q, r, f, b, n) ↦ rw q (
    b ∙ ap (λ m. bound_to m e.request) a.leased,
    n ∙ a.counted,
    Orderly-log l k flying (record s { in_flight = true }) (takes_off l k s a) cs,
  )
]
Orderly-log l k flying s a (commits e ∷ cs) = elim (commit-cases e s) [
  | inr (x, q) ↦ rw q (Orderly-log l k flying s a cs)
  | inl (q, r, f, b, n) ↦ absurd (ground (arith, f, a.flies))
]
Orderly-log l k over s a (commits e ∷ cs) = elim (commit-cases e s) [
  | inr (x, q) ↦ rw q (Orderly-log l k over s a cs)
  | inl (q, r, f, b, n) ↦ absurd (ground (arith, r, a.ended))
]
Orderly-log l k idle s a (completes n ∷ cs) = elim (complete-cases n s) [
  | inr (x, q) ↦ rw q (Orderly-log l k idle s a cs)
  | inl (q, f, e) ↦ absurd (ground (arith, f, a.flies))
]
Orderly-log l k flying s a (completes n ∷ cs) = elim (complete-cases n s) [
  | inr (x, q) ↦ rw q (Orderly-log l k flying s a cs)
  | inl (q, f, e) ↦ rw q (
    e ∙ a.counted,
    Orderly-log l (suc k) idle
        (record s { in_flight = false; next_sequence = following s.next_sequence }) (lands l k s a)
        cs,
  )
]
Orderly-log l k over s a (completes n ∷ cs) = elim (complete-cases n s) [
  | inr (x, q) ↦ rw q (Orderly-log l k over s a cs)
  | inl (q, f, e) ↦ absurd (ground (arith, f, a.flies))
]

new-Agrees : (l : ArgusEndpointLease) → Agrees l 0 idle (Endpoint.new l)
unfolding Endpoint.new
new-Agrees l = record { leased = refl; counted = refl; flies = refl; ended = refl }

-- In every history of commits, completions and revocations of a new endpoint session, the calls
-- that succeed alternate, a commit before its completion; the request with index k from zero
-- carries the number k mod (2^32 - 1) + 1 in both, each committed envelope is the one that the
-- lease binds to its request, and once the session is revoked none succeeds but further
-- revocations.
pub log-Orderly :
    (l : ArgusEndpointLease) (cs : List Call) → Orderly l 0 idle (log cs (Endpoint.new l))
log-Orderly l cs = Orderly-log l 0 idle (Endpoint.new l) (new-Agrees l) cs
