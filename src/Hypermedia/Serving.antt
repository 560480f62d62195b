-- ===== src/Hypermedia/Serving.antt =====
-- src/hypermedia.rs, `ArgusEndpointSession`: it serves one request after another.
use slope.Base.{ℕ, ◌<◌, ◌≡◌, refl, true, false, ok, inl, inr, List, [], ◌∷◌, arith}
use slope.Hypermedia.Lease.{HttpIpcRequest, http_ipc_version}
use slope.Hypermedia.Endpoint
use slope.Hypermedia.Endpoint.{
  ArgusEndpointLease, ArgusIpcRequest, ArgusEndpointSession, EndpointError, bound_to,
  authorize_request, validate_envelope, prepare, commit, complete, revoke, following,
}
use slope.Hypermedia.Gate.{Call, commits, completes, revokes, call, commit-cases, complete-cases}

unfoldable pub after : List Call → ArgusEndpointSession → ArgusEndpointSession
after [] s = s
after (c ∷ cs) s = after cs (call c s).1

record IsSession (l : ArgusEndpointLease) (s : ArgusEndpointSession) : Type 0 where
  leased : s.lease ≡ l
  counted : 0 < s.next_sequence

call-IsSession :
    (l : ArgusEndpointLease) (c : Call) (s : ArgusEndpointSession)
    → IsSession l s
    → IsSession l (call c s).1
unfolding commit complete following revoke
call-IsSession l (commits e) s h = elim (commit-cases e s) [
  | inr (x, q) ↦ rw q h
  | inl (q, r, f, b, n) ↦ rw q (record { leased = h.leased; counted = h.counted })
]
call-IsSession l (completes n) s h = elim (complete-cases n s) [
  | inr (x, q) ↦ rw q h
  | inl (q, f, e) ↦ rw q (record { leased = h.leased; counted = ground arith })
]
call-IsSession l revokes s h = record { leased = h.leased; counted = h.counted }

after-IsSession :
    (l : ArgusEndpointLease) (cs : List Call) (s : ArgusEndpointSession)
    → IsSession l s
    → IsSession l (after cs s)
unfolding after
after-IsSession l [] s h = h
after-IsSession l (c ∷ cs) s h = after-IsSession l cs (call c s).1 (call-IsSession l c s h)

Granted : ArgusEndpointLease → ℕ → Type 0
Granted l expiry = (l.version ≡ 1) × (l.owner ≡ 3) × (l.reserved ≡ 0) × (l.expiry_epoch ≡ expiry)

from_broker-Granted :
    (endpoint mapping generation mapping_generation expiry : ℕ) (l : ArgusEndpointLease)
    → Endpoint.from_broker endpoint mapping generation mapping_generation expiry ≡ ok l
    → Granted l expiry
unfolding Endpoint.from_broker Granted
from_broker-Granted endpoint mapping generation mapping_generation expiry l h =
    (ground arith, ground arith, ground arith, ground arith)

-- A request goes through the three calls.
abbrev pub Served : HttpIpcRequest → ℕ → ArgusEndpointSession → Type 0
Served request epoch s =
    (prepare request epoch s ≡ ok (bound_to s.lease request))
    × (commit (bound_to s.lease request) s ≡ (ok tt, record s { in_flight = true }))
    × ((complete request.sequence (record s { in_flight = true })).0 ≡ ok tt)

Granted-Served :
    (l : ArgusEndpointLease) (s : ArgusEndpointSession) (expiry epoch : ℕ)
    (request : HttpIpcRequest)
    → Granted l expiry
    → IsSession l s
    → epoch < expiry
    → (s.revoked ≡ false) × (s.in_flight ≡ false)
    → (request.version ≡ http_ipc_version) × (request.sequence ≡ s.next_sequence)
    → Served request epoch s
unfolding complete prepare authorize_request commit validate_envelope Granted
Granted-Served l s expiry epoch request g h e (r, f) (v, n) =
    (ground (arith, h.leased, h.counted), ground (arith, h.leased), ground arith)

-- After any history of a session whose lease came from the broker and has not expired, if the
-- session is neither revoked nor in flight, a request with the right version and the next
-- sequence number is prepared into its envelope, the envelope is committed, and the request
-- completes.
pub after-Served :
    (endpoint mapping generation mapping_generation expiry epoch : ℕ) (l : ArgusEndpointLease)
    (cs : List Call) (request : HttpIpcRequest)
    → Endpoint.from_broker endpoint mapping generation mapping_generation expiry ≡ ok l
    → epoch < expiry
    → ((after cs (Endpoint.new l)).revoked ≡ false)
      × ((after cs (Endpoint.new l)).in_flight ≡ false)
    → (request.version ≡ http_ipc_version)
      × (request.sequence ≡ (after cs (Endpoint.new l)).next_sequence)
    → Served request epoch (after cs (Endpoint.new l))
after-Served endpoint mapping generation mapping_generation expiry epoch l cs request h e rest
      next =
    Granted-Served l (after cs (Endpoint.new l)) expiry epoch request
      (from_broker-Granted endpoint mapping generation mapping_generation expiry l h)
      (after-IsSession l cs (Endpoint.new l)
        (unfold Endpoint.new in (record { leased = refl; counted = omega arith })))
      e rest next
