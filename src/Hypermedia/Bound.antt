-- ===== src/Hypermedia/Bound.antt =====
-- src/hypermedia.rs, `HttpsRequest` and `HttpLease`: what a request and a lease let through.
use slope.Base.{
  ℕ, ◌≤◌, ◌<◌, ◌≡◌, sym, ap, ◌∙◌, subst, ◌≢◌, true, false, not, ◌||◌, ◌==◌, ok, ok-injective,
  bind_ok, guard_ok, List, any, take, length, bytes_eq_sound, arith,
}
use slope.Hypermedia.Origin
use slope.Hypermedia.Origin.{
  HttpsOrigin, HttpBudget, HypermediaError, is_valid, origin_eq, max_http_path_bytes,
  max_http_request_bytes, max_http_response_bytes, max_tcp_segments, first_byte, is_graphic,
}
use slope.Hypermedia.Canonical.{new-host}
use slope.Hypermedia.Request
use slope.Hypermedia.Request.{HttpsRequest, slash}
use slope.Hypermedia.Lease.{HttpLease, permits, HttpIpcRequest, request, authorize_ipc, wire_budget}

-- The bounds of a budget.
pub record IsBudget (b : HttpBudget) : Type 0 where
  pub request : (0 < b.request_bytes) × (b.request_bytes ≤ max_http_request_bytes)
  pub response : (0 < b.response_bytes) × (b.response_bytes ≤ max_http_response_bytes)
  pub segments : (0 < b.max_segments) × (b.max_segments ≤ max_tcp_segments)
  pub yields : (0 < b.yield_every_segments) × (b.yield_every_segments ≤ b.max_segments)

is_valid-IsBudget : (b : HttpBudget) → is_valid b ≡ true → IsBudget b
unfolding is_valid
is_valid-IsBudget b h = record {
  request = ground arith;
  response = ground arith;
  segments = ground arith;
  yields = ground arith;
}

-- A request that its constructors made.
pub record IsRequest (r : HttpsRequest) : Type 0 where
  pub canonical : Origin.new r.origin.host ≡ ok r.origin
  pub again : Request.new r.origin r.path r.budget ≡ ok r
  pub room : length r.path ≤ max_http_path_bytes
  pub rooted : first_byte r.path ≡ slash
  pub visible : any (λ byte. not (is_graphic byte) || (byte == 35)) r.path ≡ false
  pub budgeted : IsBudget r.budget

abbrev pub made : HttpsOrigin → List ℕ → HttpBudget → HttpsRequest
made o p b = record { origin = o; path = p; budget = b }

pub new-made :
    (o : HttpsOrigin) (p : List ℕ) (b : HttpBudget) (r : HttpsRequest)
    → Request.new o p b ≡ ok r
    → r ≡ made o p b
unfolding Request.new
new-made o p b r h = ground arith

made-IsRequest :
    (o : HttpsOrigin) (p : List ℕ) (b : HttpBudget)
    → Origin.new o.host ≡ ok o
    → Request.new o p b ≡ ok (made o p b)
    → IsRequest (made o p b)
unfolding Request.new
made-IsRequest o p b canonical h = record {
  canonical = canonical;
  again = h;
  room = ground arith;
  rooted = ground arith;
  visible = ground arith;
  budgeted = is_valid-IsBudget b (ground arith);
}

pub new-IsRequest :
    (host : List ℕ) (o : HttpsOrigin) (p : List ℕ) (b : HttpBudget) (r : HttpsRequest)
    → Origin.new host ≡ ok o
    → Request.new o p b ≡ ok r
    → IsRequest r
new-IsRequest host o p b r e h =
    let q = new-made o p b r h in
    subst IsRequest (sym q)
      (made-IsRequest o p b (new-host host o e) (h ∙ ap (λ (x : HttpsRequest). ok x) q))

-- A request that an envelope carries.
pub request-IsRequest : (w : HttpIpcRequest) (r : HttpsRequest) → request w ≡ ok r → IsRequest r
unfolding request
request-IsRequest w r h =
    let (t, g) = guard_ok _ _ _ r h in
    let (o, e, f) = bind_ok (Origin.new (take w.host_length w.host)) _ r g in
    new-IsRequest (take w.host_length w.host) o (take w.path_length w.path) (wire_budget w) r e f

pub record IsWithin (b limit : HttpBudget) : Type 0 where
  pub request : b.request_bytes ≤ limit.request_bytes
  pub response : b.response_bytes ≤ limit.response_bytes
  pub segments : b.max_segments ≤ limit.max_segments
  pub yields : b.yield_every_segments ≤ limit.yield_every_segments

-- What a lease permits.
pub record IsPermitted (r : HttpsRequest) (epoch : ℕ) (l : HttpLease) : Type 0 where
  pub alive : epoch < l.expiry_epoch
  pub held : (l.capability ≢ 0) × (l.generation ≢ 0)
  pub same : r.origin ≡ l.origin
  pub bounded : IsWithin r.budget l.budget

permits-IsPermitted :
    (r : HttpsRequest) (epoch : ℕ) (l : HttpLease)
    → permits r epoch l ≡ ok tt
    → IsPermitted r epoch l
unfolding permits
permits-IsPermitted r epoch l h = record {
  alive = ground arith;
  held = (ground arith, ground arith);
  same =
      ap (λ (hs : List ℕ). record { host = hs })
        (bytes_eq_sound r.origin.host l.origin.host (ground arith));
  bounded = record {
    request = ground arith;
    response = ground arith;
    segments = ground arith;
    yields = ground arith;
  };
}

-- Whatever an envelope holds, a request that authorize_ipc returns has a canonical origin equal
-- to that of the lease, a path of at most 128 visible bytes without a fragment that starts with a
-- slash, and a budget within the limits of the protocol and of the lease; the lease has a
-- capability and a generation and has not expired.
pub authorize_ipc-IsPermitted :
    (w : HttpIpcRequest) (epoch : ℕ) (l : HttpLease) (r : HttpsRequest)
    → authorize_ipc w epoch l ≡ ok r
    → IsRequest r × IsPermitted r epoch l
unfolding authorize_ipc
authorize_ipc-IsPermitted w epoch l r h =
    let (t, g) = guard_ok _ _ _ r h in
    let (q, e, f) = bind_ok (request w) _ r g in
    let (u, p, k) = bind_ok (permits q epoch l) _ r f in
    let same : q ≡ r = ok-injective k in
    (
      request-IsRequest w r (e ∙ k),
      subst (λ x. IsPermitted x epoch l) same (permits-IsPermitted q epoch l p),
    )
