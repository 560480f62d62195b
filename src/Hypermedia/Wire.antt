-- ===== src/Hypermedia/Wire.antt =====
-- src/hypermedia.rs: locations and envelopes carry a request without change.
use slope.Base.{
  ℕ, ◌≤◌, ◌<◌, ◌≡◌, refl, ap, ◌∙◌, subst, Bool, true, false, ◌==◌, Option-cases, some, Result, ok,
  ok_or, ◌>>=◌, ◌>>◌, ok-injective, bind_ok, guard_pass, inl, inr, List, [], ◌∷◌, ◌++◌, take, drop,
  length, copied, take-copied, length-append, strip_prefix, if◌then◌else◌, arith,
}
use slope.Hypermedia.Origin
use slope.Hypermedia.Origin.{
  HttpsOrigin, HttpBudget, HypermediaError, not_https, is_valid, first_byte, max_http_host_bytes,
  max_http_path_bytes,
}
use slope.Hypermedia.Canonical.{IsHost-new}
use slope.Hypermedia.Request
use slope.Hypermedia.Request.{HttpsRequest, slash, scheme, path_start, parse_location}
use slope.Hypermedia.Lease.{
  HttpLease, permits, HttpIpcRequest, request, wire_of, to_ipc_request, authorize_ipc,
}
use slope.Hypermedia.Bound.{IsRequest, new-IsRequest, new-made}

nonempty_host : (o : HttpsOrigin) → Origin.new o.host ≡ ok o → 0 < length o.host
unfolding Origin.new
nonempty_host o h = ground arith

nonempty_path : (r : HttpsRequest) → IsRequest r → 0 < length r.path
unfolding Request.new
nonempty_path r h = ground (arith, h.again)

-- An envelope that a lease made holds its request.
request-wire_of :
    (r : HttpsRequest) (sequence : ℕ) (l : HttpLease)
    → IsRequest r
    → request (wire_of r sequence l) ≡ ok r
unfolding request wire_of
request-wire_of r sequence l h =
    let room : length r.origin.host ≤ max_http_host_bytes =
      (IsHost-new r.origin.host r.origin h.canonical).room in
    let a = nonempty_host r.origin h.canonical in
    let b = nonempty_path r h in
    let c = h.room in
    let o : HttpsOrigin = r.origin in
    let first : Origin.new (take (length o.host) (copied max_http_host_bytes o.host)) ≡ ok o =
      ap Origin.new (take-copied o.host _) ∙ h.canonical in
    let second : Request.new o (take (length r.path) (copied max_http_path_bytes r.path)) r.budget
        ≡ ok r =
      ap (λ (p : List ℕ). Request.new o p r.budget) (take-copied r.path _) ∙ h.again in
    guard_pass _ _ _ (ground arith)
    ∙ ap
        (λ (x : Result HypermediaError HttpsOrigin). x >>= λ (y : HttpsOrigin).
          Request.new y (take (length r.path) (copied max_http_path_bytes r.path)) r.budget)
        first
    ∙ second

-- A request made from any host and path, put into an envelope by a lease that permits it, comes
-- out of authorize_ipc with the same lease and epoch unchanged, and the envelope carries the
-- sequence number given.
pub authorize-to_ipc_request :
    (host path : List ℕ) (b : HttpBudget) (o : HttpsOrigin) (r : HttpsRequest) (epoch sequence : ℕ)
    (l : HttpLease) (w : HttpIpcRequest)
    → Origin.new host ≡ ok o
    → Request.new o path b ≡ ok r
    → to_ipc_request r epoch sequence l ≡ ok w
    → (authorize_ipc w epoch l ≡ ok r) × (w.sequence ≡ sequence)
unfolding to_ipc_request authorize_ipc
authorize-to_ipc_request host path b o r epoch sequence l w e f h =
    let made = new-IsRequest host o path b r e f in
    let (u, p, q) = bind_ok (permits r epoch l) _ w h in
    let same : wire_of r sequence l ≡ w = ok-injective q in
    subst (λ (x : HttpIpcRequest). (authorize_ipc x epoch l ≡ ok r) × (x.sequence ≡ sequence)) same
      (
        guard_pass _ _ _ (unfold wire_of in (ground arith))
            ∙ ap
                (λ (x : Result HypermediaError HttpsRequest).
                  x >>= λ (y : HttpsRequest). permits y epoch l >> ok y)
                (request-wire_of r sequence l made)
            ∙ ap (λ (x : Result HypermediaError (Unit {0})). x >> ok r) p,
        unfold wire_of in refl,
      )

scan-path_start :
    (p q : Bool) (host rest : List ℕ)
    → Origin.scan p host ≡ some q
    → path_start (host ++ (slash ∷ rest)) ≡ length host
unfolding Origin.scan path_start
scan-path_start p q [] rest h = refl
scan-path_start p q (byte ∷ bytes) rest h =
    ground (arith, scan-path_start (byte == Origin.dot) q bytes rest)

take-append : (xs ys : List ℕ) → take (length xs) (xs ++ ys) ≡ xs
take-append xs ys = take-copied xs ys

drop-append : (xs ys : List ℕ) → drop (length xs) (xs ++ ys) ≡ ys
drop-append [] ys = refl
drop-append (x ∷ xs) ys = drop-append xs ys

-- `https://host/path`.
abbrev pub location_of : HttpsRequest → List ℕ
location_of r = scheme ++ (r.origin.host ++ r.path)

scan_host : (o : HttpsOrigin) → Origin.new o.host ≡ ok o → Origin.scan true o.host ≡ some false
unfolding Origin.new
scan_host o h = elim (Option-cases (Origin.scan true o.host)) [
  | inl e ↦ absurd (ground arith)
  | inr (true, e) ↦ absurd (ground arith)
  | inr (false, e) ↦ e
]

rest_of : (path : List ℕ) → first_byte path ≡ slash → (rest : List ℕ) × (path ≡ slash ∷ rest)
rest_of [] h = absurd (ground arith)
rest_of (byte ∷ bytes) h = (bytes, ap (λ (b : ℕ). b ∷ bytes) h)

path_start-location :
    (o : HttpsOrigin) (path : List ℕ)
    → Origin.new o.host ≡ ok o
    → first_byte path ≡ slash
    → path_start (o.host ++ path) ≡ length o.host
path_start-location o path h e =
    let (rest, q) = rest_of path e in
    ap (λ (p : List ℕ). path_start (o.host ++ p)) q
    ∙ scan-path_start true false o.host rest (scan_host o h)

parse-made : (r : HttpsRequest) → IsRequest r → parse_location (location_of r) r.budget ≡ ok r
unfolding parse_location
parse-made r h =
    let host : List ℕ = r.origin.host in
    let rest : List ℕ = host ++ r.path in
    let path_at : ℕ → List ℕ = λ n. if n == length rest then slash ∷ [] else drop n rest in
    let parsed_at : ℕ → Result HypermediaError HttpsRequest =
      λ n. Origin.new (take n rest) >>= λ (o : HttpsOrigin). Request.new o (path_at n) r.budget in
    let path_is : path_at (length host) ≡ r.path =
      ground (arith, length-append host r.path, nonempty_path r h, drop-append host r.path) in
    let origin_is : Origin.new (take (length host) rest) ≡ ok r.origin =
      ap Origin.new (take-append host r.path) ∙ h.canonical in
    ap parsed_at (path_start-location r.origin r.path h.canonical h.rooted)
    ∙ ap
        (λ (x : Result HypermediaError HttpsOrigin).
          x >>= λ (o : HttpsOrigin). Request.new o (path_at (length host)) r.budget)
        origin_is
    ∙ ap (λ (p : List ℕ). Request.new r.origin p r.budget) path_is
    ∙ h.again

parse-IsRequest :
    (location : List ℕ) (b : HttpBudget) (r : HttpsRequest)
    → parse_location location b ≡ ok r
    → IsRequest r × (r.budget ≡ b)
unfolding parse_location
parse-IsRequest location b r h =
    let (rest, e, g) = bind_ok (ok_or (strip_prefix scheme location) not_https) _ r h in
    let (o, f, k) = bind_ok (Origin.new (take (path_start rest) rest)) _ r g in
    let path : List ℕ =
      if path_start rest == length rest then slash ∷ [] else drop (path_start rest) rest in
    (
      new-IsRequest (take (path_start rest) rest) o path b r f k,
      ap (λ (x : HttpsRequest). x.budget) (new-made o path b r k),
    )

-- A location that parses to a request, written anew as the scheme, the host and the path of that
-- request, parses to the same request.
pub parse-location_of :
    (location : List ℕ) (b : HttpBudget) (r : HttpsRequest)
    → parse_location location b ≡ ok r
    → parse_location (location_of r) b ≡ ok r
parse-location_of location b r h =
    let (made, same) = parse-IsRequest location b r h in
    subst (λ (x : HttpBudget). parse_location (location_of r) x ≡ ok r) same (parse-made r made)
