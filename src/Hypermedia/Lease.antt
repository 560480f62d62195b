-- ===== src/Hypermedia/Lease.antt =====
-- src/hypermedia.rs: the broker's lease, and the record that carries a request to
-- Hermes.
use slope.Base.{
  ℕ, Bool, not, ◌||◌, ltb, leb, ◌==◌, ◌!=◌, Result, ok, err, ◌>>=◌, ◌>>◌, List, take, replicate,
  length, bytes_eq, copied, if◌then◌else◌,
}
use slope.Hypermedia.Origin
use slope.Hypermedia.Origin.{
  HttpsOrigin, origin_eq, HttpBudget, is_valid, HypermediaError, invalid_lease, lease_expired,
  lease_mismatch, max_http_host_bytes, max_http_path_bytes,
}
use slope.Hypermedia.Request
use slope.Hypermedia.Request.{HttpsRequest}

pub record HttpLease : Type 0 where
  pub capability : ℕ
  pub generation : ℕ
  pub origin : HttpsOrigin
  pub budget : HttpBudget
  pub expiry_epoch : ℕ

unfoldable pub from_broker : ℕ → ℕ → HttpsOrigin → HttpBudget → ℕ → Result HypermediaError HttpLease
unfolding is_valid
from_broker capability generation origin budget expiry_epoch =
    if (capability == 0) || (generation == 0) || (expiry_epoch == 0) || not (is_valid budget)
    then err invalid_lease
    else ok (record {
      capability = capability;
      generation = generation;
      origin = origin;
      budget = budget;
      expiry_epoch = expiry_epoch;
    })

-- A budget that one asks for more than another.
abbrev pub exceeds : HttpBudget → HttpBudget → Bool
exceeds asked limit =
    ltb limit.request_bytes asked.request_bytes
    || ltb limit.response_bytes asked.response_bytes
    || ltb limit.max_segments asked.max_segments
    || ltb limit.yield_every_segments asked.yield_every_segments

unfoldable pub permits : HttpsRequest → ℕ → HttpLease → Result HypermediaError (Unit {0})
permits request current_epoch l =
    if (l.capability == 0) || (l.generation == 0)
    then err invalid_lease
    else (if leb l.expiry_epoch current_epoch
        then err lease_expired
        else (if not (origin_eq request.origin l.origin) || exceeds request.budget l.budget
            then err lease_mismatch
            else ok tt))

abbrev pub http_ipc_version : ℕ
http_ipc_version = 1

pub record HttpIpcRequest : Type 0 where
  pub version : ℕ
  pub request_bytes : ℕ
  pub response_bytes : ℕ
  pub max_segments : ℕ
  pub yield_every_segments : ℕ
  pub capability : ℕ
  pub generation : ℕ
  pub sequence : ℕ
  pub expiry_epoch : ℕ
  pub host_length : ℕ
  pub path_length : ℕ
  pub reserved : List ℕ
  pub host : List ℕ
  pub path : List ℕ

-- The record of `to_ipc_request`, whose arrays start as zeros.
unfoldable pub wire_of : HttpsRequest → ℕ → HttpLease → HttpIpcRequest
wire_of request sequence l = record {
  version = http_ipc_version;
  request_bytes = request.budget.request_bytes;
  response_bytes = request.budget.response_bytes;
  max_segments = request.budget.max_segments;
  yield_every_segments = request.budget.yield_every_segments;
  capability = l.capability;
  generation = l.generation;
  sequence = sequence;
  expiry_epoch = l.expiry_epoch;
  host_length = length request.origin.host;
  path_length = length request.path;
  reserved = replicate 2 0;
  host = copied max_http_host_bytes request.origin.host;
  path = copied max_http_path_bytes request.path;
}

unfoldable pub to_ipc_request :
    HttpsRequest → ℕ → ℕ → HttpLease → Result HypermediaError HttpIpcRequest
unfolding permits wire_of
to_ipc_request request current_epoch sequence l =
    permits request current_epoch l >> ok (wire_of request sequence l)

abbrev pub wire_budget : HttpIpcRequest → HttpBudget
wire_budget w = record {
  request_bytes = w.request_bytes;
  response_bytes = w.response_bytes;
  max_segments = w.max_segments;
  yield_every_segments = w.yield_every_segments;
}

-- `HttpIpcRequest::request`.
unfoldable pub request : HttpIpcRequest → Result HypermediaError HttpsRequest
unfolding Origin.new Request.new
request w =
    if (w.version != http_ipc_version)
      || not (bytes_eq w.reserved (replicate 2 0))
      || (w.host_length == 0)
      || ltb max_http_host_bytes w.host_length
      || (w.path_length == 0)
      || ltb max_http_path_bytes w.path_length
    then err invalid_lease
    else (Origin.new (take w.host_length w.host) >>= λ origin.
        Request.new origin (take w.path_length w.path) (wire_budget w))

unfoldable pub authorize_ipc : HttpIpcRequest → ℕ → HttpLease → Result HypermediaError HttpsRequest
unfolding request permits
authorize_ipc w current_epoch l =
    if (w.version != http_ipc_version)
      || (w.capability != l.capability)
      || (w.generation != l.generation)
      || (w.expiry_epoch != l.expiry_epoch)
    then err lease_mismatch
    else (request w >>= λ r. permits r current_epoch l >> ok r)
