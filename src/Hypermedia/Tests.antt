-- ===== src/Hypermedia/Tests.antt =====
-- Runs of src/hypermedia.rs, after its own tests.
use slope.Base.{ℕ, ◌≡◌, refl, arith, false, ok, err, List, [], ◌∷◌, ◌++◌, map}
use slope.Hypermedia.Origin
use slope.Hypermedia.Origin.{
  HttpsOrigin, HttpBudget, HypermediaError, default_budget, lower, is_valid, scan, invalid_host,
  not_https,
}
use slope.Hypermedia.Canonical.{IsHost, new-accepts}
use slope.Hypermedia.Request
use slope.Hypermedia.Request.{HttpsRequest, parse_location, scheme, path_start}
use slope.Hypermedia.Lease.{HttpLease, HttpIpcRequest, wire_of, to_ipc_request, authorize_ipc}
use slope.Hypermedia.Bound.{IsRequest, IsPermitted, authorize_ipc-IsPermitted}
use slope.Hypermedia.Wire.{location_of, authorize-to_ipc_request, parse-location_of}
use slope.Hypermedia.Endpoint
use slope.Hypermedia.Endpoint.{
  ArgusEndpointLease, ArgusEndpointSession, bound_to, prepare, commit, complete, revoke, following,
  validate_envelope, authorize_request,
}
use slope.Hypermedia.Gate.{Call, commits, completes, log, Orderly, idle, log-Orderly}
use slope.Hypermedia.Serving.{after, Served, after-Served}

-- `Ab.C`.
abbrev given_host : List ℕ
given_host = 65 ∷ 98 ∷ 46 ∷ 67 ∷ []

abbrev kept_host : List ℕ
kept_host = 97 ∷ 98 ∷ 46 ∷ 99 ∷ []

new-accepts_example :
    (IsHost given_host → Origin.new given_host ≡ ok (record { host = map lower given_host }))
    × ((o : HttpsOrigin) → Origin.new given_host ≡ ok o → IsHost given_host)
    × ((e : HypermediaError) → Origin.new given_host ≡ err e → e ≡ invalid_host)
new-accepts_example = new-accepts given_host

-- `/go`.
abbrev given_path : List ℕ
given_path = 47 ∷ 103 ∷ 111 ∷ []

abbrev given_origin : HttpsOrigin
given_origin = record { host = kept_host }

abbrev given_request : HttpsRequest
given_request = record { origin = given_origin; path = given_path; budget = default_budget }

abbrev given_lease : HttpLease
given_lease = record {
  capability = 17;
  generation = 4;
  origin = given_origin;
  budget = default_budget;
  expiry_epoch = 9;
}

made_origin : Origin.new given_host ≡ ok given_origin
unfolding Origin.new
made_origin = refl

made_request : Request.new given_origin given_path default_budget ≡ ok given_request
unfolding Request.new
made_request = refl

made_wire : to_ipc_request given_request 8 3 given_lease ≡ ok (wire_of given_request 3 given_lease)
unfolding to_ipc_request
made_wire = refl

parsed : parse_location (scheme ++ (given_host ++ given_path)) default_budget ≡ ok given_request
unfolding parse_location
parsed = refl

-- A plain location, and a port.
not_plain :
    parse_location (104 ∷ 116 ∷ 116 ∷ 112 ∷ 58 ∷ 47 ∷ 47 ∷ given_host) default_budget
    ≡ err not_https
unfolding parse_location
not_plain = refl

no_port :
    parse_location (scheme ++ (given_host ++ (58 ∷ 52 ∷ []))) default_budget ≡ err invalid_host
unfolding parse_location
no_port = refl

parse-location_of_example :
    parse_location (location_of given_request) default_budget ≡ ok given_request
parse-location_of_example =
    parse-location_of (scheme ++ (given_host ++ given_path)) default_budget given_request parsed

authorize-to_ipc_request_example :
    (authorize_ipc (wire_of given_request 3 given_lease) 8 given_lease ≡ ok given_request)
    × ((wire_of given_request 3 given_lease).sequence ≡ 3)
authorize-to_ipc_request_example =
    authorize-to_ipc_request given_host given_path default_budget given_origin given_request 8 3
      given_lease (wire_of given_request 3 given_lease) made_origin made_request made_wire

authorized : authorize_ipc (wire_of given_request 3 given_lease) 8 given_lease ≡ ok given_request
unfolding authorize_ipc wire_of
authorized = refl

authorize_ipc-IsPermitted_example :
    IsRequest given_request × IsPermitted given_request 8 given_lease
authorize_ipc-IsPermitted_example =
    authorize_ipc-IsPermitted (wire_of given_request 3 given_lease) 8 given_lease given_request
      authorized

abbrev endpoint_lease : ArgusEndpointLease
endpoint_lease = record {
  version = 1;
  owner = 3;
  reserved = 0;
  endpoint_capability = 5;
  mapping_capability = 6;
  generation = 7;
  mapping_generation = 8;
  expiry_epoch = 9;
}

abbrev numbered : ℕ → HttpIpcRequest
numbered n = record {
  version = 1;
  request_bytes = 1;
  response_bytes = 1;
  max_segments = 1;
  yield_every_segments = 1;
  capability = 17;
  generation = 4;
  sequence = n;
  expiry_epoch = 9;
  host_length = 1;
  path_length = 1;
  reserved = 0 ∷ 0 ∷ [];
  host = [];
  path = [];
}

abbrev exchange : List Call
exchange = commits (bound_to endpoint_lease (numbered 1)) ∷ completes 1 ∷ []

log-Orderly_example : Orderly endpoint_lease 0 idle (log exchange (Endpoint.new endpoint_lease))
log-Orderly_example = log-Orderly endpoint_lease exchange

endpoint_granted : Endpoint.from_broker 5 6 7 8 9 ≡ ok endpoint_lease
unfolding Endpoint.from_broker
endpoint_granted = refl

open_after :
    ((after exchange (Endpoint.new endpoint_lease)).revoked ≡ false)
    × ((after exchange (Endpoint.new endpoint_lease)).in_flight ≡ false)
unfolding after commit complete validate_envelope Endpoint.new
open_after = (refl, refl)

next_after :
    ((numbered 2).version ≡ 1)
    × ((numbered 2).sequence ≡ (after exchange (Endpoint.new endpoint_lease)).next_sequence)
unfolding after commit complete validate_envelope Endpoint.new following
next_after = (refl, refl)

after-Served_example : Served (numbered 2) 8 (after exchange (Endpoint.new endpoint_lease))
after-Served_example =
    after-Served 5 6 7 8 9 8 endpoint_lease exchange (numbered 2) endpoint_granted (omega arith)
      open_after next_after
