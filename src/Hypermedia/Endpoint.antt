-- ===== src/Hypermedia/Endpoint.antt =====
-- src/hypermedia.rs: the authority of Argus's endpoint and the session that admits its envelopes.
use slope.Base.{
  ℕ, ◌+◌, ◌^◌, ◌%◌, max, Bool, true, false, not, ◌&&◌, ◌||◌, ltb, leb, ◌==◌, ◌!=◌, Result, ok, err,
  if◌then◌else◌,
}
use slope.Hypermedia.Lease.{HttpIpcRequest, http_ipc_version}

abbrev pub argus_endpoint_version : ℕ
argus_endpoint_version = 1

abbrev pub argus_endpoint_owner : ℕ
argus_endpoint_owner = 3

pub record ArgusEndpointLease : Type 0 where
  pub version : ℕ
  pub owner : ℕ
  pub reserved : ℕ
  pub endpoint_capability : ℕ
  pub mapping_capability : ℕ
  pub generation : ℕ
  pub mapping_generation : ℕ
  pub expiry_epoch : ℕ

pub data EndpointError : Type 0 where
  invalid_lease wrong_owner expired is_revoked invalid_request wrong_endpoint wrong_mapping
        wrong_generation bad_sequence busy not_in_flight :
      EndpointError

unfoldable pub from_broker : ℕ → ℕ → ℕ → ℕ → ℕ → Result EndpointError ArgusEndpointLease
from_broker endpoint_capability mapping_capability generation mapping_generation expiry_epoch =
    if (endpoint_capability == 0)
      || (mapping_capability == 0)
      || (generation == 0)
      || (mapping_generation == 0)
      || (expiry_epoch == 0)
    then err invalid_lease
    else ok (record {
      version = argus_endpoint_version;
      owner = argus_endpoint_owner;
      reserved = 0;
      endpoint_capability = endpoint_capability;
      mapping_capability = mapping_capability;
      generation = generation;
      mapping_generation = mapping_generation;
      expiry_epoch = expiry_epoch;
    })

unfoldable pub valid_for : ℕ → ArgusEndpointLease → Bool
valid_for current_epoch l =
    (l.version == argus_endpoint_version)
    && (l.owner == argus_endpoint_owner)
    && (l.reserved == 0)
    && (l.endpoint_capability != 0)
    && (l.mapping_capability != 0)
    && (l.generation != 0)
    && (l.mapping_generation != 0)
    && ltb current_epoch l.expiry_epoch

pub record ArgusIpcRequest : Type 0 where
  pub version : ℕ
  pub reserved : ℕ
  pub endpoint_capability : ℕ
  pub mapping_capability : ℕ
  pub generation : ℕ
  pub mapping_generation : ℕ
  pub request : HttpIpcRequest

abbrev pub bound_to : ArgusEndpointLease → HttpIpcRequest → ArgusIpcRequest
bound_to l request = record {
  version = argus_endpoint_version;
  reserved = 0;
  endpoint_capability = l.endpoint_capability;
  mapping_capability = l.mapping_capability;
  generation = l.generation;
  mapping_generation = l.mapping_generation;
  request = request;
}

unfoldable pub authorize_request :
    HttpIpcRequest → ℕ → ArgusEndpointLease → Result EndpointError ArgusIpcRequest
authorize_request request current_epoch l =
    if (l.version != argus_endpoint_version) || (l.reserved != 0)
    then err invalid_lease
    else (if l.owner != argus_endpoint_owner
        then err wrong_owner
        else (if leb l.expiry_epoch current_epoch
            then err expired
            else (if (request.version != http_ipc_version) || (request.sequence == 0)
                then err invalid_request
                else ok (bound_to l request))))

pub record ArgusEndpointSession : Type 0 where
  pub lease : ArgusEndpointLease
  pub next_sequence : ℕ
  pub in_flight : Bool
  pub revoked : Bool

unfoldable pub new : ArgusEndpointLease → ArgusEndpointSession
new lease = record { lease = lease; next_sequence = 1; in_flight = false; revoked = false }

unfoldable pub prepare :
    HttpIpcRequest → ℕ → ArgusEndpointSession → Result EndpointError ArgusIpcRequest
unfolding authorize_request
prepare request current_epoch s =
    if s.revoked
    then err is_revoked
    else (if s.in_flight
        then err busy
        else (if request.sequence != s.next_sequence
            then err bad_sequence
            else authorize_request request current_epoch s.lease))

unfoldable pub validate_envelope :
    ArgusIpcRequest → ArgusEndpointSession → Result EndpointError (Unit {0})
validate_envelope envelope s =
    if (envelope.version != argus_endpoint_version) || (envelope.reserved != 0)
    then err invalid_request
    else (if envelope.endpoint_capability != s.lease.endpoint_capability
        then err wrong_endpoint
        else (if envelope.mapping_capability != s.lease.mapping_capability
            then err wrong_mapping
            else (if envelope.generation != s.lease.generation
                then err wrong_generation
                else (if envelope.mapping_generation != s.lease.mapping_generation
                    then err wrong_generation
                    else (if envelope.request.sequence != s.next_sequence
                        then err bad_sequence
                        else ok tt)))))

unfoldable pub commit :
    ArgusIpcRequest → ArgusEndpointSession → Result EndpointError (Unit {0}) × ArgusEndpointSession
commit envelope s =
    if s.revoked then (err is_revoked, s) else (elim (validate_envelope envelope s) [
      | err e ↦ (err e, s)
      | ok done ↦ if s.in_flight then (err busy, s) else (ok tt, record s { in_flight = true })
    ])

-- `wrapping_add(1).max(1)` on 32 bits.
unfoldable pub following : ℕ → ℕ
following n = max ((n + 1) % 2 ^ 32) 1

unfoldable pub complete :
    ℕ → ArgusEndpointSession → Result EndpointError (Unit {0}) × ArgusEndpointSession
unfolding following
complete sequence s =
    if not s.in_flight
    then (err not_in_flight, s)
    else (if sequence != s.next_sequence
        then (err bad_sequence, s)
        else (ok tt, record s { in_flight = false; next_sequence = following s.next_sequence }))

unfoldable pub revoke : ArgusEndpointSession → ArgusEndpointSession
revoke s = record s { revoked = true; in_flight = false }
