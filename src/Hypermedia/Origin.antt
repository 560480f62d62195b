-- ===== src/Hypermedia/Origin.antt =====
-- src/hypermedia.rs: budgets and origins. The array of a host is the list of its bytes in use; what
-- lies past them is zero in every origin, so that the derived equality compares these lists.
use slope.Base.{
  ℕ, ◌+◌, Bool, true, not, ◌&&◌, ◌||◌, ltb, leb, ◌==◌, ◌!=◌, Option, none, some, Result, ok, err,
  List, [], ◌∷◌, map, length, get_or, bytes_eq, if◌then◌else◌, ◌-◌,
}

abbrev pub max_http_host_bytes : ℕ
max_http_host_bytes = 48

abbrev pub max_http_path_bytes : ℕ
max_http_path_bytes = 128

abbrev pub max_http_request_bytes : ℕ
max_http_request_bytes = 2_048

abbrev pub max_http_response_bytes : ℕ
max_http_response_bytes = 32_768

abbrev pub max_tcp_segments : ℕ
max_tcp_segments = 32

pub data HypermediaError : Type 0 where
  not_https invalid_host invalid_path invalid_budget invalid_lease lease_expired lease_mismatch :
      HypermediaError

pub record HttpBudget : Type 0 where
  pub request_bytes : ℕ
  pub response_bytes : ℕ
  pub max_segments : ℕ
  pub yield_every_segments : ℕ

abbrev pub default_budget : HttpBudget
default_budget = record {
  request_bytes = 1_024;
  response_bytes = 16_384;
  max_segments = 16;
  yield_every_segments = 1;
}

unfoldable pub is_valid : HttpBudget → Bool
is_valid b =
    (b.request_bytes != 0)
    && leb b.request_bytes max_http_request_bytes
    && (b.response_bytes != 0)
    && leb b.response_bytes max_http_response_bytes
    && (b.max_segments != 0)
    && leb b.max_segments max_tcp_segments
    && (b.yield_every_segments != 0)
    && leb b.yield_every_segments b.max_segments

pub record HttpsOrigin : Type 0 where
  pub host : List ℕ

abbrev pub origin_eq : HttpsOrigin → HttpsOrigin → Bool
origin_eq a b = bytes_eq a.host b.host

abbrev pub dot : ℕ
dot = 46

abbrev pub dash : ℕ
dash = 45

-- `is_ascii_alphanumeric`, `to_ascii_lowercase` and `is_ascii_graphic`.
abbrev pub within : ℕ → ℕ → ℕ → Bool
within low high byte = leb low byte && leb byte high

abbrev pub is_alphanumeric : ℕ → Bool
is_alphanumeric byte = within 48 57 byte || within 65 90 byte || within 97 122 byte

abbrev pub lower : ℕ → ℕ
lower byte = if within 65 90 byte then byte + 32 else byte

abbrev pub is_graphic : ℕ → Bool
is_graphic byte = within 33 126 byte

abbrev pub is_host_byte : ℕ → Bool
is_host_byte byte = is_alphanumeric byte || (byte == dash) || (byte == dot)

-- The loop over the host: none at a byte that is refused, else whether the last one was a dot.
unfoldable pub scan : Bool → List ℕ → Option Bool
scan previous_dot [] = some previous_dot
scan previous_dot (byte ∷ bytes) =
    let rest = scan (byte == dot) bytes in
    if not (is_host_byte byte) || ((byte == dot) && previous_dot) then none else rest

-- `host[0]` and `host[host.len() - 1]`, for a host that is not empty.
abbrev pub first_byte : List ℕ → ℕ
first_byte bytes = get_or bytes 0 0

abbrev pub last_byte : List ℕ → ℕ
last_byte bytes = get_or bytes (length bytes - 1) 0

unfoldable pub new : List ℕ → Result HypermediaError HttpsOrigin
unfolding scan
new host =
    if (length host == 0) || ltb max_http_host_bytes (length host)
    then err invalid_host
    else (elim (scan true host) [
      | none ↦ err invalid_host
      | some previous_dot ↦
          if previous_dot || (first_byte host == dash) || (last_byte host == dash)
          then err invalid_host
          else ok (record { host = map lower host })
    ])
