-- ===== src/Hypermedia/Tls.antt =====
-- src/hypermedia.rs: the trust anchor of one origin.
use slope.Base.{ℕ, not, ◌||◌, ◌==◌, ◌!=◌, Result, ok, err, List, replicate, bytes_eq, if◌then◌else◌}
use slope.Hypermedia.Origin.{HttpsOrigin, origin_eq, HypermediaError, invalid_lease}

pub data TlsTrustError : Type 0 where
  generation_mismatch origin_mismatch certificate_mismatch : TlsTrustError

pub record TlsTrustAnchor : Type 0 where
  pub origin : HttpsOrigin
  pub certificate_sha256 : List ℕ
  pub generation : ℕ

-- `TlsPeerIdentity` has the fields of an anchor.
abbrev pub TlsPeerIdentity : Type 0
TlsPeerIdentity = TlsTrustAnchor

unfoldable pub from_broker : HttpsOrigin → List ℕ → ℕ → Result HypermediaError TlsTrustAnchor
from_broker origin certificate generation =
    if (generation == 0) || bytes_eq certificate (replicate 32 0)
    then err invalid_lease
    else ok (record { origin = origin; certificate_sha256 = certificate; generation = generation })

unfoldable pub permits :
    HttpsOrigin → List ℕ → ℕ → TlsTrustAnchor → Result TlsTrustError TlsPeerIdentity
permits origin certificate generation anchor =
    if generation != anchor.generation
    then err generation_mismatch
    else (if not (origin_eq origin anchor.origin)
        then err origin_mismatch
        else (if not (bytes_eq certificate anchor.certificate_sha256)
            then err certificate_mismatch
            else ok (record {
              origin = origin;
              certificate_sha256 = certificate;
              generation = generation;
            })))
