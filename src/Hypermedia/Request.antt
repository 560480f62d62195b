-- ===== src/Hypermedia/Request.antt =====
-- src/hypermedia.rs: requests, and the locations that they are parsed from. A path is the list of its
-- bytes in use.
use slope.Base.{
  ℕ, suc, not, ◌||◌, ltb, ◌==◌, ◌!=◌, Result, ok, err, ok_or, List, [], ◌∷◌, any, take, drop,
  length, strip_prefix, if◌then◌else◌, ◌>>=◌,
}
use slope.Hypermedia.Origin
use slope.Hypermedia.Origin.{
  HttpsOrigin, HttpBudget, is_valid, HypermediaError, invalid_path, invalid_budget, not_https,
  max_http_path_bytes, first_byte, is_graphic,
}

pub record HttpsRequest : Type 0 where
  pub origin : HttpsOrigin
  pub path : List ℕ
  pub budget : HttpBudget

abbrev pub slash : ℕ
slash = 47

unfoldable pub new : HttpsOrigin → List ℕ → HttpBudget → Result HypermediaError HttpsRequest
unfolding is_valid
new origin path budget =
    if (length path == 0)
      || ltb max_http_path_bytes (length path)
      || (first_byte path != slash)
      || not (is_valid budget)
    then err (if is_valid budget then invalid_path else invalid_budget)
    else (if any (λ byte. not (is_graphic byte) || (byte == 35)) path
        then err invalid_path
        else ok (record { origin = origin; path = path; budget = budget }))

-- `b"https://"`.
abbrev pub scheme : List ℕ
scheme = 104 ∷ 116 ∷ 116 ∷ 112 ∷ 115 ∷ 58 ∷ 47 ∷ 47 ∷ []

-- `position(|byte| *byte == b'/').unwrap_or(len)`.
unfoldable pub path_start : List ℕ → ℕ
path_start [] = 0
path_start (byte ∷ bytes) = let rest = path_start bytes in if byte == slash then 0 else suc rest

unfoldable pub parse_location : List ℕ → HttpBudget → Result HypermediaError HttpsRequest
unfolding Origin.new new path_start
parse_location location budget = ok_or (strip_prefix scheme location) not_https >>= λ remainder.
    let split : ℕ = path_start remainder in
    Origin.new (take split remainder) >>= λ origin.
    new origin (if split == length remainder then slash ∷ [] else drop split remainder) budget
