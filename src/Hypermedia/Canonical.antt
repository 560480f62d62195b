-- ===== src/Hypermedia/Canonical.antt =====
-- src/hypermedia.rs, `HttpsOrigin::new`: the hosts that it accepts.
use slope.Base.{
  ℕ, zero, suc, ◌-◌, ◌≤◌, ◌≡◌, refl, sym, ap, ◌∙◌, ◌≢◌, Bool, true, false, not, ◌&&◌, ◌||◌, ◌==◌,
  Bool-cases, Option, none, some, Option-cases, ok, err, ok-injective, inl, inr, List, [], ◌∷◌, map,
  all, length, get_or, ap₂, subst, subst, if◌then◌else◌, arith,
}
use slope.Hypermedia.Origin.{
  HttpsOrigin, HypermediaError, invalid_host, max_http_host_bytes, dot, dash, is_alphanumeric,
  is_host_byte, lower, scan, first_byte, last_byte, new,
}

-- The labels of a host: what stands between its dots.
prepend : ℕ → List (List ℕ) → List (List ℕ)
prepend byte [] = (byte ∷ []) ∷ []
prepend byte (label ∷ labels) = (byte ∷ label) ∷ labels

unfoldable pub labels : List ℕ → List (List ℕ)
unfolding prepend
labels [] = [] ∷ []
labels (byte ∷ bytes) =
    let rest = labels bytes in if byte == dot then [] ∷ rest else prepend byte rest

abbrev pub is_label_byte : ℕ → Bool
is_label_byte byte = is_alphanumeric byte || (byte == dash)

abbrev pub is_nonempty : List ℕ → Bool
is_nonempty [] = false
is_nonempty (byte ∷ bytes) = true

abbrev pub is_label : List ℕ → Bool
is_label label = is_nonempty label && all is_label_byte label

-- A host name of at most 48 bytes.
pub record IsHost (host : List ℕ) : Type 0 where
  pub room : length host ≤ max_http_host_bytes
  pub parts : all is_label (labels host) ≡ true
  pub start : first_byte host ≢ dash
  pub stop : last_byte host ≢ dash

accepts : Option Bool → Bool
accepts none = false
accepts (some previous_dot) = not previous_dot

judge : Bool → List (List ℕ) → Bool
judge previous_dot [] = true
judge previous_dot (label ∷ others) =
    (not previous_dot || is_nonempty label) && all is_label_byte label && all is_label others

judge-true : (parts : List (List ℕ)) → judge true parts ≡ all is_label parts
unfolding judge
judge-true [] = refl
judge-true (label ∷ others) = ground arith

judge-dot :
    (p : Bool) (parts : List (List ℕ)) → judge p ([] ∷ parts) ≡ (not p && all is_label parts)
unfolding judge
judge-dot p parts = ground arith

judge-prepend :
    (p : Bool) (byte : ℕ) (parts : List (List ℕ))
    → judge p (prepend byte parts) ≡ (is_label_byte byte && judge false parts)
unfolding judge prepend
judge-prepend p byte [] = ground arith
judge-prepend p byte (label ∷ others) = ground arith

accepts-scan : (p : Bool) (host : List ℕ) → accepts (scan p host) ≡ judge p (labels host)
unfolding accepts scan labels
accepts-scan p [] = unfold judge in ground arith
accepts-scan p (byte ∷ bytes) = elim (Bool-cases (byte == dot)) [
  | inl e ↦ rw e (
      ground
        (arith, judge-dot p (labels bytes), judge-true (labels bytes), accepts-scan true bytes))
  | inr e ↦ rw e (ground (arith, judge-prepend p byte (labels bytes), accepts-scan false bytes))
]

accepts-some : (o : Option Bool) → accepts o ≡ true → o ≡ some false
unfolding accepts
accepts-some none h = cc
accepts-some (some true) h = cc
accepts-some (some false) h = refl

scan-labels : (host : List ℕ) → all is_label (labels host) ≡ true → scan true host ≡ some false
unfolding accepts
scan-labels host h =
    accepts-some (scan true host) (accepts-scan true host ∙ judge-true (labels host) ∙ h)

labels-scan : (host : List ℕ) → scan true host ≡ some false → all is_label (labels host) ≡ true
unfolding accepts
labels-scan host h = sym (judge-true (labels host)) ∙ sym (accepts-scan true host) ∙ ap accepts h

pub new-IsHost : (host : List ℕ) → IsHost host → new host ≡ ok (record { host = map lower host })
unfolding new
new-IsHost [] h = absurd (unfold labels in (ground (arith, h.parts)))
new-IsHost (byte ∷ bytes) h =
    rw (scan-labels (byte ∷ bytes) h.parts) ground (arith, h.room, h.start, h.stop)

pub IsHost-new : (host : List ℕ) (o : HttpsOrigin) → new host ≡ ok o → IsHost host
unfolding new
IsHost-new host o h = elim (Option-cases (scan true host)) [
  | inl e ↦ absurd (ground arith)
  | inr (true, e) ↦ absurd (ground arith)
  | inr (false, e) ↦ record {
    room = ground arith;
    parts = labels-scan host e;
    start = ground arith;
    stop = ground arith;
  }
]

lower-lower : (byte : ℕ) → lower (lower byte) ≡ lower byte
lower-lower byte = ground arith

lower-host : (byte : ℕ) → is_host_byte (lower byte) ≡ is_host_byte byte
lower-host byte = ground arith

lower-dot : (byte : ℕ) → (lower byte == dot) ≡ (byte == dot)
lower-dot byte = ground arith

lower-dash : (byte : ℕ) → byte ≢ dash → lower byte ≢ dash
lower-dash byte h = ground arith

scan-lower : (p : Bool) (host : List ℕ) → scan p (map lower host) ≡ scan p host
unfolding scan
scan-lower p [] = refl
scan-lower p (byte ∷ bytes) =
    rw (lower-host byte, lower-dot byte, scan-lower (byte == dot) bytes) refl

pub map-lower-lower : (host : List ℕ) → map lower (map lower host) ≡ map lower host
map-lower-lower [] = refl
map-lower-lower (byte ∷ bytes) =
    ap₂ (λ (b : ℕ) (bs : List ℕ). b ∷ bs) (lower-lower byte) (map-lower-lower bytes)

pub length-map-lower : (host : List ℕ) → length (map lower host) ≡ length host
length-map-lower [] = refl
length-map-lower (byte ∷ bytes) = ap suc (length-map-lower bytes)

get_or-map-lower : (host : List ℕ) (i : ℕ) → get_or (map lower host) i 0 ≡ lower (get_or host i 0)
get_or-map-lower [] i = refl
get_or-map-lower (byte ∷ bytes) zero = refl
get_or-map-lower (byte ∷ bytes) (suc i) = get_or-map-lower bytes i

lower-IsHost : (host : List ℕ) → IsHost host → IsHost (map lower host)
lower-IsHost host h = record {
  room = omega (arith, length-map-lower host, h.room);
  parts = labels-scan (map lower host) (scan-lower true host ∙ scan-labels host h.parts);
  start = λ e. lower-dash (first_byte host) h.start (sym (get_or-map-lower host 0) ∙ e);
  stop = λ e. lower-dash (last_byte host) h.stop (
      sym (get_or-map-lower host (length host - 1))
      ∙ sym (ap (λ n. get_or (map lower host) (n - 1) 0) (length-map-lower host))
      ∙ e);
}

-- The host of an origin makes the same origin again.
pub new-host : (host : List ℕ) (o : HttpsOrigin) → new host ≡ ok o → new o.host ≡ ok o
new-host host o e =
    let k = IsHost-new host o e in
    let lowered : HttpsOrigin = record { host = map lower host } in
    let q : lowered ≡ o = ok-injective (sym (new-IsHost host k) ∙ e) in
    subst (λ (x : HttpsOrigin). new x.host ≡ ok x) q
      (new-IsHost (map lower host) (lower-IsHost host k)
        ∙ ap (λ (hs : List ℕ). ok (record { host = hs })) (map-lower-lower host))

pub new-refused : (host : List ℕ) (e : HypermediaError) → new host ≡ err e → e ≡ invalid_host
unfolding new
new-refused host e h = elim (Option-cases (scan true host)) [
  | inl n ↦ ground arith
  | inr (true, n) ↦ ground arith
  | inr (false, n) ↦ ground arith
]

-- HttpsOrigin::new makes an origin of exactly the hosts of at most 48 bytes whose parts between
-- the dots are not empty and hold only ASCII letters, digits and dashes, and which neither start
-- nor end with a dash; the origin holds the host in lower case, and every other host is refused
-- with InvalidHost.
pub new-accepts :
    (host : List ℕ)
    → (IsHost host → new host ≡ ok (record { host = map lower host }))
      × ((o : HttpsOrigin) → new host ≡ ok o → IsHost host)
      × ((e : HypermediaError) → new host ≡ err e → e ≡ invalid_host)
new-accepts host = (new-IsHost host, IsHost-new host, new-refused host)
