-- ===== src/Kairos/Granted.antt =====
-- src/kairos.rs: what a program that has started may rely on.
use slope.Base.{
  ℕ, zero, suc, ◌≡◌, refl, sym, ap, subst, ◌∙◌, Bool, true, false, ◌||◌, ◌!=◌, Result, ok, map_err,
  bind_ok, guard_ok, ok-injective, map_err_ok, [], ◌∷◌, length, get_or, arith,
}
use slope.Kairos.Topology.{TopologySnapshot}
use slope.Kairos.Reply.{KairosError}
use slope.Kairos.Negotiation.{
  Word, both, either, inverse, some_bit, NegotiatedFeatures, AbiError, AbiNegotiator, AbiConstants,
  AbiRequest, request_of, AbiReply, require, want, check_reply, Kernel, negotiate, abi,
  topology_failed, KairosInit, run_with,
}

abbrev pub bit : Word → ℕ → Bool
bit w i = get_or w i false

bit-either : (a b : Word) (i : ℕ) → length a ≡ length b → bit (either a b) i ≡ (bit a i || bit b i)
bit-either [] [] i h = refl
bit-either [] (b ∷ ys) i h = absurd (omega arith)
bit-either (a ∷ xs) [] i h = absurd (omega arith)
bit-either (a ∷ xs) (b ∷ ys) zero h = refl
bit-either (a ∷ xs) (b ∷ ys) (suc i) h = bit-either xs ys i (omega arith)

-- A word without a bit outside another one.
bit_within :
    (a b : Word) (i : ℕ)
    → length a ≡ length b
    → some_bit (both a (inverse b)) ≡ false
    → bit a i ≡ true
    → bit b i ≡ true
bit_within [] ys i h n k = absurd (ground arith)
bit_within (a ∷ xs) [] i h n k = absurd (omega arith)
bit_within (a ∷ xs) (b ∷ ys) zero h n k = ground arith
bit_within (a ∷ xs) (b ∷ ys) (suc i) h n k = bit_within xs ys i (omega arith) (ground arith) k

length-either : (a b : Word) → length a ≡ length b → length (either a b) ≡ length a
length-either [] ys h = refl
length-either (a ∷ xs) [] h = absurd (omega arith)
length-either (a ∷ xs) (b ∷ ys) h = ap suc (length-either xs ys (omega arith))

-- Every bit of one word is in the other.
abbrev pub Within : Word → Word → Type 0
Within a b = (i : ℕ) → bit a i ≡ true → bit b i ≡ true

abbrev pub IsWord : Word → Type 0
IsWord w = length w ≡ 64

pub record IsNegotiator (n : AbiNegotiator) : Type 0 where
  pub required_lo : IsWord n.required_lo
  pub required_hi : IsWord n.required_hi
  pub optional_lo : IsWord n.optional_lo
  pub optional_hi : IsWord n.optional_hi

pub record IsReply (r : AbiReply) : Type 0 where
  pub granted_lo : IsWord r.features_lo_granted
  pub granted_hi : IsWord r.features_hi_granted

-- All that is required is granted, and no more than is asked for.
pub record IsGranted (n : AbiNegotiator) (f : NegotiatedFeatures) : Type 0 where
  pub enough_lo : Within n.required_lo f.granted_lo
  pub enough_hi : Within n.required_hi f.granted_hi
  pub asked_lo : Within f.granted_lo (either n.required_lo n.optional_lo)
  pub asked_hi : Within f.granted_hi (either n.required_hi n.optional_hi)

wide_either : (a b : Word) → IsWord a → IsWord b → IsWord (either a b)
wide_either a b h k = length-either a b (h ∙ sym k) ∙ h

check_reply-IsGranted :
    (n : AbiNegotiator) (r : AbiReply) (f : NegotiatedFeatures)
    → IsNegotiator n
    → IsReply r
    → check_reply n r ≡ ok f
    → IsGranted n f
unfolding check_reply
check_reply-IsGranted n r f v w h =
    let more_lo : Bool =
      some_bit (both r.features_lo_granted (inverse (either n.required_lo n.optional_lo))) in
    let more_hi : Bool =
      some_bit (both r.features_hi_granted (inverse (either n.required_hi n.optional_hi))) in
    let missing_lo : Word = both n.required_lo (inverse r.features_lo_granted) in
    let missing_hi : Word = both n.required_hi (inverse r.features_hi_granted) in
    let (within, g) = guard_ok ((r.status != 0) || more_lo || more_hi) _ _ f h in
    let (none_missing, e) = guard_ok (some_bit missing_lo || some_bit missing_hi) _ _ f g in
    subst (IsGranted n) (ok-injective e) (record {
      enough_lo = λ i k.
          bit_within n.required_lo r.features_lo_granted i (v.required_lo ∙ sym w.granted_lo)
            (ground (arith, none_missing)) k;
      enough_hi = λ i k.
          bit_within n.required_hi r.features_hi_granted i (v.required_hi ∙ sym w.granted_hi)
            (ground (arith, none_missing)) k;
      asked_lo = λ i k.
          bit_within r.features_lo_granted (either n.required_lo n.optional_lo) i
            (w.granted_lo
              ∙ sym (wide_either n.required_lo n.optional_lo v.required_lo v.optional_lo))
            (ground (arith, within)) k;
      asked_hi = λ i k.
          bit_within r.features_hi_granted (either n.required_hi n.optional_hi) i
            (w.granted_hi
              ∙ sym (wide_either n.required_hi n.optional_hi v.required_hi v.optional_hi))
            (ground (arith, within)) k;
    })

negotiate-IsGranted :
    (k : AbiConstants) (kernel : Kernel) (n : AbiNegotiator) (f : NegotiatedFeatures)
    → IsNegotiator n
    → ((m : AbiRequest) (r : AbiReply) → kernel m ≡ ok r → IsReply r)
    → negotiate k kernel n ≡ ok f
    → IsGranted n f
unfolding negotiate
negotiate-IsGranted k kernel n f v words h =
    let (r, e, g) = bind_ok (map_err AbiError.syscall_failed (kernel (request_of k n))) _ f h in
    check_reply-IsGranted n r f v
      (words (request_of k n) r (map_err_ok AbiError.syscall_failed (kernel (request_of k n)) r e))
      g

either-Within :
    (a b c : Word) → length a ≡ length b → Within (either a b) c → Within a c × Within b c
either-Within a b c h w = (
  (λ i k. w i (bit-either a b i h ∙ ground (arith, k))),
  (λ i k. w i (bit-either a b i h ∙ ground (arith, k))),
)

-- If the words of features have 64 bits, a program whose run_with succeeds has the topology that
-- was queried, every feature is granted that its negotiator or its caller requires, and no
-- feature is granted that neither of them requires or wants.
pub run_with-IsGranted :
    (constants : AbiConstants) (kernel : Kernel) (queried : Result KairosError TopologySnapshot)
    (n : AbiNegotiator) (required optional : Word) (init : KairosInit)
    → IsNegotiator n
    → IsWord required × IsWord optional
    → ((m : AbiRequest) (r : AbiReply) → kernel m ≡ ok r → IsReply r)
    → run_with constants kernel queried n required optional ≡ ok init
    → (queried ≡ ok init.topology)
      × (Within n.required_lo init.features.granted_lo × Within required init.features.granted_lo)
      × Within n.required_hi init.features.granted_hi
      × Within init.features.granted_lo
          (either (either n.required_lo required) (either n.optional_lo optional))
      × Within init.features.granted_hi (either n.required_hi n.optional_hi)
unfolding run_with require want
run_with-IsGranted constants kernel queried n required optional init v (wr, wo) words h =
    let m : AbiNegotiator = want optional (require required n) in
    let m-IsNegotiator : IsNegotiator m = record {
      required_lo = wide_either n.required_lo required v.required_lo wr;
      required_hi = v.required_hi;
      optional_lo = wide_either n.optional_lo optional v.optional_lo wo;
      optional_hi = v.optional_hi;
    } in
    let (f, e, g) = bind_ok (map_err abi (negotiate constants kernel m)) _ init h in
    let (t, q, k) = bind_ok (map_err topology_failed queried) _ init g in
    let granted =
      negotiate-IsGranted constants kernel m f m-IsNegotiator words
        (map_err_ok abi (negotiate constants kernel m) f e) in
    subst
      (λ (x : KairosInit).
        (queried ≡ ok x.topology)
        × (Within n.required_lo x.features.granted_lo × Within required x.features.granted_lo)
        × Within n.required_hi x.features.granted_hi
        × Within x.features.granted_lo
            (either (either n.required_lo required) (either n.optional_lo optional))
        × Within x.features.granted_hi (either n.required_hi n.optional_hi))
      (ok-injective k)
      (
        map_err_ok topology_failed queried t q,
        either-Within n.required_lo required f.granted_lo (v.required_lo ∙ sym wr)
            granted.enough_lo,
        granted.enough_hi,
        granted.asked_lo,
        granted.asked_hi,
      )
