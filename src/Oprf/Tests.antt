-- ===== src/Oprf/Tests.antt =====
-- A group of three elements behind the OPRF, and the theorems at it.
use psi.Prelude.{
  ℕ, zero, suc, ◌+◌, ◌*◌, ◌%◌, ◌<◌, ◌≡◌, refl, true, false, Option, none, some, [], ◌∷◌, replicate,
  length, length-append, ◌++◌, ◌≤◌, subst, ◌/◌, ◌>>=◌, arith, ap, ◌∙◌, ◌==◌,
}
use psi.Prelude.Bytes.{Bytes}
use psi.Oprf.{
  Crypto, set_compare_length, new_server, new_client, blind, evaluate, finalize, finalize_simple,
  full_evaluate, simple_evaluate, hash_to_curve,
}
use psi.Oprf.Keys.{IsGroup}
use psi.Oprf.HashToCurve.{Tried, hash_to_curve-Tried}
use psi.UbPsi.Round.{IsOprf}
use psi.UbPsi.Basic.{basic_server, server_party, IsBasicClient, Hashes, basic_server-IsOprf}
use psi.Oprf.Unblinding.{finalize-evaluate-blind, finalize_simple-evaluate-blind}

data Z3 : Type 0 where
  infinity one two : Z3

double : Z3 → Z3
double infinity = infinity
double one = two
double two = one

act : ℕ → Z3 → Z3
act zero p = infinity
act (suc zero) p = p
act (suc (suc k)) p = double p

first_byte : Bytes → ℕ
first_byte [] = 0
first_byte (x ∷ xs) = x

octets : Z3 → Bytes
octets infinity = 0 ∷ []
octets one = 1 ∷ replicate 32 0
octets two = 2 ∷ replicate 32 0

point_of : ℕ → Z3
point_of zero = infinity
point_of (suc zero) = one
point_of (suc (suc k)) = two

-- Only the coordinates 3 and 4 have points.
coordinates : ℕ → Option Z3
coordinates x = elim (x == 3) [
  | true ↦ some one
  | false ↦ elim (x == 4) [ true ↦ some two | false ↦ none ]
]

abbrev toy : Crypto
toy = record {
  Point = Z3;
  field_prime = 5;
  order = 3;
  set_compressed_coordinates = coordinates;
  mul = λ k p. act (k % 3) p;
  point2oct = octets;
  oct2point = λ b. point_of (first_byte b);
  bin2bn = first_byte;
  bn2binpad = λ n. n ∷ replicate 31 0;
  mod_inverse = λ k n. k % 3;
  sha256 = λ b. (first_byte b + 1) ∷ [];
  digest = λ b. b ++ replicate 12 0;
}

IsFinite : Z3 → Type 0
IsFinite infinity = ⊥
IsFinite one = Unit {0}
IsFinite two = Unit {0}

double-act : (k : ℕ) (p : Z3) → k < 3 → act 2 (act k p) ≡ act ((2 * k) % 3) p
unfolding act double
double-act zero p h = refl
double-act (suc zero) p h = refl
double-act (suc (suc zero)) infinity h = refl
double-act (suc (suc zero)) one h = refl
double-act (suc (suc zero)) two h = refl
double-act (suc (suc (suc k))) p h = absurd (omega arith)

act_mod : (a b : ℕ) (p : Z3) → a < 3 → b < 3 → act a (act b p) ≡ act ((a * b) % 3) p
unfolding act
act_mod zero b p h k = ap (λ n. act n p) (let e : 0 ≡ (0 * b) % 3 = omega arith in e)
act_mod (suc zero) b p h k = ap (λ n. act n p) (let e : b ≡ (1 * b) % 3 = omega arith in e)
act_mod (suc (suc zero)) b p h k = double-act b p k
act_mod (suc (suc (suc a))) b p h k = absurd (omega arith)

product_mod : (q r b : ℕ) → r < 3 → (r * (b % 3)) % 3 ≡ ((3 * q + r) * b) % 3
product_mod q zero b h = let e : (3 * q + 0) * b ≡ 3 * (q * b) = grind arith in omega (arith, e)
product_mod q (suc zero) b h =
    let e : (3 * q + 1) * b ≡ 3 * (q * b) + b = grind arith in omega (arith, e)
product_mod q (suc (suc zero)) b h =
    let e : (3 * q + 2) * b ≡ 3 * (q * b) + 2 * b = grind arith in omega (arith, e)
product_mod q (suc (suc (suc r))) b h = absurd (omega arith)

product_mod_twice : (a b : ℕ) → ((a % 3) * (b % 3)) % 3 ≡ ((a * b) % 3) % 3
product_mod_twice a b =
    let whole : 3 * (a / 3) + a % 3 ≡ a = omega arith in
    product_mod (a / 3) (a % 3) b (omega arith)
    ∙ ap (λ n. (n * b) % 3) whole
    ∙ (let e : (a * b) % 3 ≡ ((a * b) % 3) % 3 = omega arith in e)

coordinates-IsFinite : (x : ℕ) {p : Z3} → coordinates x ≡ some p → IsFinite p
unfolding coordinates IsFinite
coordinates-IsFinite x {p = infinity} e = ground (arith, e)
coordinates-IsFinite x {p = one} e = tt
coordinates-IsFinite x {p = two} e = tt

act-IsFinite : (k : ℕ) (p : Z3) → 0 < k → k < 3 → IsFinite p → IsFinite (act k p)
unfolding act double IsFinite
act-IsFinite zero p h k f = absurd (omega arith)
act-IsFinite (suc zero) p h k f = f
act-IsFinite (suc (suc zero)) infinity h k f = elim f [ ]
act-IsFinite (suc (suc zero)) one h k f = tt
act-IsFinite (suc (suc zero)) two h k f = tt
act-IsFinite (suc (suc (suc n))) p h k f = absurd (omega arith)

own_inverse : (k : ℕ) → 0 < k → k < 3 → (k % 3 * k) % 3 ≡ 1
own_inverse zero h lt = absurd (omega arith)
own_inverse (suc zero) h lt = refl
own_inverse (suc (suc zero)) h lt = refl
own_inverse (suc (suc (suc k))) h lt = absurd (omega arith)

length-octets : (p : Z3) → IsFinite p → length (octets p) ≡ 33
unfolding octets IsFinite
length-octets infinity f = elim f [ ]
length-octets one f = refl
length-octets two f = refl

point_of-octets : (p : Z3) → point_of (first_byte (octets p)) ≡ p
unfolding point_of first_byte octets
point_of-octets infinity = refl
point_of-octets one = refl
point_of-octets two = refl

toy-IsGroup : IsGroup toy IsFinite
unfolding act first_byte
toy-IsGroup = record {
  order_pos = omega arith;
  coordinates-IsFinite = coordinates-IsFinite;
  mul-IsFinite = λ k p pos lt f.
      subst (λ n. IsFinite (act n p)) (let e : k ≡ k % 3 = omega (arith, lt) in e)
        (act-IsFinite k p pos lt f);
  mul_assoc = λ a b p.
      act_mod (a % 3) (b % 3) p (omega arith) (omega arith)
      ∙ ap (λ n. act n p) (product_mod_twice a b);
  mul_one = λ p. refl;
  length-point2oct = length-octets;
  oct2point-point2oct = point_of-octets;
  length-bn2binpad = λ k h. refl;
  bin2bn-bn2binpad = λ k h. refl;
  mod_inverse_lt = λ k. omega arith;
  mod_inverse_mul = own_inverse;
}

abbrev key : ℕ → Bytes
key n = n ∷ replicate 31 0

key_pos : (n : ℕ) → 0 < n % 3 → 0 < toy.bin2bn (key n) % 3
unfolding first_byte
key_pos n h = h

finalize-evaluate-blind_example :
    (new_server toy (key 2) >>= set_compare_length 2 >>= λ server.
    new_client toy (key 5) >>= set_compare_length 2 >>= λ client.
    blind toy client (1 ∷ []) >>= evaluate toy server >>= finalize toy client (1 ∷ []))
    ≡ (new_server toy (key 2) >>= set_compare_length 2 >>= λ server.
        full_evaluate toy server (1 ∷ []))
finalize-evaluate-blind_example =
    finalize-evaluate-blind toy IsFinite toy-IsGroup (key 2) (key 5) 2 (1 ∷ [])
      (refl, key_pos 2 (omega arith)) (refl, key_pos 5 (omega arith))

finalize_simple-evaluate-blind_test :
    (new_server toy (key 2) >>= set_compare_length 0 >>= λ server.
    new_client toy (key 5) >>= set_compare_length 0 >>= λ client.
    blind toy client (1 ∷ []) >>= evaluate toy server >>= finalize_simple toy client)
    ≡ (new_server toy (key 2) >>= set_compare_length 0 >>= λ server.
        simple_evaluate toy server (1 ∷ []))
finalize_simple-evaluate-blind_test =
    finalize_simple-evaluate-blind toy IsFinite toy-IsGroup (key 2) (key 5) 0 (1 ∷ [])
      (refl, key_pos 2 (omega arith)) (refl, key_pos 5 (omega arith))

hash_to_curve-Tried_test : Tried toy 100 2 (hash_to_curve toy (1 ∷ []))
unfolding first_byte
hash_to_curve-Tried_test = hash_to_curve-Tried toy (omega arith) (1 ∷ [])

digest_length : (b : Bytes) → 12 ≤ length (toy.digest b)
digest_length b = omega (arith, length-append b (replicate 12 0))

basic_server-IsOprf_example :
    IsOprf (basic_server toy (server_party toy (key 2))) (IsBasicClient toy) (Hashes toy)
basic_server-IsOprf_example =
    basic_server-IsOprf toy IsFinite toy-IsGroup digest_length (key 2)
      (refl, key_pos 2 (omega arith))
