-- ===== src/RateLimit/Texts.antt =====
-- The texts that the limiter reads and writes.
use edge_cdn.Base.{
  ℕ, zero, suc, ◌+◌, ◌-◌, ◌*◌, ◌/◌, ◌%◌, ◌<◌, ◌≡◌, ◌≢◌, refl, ap, ◌∙◌, inl, inr, true, false, [],
  ◌∷◌, ◌++◌, arith, ltb, ◌==◌, length, All, Bool-cases,
}
use edge_cdn.Base.Text.{Str}
use edge_cdn.RateLimit.{until_first, contains, until_last, extract_ip, itoa_loop, itoa}

abbrev pub pow10 : ℕ → ℕ
pow10 zero = 1
pow10 (suc n) = 10 * pow10 n

-- The number that decimal digits stand for.
pub value : Str → ℕ
value [] = 0
value (c ∷ s) = (c - 48) * pow10 (length s) + value s

ten_fold : (n p : ℕ) → (n / 10) * (10 * p) + (48 + n % 10 - 48) * p ≡ n * p
ten_fold n p =
    let e : n / 10 * 10 + (48 + n % 10 - 48) ≡ n = omega arith in
    omega (arith, ap (λ (w : ℕ). w * p) e)

value-itoa_loop :
    (room n : ℕ) (buf : Str)
    → n < pow10 room
    → value (itoa_loop room n buf) ≡ n * pow10 (length buf) + value buf
unfolding value itoa_loop
value-itoa_loop zero n buf h = let e : n ≡ 0 = omega arith in rw e (omega arith)
value-itoa_loop (suc room) n buf h =
    ground
      (arith, value-itoa_loop room (n / 10) ((48 + n % 10) ∷ buf), ten_fold n (pow10 (length buf)))

-- The digits that `itoa` writes for a number of at most 20 digits read back as the number.
pub value-itoa : (n : ℕ) → n < pow10 20 → value (itoa n) ≡ n
unfolding itoa value
value-itoa n h = elim (Bool-cases (n == 0)) [
  | inl z ↦ rw z (ground arith)
  | inr nz ↦ rw nz (value-itoa_loop 20 n [] h ∙ omega arith)
]

until_first-append :
    (c : ℕ) (s rest : Str) → All (λ x. x ≢ c) s → until_first c (s ++ (c ∷ rest)) ≡ s
unfolding until_first
until_first-append c [] rest a = ground arith
until_first-append c (x ∷ xs) rest a = ground (arith, until_first-append c xs rest a.1)

contains-append : (c : ℕ) (s rest : Str) → contains c (s ++ (c ∷ rest)) ≡ true
unfolding contains
contains-append c [] rest = ground arith
contains-append c (x ∷ xs) rest = ground (arith, contains-append c xs rest)

contains-All : (c : ℕ) (s : Str) → All (λ x. x ≢ c) s → contains c s ≡ false
unfolding contains
contains-All c [] a = refl
contains-All c (x ∷ xs) a = ground (arith, contains-All c xs a.1)

until_last-append :
    (c : ℕ) (s rest : Str) → All (λ x. x ≢ c) rest → until_last c (s ++ (c ∷ rest)) ≡ s
unfolding until_last
until_last-append c [] rest a = ground (arith, contains-All c rest a)
until_last-append c (x ∷ xs) rest a =
    ground (arith, until_last-append c xs rest a, contains-append c xs rest)

nonempty : (s rest : Str) (c : ℕ) → ltb 0 (length (s ++ (c ∷ rest))) ≡ true
nonempty [] rest c = ground arith
nonempty (x ∷ xs) rest c = ground arith

-- The client's address is the first of a forwarded list, and, where no header names it, the
-- peer's address without its port, also where the host has colons of its own.
pub extract_ip-address :
    (ip rest host port : Str)
    → All (λ x. x ≢ b',') ip
    → All (λ x. x ≢ b':') port
    → (extract_ip
          (record { x_forwarded_for = ip ++ (b',' ∷ rest); x_real_ip = rest; remote_addr = host })
        ≡ ip)
      × (extract_ip
            (record { x_forwarded_for = []; x_real_ip = []; remote_addr = host ++ (b':' ∷ port) })
          ≡ host)
unfolding extract_ip
extract_ip-address ip rest host port a b = (
  rw (nonempty ip rest b',') (until_first-append b',' ip rest a),
  until_last-append b':' host port b,
)
