-- ===== src/Timer/Clock.antt =====
-- driver/ntoskernel.h: the conversions from the times of the Windows drivers to jiffies. HZ, the
-- number of jiffies in a second, is a parameter, `long` has 64 bits.
use ndiswrapper.Base.{
  ℕ, zero, suc, ◌+◌, ◌-◌, ◌*◌, ◌/◌, ◌%◌, ◌^◌, ◌≤◌, ◌<◌, ◌≡◌, ap, ◌∙◌, arith, ℤ, pos, negsuc,
  wrap_long,
}

abbrev pub ticks_per_sec : ℕ
ticks_per_sec = 10000000

abbrev pub ticks_per_jiffy : ℕ → ℕ
ticks_per_jiffy hz = (ticks_per_sec + hz - 1) / hz

-- int_div_round on unsigned numbers of 64 bits.
abbrev pub int_div_round : ℕ → ℕ → ℕ
int_div_round x y = (x + (y - 1)) % 2 ^ 64 / y

pub ticks_1601 : ℕ → ℕ → ℕ → ℕ
ticks_1601 hz wrap_ticks_to_boot jiffies =
    (wrap_ticks_to_boot + jiffies * ticks_per_jiffy hz) % 2 ^ 64

-- SYSTEM_TIME_TO_HZ, where `now` is ticks_1601(): a time that is not positive counts from now.
pub system_time_to_hz : ℕ → ℕ → ℤ → ℕ
system_time_to_hz hz now (pos zero) = int_div_round 0 ticks_per_sec
system_time_to_hz hz now (negsuc n) = int_div_round (hz * suc n % 2 ^ 64) ticks_per_sec
system_time_to_hz hz now (pos (suc n)) =
    int_div_round (hz * ((suc n + (2 ^ 64 - now)) % 2 ^ 64) % 2 ^ 64) ticks_per_sec

-- The quotient of C, as a pattern of 64 bits.
abbrev pub signed_quotient : ℤ → ℕ → ℕ
signed_quotient (pos n) d = n / d
signed_quotient (negsuc n) d = (2 ^ 64 - suc n / d) % 2 ^ 64

-- MSEC_TO_HZ of a LONG, given as its pattern of 32 bits.
pub msec_to_hz : ℕ → ℕ → ℕ
unfolding wrap_long
msec_to_hz hz ms = signed_quotient (wrap_long (pos (ms * hz + 999))) 1000

rounds_up :
    (x : ℕ)
    → x < 2 ^ 63
    → (x ≤ int_div_round (x % 2 ^ 64) ticks_per_sec * 10000000)
      × (int_div_round (x % 2 ^ 64) ticks_per_sec * 10000000 < x + 10000000)
rounds_up x h = (omega arith, omega arith)

distance :
    (n late now : ℕ)
    → now < 2 ^ 64
    → suc n + late ≡ now
    → 1 ≤ late
    → (suc n + (2 ^ 64 - now)) % 2 ^ 64 ≡ 2 ^ 64 - late
distance n late now small e some_late = omega arith

-- A delay of `suc n` ticks of 100 ns, short enough that HZ times it stays below 2 ^ 63, becomes the
-- least number of jiffies that is not shorter.
pub relative_time_rounds_up :
    (hz now n : ℕ)
    → hz * suc n < 2 ^ 63
    → (hz * suc n ≤ system_time_to_hz hz now (negsuc n) * 10000000)
      × (system_time_to_hz hz now (negsuc n) * 10000000 < hz * suc n + 10000000)
unfolding system_time_to_hz
relative_time_rounds_up hz now n h = rounds_up (hz * suc n) h

-- A product with the wrapped distance, modulo 2 ^ 64.
negated_product : (hz m late : ℕ) → m + late ≡ 2 ^ 64 → hz * m + hz * late ≡ hz * 2 ^ 64
negated_product zero m late e = omega arith
negated_product (suc k) m late e = omega (arith, negated_product k m late e)

wrapped : (hz x c : ℕ) → x + c ≡ hz * 2 ^ 64 → 1 ≤ c → c ≤ 2 ^ 63 → x % 2 ^ 64 ≡ 2 ^ 64 - c
wrapped hz x c e some_c h = omega arith

rounded :
    (c : ℕ)
    → 10000000 ≤ c
    → c ≤ 2 ^ 63
    → 2 ^ 63 / 10000000 ≤ int_div_round (2 ^ 64 - c) ticks_per_sec
rounded c a b = omega arith

some_factor : (hz late : ℕ) → 1 ≤ hz * late → 1 ≤ late
some_factor hz zero h = absurd (omega arith)
some_factor hz (suc l) h = omega arith

-- An absolute time that has passed by at least one jiffy: where the delay is short enough that HZ
-- times it is at most 2 ^ 63, the timer becomes due only after 2 ^ 63 / 10 ^ 7 jiffies or more, and
-- not at once.
past_time_waits :
    (hz now n late : ℕ)
    → now < 2 ^ 64
    → suc n + late ≡ now
    → 10000000 ≤ hz * late
    → hz * late ≤ 2 ^ 63
    → 2 ^ 63 / 10000000 ≤ system_time_to_hz hz now (pos (suc n))
unfolding system_time_to_hz
past_time_waits hz now n late small e long short =
    let some_late : 1 ≤ late = some_factor hz late (omega arith) in
    let m : ℕ = 2 ^ 64 - late in
    let product : hz * m % 2 ^ 64 ≡ 2 ^ 64 - hz * late =
      wrapped hz (hz * m) (hz * late) (negated_product hz m late (omega arith)) (omega arith)
        short in
    let all : hz * ((suc n + (2 ^ 64 - now)) % 2 ^ 64) % 2 ^ 64 ≡ 2 ^ 64 - hz * late =
      ap (λ d. hz * d % 2 ^ 64) (distance n late now small e some_late) ∙ product in
    rw all (rounded (hz * late) long short)
