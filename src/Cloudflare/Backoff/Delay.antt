-- ===== src/Cloudflare/Backoff/Delay.antt =====
-- Laws of `backoffDelay` (internal/cloudflare/send.go).
use cloudflare_smtp_relay.Shared.{
  ℕ, zero, suc, ◌+◌, ◌-◌, ◌*◌, ◌%◌, ◌^◌, ◌≤◌, ◌<◌, ◌≡◌, refl, sym, ap, ◌∙◌, inl, inr, Bool, true,
  false, ◌&&◌, ◌||◌, arith, ltb, if◌then◌else◌, ltb→lt, Bool-cases,
}
use cloudflare_smtp_relay.Shared.Int.{ℤ, pos, ltb_ℤ, leb_ℤ, signed64}
use native.Mathlib.Nat.{pow-suc, pow-le-pow_right}
use cloudflare_smtp_relay.Cloudflare.Backoff.{
  retry_base_delay, retry_cap_delay, shifted_base, max_delay, backoff_delay,
}

-- From the 65th attempt on the shift leaves nothing.
pow_mod_zero : (j : ℕ) → 2 ^ (j + 64) % 2 ^ 64 ≡ 0
pow_mod_zero zero = refl
pow_mod_zero (suc j) =
    let e : 2 ^ (suc j + 64) ≡ 2 ^ (j + 64) * 2 =
      let q : suc j + 64 ≡ suc (j + 64) = omega arith in rw q (pow-suc 2 (j + 64)) in
    omega (arith, pow_mod_zero j, e)

shifts_past_cap : ℕ → Bool
shifts_past_cap n =
    let d = signed64 (shifted_base (suc n)) in ltb_ℤ (pos retry_cap_delay) d || leb_ℤ d (pos 0)

-- Whether the shift goes past the cap at each of `k` attempts, from attempt `i + 1` on.
run_past_cap : ℕ → ℕ → Bool
run_past_cap zero i = true
run_past_cap (suc k) i = shifts_past_cap i && run_past_cap k (suc i)

run_past_cap-member : (k i j : ℕ) → j < k → run_past_cap k i ≡ true → shifts_past_cap (i + j) ≡ true
unfolding run_past_cap
run_past_cap-member zero i j lt run = absurd (omega arith)
run_past_cap-member (suc k) i zero lt run = let e : i + 0 ≡ i = omega arith in rw e (ground arith)
run_past_cap-member (suc k) i (suc j) lt run =
    let e : i + suc j ≡ suc i + j = omega arith in
    let later : run_past_cap k (suc i) ≡ true = ground arith in
    rw e (run_past_cap-member k (suc i) j (omega arith) later)

-- From the fifth attempt to the 64th the shifted delay is above the cap or not positive.
shift_table : run_past_cap 60 4 ≡ true
unfolding run_past_cap shifts_past_cap shifted_base
shift_table = refl

past_cap_late : (j : ℕ) → shifts_past_cap (j + 64) ≡ true
unfolding shifts_past_cap shifted_base
past_cap_late j = let q : suc (j + 64) - 1 ≡ j + 64 = omega arith in rw (q, pow_mod_zero j) refl

past_cap : (n : ℕ) → 4 ≤ n → shifts_past_cap n ≡ true
past_cap n h = elim (Bool-cases (ltb n 64)) [
  | inl early ↦
      let lt = ltb→lt n 64 early in
      let e : n ≡ 4 + (n - 4) = omega arith in
      rw e (run_past_cap-member 60 4 (n - 4) (omega arith) shift_table)
  | inr late ↦ let q : n ≡ n - 64 + 64 = ground arith in rw q (past_cap_late (n - 64))
]

-- 500 ms doubled `n` times, at most 5 s.
abbrev pub capped : ℕ → ℕ
capped n = let d = retry_base_delay * 2 ^ n in if ltb retry_cap_delay d then retry_cap_delay else d

sixteen_le : (n : ℕ) → 4 ≤ n → 2 ^ 4 ≤ 2 ^ n
sixteen_le n h = pow-le-pow_right (omega arith) h

capped_late : (n : ℕ) → 4 ≤ n → capped n ≡ retry_cap_delay
capped_late n h = ground (arith, sixteen_le n h)

max_delay_past : (n : ℕ) → shifts_past_cap n ≡ true → max_delay (suc n) ≡ pos retry_cap_delay
unfolding max_delay shifts_past_cap
max_delay_past n h = rw h

max_delay_early : (n : ℕ) → n < 4 → max_delay (suc n) ≡ pos (capped n)
unfolding max_delay shifted_base
max_delay_early zero h = refl
max_delay_early (suc zero) h = refl
max_delay_early (suc (suc zero)) h = refl
max_delay_early (suc (suc (suc zero))) h = refl
max_delay_early (suc (suc (suc (suc n)))) h = absurd (omega arith)

-- The cap of the jitter at attempt n + 1 is 500 ms doubled n times, at most 5 s: for every
-- attempt, also where the shift or the product leaves the 64 bits.
pub max_delay_lem : (n : ℕ) → max_delay (suc n) ≡ pos (capped n)
max_delay_lem n = elim (Bool-cases (ltb n 4)) [
  | inl early ↦ max_delay_early n (ltb→lt n 4 early)
  | inr late ↦
      let h : 4 ≤ n = ground arith in
      max_delay_past n (past_cap n h) ∙ ap pos (sym (capped_late n h))
]

mod-le : (a k : ℕ) → a % suc k ≤ k
mod-le a k = omega arith

capped-le : (n : ℕ) → capped n ≤ retry_cap_delay
capped-le n = ground arith

-- Where there is no positive Retry-After hint, the delay before attempt n + 2 is drawn from 0 up
-- to 500 ms doubled n times, both included, and is 5 s at most.
pub backoff_delay_lem :
    (drawn n : ℕ) (hint : ℤ)
    → ltb_ℤ (pos 0) hint ≡ false
    → (backoff_delay drawn (suc n) hint ≡ pos (drawn % suc (capped n)))
      × (drawn % suc (capped n) ≤ capped n)
      × (capped n ≤ retry_cap_delay)
unfolding backoff_delay
backoff_delay_lem drawn n hint h =
    rw (h, max_delay_lem n) (refl, mod-le drawn (capped n), capped-le n)
