-- ===== src/Executor/Config/StorageFees.antt =====
-- The storage fees against the sum of the price of every second since the last payment.
use tycho_vm.Prelude.{
  ℕ, zero, suc, ◌+◌, ◌-◌, ◌*◌, ◌^◌, ◌≤◌, ◌<◌, ◌≡◌, refl, ◌∙◌, inl, inr, min, max, Bool, false, List,
  [], ◌∷◌, reverse, arith, ltb, leb, Bool-cases, if◌then◌else◌, ◌==◌,
}
use tycho_vm.Executor.Config.{
  StoragePrices, StorageInfo, ParsedConfig, fee_loop, fee_per_second, compute_storage_fees,
  shift_ceil_price, u128_max, sub_u32, saturating_add_u128, saturating_mul_u128,
}

-- The price of the second that starts at `t`: by the most recent entry that holds then, zero before all of them. The
-- list has the most recent entry first.
pub rate_at : (StoragePrices → ℕ) → List StoragePrices → ℕ → ℕ
rate_at rate [] t = 0
rate_at rate (p ∷ ps) t = if leb p.utime_since t then rate p else rate_at rate ps t

-- The sum of `f` over the `n` seconds that start at `from`.
pub accrued : (ℕ → ℕ) → ℕ → ℕ → ℕ
accrued f from zero = 0
accrued f from (suc n) = accrued f from n + f (from + n)

accrued-cong :
    (f g : ℕ → ℕ) (from n : ℕ)
    → ((t : ℕ) → from ≤ t → t < from + n → f t ≡ g t)
    → accrued f from n ≡ accrued g from n
unfolding accrued
accrued-cong f g from zero same = refl
accrued-cong f g from (suc n) same = omega (
  arith,
  accrued-cong f g from n (λ t l h. same t l (omega arith)),
  same (from + n) (omega arith) (omega arith),
)

-- A constant rate over the last seconds.
accrued-const :
    (f : ℕ → ℕ) (from a n r : ℕ)
    → ((t : ℕ) → from + a ≤ t → t < from + (a + n) → f t ≡ r)
    → accrued f from (a + n) ≡ accrued f from a + r * n
unfolding accrued
accrued-const f from a zero r same = grind arith
accrued-const f from a (suc n) r same = grind (
  arith,
  accrued-const f from a n r (λ t h k. same t h (omega arith)),
  same (from + (a + n)) (omega arith) (omega arith),
)

rate_at-on :
    (rate : StoragePrices → ℕ) (p : StoragePrices) (ps : List StoragePrices) (t : ℕ)
    → p.utime_since ≤ t
    → rate_at rate (p ∷ ps) t ≡ rate p
unfolding rate_at
rate_at-on rate p ps t h = ground arith

rate_at-before :
    (rate : StoragePrices → ℕ) (p : StoragePrices) (ps : List StoragePrices) (t : ℕ)
    → t < p.utime_since
    → rate_at rate (p ∷ ps) t ≡ rate_at rate ps t
unfolding rate_at
rate_at-before rate p ps t h = ground arith

-- The segment of the first entry, from the last payment or from its own start.
accrued-segment :
    (rate : StoragePrices → ℕ) (p : StoragePrices) (ps : List StoragePrices) (last upto : ℕ)
    → p.utime_since ≤ upto
    → last ≤ upto
    → accrued (rate_at rate (p ∷ ps)) last (upto - last)
      ≡ accrued (rate_at rate ps) last (p.utime_since - last)
        + rate p * (upto - max p.utime_since last)
accrued-segment rate p ps last upto h k =
    let a = p.utime_since - last in
    let n = upto - max p.utime_since last in
    let whole : upto - last ≡ a + n = omega arith in
    let const =
      accrued-const (rate_at rate (p ∷ ps)) last a n (rate p)
        (λ t l _. rate_at-on rate p ps t (omega arith)) in
    let before =
      accrued-cong (rate_at rate (p ∷ ps)) (rate_at rate ps) last a
        (λ t l m. rate_at-before rate p ps t (omega arith)) in
    rw whole (const ∙ rw before refl)

accrued-start : (f : ℕ → ℕ) (from n : ℕ) → n ≡ 0 → accrued f from n ≡ 0
unfolding accrued
accrued-start f from zero h = refl
accrued-start f from (suc n) h = omega arith

accrued-none : (rate : StoragePrices → ℕ) (from n : ℕ) → accrued (rate_at rate []) from n ≡ 0
unfolding accrued rate_at
accrued-none rate from zero = refl
accrued-none rate from (suc n) = omega (arith, accrued-none rate from n)

-- The loop charges every second from the last payment to `upto` by the entry that holds then, and stops at the largest
-- `u128`: whatever the order of the entries is.
fee_loop_lem :
    (rate : StoragePrices → ℕ) (last upto total : ℕ) (ps : List StoragePrices)
    → last ≤ upto
    → upto < 2 ^ 32
    → total ≤ u128_max
    → fee_loop rate last ps upto total
      ≡ min (total + accrued (rate_at rate ps) last (upto - last)) u128_max
unfolding fee_loop
fee_loop_lem rate last upto total [] h k l = omega (arith, accrued-none rate last (upto - last))
fee_loop_lem rate last upto total (p ∷ ps) h k l = elim (Bool-cases (ltb upto p.utime_since)) [
  | inl future ↦
      let none =
        accrued-cong (rate_at rate (p ∷ ps)) (rate_at rate ps) last (upto - last)
          (λ t _ m. rate_at-before rate p ps t (ground arith)) in
      rw future (rw none (fee_loop_lem rate last upto total ps h k l))
  | inr begun ↦
      let since : p.utime_since ≤ upto = ground arith in
      let total' =
        saturating_add_u128 total
          (saturating_mul_u128 (rate p) (sub_u32 upto (max p.utime_since last))) in
      let delta : sub_u32 upto (max p.utime_since last) ≡ upto - max p.utime_since last =
        omega arith in
      let segment = accrued-segment rate p ps last upto since h in
      elim (Bool-cases (leb p.utime_since last)) [
        | inl all ↦
            let first =
              accrued-start (rate_at rate ps) last (p.utime_since - last) (ground arith) in
            rw begun (rw all (rw delta (rw segment (omega (arith, first)))))
        | inr part ↦
            let older =
              fee_loop_lem rate last p.utime_since total' ps (ground arith) (omega arith)
                (omega arith) in
            rw begun (rw part (rw older (rw delta (rw segment (omega arith)))))
      ]
]

-- The storage fees of an ordinary account that was last paid at a time before `now`, where the oldest entry of the
-- prices started before `now`: the price of every second since the last payment, by the entry that holds in that second,
-- summed, bounded by the largest `u128` and rounded up to whole units. Times are `u32` numbers.
pub compute_storage_fees_lem :
    (c : ParsedConfig) (stat : StorageInfo) (now : ℕ) (is_masterchain : Bool)
    (oldest : StoragePrices) (rest : List StoragePrices)
    → c.storage_prices ≡ oldest ∷ rest
    → oldest.utime_since < now
    → 0 < stat.last_paid
    → stat.last_paid < now
    → now < 2 ^ 32
    → compute_storage_fees c stat now false is_masterchain
      ≡ shift_ceil_price (
          min
            (accrued
              (rate_at (fee_per_second is_masterchain stat) (reverse (oldest ∷ rest)))
              stat.last_paid
              (now - stat.last_paid))
            u128_max)
unfolding compute_storage_fees
compute_storage_fees_lem c stat now is_masterchain oldest rest prices begun paid past bound =
    let rate = fee_per_second is_masterchain stat in
    let entries = reverse (oldest ∷ rest) in
    let charged : fee_loop rate stat.last_paid entries now 0
        ≡ min (accrued (rate_at rate entries) stat.last_paid (now - stat.last_paid)) u128_max =
      omega
        (arith, fee_loop_lem rate stat.last_paid now 0 entries (omega arith) bound (omega arith)) in
    let due : leb now stat.last_paid ≡ false = ground arith in
    let known : (stat.last_paid == 0) ≡ false = ground arith in
    let started : leb now oldest.utime_since ≡ false = ground arith in
    rw due (rw known (rw prices (rw started (rw charged refl))))
