-- ===== src/Vm/GasOps/Price.antt =====
-- What gas costs, and how much of it an amount buys (vm/src/instr/gasops.rs).
use native.Mathlib.Nat.{mul-le-mul_right}
use tycho_vm.Prelude.{
  ℕ, zero, suc, ◌+◌, ◌*◌, ◌^◌, ◌≤◌, ◌<◌, ◌≡◌, refl, ap, ◌∙◌, arith, Bool, true, false, ◌||◌, leb,
  if◌then◌else◌, ok, ◌∷◌, length, List, >>=-ok, gets, Action, ◌>>◌, ◌>>=◌,
}
use tycho_vm.Prelude.Int.{ℤ, pos, negsuc, pos_part, neg_part, leb_ℤ, ◌+ℤ◌, +ℤ_parts, i64_max}
use tycho_vm.Prelude.Int.Mul.{nat_abs, is_zero_ℤ, same_sign, ◌*ℤ◌, pos_part-*ℤ, neg_part-*ℤ}
use tycho_vm.Vm.Error.{VmError}
use tycho_vm.Vm.Stack.Values.{StackValue, into_int}
use tycho_vm.Vm.Stack.Basic.{Stack, max_depth, push_int, pop}
use tycho_vm.Vm.Stack.Room.{push_raw-ok}
use tycho_vm.Vm.Stack.Typed.{pop_int}
use tycho_vm.Vm.State.{VmState, on_stack, on_stack-ok}
use tycho_vm.Vm.StackOps.Loops.{done}
use tycho_vm.Vm.ArithOps.Division.{DivOps}
use tycho_vm.Vm.ArithOps.Division.Rounding.{DivLaws, pow2-nonzero}
use tycho_vm.Vm.GasOps.{capped, bought, limit_bought, gas_for, exec_gram_to_gas}

-- The gas `y` is what `n` buys at a price for 2^16 units, in whole units and up to what an `i64` holds.
pub record IsBought (price n y : ℕ) : Type 0 where
  pub capped_at : y ≤ i64_max
  pub paid : y * price ≤ n * 2 ^ 16
  pub most : y < i64_max → n * 2 ^ 16 < (y + 1) * price

-- A quotient and a remainder of numbers.
record IsQuotient (n price : ℕ) (q : ℤ) : Type 0 where
  natural : q ≡ pos (nat_abs q)
  below : nat_abs q * price ≤ n
  above : n < (nat_abs q + 1) * price

natural-IsQuotient :
    (n price : ℕ) (q : ℤ) (r : ℕ)
    → r < price
    → n + neg_part q * price ≡ pos_part q * price + r
    → IsQuotient n price q
natural-IsQuotient n price (pos q) r small e = record {
  natural = refl;
  below = omega (arith, e);
  above = omega (arith, e, small);
}
natural-IsQuotient n price (negsuc q) r small e = absurd (omega (arith, e, small))

signed-IsQuotient :
    (n price : ℕ) (q r : ℤ)
    → pos n ≡ q *ℤ pos price +ℤ r
    → nat_abs r < price
    → is_zero_ℤ r || same_sign r (pos n) ≡ true
    → IsQuotient n price q
signed-IsQuotient n price q (pos r) e small signs = natural-IsQuotient n price q r small (
    omega (
      arith,
      ap pos_part e,
      ap neg_part e,
      +ℤ_parts (q *ℤ pos price) (pos r),
      pos_part-*ℤ q (pos price),
      neg_part-*ℤ q (pos price),
    ))
signed-IsQuotient n price q (negsuc r) e small signs = ground arith

bought-IsQuotient :
    (d : DivOps)
    → DivLaws d
    → (price n : ℕ) → 1 ≤ price
    → IsQuotient (n * 2 ^ 16) price (bought d price (pos n))
unfolding bought ◌*ℤ◌
bought-IsQuotient d laws price n h =
    let x = pos (n * 2 ^ 16) in
    let nonzero = pow2-nonzero price h in
    signed-IsQuotient (n * 2 ^ 16) price (d.div_rem x (pos price)).0 (d.div_rem x (pos price)).1
      (laws.div_rem_divides x (pos price) nonzero) (laws.div_rem_small x (pos price) nonzero)
      (laws.div_rem_sign x (pos price) nonzero)

capped-IsBought :
    (price n : ℕ) (q : ℤ) → IsQuotient (n * 2 ^ 16) price q → IsBought price n (capped q)
unfolding capped
capped-IsBought price n q h = go (leb (nat_abs q) i64_max) refl
  where
    beyond : leb (nat_abs q) i64_max ≡ false → i64_max ≤ nat_abs q
    beyond e = ground (arith, e)

    go :
        (b : Bool)
        → leb (nat_abs q) i64_max ≡ b
        → IsBought price n (if b then nat_abs q else i64_max)
    go true e = record { capped_at = ground (arith, e); paid = h.below; most = λ _. h.above }
    go false e = record {
      capped_at = omega arith;
      paid = omega (arith, h.below, mul-le-mul_right price (beyond e));
      most = λ k. ground (arith, k);
    }

not_positive : (n : ℕ) → leb_ℤ (pos (suc n)) (pos 0) ≡ false
not_positive n = ground arith

limit_bought-IsBought :
    (d : DivOps)
    → DivLaws d
    → (price n : ℕ) → 1 ≤ price
    → IsBought price n (limit_bought d price (pos n))
unfolding limit_bought
limit_bought-IsBought d laws price zero h = record {
  capped_at = ground arith;
  paid = ground arith;
  most = λ _. omega (arith, h);
}
limit_bought-IsBought d laws price (suc n) h = rw (not_positive n) (
    capped-IsBought price (suc n) (bought d price (pos (suc n)))
      (bought-IsQuotient d laws price (suc n) h))

gas_for-limit_bought :
    (d : DivOps)
    → DivLaws d
    → (price n : ℕ) → 1 ≤ price
    → gas_for d price (pos n) ≡ pos (limit_bought d price (pos n))
unfolding gas_for limit_bought capped
gas_for-limit_bought d laws price zero h = refl
gas_for-limit_bought d laws price (suc n) h = rw (not_positive n) (go (leb (nat_abs q) i64_max))
  where
    q : ℤ
    q = bought d price (pos (suc n))

    go : (b : Bool) → (if b then q else pos i64_max) ≡ pos (if b then nat_abs q else i64_max)
    go true = (bought-IsQuotient d laws price (suc n) h).natural
    go false = refl

module _ {O : Type 0} where
  pop_int-ok : (x : ℤ) (s : Stack O) → pop_int (StackValue.int x ∷ s) ≡ (ok x, s)
  unfolding pop_int pop into_int
  pop_int-ok x s = refl

  push_int-ok :
      (x : ℤ) (s : Stack O) → length s < max_depth → push_int x s ≡ (ok tt, StackValue.int x ∷ s)
  unfolding push_int
  push_int-ok x s h = push_raw-ok (StackValue.int x) s h

  -- What GRAMTOGAS pushes for an amount that is not negative is the limit that BUYGAS asks for: as much gas as the amount
  -- pays for, cut to what an `i64` holds, if the price is not zero, the package keeps its laws and the stack is not full.
  pub exec_gram_to_gas-IsBought :
      (d : DivOps)
      → DivLaws d
      → (st : VmState O) (n : ℕ) → (s : List (StackValue O)) → 1 ≤ st.gas.gas_price
      → length s < max_depth
      → st.stack ≡ StackValue.int (pos n) ∷ s
      → let y = limit_bought d st.gas.gas_price (pos n) in
        (exec_gram_to_gas d st ≡ (ok (pos 0), record st { stack = StackValue.int (pos y) ∷ s }))
        × IsBought st.gas.gas_price n y
  unfolding exec_gram_to_gas
  exec_gram_to_gas-IsBought d laws st n s h room at =
      let price = st.gas.gas_price in
      let y = limit_bought d price (pos n) in
      let st1 = record st { stack = s } in
      let popped : pop_int st.stack ≡ (ok (pos n), s) = rw at (pop_int-ok (pos n) s) in
      let pushed : push_int (gas_for d price (pos n)) s ≡ (ok tt, StackValue.int (pos y) ∷ s) =
        rw (gas_for-limit_bought d laws price n h) (push_int-ok (pos y) s room) in
      (
        >>=-ok (on_stack pop_int) telling st (on_stack-ok pop_int st popped)
            ∙ >>=-ok (on_stack (push_int (gas_for d price (pos n)))) (λ _. done) st1
                (on_stack-ok (push_int (gas_for d price (pos n))) st1 pushed),
        limit_bought-IsBought d laws price n h,
      )
    where
      telling : ℤ → Action (VmState O) VmError ℤ
      telling x =
          gets (λ u. u.gas.gas_price) >>= λ price. on_stack (push_int (gas_for d price x)) >> done
