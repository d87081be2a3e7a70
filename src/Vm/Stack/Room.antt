-- ===== src/Vm/Stack/Room.antt =====
-- A push on a stack that is not full (vm/src/stack.rs).
use tycho_vm.Prelude.{ℕ, ◌≤◌, ◌<◌, ◌≡◌, refl, arith, true, ◌∷◌, length, leb, ltb, ok}
use tycho_vm.Vm.Stack.Values.{StackValue}
use tycho_vm.Vm.Stack.Basic.{Stack, max_depth, push_raw}

pub le-leb : (m n : ℕ) → m ≤ n → leb m n ≡ true
le-leb m n h = ground arith

pub lt-ltb : (m n : ℕ) → m < n → ltb m n ≡ true
lt-ltb m n h = ground arith

module _ {O : Type 0} where
  pub push_raw-ok :
      (v : StackValue O) (s : Stack O) → length s < max_depth → push_raw v s ≡ (ok tt, v ∷ s)
  unfolding push_raw
  push_raw-ok v s h = rw (lt-ltb (length s) max_depth h) refl
