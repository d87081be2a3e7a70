-- ===== src/Executor/Phases/Tests.antt =====
-- An account that the storage fees use up, and the theorems at it. Amounts are those of a bounded number of tokens, and
-- extra currencies are a flag that says whether there are any.
use tycho_vm.Prelude.{
  ◌+◌, ◌-◌, ◌^◌, ◌≡◌, refl, min, Bool, true, false, ◌||◌, not, none, some, ok, [], ◌∷◌, arith, leb,
  if◌then◌else◌,
}
use tycho_vm.Executor.Config.{GasLimitsPrices, StoragePrices}
use tycho_vm.Executor.State.{
  Currency, CurrencyLaws, active_state, active, ExecutorState, ReceivedMessage,
}
use tycho_vm.Executor.Phases.{
  StoragePhaseContext, StorageOutcome, storage_phase, storage_and_credit,
}
use tycho_vm.Executor.Phases.Storage.{Settles, storage_phase-Settles}
use tycho_vm.Executor.Phases.Fate.{Fate, storage_phase-Fate}
use tycho_vm.Executor.Phases.Order.{message_tokens, storage_and_credit_keep}

abbrev money : Currency Bool
money = record {
  max_tokens = 2 ^ 120 - 1;
  saturating_add = λ a b. min (a + b) (2 ^ 120 - 1);
  checked_add = λ a b. if leb (a + b) (2 ^ 120 - 1) then some (a + b) else none;
  checked_sub = λ a b. if leb b a then some (a - b) else none;
  sub = λ a b. a - b;
  is_empty = not;
  try_add = λ a b. some (a || b);
}

money-CurrencyLaws : CurrencyLaws money
money-CurrencyLaws = record {
  some_tokens = omega arith;
  saturating_add_lem = λ a b. refl;
  checked_add_fits = λ a b h. ground arith;
  checked_add_over = λ a b h. ground arith;
  checked_sub_fits = λ a b h. ground arith;
  checked_sub_under = λ a b h. ground arith;
  sub_fits = λ a b h. refl;
}

abbrev prices : GasLimitsPrices
prices = record {
  gas_price = 655360;
  gas_limit = 1000;
  special_gas_limit = 5000;
  gas_credit = 200;
  flat_gas_limit = 100;
  flat_gas_price = 50;
  freeze_due_limit = 5;
  delete_due_limit = 1000;
}

abbrev costly : StoragePrices
costly = record {
  utime_since = 0;
  bit_price_ps = 2 ^ 16;
  cell_price_ps = 0;
  mc_bit_price_ps = 0;
  mc_cell_price_ps = 0;
}

abbrev account : ExecutorState Bool
account = record {
  block_unixtime = 1010;
  disable_delete_frozen_accounts = false;
  config = record {
    blackhole_addr = none;
    mc_gas_prices = prices;
    gas_prices = prices;
    storage_prices = costly ∷ [];
    special_accounts = [];
    config_address = 85;
  };
  is_special = false;
  address = record { is_masterchain = false; address = 7 };
  storage_stat = record { used_bits = 3; used_cells = 1; last_paid = 1000; due_payment = some 4 };
  balance = record { tokens = 20; other = false };
  state = active_state;
  end_status = active;
  total_fees = 0;
}

abbrev no_message : StoragePhaseContext Bool
no_message = record { adjust_msg_balance = false; received_message = none }

abbrev bounced : ReceivedMessage Bool
bounced = record {
  is_external = false;
  bounce_enabled = true;
  balance_remaining = record { tokens = 100; other = true };
}

-- 34 tokens are to be paid, and 20 are there: the account is frozen.
storage_phase-Settles_example :
    (out : StorageOutcome Bool) × (storage_phase money account no_message ≡ ok out)
    × Settles money account out
storage_phase-Settles_example =
    storage_phase-Settles money money-CurrencyLaws account no_message (omega arith) (omega arith)

storage_phase-Fate_example :
    (out : StorageOutcome Bool) × (storage_phase money account no_message ≡ ok out)
    × Fate money account out
storage_phase-Fate_example =
    storage_phase-Fate money money-CurrencyLaws account no_message (omega arith) (omega arith)

storage_and_credit_keep_example :
    (out : StorageOutcome Bool) × (storage_and_credit money account bounced ≡ ok out)
    × (out.after.balance.tokens + out.after.total_fees ≡ 20 + 0 + message_tokens bounced)
    × (out.after.total_fees ≡ 0 + out.phase.storage_fees_collected)
storage_and_credit_keep_example =
    storage_and_credit_keep money money-CurrencyLaws account bounced (omega arith) (omega arith)
      (true, refl)
