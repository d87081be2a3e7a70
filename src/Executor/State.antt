-- ===== src/Executor/State.antt =====
-- The state of a transaction (executor/src/lib.rs, `ExecutorState`): the fields that the storage and credit phases read
-- or write. Amounts of tokens and extra currencies are types of the `everscale_types` package: the arithmetic on them is
-- a parameter, and its laws are what that package documents.
use tycho_vm.Prelude.{ℕ, ◌+◌, ◌-◌, ◌≤◌, ◌<◌, ◌≡◌, min, Bool, Option, none, some}
use tycho_vm.Executor.Config.{StorageInfo, StdAddr, ParsedConfig}

-- `Tokens` and `ExtraCurrencyCollection`: `Other` stands for the second.
pub record Currency (Other : Type 0) : Type 0 where
  pub max_tokens : ℕ
  pub saturating_add : ℕ → ℕ → ℕ
  pub checked_add : ℕ → ℕ → Option ℕ
  pub checked_sub : ℕ → ℕ → Option ℕ
  pub sub : ℕ → ℕ → ℕ
  pub is_empty : Other → Bool
  pub try_add : Other → Other → Option Other

pub record CurrencyLaws {Other : Type 0} (ops : Currency Other) : Type 0 where
  pub some_tokens : 0 < ops.max_tokens
  pub saturating_add_lem : (a b : ℕ) → ops.saturating_add a b ≡ min (a + b) ops.max_tokens
  pub checked_add_fits : (a b : ℕ) → a + b ≤ ops.max_tokens → ops.checked_add a b ≡ some (a + b)
  pub checked_add_over : (a b : ℕ) → ops.max_tokens < a + b → ops.checked_add a b ≡ none
  pub checked_sub_fits : (a b : ℕ) → b ≤ a → ops.checked_sub a b ≡ some (a - b)
  pub checked_sub_under : (a b : ℕ) → a < b → ops.checked_sub a b ≡ none
  pub sub_fits : (a b : ℕ) → b ≤ a → ops.sub a b ≡ a - b

pub record CurrencyCollection (Other : Type 0) : Type 0 where
  pub tokens : ℕ
  pub other : Other

-- The contents of a state are not read here.
pub data AccountState : Type 0 where
  uninit_state : AccountState
  frozen_state : AccountState
  active_state : AccountState

pub data AccountStatus : Type 0 where
  uninit : AccountStatus
  frozen : AccountStatus
  active : AccountStatus
  not_exists : AccountStatus

pub data AccountStatusChange : Type 0 where
  unchanged : AccountStatusChange
  to_frozen : AccountStatusChange
  deleted : AccountStatusChange

-- `block_unixtime` and `disable_delete_frozen_accounts` are fields of `ExecutorParams`.
pub record ExecutorState (Other : Type 0) : Type 0 where
  pub block_unixtime : ℕ
  pub disable_delete_frozen_accounts : Bool
  pub config : ParsedConfig
  pub is_special : Bool
  pub address : StdAddr
  pub storage_stat : StorageInfo
  pub balance : CurrencyCollection Other
  pub state : AccountState
  pub end_status : AccountStatus
  pub total_fees : ℕ

-- The fields of `ReceivedMessage` that the phases use.
pub record ReceivedMessage (Other : Type 0) : Type 0 where
  pub is_external : Bool
  pub bounce_enabled : Bool
  pub balance_remaining : CurrencyCollection Other

-- A failed phase ends the transaction, and its state is dropped.
pub data PhaseError : Type 0 where
  older_than_last_paid : PhaseError
  total_fees_overflow : PhaseError
  balance_overflow : PhaseError
