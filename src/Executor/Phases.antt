-- ===== src/Executor/Phases.antt =====
-- The storage phase and the credit phase (executor/src/phase/storage.rs, executor/src/phase/credit.rs), and the order in which
-- an ordinary transaction runs them (executor/src/tx/ordinary.rs).
pub mod Storage
pub mod Fate
pub mod Order
mod Tests
use tycho_vm.Prelude.{
  ℕ, ◌<◌, ◌≡◌, Bool, true, false, ◌&&◌, not, Option, none, some, Result, ok, err, ok_or, leb, ltb,
  ◌==◌, if◌then◌else◌,
}
use tycho_vm.Executor.Config.{StorageInfo, GasLimitsPrices, gas_prices_for, compute_storage_fees}
use tycho_vm.Executor.State.{
  Currency, CurrencyCollection, AccountState, uninit_state, frozen_state, active_state,
  AccountStatus, frozen, not_exists, AccountStatusChange, unchanged, to_frozen, deleted,
  ExecutorState, ReceivedMessage, PhaseError, older_than_last_paid, total_fees_overflow,
  balance_overflow,
}

pub record StoragePhase : Type 0 where
  pub storage_fees_collected : ℕ
  pub storage_fees_due : Option ℕ
  pub status_change : AccountStatusChange

pub record StoragePhaseContext (Other : Type 0) : Type 0 where
  pub adjust_msg_balance : Bool
  pub received_message : Option (ReceivedMessage Other)

-- A phase gives its result, the message after it and the state after it.
pub record StorageOutcome (Other : Type 0) : Type 0 where
  pub phase : StoragePhase
  pub message : Option (ReceivedMessage Other)
  pub after : ExecutorState Other

-- `Result`'s `?`.
abbrev pub and_then : {E A B : Type 0} → Result E A → (A → Result E B) → Result E B
and_then (ok a) f = f a
and_then (err e) f = err e

-- `some` of an amount that is not zero.
unfoldable pub non_zero : ℕ → Option ℕ
non_zero t = if t == 0 then none else some t

-- The due payment is recorded for accounts that are not special.
unfoldable pub with_due : Bool → Option ℕ → StorageInfo → StorageInfo
with_due true due stat = stat
with_due false due stat = record stat { due_payment = due }

unfoldable pub status_after : AccountStatusChange → AccountStatus → AccountStatus
status_after unchanged status = status
status_after to_frozen status = frozen
status_after deleted status = not_exists

-- The message value is adjusted to what the account still has.
unfoldable pub adjust_message :
    {Other : Type 0} → ℕ → StoragePhaseContext Other → Option (ReceivedMessage Other)
adjust_message tokens ctx = elim ctx.received_message [
  | none ↦ none
  | some msg ↦
      if ctx.adjust_msg_balance && ltb tokens msg.balance_remaining.tokens
      then some
          (record msg { balance_remaining = record msg.balance_remaining { tokens = tokens } })
      else some msg
]

module _ {Other : Type 0} (ops : Currency Other) where
  unfoldable pub add_due : ℕ → Option ℕ → ℕ
  add_due fees (some due_payment) = ops.saturating_add fees due_payment
  add_due fees none = fees

  -- What the account has to pay for its storage up to now, with the payment that is due.
  unfoldable pub fees_to_pay : ExecutorState Other → ℕ
  fees_to_pay s =
      let fees =
        compute_storage_fees s.config s.storage_stat s.block_unixtime s.is_special
          s.address.is_masterchain in
      add_due fees s.storage_stat.due_payment

  -- The account's fate when it cannot pay.
  unfoldable pub change_for : ExecutorState Other → ℕ → AccountStatusChange
  change_for s fees_due =
      let prices = gas_prices_for s.config s.address.is_masterchain in
      let deletes = ltb prices.delete_due_limit fees_due && not (ops.is_empty s.balance.other) in
      if s.is_special then unchanged else elim s.state [
        | uninit_state ↦ if deletes then deleted else unchanged
        | frozen_state ↦
            if not s.disable_delete_frozen_accounts && deletes then deleted else unchanged
        | active_state ↦ if ltb prices.freeze_due_limit fees_due then to_frozen else unchanged
      ]

  -- The state after the payment of `to_pay`, and the phase: nothing to pay, enough tokens, or too few.
  unfoldable pub collect : ExecutorState Other → ℕ → StoragePhase × ExecutorState Other
  collect s to_pay =
      if to_pay == 0
      then (
        record { storage_fees_collected = 0; storage_fees_due = none; status_change = unchanged },
        s,
      )
      else elim (ops.checked_sub s.balance.tokens to_pay) [
        | some new_balance ↦ (
          record {
            storage_fees_collected = to_pay;
            storage_fees_due = none;
            status_change = unchanged;
          },
          record s {
            balance = record s.balance { tokens = new_balance };
            storage_stat = record s.storage_stat { due_payment = none };
          },
        )
        | none ↦
            let fees_due = ops.sub to_pay s.balance.tokens in
            let due = non_zero fees_due in
            (
              record {
                storage_fees_collected = s.balance.tokens;
                storage_fees_due = due;
                status_change = change_for s fees_due;
              },
              record s {
                balance = record s.balance { tokens = 0 };
                storage_stat = with_due s.is_special due s.storage_stat;
              },
            )
      ]

  unfoldable pub storage_phase :
      ExecutorState Other → StoragePhaseContext Other → Result PhaseError (StorageOutcome Other)
  storage_phase s ctx =
      let charged = record s {
        storage_stat = record s.storage_stat {
          last_paid = if s.is_special then 0 else s.block_unixtime;
        };
      } in
      let (phase, paid) = collect charged (fees_to_pay s) in
      let changed = record paid { end_status = status_after phase.status_change paid.end_status } in
      let message = adjust_message changed.balance.tokens ctx in
      if leb s.storage_stat.last_paid s.block_unixtime
      then and_then
          (ok_or (ops.checked_add changed.total_fees phase.storage_fees_collected)
            total_fees_overflow)
          (λ total_fees. ok (record {
            phase = phase;
            message = message;
            after = record changed { total_fees = total_fees };
          }))
      else err older_than_last_paid

  -- `CurrencyCollection::try_add_assign`.
  unfoldable pub add_currencies :
      CurrencyCollection Other → CurrencyCollection Other → Option (CurrencyCollection Other)
  add_currencies a b = elim (ops.checked_add a.tokens b.tokens) [
    | none ↦ none
    | some tokens ↦ elim (ops.try_add a.other b.other) [
      | none ↦ none
      | some other ↦ some (record { tokens = tokens; other = other })
    ]
  ]

  -- The credit that the phase reports is the message balance itself.
  unfoldable pub credit_phase :
      ExecutorState Other → ReceivedMessage Other → Result PhaseError (ExecutorState Other)
  credit_phase s received =
      and_then (ok_or (add_currencies s.balance received.balance_remaining) balance_overflow)
        (λ balance. ok (record s { balance = balance }))

  -- No credit phase for an external message.
  unfoldable pub credit_if_internal :
      ExecutorState Other → ReceivedMessage Other → Result PhaseError (ExecutorState Other)
  credit_if_internal s msg = if msg.is_external then ok s else credit_phase s msg

  unfoldable pub storage_then_credit :
      ExecutorState Other → ReceivedMessage Other → Result PhaseError (StorageOutcome Other)
  storage_then_credit s msg =
      and_then
        (storage_phase s (record { adjust_msg_balance = false; received_message = some msg }))
        (λ out. elim out.message [
          | none ↦ ok out
          | some remaining ↦
              and_then (credit_if_internal out.after remaining)
                (λ after. ok (record out { after = after }))
        ])

  unfoldable pub credit_then_storage :
      ExecutorState Other → ReceivedMessage Other → Result PhaseError (StorageOutcome Other)
  credit_then_storage s msg = and_then (credit_if_internal s msg) (λ credited.
      storage_phase credited (record { adjust_msg_balance = true; received_message = some msg }))

  -- The order of the storage and the credit phase depends on the bounce flag of the message.
  unfoldable pub storage_and_credit :
      ExecutorState Other → ReceivedMessage Other → Result PhaseError (StorageOutcome Other)
  storage_and_credit s msg =
      if msg.bounce_enabled then storage_then_credit s msg else credit_then_storage s msg
