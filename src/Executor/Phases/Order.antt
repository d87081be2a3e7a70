-- ===== src/Executor/Phases/Order.antt =====
-- The credit phase, and what both orders of the two phases keep.
use tycho_vm.Prelude.{
  ℕ, ◌+◌, ◌≤◌, ◌≡◌, refl, ◌∙◌, inl, inr, true, false, some, Result, ok, arith, if◌then◌else◌,
  Bool-cases,
}
use tycho_vm.Executor.State.{
  Currency, CurrencyLaws, CurrencyCollection, ExecutorState, ReceivedMessage, PhaseError,
}
use tycho_vm.Executor.Phases.{
  StoragePhaseContext, StorageOutcome, adjust_message, add_currencies, credit_phase,
  credit_if_internal, storage_then_credit, credit_then_storage, storage_and_credit,
}
use tycho_vm.Executor.Phases.Storage.{Settles, outcome, storage_phase-ok, outcome-Settles}

-- The tokens that a message brings: none if it is external.
abbrev pub message_tokens : {Other : Type 0} → ReceivedMessage Other → ℕ
message_tokens msg = if msg.is_external then 0 else msg.balance_remaining.tokens

module _ {Other : Type 0} (ops : Currency Other) (laws : CurrencyLaws ops) where
  -- The credit adds up.
  Credited : ExecutorState Other → ReceivedMessage Other → ExecutorState Other → Type 0
  Credited s msg after =
      (after.balance.tokens ≡ s.balance.tokens + message_tokens msg)
      × (after.total_fees ≡ s.total_fees)
      × (after.storage_stat.last_paid ≡ s.storage_stat.last_paid)
      × (after.block_unixtime ≡ s.block_unixtime)

  add_currencies-some :
      (a b : CurrencyCollection Other) (other : Other)
      → a.tokens + b.tokens ≤ ops.max_tokens
      → ops.try_add a.other b.other ≡ some other
      → add_currencies ops a b ≡ some (record { tokens = a.tokens + b.tokens; other = other })
  unfolding add_currencies
  add_currencies-some a b other fits added =
      rw (laws.checked_add_fits a.tokens b.tokens fits, add_currencies) (rw added refl)

  credit-Credited :
      (s : ExecutorState Other) (msg : ReceivedMessage Other) (other : Other)
      → s.balance.tokens + message_tokens msg ≤ ops.max_tokens
      → ops.try_add s.balance.other msg.balance_remaining.other ≡ some other
      → (after : ExecutorState Other) × (credit_if_internal ops s msg ≡ ok after)
        × Credited s msg after
  unfolding credit_if_internal credit_phase message_tokens Credited
  credit-Credited s msg other h added = elim (Bool-cases msg.is_external) [
    | inl external ↦ (s, rw external refl, (rw external (omega arith), refl, refl, refl))
    | inr internal ↦
        let fits : s.balance.tokens + msg.balance_remaining.tokens ≤ ops.max_tokens =
          rw internal at h in
        let sum = add_currencies-some s.balance msg.balance_remaining other fits added in
        (
          record s {
            balance = record {
              tokens = s.balance.tokens + msg.balance_remaining.tokens;
              other = other;
            };
          },
          rw internal (rw sum refl),
          (rw internal refl, refl, refl, refl),
        )
  ]

  message_kept :
      (s : ExecutorState Other) (msg : ReceivedMessage Other)
      → (outcome ops s (record { adjust_msg_balance = false; received_message = some msg })).message
        ≡ some msg
  unfolding outcome adjust_message
  message_kept s msg = refl

  -- The results of both orders: they succeed, and keep the tokens.
  Kept :
      ExecutorState Other
      → ReceivedMessage Other
      → Result PhaseError (StorageOutcome Other)
      → StorageOutcome Other
      → Type 0
  Kept s msg result out =
      (result ≡ ok out)
      × (out.after.balance.tokens + out.after.total_fees
          ≡ s.balance.tokens + s.total_fees + message_tokens msg)
      × (out.after.total_fees ≡ s.total_fees + out.phase.storage_fees_collected)

  storage_then_credit-Kept :
      (s : ExecutorState Other) (msg : ReceivedMessage Other) (other : Other)
      → s.storage_stat.last_paid ≤ s.block_unixtime
      → s.total_fees + s.balance.tokens + message_tokens msg ≤ ops.max_tokens
      → ops.try_add s.balance.other msg.balance_remaining.other ≡ some other
      → (out : StorageOutcome Other) × Kept s msg (storage_then_credit ops s msg) out
  unfolding storage_then_credit Settles Credited Kept
  storage_then_credit-Kept s msg other h k added =
      let ctx : StoragePhaseContext Other = record {
        adjust_msg_balance = false;
        received_message = some msg;
      } in
      let out = outcome ops s ctx in
      let (balance, fees, _, same_other, _) = outcome-Settles ops laws s ctx in
      let (after, credited, (tokens, total, _, _)) =
        credit-Credited out.after msg other (omega arith) (rw same_other added) in
      let result : StorageOutcome Other = record out { after = after } in
      (
        result,
        (
          rw (storage_phase-ok ops laws s ctx h (omega arith))
              (rw (message_kept s msg) (rw credited refl)),
          omega arith,
          omega arith,
        ),
      )

  credit_then_storage-Kept :
      (s : ExecutorState Other) (msg : ReceivedMessage Other) (other : Other)
      → s.storage_stat.last_paid ≤ s.block_unixtime
      → s.total_fees + s.balance.tokens + message_tokens msg ≤ ops.max_tokens
      → ops.try_add s.balance.other msg.balance_remaining.other ≡ some other
      → (out : StorageOutcome Other) × Kept s msg (credit_then_storage ops s msg) out
  unfolding credit_then_storage Settles Credited Kept
  credit_then_storage-Kept s msg other h k added =
      let ctx : StoragePhaseContext Other = record {
        adjust_msg_balance = true;
        received_message = some msg;
      } in
      let (after, credited, (tokens, total, paid, time)) =
        credit-Credited s msg other (omega arith) added in
      let (balance, fees, _, _, _) = outcome-Settles ops laws after ctx in
      (
        outcome ops after ctx,
        (
          rw credited (storage_phase-ok ops laws after ctx (omega arith) (omega arith)),
          omega arith,
          omega arith,
        ),
      )

  -- The storage and the credit phase of an ordinary transaction succeed, in the order that the bounce flag asks for, if the
  -- time is not before the last payment, all tokens together are an amount of tokens and the extra currencies can be added.
  -- In both orders the balance and the fees together grow by the tokens of the message, and the fees by what was collected.
  pub storage_and_credit_keep :
      (s : ExecutorState Other) (msg : ReceivedMessage Other)
      → s.storage_stat.last_paid ≤ s.block_unixtime
      → s.total_fees + s.balance.tokens + message_tokens msg ≤ ops.max_tokens
      → ((other : Other) × (ops.try_add s.balance.other msg.balance_remaining.other ≡ some other))
      → (out : StorageOutcome Other) × (storage_and_credit ops s msg ≡ ok out)
        × (out.after.balance.tokens + out.after.total_fees
            ≡ s.balance.tokens + s.total_fees + message_tokens msg)
        × (out.after.total_fees ≡ s.total_fees + out.phase.storage_fees_collected)
  unfolding storage_and_credit Kept
  storage_and_credit_keep s msg h k (other, added) = elim (Bool-cases msg.bounce_enabled) [
    | inl bounces ↦
        let either : storage_and_credit ops s msg ≡ storage_then_credit ops s msg =
          rw bounces refl in
        let (out, (eq, balances, fees)) = storage_then_credit-Kept s msg other h k added in
        (out, either ∙ eq, balances, fees)
    | inr not_bounces ↦
        let either : storage_and_credit ops s msg ≡ credit_then_storage ops s msg =
          rw not_bounces refl in
        let (out, (eq, balances, fees)) = credit_then_storage-Kept s msg other h k added in
        (out, either ∙ eq, balances, fees)
  ]
