-- ===== src/Executor/Phases/Fate.antt =====
-- When the storage phase freezes or deletes an account.
use tycho_vm.Prelude.{
  ℕ, ◌+◌, ◌≤◌, ◌<◌, ◌≡◌, refl, ◌⊎◌, inl, inr, false, ok, arith, ◌==◌, Bool-cases, Option-cases,
}
use tycho_vm.Executor.Config.{gas_prices_for}
use tycho_vm.Executor.State.{
  Currency, CurrencyLaws, uninit_state, frozen_state, active_state, AccountStatusChange, unchanged,
  to_frozen, deleted, ExecutorState,
}
use tycho_vm.Executor.Phases.{
  StoragePhase, StoragePhaseContext, StorageOutcome, fees_to_pay, change_for, collect, status_after,
  storage_phase,
}
use tycho_vm.Executor.Phases.Storage.{
  or_zero, or_zero-non_zero, charged_at, outcome, storage_phase-ok,
}

module _ {Other : Type 0} (ops : Currency Other) where
  -- The reasons for each change of the status, by the payment that is left due.
  Justified : ExecutorState Other → ℕ → AccountStatusChange → Type 0
  Justified s due unchanged = Unit {0}
  Justified s due to_frozen =
      (s.is_special ≡ false)
      × (s.state ≡ active_state)
      × ((gas_prices_for s.config s.address.is_masterchain).freeze_due_limit < due)
  Justified s due deleted =
      (s.is_special ≡ false)
      × ((s.state ≡ uninit_state)
          ⊎ ((s.state ≡ frozen_state) × (s.disable_delete_frozen_accounts ≡ false)))
      × ((gas_prices_for s.config s.address.is_masterchain).delete_due_limit < due)
      × (ops.is_empty s.balance.other ≡ false)

  -- The status that a storage phase leaves. A change needs a balance that the fees used up.
  pub Fate : ExecutorState Other → StorageOutcome Other → Type 0
  Fate s out =
      (out.after.end_status ≡ status_after out.phase.status_change s.end_status)
      × ((out.phase.status_change ≡ unchanged)
          ⊎ ((out.after.balance.tokens ≡ 0)
              × Justified s (or_zero out.phase.storage_fees_due) out.phase.status_change))

  CollectFate : ExecutorState Other → StoragePhase × ExecutorState Other → Type 0
  CollectFate s (phase, paid) =
      (paid.end_status ≡ s.end_status)
      × ((phase.status_change ≡ unchanged)
          ⊎ ((paid.balance.tokens ≡ 0)
              × Justified s (or_zero phase.storage_fees_due) phase.status_change))

module _ {Other : Type 0} (ops : Currency Other) (laws : CurrencyLaws ops) where
  change_for-Justified :
      (s : ExecutorState Other) (due : ℕ) → Justified ops s due (change_for ops s due)
  unfolding Justified change_for
  change_for-Justified s due = ground arith

  collect-CollectFate :
      (s : ExecutorState Other) (to_pay : ℕ) → CollectFate ops s (collect ops s to_pay)
  unfolding collect CollectFate
  collect-CollectFate s to_pay = elim (Bool-cases (to_pay == 0)) [
    | inl nothing ↦ rw nothing (refl, inl refl)
    | inr pays ↦ elim (Option-cases (ops.checked_sub s.balance.tokens to_pay)) [
      | inr (left, enough) ↦ rw pays (rw enough (refl, inl refl))
      | inl short ↦
          let due = or_zero-non_zero (ops.sub to_pay s.balance.tokens) in
          rw pays (
            rw short
              (refl, inr (refl, rw due (change_for-Justified s (ops.sub to_pay s.balance.tokens)))))
    ]
  ]

  Justified-charged_at :
      (s : ExecutorState Other) (due : ℕ) (c : AccountStatusChange)
      → Justified ops (charged_at ops s) due c
      → Justified ops s due c
  unfolding Justified charged_at
  Justified-charged_at s due unchanged h = h
  Justified-charged_at s due to_frozen h = h
  Justified-charged_at s due deleted h = h

  outcome-Fate :
      (s : ExecutorState Other) (ctx : StoragePhaseContext Other) → Fate ops s (outcome ops s ctx)
  unfolding Fate outcome CollectFate charged_at
  outcome-Fate s ctx =
      let (status, reason) = collect-CollectFate (charged_at ops s) (fees_to_pay ops s) in
      (
        rw status refl,
        elim reason [
          | inl same ↦ inl same
          | inr (empty, why) ↦ inr (empty, Justified-charged_at s _ _ why)
        ],
      )

  -- A storage phase that has enough room for its fees freezes or deletes an account only with reason. To freeze: the account is
  -- active and not special, its balance is used up and more is due than the freeze limit. To delete: it is not special, it is not
  -- initialized, or frozen where frozen accounts may be deleted, its balance is used up, more is due than the delete limit and
  -- it has extra currencies.
  pub storage_phase-Fate :
      (s : ExecutorState Other) (ctx : StoragePhaseContext Other)
      → s.storage_stat.last_paid ≤ s.block_unixtime
      → s.total_fees + s.balance.tokens ≤ ops.max_tokens
      → (out : StorageOutcome Other) × (storage_phase ops s ctx ≡ ok out) × Fate ops s out
  storage_phase-Fate s ctx h k =
      (outcome ops s ctx, storage_phase-ok ops laws s ctx h k, outcome-Fate s ctx)
