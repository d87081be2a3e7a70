-- ===== src/Executor/Phases/Storage.antt =====
-- What the storage phase does to the balance, the fees and the debt of an account.
use tycho_vm.Prelude.{
  ℕ, ◌+◌, ◌-◌, ◌≤◌, ◌<◌, ◌≡◌, refl, ◌∙◌, ◌⊎◌, inl, inr, Bool, true, false, Option, none, some, ok,
  arith, leb, ◌==◌, if◌then◌else◌, Bool-cases,
}
use tycho_vm.Executor.Config.{StorageInfo, compute_storage_fees}
use tycho_vm.Executor.State.{Currency, CurrencyLaws, ExecutorState}
use tycho_vm.Executor.Phases.{
  StoragePhase, StoragePhaseContext, StorageOutcome, non_zero, with_due, add_due, fees_to_pay,
  collect, status_after, adjust_message, storage_phase,
}

-- An amount that may be absent.
pub or_zero : Option ℕ → ℕ
or_zero (some t) = t
or_zero none = 0

pub or_zero-none : or_zero none ≡ 0
unfolding or_zero
or_zero-none = refl

pub or_zero-non_zero : (t : ℕ) → or_zero (non_zero t) ≡ t
unfolding or_zero non_zero
or_zero-non_zero t = ground arith

with_due-last_paid :
    (b : Bool) (due : Option ℕ) (stat : StorageInfo)
    → (with_due b due stat).last_paid ≡ stat.last_paid
unfolding with_due
with_due-last_paid true due stat = refl
with_due-last_paid false due stat = refl

with_due-due_payment :
    (b : Bool) (due : Option ℕ) (stat : StorageInfo)
    → (b ≡ true) ⊎ ((with_due b due stat).due_payment ≡ due)
unfolding with_due
with_due-due_payment true due stat = inl refl
with_due-due_payment false due stat = inr refl

module _ {Other : Type 0} (ops : Currency Other) where
  -- Balance, fees and debt around a payment of `to_pay`.
  Balanced : ExecutorState Other → ℕ → StoragePhase × ExecutorState Other → Type 0
  Balanced s to_pay (phase, paid) =
      (paid.balance.tokens + phase.storage_fees_collected ≡ s.balance.tokens)
      × (phase.storage_fees_collected + or_zero phase.storage_fees_due ≡ to_pay)
      × (paid.total_fees ≡ s.total_fees)
      × ((paid.balance.other ≡ s.balance.other)
          × (paid.storage_stat.last_paid ≡ s.storage_stat.last_paid))
      × ((s.is_special ≡ true)
          ⊎ (phase.storage_fees_collected + or_zero paid.storage_stat.due_payment ≡ to_pay)
          ⊎ ((to_pay ≡ 0)
              × (phase.storage_fees_collected ≡ 0)
              × (paid.storage_stat.due_payment ≡ s.storage_stat.due_payment)))

  -- What a storage phase leaves: the tokens that it collected went from the balance to the fees; what it collected and what
  -- is still due are what had to be paid; and an account that is not special still owes exactly that rest.
  unfoldable pub Settles : ExecutorState Other → StorageOutcome Other → Type 0
  Settles s out =
      let collected = out.phase.storage_fees_collected in
      (out.after.balance.tokens + collected ≡ s.balance.tokens)
      × (out.after.total_fees ≡ s.total_fees + collected)
      × (collected + or_zero out.phase.storage_fees_due ≡ fees_to_pay ops s)
      × (out.after.balance.other ≡ s.balance.other)
      × ((s.is_special ≡ true)
          ⊎ ((collected + or_zero out.after.storage_stat.due_payment ≡ fees_to_pay ops s)
              × (out.after.storage_stat.last_paid ≡ s.block_unixtime)))

  unfoldable pub charged_at : ExecutorState Other → ExecutorState Other
  charged_at s = record s {
    storage_stat = record s.storage_stat {
      last_paid = if s.is_special then 0 else s.block_unixtime;
    };
  }

  -- The outcome of a phase that succeeds.
  unfoldable pub outcome : ExecutorState Other → StoragePhaseContext Other → StorageOutcome Other
  outcome s ctx =
      let (phase, paid) = collect ops (charged_at s) (fees_to_pay ops s) in
      record {
        phase = phase;
        message = adjust_message paid.balance.tokens ctx;
        after = record paid {
          end_status = status_after phase.status_change paid.end_status;
          total_fees = paid.total_fees + phase.storage_fees_collected;
        };
      }

module _ {Other : Type 0} (ops : Currency Other) (laws : CurrencyLaws ops) where
  collect-Balanced :
      (s : ExecutorState Other) (to_pay : ℕ) → Balanced ops s to_pay (collect ops s to_pay)
  unfolding collect Balanced
  collect-Balanced s to_pay = elim (Bool-cases (to_pay == 0)) [
    | inl nothing ↦
        let zero_pay : to_pay ≡ 0 = ground arith in
        rw nothing (
          omega arith,
          omega (arith, or_zero-none),
          refl,
          (refl, refl),
          inr (inr (zero_pay, refl, refl)),
        )
    | inr pays ↦ elim (Bool-cases (leb to_pay s.balance.tokens)) [
      | inl enough ↦
          let fits : to_pay ≤ s.balance.tokens = ground arith in
          rw pays (
            rw (laws.checked_sub_fits s.balance.tokens to_pay fits) (
              omega arith,
              omega (arith, or_zero-none),
              refl,
              (refl, refl),
              inr (inl (omega (arith, or_zero-none))),
            ))
      | inr short ↦
          let under : s.balance.tokens < to_pay = ground arith in
          let due = or_zero-non_zero (to_pay - s.balance.tokens) in
          rw pays (
            rw (laws.checked_sub_under s.balance.tokens to_pay under) (
              rw (laws.sub_fits to_pay s.balance.tokens (omega arith)) (
                omega arith,
                omega (arith, due),
                refl,
                (
                  refl,
                  with_due-last_paid s.is_special (non_zero (to_pay - s.balance.tokens))
                      s.storage_stat,
                ),
                elim (with_due-due_payment s.is_special (non_zero (to_pay - s.balance.tokens))
                    s.storage_stat) [
                      | inl special ↦ inl special
                      | inr same ↦ inr (inl (rw same (omega (arith, due))))
                    ],
              )))
    ]
  ]

  -- Nothing to pay means that nothing was due.
  nothing_due : (fees : ℕ) (due : Option ℕ) → add_due ops fees due ≡ 0 → or_zero due ≡ 0
  unfolding add_due or_zero
  nothing_due fees none h = refl
  nothing_due fees (some due) h = omega (arith, laws.saturating_add_lem fees due, laws.some_tokens)

  pub storage_phase-ok :
      (s : ExecutorState Other) (ctx : StoragePhaseContext Other)
      → s.storage_stat.last_paid ≤ s.block_unixtime
      → s.total_fees + s.balance.tokens ≤ ops.max_tokens
      → storage_phase ops s ctx ≡ ok (outcome ops s ctx)
  unfolding storage_phase outcome Balanced charged_at
  storage_phase-ok s ctx h k =
      let (phase, paid) = collect ops (charged_at ops s) (fees_to_pay ops s) in
      let (balance, due, fees, _, _) = collect-Balanced (charged_at ops s) (fees_to_pay ops s) in
      let sum = laws.checked_add_fits paid.total_fees phase.storage_fees_collected (omega arith) in
      let now : leb s.storage_stat.last_paid s.block_unixtime ≡ true = ground arith in
      rw now (rw sum refl)

  pub outcome-Settles :
      (s : ExecutorState Other) (ctx : StoragePhaseContext Other)
      → Settles ops s (outcome ops s ctx)
  unfolding Settles Balanced fees_to_pay outcome charged_at
  outcome-Settles s ctx =
      let (balance, due, fees, (other, last), owes) =
        collect-Balanced (charged_at ops s) (fees_to_pay ops s) in
      let owed =
        nothing_due
          (compute_storage_fees s.config s.storage_stat s.block_unixtime s.is_special
            s.address.is_masterchain)
          s.storage_stat.due_payment in
      (
        balance,
        omega arith,
        due,
        other,
        elim (Bool-cases s.is_special) [
          | inl special ↦ inl special
          | inr ordinary ↦ inr (elim owes [
            | inl special ↦ cc
            | inr (inl eq) ↦ (eq, last ∙ rw ordinary refl)
            | inr (inr (zero_pay, none_paid, same)) ↦ (
              rw same (omega (arith, none_paid, zero_pay, owed zero_pay)),
              last ∙ rw ordinary refl,
            )
          ])
        ],
      )

  -- A storage phase at a time that is not before the last payment succeeds, if the fees and the balance together are
  -- an amount of tokens, and leaves the balance, the fees and the debt settled.
  pub storage_phase-Settles :
      (s : ExecutorState Other) (ctx : StoragePhaseContext Other)
      → s.storage_stat.last_paid ≤ s.block_unixtime
      → s.total_fees + s.balance.tokens ≤ ops.max_tokens
      → (out : StorageOutcome Other) × (storage_phase ops s ctx ≡ ok out) × Settles ops s out
  storage_phase-Settles s ctx h k =
      (outcome ops s ctx, storage_phase-ok s ctx h k, outcome-Settles s ctx)
