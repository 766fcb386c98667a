-- ===== src/Budget/Ledger.antt =====
-- adapters/budget/in_memory.py, class InMemoryBudgetAccountingAdapter. A call returns its result and
-- the ledger, which it leaves alone when it raises. The time and the fresh identifier of a hold are
-- arguments. A defaultdict's entry that a read would add has the default, so it is left out.
use hexaqueue.Prelude.{
  ℕ, ◌+◌, ◌-◌, Bool, false, not, ◌&&◌, Option, none, some, [], ◌==◌, if◌then◌else◌, get_or,
}
use hexaqueue.Prelude.Lists.{sum_by}
use hexaqueue.Prelude.Dict.{Dict, get, put, values}
use hexaqueue.Prelude.Int.{ℤ, pos, ltb_ℤ, clamp_zero, ◌-ℤ◌}
use hexaqueue.Budget.Reservation.{
  quota_exceeded, hexaqueue_error, Result, returned, raised, ◌>>=◌, ◌>>◌, raise_if, is_active,
  is_open, BudgetReservation, make_reservation, add_segment, finalize_settlement, release_hold,
  TenantAccount, available_balance,
}

pub record Ledger : Type 0 where
  pub deposits : Dict ℕ
  pub reservations : Dict BudgetReservation
  pub settled_by_tenant : Dict ℕ

-- `10000.0` credits, in millionths of a credit.
abbrev pub default_deposit : ℕ
default_deposit = 10_000_000_000

abbrev pub empty_ledger : Dict ℕ → Ledger
empty_ledger initial_balances = record {
  deposits = initial_balances;
  reservations = [];
  settled_by_tenant = [];
}

abbrev pub deposit_of : Ledger → ℕ → ℕ
deposit_of l tenant = get_or (get tenant l.deposits) default_deposit

abbrev pub settled_of : Ledger → ℕ → ℕ
settled_of l tenant = get_or (get tenant l.settled_by_tenant) 0

-- What one reservation adds to the active holds of a tenant.
abbrev pub hold : ℕ → BudgetReservation → ℕ
hold tenant r =
    if (r.tenant_id == tenant) && is_active r.state then r.held_credits - r.settled_credits else 0

unfoldable pub get_account : Ledger → ℕ → TenantAccount
get_account l tenant = record {
  active_holds_total = sum_by (hold tenant) (values l.reservations);
  credit_balance = deposit_of l tenant;
  settled_total = settled_of l tenant;
  tenant_id = tenant;
}

-- A result, and the ledger after the call.
abbrev pub Outcome : Type 0 → Type 0
Outcome A = Result A × Ledger

abbrev pub commit : {A : Type 0} → Ledger → Result (A × Ledger) → Outcome A
commit l (returned (a, l')) = (returned a, l')
commit l (raised e) = (raised e, l)

unfoldable pub reserve_budget : Ledger → ℕ → ℕ → ℕ → ℕ → ℤ → Outcome ℕ
unfolding get_account available_balance make_reservation
reserve_budget l now hold_id tenant_id job_id estimated_credits = commit l (do
  raise_if (ltb_ℤ (pos (available_balance (get_account l tenant_id))) estimated_credits)
      quota_exceeded
  res ← make_reservation now hold_id tenant_id job_id estimated_credits
  returned (hold_id, record l { reservations = put hold_id res l.reservations }))

-- `tenant_id is not None and res.tenant_id != tenant_id`
abbrev pub is_foreign : Option ℕ → BudgetReservation → Bool
is_foreign none r = false
is_foreign (some tenant) r = not (r.tenant_id == tenant)

abbrev pub bill : ℕ → ℕ → Dict ℕ → Dict ℕ
bill tenant credits d = put tenant (get_or (get tenant d) 0 + credits) d

-- The part of `settle_budget` behind the look-up.
unfoldable pub settle_found : Ledger → ℕ → ℕ → ℤ → Option ℕ → BudgetReservation → Outcome (Unit {0})
unfolding finalize_settlement
settle_found l now reservation_id actual_credits tenant_id res = commit l (do
  raise_if (is_foreign tenant_id res) hexaqueue_error
  raise_if (not (is_open res.state)) hexaqueue_error
  settled_res ← finalize_settlement res now actual_credits
  returned (
    tt,
    record l {
      reservations = put reservation_id settled_res l.reservations;
      settled_by_tenant =
          bill res.tenant_id (clamp_zero (actual_credits -ℤ pos res.settled_credits))
            l.settled_by_tenant;
    },
  ))

-- An unknown reservation is ignored.
unfoldable pub settle_budget : Ledger → ℕ → ℕ → ℤ → Option ℕ → Outcome (Unit {0})
unfolding settle_found
settle_budget l now reservation_id actual_credits tenant_id =
    elim (get reservation_id l.reservations) [
      | none ↦ (returned tt, l)
      | some res ↦ settle_found l now reservation_id actual_credits tenant_id res
    ]

unfoldable pub segment_found : Ledger → ℕ → ℤ → Option ℕ → BudgetReservation → Outcome ℕ
unfolding add_segment
segment_found l reservation_id segment_credits tenant_id res = commit l (do
  raise_if (is_foreign tenant_id res) hexaqueue_error
  raise_if (not (is_active res.state)) hexaqueue_error
  updated_res ← add_segment res segment_credits
  returned (
    updated_res.settled_credits,
    record l {
      reservations = put reservation_id updated_res l.reservations;
      settled_by_tenant = bill res.tenant_id (clamp_zero segment_credits) l.settled_by_tenant;
    },
  ))

unfoldable pub settle_segment : Ledger → ℕ → ℤ → Option ℕ → Outcome ℕ
unfolding segment_found
settle_segment l reservation_id segment_credits tenant_id =
    elim (get reservation_id l.reservations) [
      | none ↦ (raised hexaqueue_error, l)
      | some res ↦ segment_found l reservation_id segment_credits tenant_id res
    ]

unfoldable pub release_found : Ledger → ℕ → ℕ → Option ℕ → BudgetReservation → Outcome (Unit {0})
unfolding release_hold
release_found l now reservation_id tenant_id res = commit l (do
  raise_if (is_foreign tenant_id res) hexaqueue_error
  raise_if (not (is_active res.state)) hexaqueue_error
  released ← release_hold res now
  returned (tt, record l { reservations = put reservation_id released l.reservations }))

unfoldable pub release_budget : Ledger → ℕ → ℕ → Option ℕ → Outcome (Unit {0})
unfolding release_found
release_budget l now reservation_id tenant_id = elim (get reservation_id l.reservations) [
  | none ↦ (raised hexaqueue_error, l)
  | some res ↦ release_found l now reservation_id tenant_id res
]
