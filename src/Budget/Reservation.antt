-- ===== src/Budget/Reservation.antt =====
-- domain/budget.py: BudgetReservation and TenantAccount. The time of settlement is an argument of
-- each call; the number 0 stands for a blank identifier.
use hexaqueue.Prelude.{ℕ, ◌+◌, ◌-◌, Bool, true, false, not, Option, none, some, ◌==◌}
use hexaqueue.Prelude.Int.{ℤ, pos, ltb_ℤ, clamp_zero}

pub data ReservationState : Type 0 where
  active expired released settled : ReservationState

pub data Error : Type 0 where
  value_error quota_exceeded hexaqueue_error : Error

-- What a call returns, or the error that it raises.
pub data Result (A : Type 0) : Type 0 where
  raised : Error → Result A
  returned : A → Result A

infixl 5 ◌>>=◌ ◌>>◌
abbrev pub ◌>>=◌ : {A B : Type 0} → Result A → (A → Result B) → Result B
raised error >>= next = raised error
returned value >>= next = next value

abbrev pub ◌>>◌ : {B : Type 0} → Result (Unit {0}) → Result B → Result B
raised error >> next = raised error
returned tt >> next = next

-- `if b: raise e`
abbrev pub raise_if : Bool → Error → Result (Unit {0})
raise_if true e = raised e
raise_if false e = returned tt

abbrev pub is_blank : ℕ → Bool
is_blank id = id == 0

abbrev pub is_active : ReservationState → Bool
is_active ReservationState.active = true
is_active _ = false

-- `state in (ACTIVE, EXPIRED)`
abbrev pub is_open : ReservationState → Bool
is_open ReservationState.active = true
is_open ReservationState.expired = true
is_open _ = false

pub record BudgetReservation : Type 0 where
  pub created_at : ℕ
  pub held_credits : ℕ
  pub job_id : ℕ
  pub reservation_id : ℕ
  pub settled_at : Option ℕ
  pub settled_credits : ℕ
  pub state : ReservationState
  pub tenant_id : ℕ

-- The constructor with its field bounds and `validate_invariants`, for a reservation that is ACTIVE.
unfoldable pub make_reservation : ℕ → ℕ → ℕ → ℕ → ℤ → Result BudgetReservation
make_reservation now reservation_id tenant_id job_id held_credits = do
  raise_if (ltb_ℤ held_credits (pos 0)) value_error
  raise_if (is_blank tenant_id) value_error
  raise_if (is_blank job_id) value_error
  raise_if (is_blank reservation_id) value_error
  returned (record {
    created_at = now;
    held_credits = clamp_zero held_credits;
    job_id = job_id;
    reservation_id = reservation_id;
    settled_at = none;
    settled_credits = 0;
    state = ReservationState.active;
    tenant_id = tenant_id;
  })

-- BudgetReservation.settle_segment
unfoldable pub add_segment : BudgetReservation → ℤ → Result BudgetReservation
add_segment r segment_credits = do
  raise_if (not (is_active r.state)) value_error
  raise_if (ltb_ℤ segment_credits (pos 0)) value_error
  returned (record r { settled_credits = r.settled_credits + clamp_zero segment_credits })

unfoldable pub finalize_settlement : BudgetReservation → ℕ → ℤ → Result BudgetReservation
finalize_settlement r now final_actual_credits = do
  raise_if (not (is_open r.state)) value_error
  raise_if (ltb_ℤ final_actual_credits (pos 0)) value_error
  returned (record r {
    settled_credits = clamp_zero final_actual_credits;
    state = ReservationState.settled;
    settled_at = some now;
  })

-- BudgetReservation.release
unfoldable pub release_hold : BudgetReservation → ℕ → Result BudgetReservation
release_hold r now = do
  raise_if (not (is_active r.state)) value_error
  returned (record r { state = ReservationState.released; settled_at = some now })

pub record TenantAccount : Type 0 where
  pub active_holds_total : ℕ
  pub credit_balance : ℕ
  pub settled_total : ℕ
  pub tenant_id : ℕ

-- `max(0, balance - settled - holds)`
unfoldable pub available_balance : TenantAccount → ℕ
available_balance a = a.credit_balance - a.settled_total - a.active_holds_total
