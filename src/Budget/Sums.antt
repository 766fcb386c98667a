-- ===== src/Budget/Sums.antt =====
-- adapters/budget/in_memory.py: how each write changes the totals of a tenant.
use hexaqueue.Prelude.{ℕ, ◌+◌, ◌≡◌, arith, ◌==◌, if◌then◌else◌, get_or}
use hexaqueue.Prelude.Dict.{Dict, get, get-put}
use hexaqueue.Budget.Ledger.{bill}

-- A bill raises the account of its tenant and no other.
pub bill_lem :
    (tenant other credits : ℕ) (d : Dict ℕ)
    → get_or (get other (bill tenant credits d)) 0
      ≡ get_or (get other d) 0 + (if other == tenant then credits else 0)
bill_lem tenant other credits d =
    ground (arith, get-put tenant other (get_or (get tenant d) 0 + credits) d)
