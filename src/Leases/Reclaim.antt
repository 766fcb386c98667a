-- ===== src/Leases/Reclaim.antt =====
-- lease_coordinator.py, reclaim_expired_leases.
use mathlib.Core.List.{reverse, reverse-cons, append_assoc}
use hexaqueue.Prelude.{
  ℕ, ◌≡◌, refl, ap, ◌∙◌, inl, inr, Bool, false, not, none, List, [], ◌∷◌, ◌++◌, map, arith, ◌==◌,
  Bool-cases,
}
use hexaqueue.Prelude.Lists.{filter, All}
use hexaqueue.Prelude.Dict.{Dict, get, Unique}
use hexaqueue.Leases.Model.{SliceTaskDescriptor, SliceLease, is_expired}
use hexaqueue.Leases.Coordinator.{
  SliceLeaseCoordinator, expired_ids, reclaim_one, reclaim_all, reclaim_expired_leases,
}

abbrev lease_of : ℕ × SliceLease → SliceLease
lease_of e = e.1

abbrev live : ℕ → ℕ × SliceLease → Bool
live now e = not (is_expired now e.1)

abbrev over : ℕ → ℕ × SliceLease → Bool
over now e = is_expired now e.1

abbrev task_of : ℕ × SliceLease → SliceTaskDescriptor
task_of e = e.1.task

absent_expired :
    (now k : ℕ) (d : Dict SliceLease)
    → get k d ≡ none
    → All (λ i. (i == k) ≡ false) (expired_ids now d)
unfolding expired_ids
absent_expired now k [] e = tt
absent_expired now k ((j, l) ∷ d) e = ground (arith, absent_expired now k d)

one_skips :
    (i : ℕ) (c : SliceLeaseCoordinator) (k : ℕ) (l : SliceLease) (d : Dict SliceLease)
    → (i == k) ≡ false
    → reclaim_one i (record c { active_leases = (k, l) ∷ d }) ≡ (
        let r = reclaim_one i (record c { active_leases = d }) in
        record r { active_leases = (k, l) ∷ r.active_leases })
unfolding reclaim_one
one_skips i c k l d h = ground arith

one_takes :
    (c : SliceLeaseCoordinator) (k : ℕ) (l : SliceLease) (d : Dict SliceLease)
    → reclaim_one k (record c { active_leases = (k, l) ∷ d })
      ≡ record c { active_leases = d; pending_tasks = l.task ∷ c.pending_tasks }
unfolding reclaim_one
one_takes c k l d = ground arith

-- A lease that is not in the list of identifiers is passed over.
reclaim_skips :
    (ids : List ℕ) (c : SliceLeaseCoordinator) (k : ℕ) (l : SliceLease) (d : Dict SliceLease)
    → All (λ i. (i == k) ≡ false) ids
    → reclaim_all ids (record c { active_leases = (k, l) ∷ d }) ≡ (
        let r = reclaim_all ids (record c { active_leases = d }) in
        record r { active_leases = (k, l) ∷ r.active_leases })
unfolding reclaim_all
reclaim_skips [] c k l d h = refl
reclaim_skips (i ∷ ids) c k l d h =
    let r = reclaim_one i (record c { active_leases = d }) in
    ap (reclaim_all ids) (one_skips i c k l d h.0) ∙ reclaim_skips ids r k l r.active_leases h.1

front :
    (t : SliceTaskDescriptor) (ts ps : List SliceTaskDescriptor)
    → reverse ts ++ t ∷ ps ≡ reverse (t ∷ ts) ++ ps
front t ts ps = rw (reverse-cons t ts, append_assoc)

reclaim_expired-from :
    (now : ℕ) (c : SliceLeaseCoordinator) (d : Dict SliceLease)
    → Unique d
    → reclaim_all (expired_ids now d) (record c { active_leases = d }) ≡ record c {
      active_leases = filter (live now) d;
      pending_tasks = reverse (map task_of (filter (over now) d)) ++ c.pending_tasks;
    }
unfolding reclaim_all expired_ids
reclaim_expired-from now c [] u = refl
reclaim_expired-from now c ((k, l) ∷ d) u = elim (Bool-cases (is_expired now l)) [
  | inl e ↦ rw e (
      ap (reclaim_all (expired_ids now d)) (one_takes c k l d)
      ∙ reclaim_expired-from now (record c { pending_tasks = l.task ∷ c.pending_tasks }) d u.1
      ∙ ap (λ ts. record c { active_leases = filter (live now) d; pending_tasks = ts })
          (front l.task (map task_of (filter (over now) d)) c.pending_tasks))
  | inr e ↦ rw e (
      reclaim_skips (expired_ids now d) c k l d (absent_expired now k d u.0)
      ∙ ap (λ (r : SliceLeaseCoordinator). record r { active_leases = (k, l) ∷ r.active_leases })
          (reclaim_expired-from now c d u.1))
]

-- Where each lease has one entry, reclaiming takes out exactly the leases that have expired, and
-- puts their tasks, the last first, before the waiting tasks; nothing else changes.
pub reclaim_expired_leases-eq :
    (c : SliceLeaseCoordinator) (now : ℕ)
    → Unique c.active_leases
    → reclaim_expired_leases c now ≡ (
      record c {
        active_leases = filter (λ e. not (is_expired now e.1)) c.active_leases;
        pending_tasks =
            reverse (map (λ e. e.1.task) (filter (λ e. is_expired now e.1) c.active_leases))
            ++ c.pending_tasks;
      },
      expired_ids now c.active_leases,
    )
unfolding reclaim_expired_leases
reclaim_expired_leases-eq c now u =
    ap (λ d. (d, expired_ids now c.active_leases)) (reclaim_expired-from now c c.active_leases u)
