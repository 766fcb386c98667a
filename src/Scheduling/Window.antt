-- ===== src/Scheduling/Window.antt =====
-- scheduling.py: the reservation window of the anchor, and the jobs backfilled within it.
use hexaqueue.Prelude.{
  ℕ, ◌+◌, ◌-◌, ◌≤◌, ◌<◌, ◌≡◌, refl, ◌⊎◌, inl, inr, true, Option, List, [], ◌∷◌, arith, leb,
  if◌then◌else◌, Bool-cases, get_or,
}
use hexaqueue.Prelude.Lists.{sum_by, All}
use hexaqueue.Prelude.Sort.{sort, IsSorted, sort-IsSorted, sum_by-sort}
use hexaqueue.Prelude.Dict.{Dict}
use hexaqueue.Job.{JobSpec, slots}
use hexaqueue.Scheduling.Pool.{ResourceSlotPool, available_slots, allocate}
use hexaqueue.Scheduling.Priority.{RankedJob}
use hexaqueue.Scheduling.Backfill.{estimate, backfill_loop, evaluate_backfill}
use hexaqueue.Scheduling.Engine.{BatchSchedulerEngine}
use hexaqueue.Scheduling.Cycle.{
  Completion, ends_before, first_end, completions, anchor_reservation_window,
}

abbrev freed_at : ℕ → Completion → ℕ
freed_at w c = if leb c.remaining_t w then c.slot_count else 0

-- The slots that come free within `w`.
abbrev pub freed_by : ℕ → List Completion → ℕ
freed_by w = sum_by (freed_at w)

abbrev pub freed_in_all : List Completion → ℕ
freed_in_all = sum_by (λ c. c.slot_count)

nothing_freed :
    (c : Completion) (w : ℕ) (cs : List Completion)
    → All (λ d. ends_before c d ≡ true) cs
    → w < c.remaining_t
    → freed_by w cs ≡ 0
nothing_freed c w [] h lt = refl
nothing_freed c w (d ∷ cs) h lt = ground (arith, nothing_freed c w cs h.1 lt)

-- `w` is the earliest time by which `needed` slots are free, with `acc` free at once.
record IsEarliest (needed acc w : ℕ) (cs : List Completion) : Type 0 where
  enough : needed ≤ acc + freed_by w cs
  earliest : (v : ℕ) → v < w → acc + freed_by v cs < needed

first_end-IsEarliest :
    (d needed acc : ℕ) (cs : List Completion)
    → IsSorted ends_before cs
    → acc < needed
    → needed ≤ acc + freed_in_all cs
    → IsEarliest needed acc (first_end d needed acc cs) cs
unfolding first_end
first_end-IsEarliest d needed acc [] s lt enough = absurd (omega arith)
first_end-IsEarliest d needed acc (c ∷ cs) s lt enough =
    elim (Bool-cases (leb needed (acc + c.slot_count))) [
      | inl now ↦ rw now (record {
        enough = ground arith;
        earliest = λ v h. ground (arith, nothing_freed c v cs s.0);
      })
      | inr later ↦
          let ih =
            first_end-IsEarliest d needed (acc + c.slot_count) cs s.1 (ground arith)
              (omega arith) in
          let w = first_end d needed (acc + c.slot_count) cs in
          rw later (record {
            enough = ground (arith, ih.enough, nothing_freed c w cs s.0);
            earliest = λ v h. ground (arith, ih.earliest v h);
          })
    ]

module _ (e : BatchSchedulerEngine) (pool : ResourceSlotPool) (anchor : RankedJob)
    (running : List JobSpec) (now : ℕ) (durations : Option (Dict ℕ))
    (allocated : Option (List JobSpec)) where
  abbrev pub ends : List Completion
  ends = completions e now (get_or durations []) running (get_or allocated [])

  abbrev pub window : ℕ
  window = anchor_reservation_window e pool anchor running now durations allocated

  -- If the anchor does not fit now, and the slots that the running and the just allocated jobs hold
  -- would let it fit, then it fits when the window has passed; and any time `v` is no earlier than
  -- the window, or finds too few slots free.
  pub anchor_reservation_window-IsEarliest :
      (v : ℕ)
      → available_slots pool < slots anchor.job
      → slots anchor.job ≤ available_slots pool + freed_in_all ends
      → (slots anchor.job ≤ available_slots pool + freed_by window ends)
        × ((window ≤ v) ⊎ (available_slots pool + freed_by v ends < slots anchor.job))
  unfolding anchor_reservation_window
  anchor_reservation_window-IsEarliest v short total = ground (
    arith,
    sum_by-sort ends_before (freed_at window) ends,
    sum_by-sort ends_before (freed_at v) ends,
    first.enough,
    first.earliest v,
  )
    where
      needed : ℕ
      needed = slots anchor.job - available_slots pool

      sorted : List Completion
      sorted = sort ends_before ends

      first : IsEarliest needed 0 (first_end e.default_duration needed 0 sorted) sorted
      first =
          first_end-IsEarliest e.default_duration needed 0 sorted
            (sort-IsSorted ends_before (λ a b h. ground arith) (λ a b c h k. ground arith) ends)
            (omega arith) (omega (arith, sum_by-sort ends_before (λ c. c.slot_count) ends))

backfill_loop_short :
    (d : ℕ) (durations : Dict ℕ) (w : ℕ) (p : ResourceSlotPool) (rs : List RankedJob)
    → All (λ j. estimate durations d j ≤ w) (backfill_loop d durations w p rs).1
unfolding backfill_loop
backfill_loop_short d durations w p [] = tt
backfill_loop_short d durations w p (r ∷ rs) = ground (
  arith,
  backfill_loop_short d durations w p rs,
  backfill_loop_short d durations w (allocate p r.job).0 rs,
)

-- Every backfilled job is estimated to end within the window.
pub evaluate_backfill_short :
    (d : ℕ) (rs : List RankedJob) (p : ResourceSlotPool) (w : ℕ) (durations : Option (Dict ℕ))
    → All (λ j. estimate (get_or durations []) d j ≤ w) (evaluate_backfill d rs p w durations).1
unfolding evaluate_backfill
evaluate_backfill_short d rs p w durations = backfill_loop_short d (get_or durations []) w p rs
