-- ===== src/Scheduling/Selection.antt =====
-- scheduling.py, select_preemption_candidate.
use hexaqueue.Prelude.{
  ℕ, ◌+◌, ◌-◌, get_or, ◌<◌, if◌then◌else◌, ◌≡◌, ◌≢◌, ◌⊎◌, inl, inr, Bool, true, false, not, some,
  List, arith, ltb, ◌==◌,
}
use hexaqueue.Prelude.Lists.{All, All-map}
use hexaqueue.Prelude.Members.{In}
use hexaqueue.Prelude.Choice.{head-IsLeast}
use hexaqueue.Prelude.Dict.{Dict, get}
use hexaqueue.Prelude.Int.{pos_part, neg_part, ◌≤ℤ◌}
use hexaqueue.Job.{JobSpec}
use hexaqueue.Scheduling.Preemption.{
  checkpoint_score, elapsed, cheaper, select_preemption_candidate,
}

cheaper-total :
    (now : ℕ) (starts : Dict ℕ) (a b : JobSpec)
    → cheaper now starts a b ≡ false
    → cheaper now starts b a ≡ true
unfolding cheaper
cheaper-total now starts a b h = ground arith

abbrev lex : ℕ → ℕ → ℕ → ℕ → Bool → Bool
lex a b c d last =
    if ltb a b
    then true
    else if ltb b a
    then false
    else if ltb c d
    then true
    else if ltb d c
    then false
    else last

-- Transitivity of the keys' order, the last key by the parts of an integer.
lex_trans :
    (a b c d e f x x' y y' z z' : ℕ)
    → lex a b d e (not (ltb (y + x') (x + y'))) ≡ true
    → lex b c e f (not (ltb (z + y') (y + z'))) ≡ true
    → lex a c d f (not (ltb (z + x') (x + z'))) ≡ true
lex_trans a b c d e f x x' y y' z z' h k = ground arith

cheaper_refl : (now : ℕ) (starts : Dict ℕ) (a : JobSpec) → cheaper now starts a a ≡ true
unfolding cheaper
cheaper_refl now starts a = ground arith

cheaper_trans :
    (now : ℕ) (starts : Dict ℕ) (a b c : JobSpec)
    → cheaper now starts a b ≡ true
    → cheaper now starts b c ≡ true
    → cheaper now starts a c ≡ true
unfolding cheaper
cheaper_trans now starts a b c h k =
    lex_trans (checkpoint_score a) (checkpoint_score b) (checkpoint_score c) (elapsed now starts a)
      (elapsed now starts b) (elapsed now starts c) (pos_part a.priority) (neg_part a.priority)
      (pos_part b.priority) (neg_part b.priority) (pos_part c.priority) (neg_part c.priority) h k

-- How long a job has run; nothing where its start is not known or not yet there.
abbrev pub ran_for : ℕ → Dict ℕ → JobSpec → ℕ
ran_for now starts job = now - get_or (get job.id starts) now

-- No more is lost by preempting the first job than the second: it can be checkpointed and the second
-- cannot; or they agree in this and it has run for a shorter time; or for the same time, and its
-- priority is not higher.
abbrev pub LosesNoMore : ℕ → Dict ℕ → JobSpec → JobSpec → Type 0
LosesNoMore now starts a b =
    ((a.checkpointable ≡ true) × (b.checkpointable ≡ false))
    ⊎ ((a.checkpointable ≡ b.checkpointable)
        × ((ran_for now starts a < ran_for now starts b)
            ⊎ ((ran_for now starts a ≡ ran_for now starts b) × (a.priority ≤ℤ b.priority))))

cheaper→LosesNoMore :
    (now : ℕ) (starts : Dict ℕ) (a b : JobSpec)
    → cheaper now starts a b ≡ true
    → LosesNoMore now starts a b
unfolding cheaper
cheaper→LosesNoMore now starts a b h = ground arith

kept :
    (now user : ℕ) (starts : Dict ℕ) (c j : JobSpec)
    → (not (j.user == user) ≡ false) ⊎ (cheaper now starts c j ≡ true)
    → (j.user ≡ user) ⊎ LosesNoMore now starts c j
kept now user starts c j (inl same) = inl (ground arith)
kept now user starts c j (inr least) = inr (cheaper→LosesNoMore now starts c j least)

-- Where start times are given, a selected candidate is a running job of another user than the
-- starved one, and every running job of such a user either cannot be checkpointed where the candidate
-- can, or agrees with it in this and has run longer, or as long with no lower priority.
pub select_preemption_candidate-cheapest :
    (running : List JobSpec) (user now : ℕ) (starts : Dict ℕ) (c : JobSpec)
    → select_preemption_candidate running user now (some starts) ≡ some c
    → In c running
      × (c.user ≢ user)
      × All (λ j. (j.user ≡ user) ⊎ LosesNoMore now starts c j) running
unfolding select_preemption_candidate
select_preemption_candidate-cheapest running user now starts c e =
    let other = λ (j : JobSpec). not (j.user == user) in
    let le = cheaper now starts in
    let (i, o, least) =
      head-IsLeast le (cheaper_refl now starts) (cheaper-total now starts)
        (cheaper_trans now starts) other c running e in
    (
      i,
      ground (arith, o),
      All-map (λ j. (other j ≡ false) ⊎ (le c j ≡ true))
          (λ j. (j.user ≡ user) ⊎ LosesNoMore now starts c j) (λ j h. kept now user starts c j h)
          running least,
    )
