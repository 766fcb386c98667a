-- ===== src/Controller/Answers.antt =====
-- local.py: properties of what calls return.
use hexaqueue.Prelude.{inl, inr}
use hexaqueue.Controller.{Controller, Answer}
use hexaqueue.Controller.Sound.{IsSound}
use hexaqueue.Controller.Commands.{without_result}

-- A call that returns, returns a sound controller.
abbrev pub AnswerSound : Answer Controller → Type 0
AnswerSound (inl e) = Unit
AnswerSound (inr c) = IsSound c

-- The same for calls that return more than the controller.
abbrev pub ResultSound : {A : Type 0} → Answer (A × Controller) → Type 0
ResultSound answer = AnswerSound (without_result answer)
