-- ===== src/Policy/Question.antt =====
-- A permission question and the run that waits on it (src/policy.go: check, ask, wait, giveUp,
-- takeApproval; src/nb_approval.go: answerPolicyApproval). The handlers that answer and the run
-- that waits are processes: what they do to the registry's entry and to the answer's channel is a
-- step relation, in which every order of their actions is a path.
pub mod Claims
use collectif.Common.{
  ℕ, ◌+◌, ◌≡◌, Bool, true, false, Option, none, some, List, [], ◌∷◌, ◌++◌, length,
}
use collectif.Policy.Decide.{Verdict, deny, allow, ask, PolicyDecision}

-- The answers that a handler lets through.
pub data Answer : Type 0 where
  approve refuse always : Answer

-- What `wait` returns.
pub data Waited : Type 0 where
  answered : Answer → Waited
  expired interrupted : Waited

-- What the log records.
pub data Resolution : Type 0 where
  approved denied expired interrupted : Resolution

unfoldable pub resolution : Waited → Resolution
resolution (answered approve) = Resolution.approved
resolution (answered always) = Resolution.approved
resolution (answered refuse) = Resolution.denied
resolution Waited.expired = Resolution.expired
resolution Waited.interrupted = Resolution.interrupted

-- The decision that `ask` returns.
unfoldable pub ask_decision : PolicyDecision → Waited → PolicyDecision
ask_decision d (answered approve) = record { verdict = allow; rule = [] }
ask_decision d (answered always) = record { verdict = allow; rule = [] }
ask_decision d _ = record { verdict = deny; rule = d.rule }

abbrev by_verdict : Verdict → PolicyDecision → Waited → PolicyDecision
by_verdict allow d w = d
by_verdict deny d w = d
by_verdict ask d w = ask_decision d w

-- What `check` makes of a decision; the wait is read only where the verdict is to ask.
unfoldable pub check : PolicyDecision → Waited → PolicyDecision
unfolding ask_decision
check d w = by_verdict d.verdict d w

pub data Waiter : Type 0 where
  watching draining : Waiter
  ended : Waited → Waiter

-- Whether the registry has the question; the answers that handlers which took it hold; the
-- channel, which has room for one answer; and the waiting run.
pub record Question : Type 0 where
  pub registered : Bool
  pub held : List Answer
  pub channel : Option Answer
  pub waiter : Waiter

-- The question as `ask` opens it.
abbrev pub opened : Question
opened = record { registered = true; held = []; channel = none; waiter = watching }

-- The two reasons to stop waiting: the timer, and the run's context.
pub data GivesUp : Waited → Type 0 where
  late : GivesUp Waited.expired
  cut : GivesUp Waited.interrupted

pub data Step (q q' : Question) : Type 0 where
  -- A handler takes the entry out of the registry.
  take_up :
      (a : Answer)
      → q.registered ≡ true
      → q' ≡ record q { registered = false; held = a ∷ q.held }
      → Step q q'
  -- A handler sends its answer, once the channel has room.
  send :
      (a : Answer) (xs ys : List Answer)
      → q.held ≡ xs ++ a ∷ ys
      → q.channel ≡ none
      → q' ≡ record q { held = xs ++ ys; channel = some a }
      → Step q q'
  -- A handler that could not write the rule of an "always" puts the entry back.
  put_back :
      (xs ys : List Answer)
      → q.held ≡ xs ++ always ∷ ys
      → q' ≡ record q { registered = true; held = xs ++ ys }
      → Step q q'
  -- The run receives the answer.
  receive :
      (a : Answer)
      → q.waiter ≡ watching
      → q.channel ≡ some a
      → q' ≡ record q { channel = none; waiter = ended (answered a) }
      → Step q q'
  -- The run gives up, and takes the entry back.
  claim :
      (w : Waited)
      → GivesUp w
      → q.waiter ≡ watching
      → q.registered ≡ true
      → q' ≡ record q { registered = false; waiter = ended w }
      → Step q q'
  -- The run gives up, and the entry is gone: it waits for the answer alone.
  miss :
      (w : Waited)
      → GivesUp w
      → q.waiter ≡ watching
      → q.registered ≡ false
      → q' ≡ record q { waiter = draining }
      → Step q q'
  drain :
      (a : Answer)
      → q.waiter ≡ draining
      → q.channel ≡ some a
      → q' ≡ record q { channel = none; waiter = ended (answered a) }
      → Step q q'

pub data Reach (q : Question) : Question → Type 0 where
  here : Reach q q
  next : {r s : Question} → Reach q r → Step r s → Reach q s
