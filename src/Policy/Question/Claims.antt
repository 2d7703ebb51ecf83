-- ===== src/Policy/Question/Claims.antt =====
-- Who claims a question (src/policy.go: wait, giveUp, takeApproval; src/nb_approval.go:
-- answerPolicyApproval).
use collectif.Common.{
  ℕ, ◌+◌, ◌≡◌, refl, ap, ◌∙◌, ◌≢◌, ◌⊎◌, ◌↔◌, inl, inr, Bool, true, false, Option, none, some, List,
  [], ◌∷◌, ◌++◌, arith, length, length-append,
}
use collectif.Policy.Decide.{allow, ask, PolicyDecision}
use collectif.Policy.Question.{
  Answer, approve, always, Waited, answered, check, Waiter, draining, ended, Question, opened, Step,
  take_up, send, put_back, receive, claim, miss, drain, Reach, here, next,
}

abbrev pub of_bool : Bool → ℕ
of_bool true = 1
of_bool false = 0

abbrev pub of_channel : Option Answer → ℕ
of_channel none = 0
of_channel (some _) = 1

abbrev pub of_waiter : Waiter → ℕ
of_waiter (ended _) = 1
of_waiter _ = 0

-- How many hold the right to decide: the registry, the handlers, the channel, the ended wait.
abbrev pub claims : Question → ℕ
claims q = of_bool q.registered + length q.held + of_channel q.channel + of_waiter q.waiter

length-cut : (a : Answer) (xs ys : List Answer) → length (xs ++ a ∷ ys) ≡ length (xs ++ ys) + 1
length-cut a xs ys = omega (arith, length-append xs (a ∷ ys), length-append xs ys)

length-held :
    (q : Question) (a : Answer) (xs ys : List Answer)
    → q.held ≡ xs ++ a ∷ ys
    → length q.held ≡ length (xs ++ ys) + 1
length-held q a xs ys h = ap length h ∙ length-cut a xs ys

Step-claims : (q q' : Question) → Step q q' → claims q ≡ 1 → claims q' ≡ 1
Step-claims q q' (take_up a r e) one = ground arith
Step-claims q q' (send a xs ys h c e) one = ground (arith, length-held q a xs ys h)
Step-claims q q' (put_back xs ys h e) one = ground (arith, length-held q always xs ys h)
Step-claims q q' (receive a w c e) one = ground arith
Step-claims q q' (claim w g h r e) one = ground arith
Step-claims q q' (miss w g h r e) one = ground arith
Step-claims q q' (drain a w c e) one = ground arith

-- In every order of the actions the right to decide is in one place: the registry, one handler,
-- the channel, or the ended wait.
pub one_claim : {q : Question} → Reach opened q → claims q ≡ 1
one_claim here = refl
one_claim (next {r = r} {s = s} p st) = Step-claims r s st (one_claim p)

-- A handler that has taken the question finds room in the channel, and the wait not over: it never
-- blocks, and its answer is never lost.
send-ready :
    {q : Question} (a : Answer) (xs ys : List Answer)
    → Reach opened q
    → q.held ≡ xs ++ a ∷ ys
    → (q.channel ≡ none) × (q.registered ≡ false) × ((w : Waited) → q.waiter ≢ ended w)
send-ready {q} a xs ys p h = (
  ground (arith, one_claim p, length-held q a xs ys h),
  ground (arith, one_claim p, length-held q a xs ys h),
  λ w e. ground (arith, one_claim p, length-held q a xs ys h, e),
)

-- An answer that was sent is the outcome.
abbrev Settled : Answer → Question → Type 0
Settled a q =
    ((q.channel ≡ some a) × (claims q ≡ 1)) ⊎ ((q.waiter ≡ ended (answered a)) × (claims q ≡ 1))

Step-Settled : (a : Answer) (q q' : Question) → Step q q' → Settled a q → Settled a q'
Step-Settled a q q' (take_up b r e) s = ground arith
Step-Settled a q q' (send b xs ys h c e) s = ground (arith, length-held q b xs ys h)
Step-Settled a q q' (put_back xs ys h e) s = ground (arith, length-held q always xs ys h)
Step-Settled a q q' (receive b w c e) s = ground arith
Step-Settled a q q' (claim w g h r e) s = ground arith
Step-Settled a q q' (miss w g h r e) s = ground arith
Step-Settled a q q' (drain b w c e) s = ground arith

Reach-Settled : {a : Answer} {q q' : Question} → Reach q q' → Settled a q → Settled a q'
Reach-Settled here s = s
Reach-Settled {a} (next {r = r} {s = q'} p st) s = Step-Settled a r q' st (Reach-Settled p s)

-- Once a handler has sent an answer, the wait can end in that answer alone: neither the timer nor an
-- interruption can be recorded over it.
pub answer-stands :
    {q q' : Question} (a : Answer) (w : Waited)
    → Reach opened q
    → q.channel ≡ some a
    → Reach q q'
    → q'.waiter ≡ ended w
    → w ≡ answered a
answer-stands a w p sent p' over = elim (Reach-Settled p' (inl (sent, one_claim p))) [
  | inl (kept, one) ↦ absurd (ground arith)
  | inr (done, one) ↦ ground arith
]

empty_of_length {ℓ} : {A : Type ℓ} (xs : List A) → length xs ≡ 0 → xs ≡ []
empty_of_length [] h = refl
empty_of_length (x ∷ xs) h = absurd (omega arith)

closed-Step : (q q' : Question) (w : Waited) → claims q ≡ 1 → q.waiter ≡ ended w → Step q q' → ⊥
closed-Step q q' w one over (take_up a r e) = ground arith
closed-Step q q' w one over (send a xs ys h c e) = ground (arith, length-held q a xs ys h)
closed-Step q q' w one over (put_back xs ys h e) = ground (arith, length-held q always xs ys h)
closed-Step q q' w one over (receive a u c e) = ground arith
closed-Step q q' w one over (claim u g h r e) = ground arith
closed-Step q q' w one over (miss u g h r e) = ground arith
closed-Step q q' w one over (drain a u c e) = ground arith

-- Once the wait is over, by an answer or because the run took the question back, no handler has the
-- question or can take it, and nothing about it can change.
ended-closed :
    {q : Question} (w : Waited)
    → Reach opened q
    → q.waiter ≡ ended w
    → (q.registered ≡ false) × (q.held ≡ []) × (q.channel ≡ none) × ((q' : Question) → ¬ Step q q')
ended-closed {q} w p over = (
  ground (arith, one_claim p),
  empty_of_length q.held (ground (arith, one_claim p)),
  ground (arith, one_claim p),
  λ q'. closed-Step q q' w (one_claim p) over,
)

-- The question stands in the registry again, and the run has given up on its timer and its context.
abbrev pub IsStranded : Question → Type 0
IsStranded q = (q.waiter ≡ draining) × (q.registered ≡ true)

taken_up :
    (q q' : Question)
    → claims q ≡ 1
    → IsStranded q
    → Step q q'
    → (a : Answer) × (q' ≡ record q { registered = false; held = a ∷ [] })
taken_up q q' one (waits, stands) (take_up a r e) = (
  a,
  e
      ∙ ap (λ h. record q { registered = false; held = a ∷ h })
          (empty_of_length q.held (ground arith)),
)
taken_up q q' one (waits, stands) (send a xs ys h c e) =
    absurd (ground (arith, length-held q a xs ys h))
taken_up q q' one (waits, stands) (put_back xs ys h e) =
    absurd (ground (arith, length-held q always xs ys h))
taken_up q q' one (waits, stands) (receive a w c e) = absurd (ground arith)
taken_up q q' one (waits, stands) (claim w g h r e) = absurd (ground arith)
taken_up q q' one (waits, stands) (miss w g h r e) = absurd (ground arith)
taken_up q q' one (waits, stands) (drain a w c e) = absurd (ground arith)

-- A run that gives up while a handler has the question, which that handler then puts back, waits
-- with no way out of its own: only another handler that takes the question can move anything, and
-- no expiry and no interruption is recorded.
pub stranded-Step :
    {q q' : Question}
    → Reach opened q
    → IsStranded q
    → Step q q'
    → (a : Answer) × (q' ≡ record q { registered = false; held = a ∷ [] })
stranded-Step {q} {q'} p stranded st = taken_up q q' (one_claim p) stranded st

-- The call runs exactly where the rules allow it, or where they ask and a human approves, once or
-- always; a decision of the rules is passed on as it is.
check-allow_iff :
    (d : PolicyDecision) (w : Waited)
    → ((check d w).verdict ≡ allow) ↔ (
        (d.verdict ≡ allow)
        ⊎ ((d.verdict ≡ ask) × ((w ≡ answered approve) ⊎ (w ≡ answered always))))
unfolding check
check-allow_iff d w = (λ h. ground arith, λ h. ground arith)
