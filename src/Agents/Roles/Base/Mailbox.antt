-- ===== src/Agents/Roles/Base/Mailbox.antt =====
-- mas/agents/base_agent.py: the inbox, which the broker's thread fills and the agent empties, against
-- a record of all messages that ever came in and a mark of how far they are read.
use manufacturing_mas.Prelude.{
  ℕ, zero, suc, ◌≤◌, ◌≡◌, refl, sym, ap, ◌∙◌, List, [], ◌∷◌, ◌++◌, arith, length, length-append,
  drop, String,
}
use manufacturing_mas.Messaging.Message.{AgentMessage}
use manufacturing_mas.Agents.Roles.Base.{BaseAgent, receive_message, pop_inbox, log_reasoning}

-- A step of some thread.
pub data MailOp (B : Type 0) : Type 0 where
  receive : AgentMessage B → MailOp B
  pop : MailOp B
  think : String → MailOp B

pub record Journal (B : Type 0) : Type 0 where
  pub received : List (AgentMessage B)
  pub read : ℕ

module _ {B : Type 0} where
  -- The batches that the pops return, and the agent after.
  unfoldable pub run : List (MailOp B) → BaseAgent B → List (List (AgentMessage B)) × BaseAgent B
  unfolding receive_message pop_inbox log_reasoning
  run [] a = ([], a)
  run (receive m ∷ ops) a = run ops (receive_message a m)
  run (think line ∷ ops) a = run ops (log_reasoning a line)
  run (pop ∷ ops) a = let (rest, final) = run ops (pop_inbox a).0 in ((pop_inbox a).1 ∷ rest, final)

  -- The same steps on the journal: a pop returns what has come in since the last one.
  unfoldable pub replay : List (MailOp B) → Journal B → List (List (AgentMessage B)) × Journal B
  replay [] j = ([], j)
  replay (receive m ∷ ops) j = replay ops (record j { received = j.received ++ m ∷ [] })
  replay (think line ∷ ops) j = replay ops j
  replay (pop ∷ ops) j =
      let (rest, final) = replay ops (record j { read = length j.received }) in
      (drop j.read j.received ∷ rest, final)

  abbrev pub IsView : BaseAgent B → Journal B → Type 0
  IsView a j = (j.read ≤ length j.received) × (a.inbox ≡ drop j.read j.received)

  drop-append :
      (n : ℕ) (xs ys : List (AgentMessage B)) → n ≤ length xs → drop n (xs ++ ys) ≡ drop n xs ++ ys
  drop-append zero xs ys h = refl
  drop-append (suc n) [] ys h = absurd (omega (arith, h))
  drop-append (suc n) (x ∷ xs) ys h = drop-append n xs ys (omega (arith, h))

  drop-length : (xs : List (AgentMessage B)) → drop (length xs) xs ≡ []
  drop-length [] = refl
  drop-length (x ∷ xs) = drop-length xs

  -- Whatever the order in which messages come in and the agent takes them, the agent gets what the
  -- journal gives: every batch holds the messages that came in since the one before, in their order,
  -- none is lost and none comes twice; and the inbox at the end holds the rest.
  pub run-replay :
      (ops : List (MailOp B)) (a : BaseAgent B) (j : Journal B)
      → IsView a j
      → ((run ops a).0 ≡ (replay ops j).0) × IsView (run ops a).1 (replay ops j).1
  unfolding run replay
  run-replay [] a j h = (refl, h)
  run-replay (think line ∷ ops) a j h = run-replay ops (log_reasoning a line) j h
  run-replay (receive m ∷ ops) a j (low, same) =
      let grown = length-append j.received (m ∷ []) in
      run-replay ops (receive_message a m) (record j { received = j.received ++ m ∷ [] })
        (
          omega (arith, low, grown),
          ap (λ x. x ++ m ∷ []) same ∙ sym (drop-append j.read j.received (m ∷ []) low),
        )
  run-replay (pop ∷ ops) a j (low, same) =
      let (batches, view) =
        run-replay ops (pop_inbox a).0 (record j { read = length j.received })
          (omega arith, sym (drop-length j.received)) in
      (cc, view)
