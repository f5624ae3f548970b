-- ===== src/Graph/Workflow.antt =====
-- app/graph/workflow.py: the edges of the graph, and the nodes that a turn visits.
use ai_customer_support_plat.Tools.Workers.{Worker}
use ai_customer_support_plat.Graph.State.{SupportState}
use ai_customer_support_plat.Graph.Edges.{
  Target, catalog_requires_escalation, escalation, resolution, route_after_supervisor,
  route_after_worker, worker, worker_for,
}
use ai_customer_support_plat.Prelude.{
  List, Option, [], false, none, some, suc, true, zero, ℕ, ◌∷◌, ◌≡◌,
}

-- The targets of the conditional edges are nodes.
pub data Node : Type 0 where
  input_guardrails load_customer_context supervisor : Node
  at : Target → Node
  output_guardrails : Node

-- How a run enters the graph: with a message, at its start, or with the answer of a human, at the
-- escalation that waits for it.
pub data Entry : Type 0 where
  with_message with_answer : Entry

abbrev pub entry_node : Entry → Node
entry_node with_message = input_guardrails
entry_node with_answer = at escalation

-- `build_support_graph`: the edge out of a node, by the state that the node leaves behind. The first
-- time `interrupt` suspends the run inside the escalation; when it is resumed, the node ends.
unfoldable pub next_node : Entry → Node → SupportState → Option Node
next_node e input_guardrails state = some load_customer_context
next_node e load_customer_context state = some supervisor
next_node e supervisor state = some (at (route_after_supervisor state))
next_node e (at (worker k)) state = some (at (route_after_worker state))
next_node e (at resolution) state = some output_guardrails
next_node with_message (at escalation) state = none
next_node with_answer (at escalation) state = some output_guardrails
next_node e output_guardrails state = none

abbrev behind : Node → Option (List Node) → Option (List Node)
behind n none = none
behind n (some ns) = some (n ∷ ns)

abbrev visit_from : Option Node → (Node → Option (List Node)) → Node → Option (List Node)
visit_from none rest n = some (n ∷ [])
visit_from (some m) rest n = behind n (rest m)

-- The nodes that a run visits from a node on, for the states that the nodes leave behind; fuel
-- bounds their number.
unfoldable pub visit : ℕ → Entry → (Node → SupportState) → Node → Option (List Node)
visit zero e after n = none
visit (suc fuel) e after n = visit_from (next_node e n (after n)) (visit fuel e after) n

-- The courses that a run can take. With a message: to the escalation, where it waits, before any worker
-- or behind one; or through one worker and the resolution. With an answer: from the escalation on.
-- Whatever is sent out has passed the output guardrails.
pub data Course (after : Node → SupportState) : Entry → List Node → Type 0 where
  blocked :
      catalog_requires_escalation (after supervisor) ≡ true
      → Course after with_message
          (input_guardrails ∷ load_customer_context ∷ supervisor ∷ at escalation ∷ [])
  handed_over :
      (k : Worker)
      → catalog_requires_escalation (after supervisor) ≡ false
      → k ≡ worker_for (after supervisor).intent
      → catalog_requires_escalation (after (at (worker k))) ≡ true
      → Course after with_message (
          input_guardrails
          ∷ load_customer_context
          ∷ supervisor
          ∷ at (worker k)
          ∷ at escalation
          ∷ [])
  resolved :
      (k : Worker)
      → catalog_requires_escalation (after supervisor) ≡ false
      → k ≡ worker_for (after supervisor).intent
      → catalog_requires_escalation (after (at (worker k))) ≡ false
      → Course after with_message (
          input_guardrails
          ∷ load_customer_context
          ∷ supervisor
          ∷ at (worker k)
          ∷ at resolution
          ∷ output_guardrails
          ∷ [])
  answered : Course after with_answer (at escalation ∷ output_guardrails ∷ [])
