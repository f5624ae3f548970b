-- ===== src/Graph/Accounts.antt =====
-- What a suspended or closed account does to a turn.
use ai_customer_support_plat.Value.{Value, end, field, get, str}
use ai_customer_support_plat.Tools.Database.{
  AccountStatus, Customer, Order, Tables, ToolContext, Uuids, World, account_value,
}
use ai_customer_support_plat.Tools.Lookups.{find_row}
use ai_customer_support_plat.Policy.Escalation.{escalation_from_facts, should_escalate}
use ai_customer_support_plat.Services.OrderSummary.{Labels}
use ai_customer_support_plat.Services.Tickets.{Ticket}
use ai_customer_support_plat.Graph.State.{SupportState}
use ai_customer_support_plat.Graph.Edges.{escalation, route_after_supervisor}
use ai_customer_support_plat.Graph.Nodes.{supervisor_node}
use ai_customer_support_plat.Graph.Routing.{flagged, routes_iff}
use ai_customer_support_plat.Graph.Context.{
  load_customer_context_node, load_found, load_named, load_parsed, loaded,
}
use ai_customer_support_plat.Prelude.{
  List, Option, String, ap, nat_beq, none, nonempty, refl, some, true, ℕ, ◌∙◌, ◌≡◌, ◌≢◌,
}

unusable :
    (a : AccountStatus)
    → a ≢ AccountStatus.active
    → (escalation_from_facts (field "account_status" (str (account_value a)) end)).escalate ≡ true
unfolding escalation_from_facts should_escalate get
unusable AccountStatus.active n = absurd (n refl)
unusable AccountStatus.suspended n = refl
unusable AccountStatus.closed n = refl

module _ (u : Uuids) (labels : Labels) (newest_first : List Order → List Order)
    (amount_text : ℕ → String) (tickets : ℕ → Option Ticket) where
  loaded_if :
      (s : SupportState) (w : World) (context : ToolContext) (id : String) (key : ℕ) (c : Customer)
      → w.context ≡ some context
      → s.customer_id ≡ some id
      → nonempty id ≡ true
      → u.parse id ≡ some key
      → find_row (λ c. nat_beq c.id key) w.tables.customers ≡ some c
      → load_customer_context_node u labels newest_first amount_text tickets s w
        ≡ loaded u labels newest_first amount_text tickets w.tables c s
  unfolding load_customer_context_node
  loaded_if s w context id key c e f g h k =
      ap (λ o. in_context o) e
      ∙ (ap (λ o. load_named u labels newest_first amount_text tickets w.tables o s) f
          ∙ rw g (
              ap (λ o. load_parsed u labels newest_first amount_text tickets w.tables o s) h
              ∙ ap (λ o. load_found u labels newest_first amount_text tickets w.tables o s) k))
    where
      in_context : Option ToolContext → SupportState
      in_context o = elim o [
        | none ↦ s
        | some context ↦
            load_named u labels newest_first amount_text tickets w.tables s.customer_id s
      ]

  loaded-needs_human :
      (t : Tables) (c : Customer) (s : SupportState)
      → c.account_status ≢ AccountStatus.active
      → (loaded u labels newest_first amount_text tickets t c s).needs_human ≡ some true
  unfolding loaded
  loaded-needs_human t c s n = rw (unusable c.account_status n) refl

  -- A customer whose account is suspended or closed reaches no worker: whatever the classifier says,
  -- the supervisor sends the turn to the escalation.
  pub unusable_account_escalates :
      (classify : String → String × Value) (s : SupportState) (w : World) (context : ToolContext)
      (id : String) (key : ℕ) (c : Customer)
      → w.context ≡ some context
      → s.customer_id ≡ some id
      → nonempty id ≡ true
      → u.parse id ≡ some key
      → find_row (λ c. nat_beq c.id key) w.tables.customers ≡ some c
      → c.account_status ≢ AccountStatus.active
      → route_after_supervisor (
          supervisor_node classify
            (load_customer_context_node u labels newest_first amount_text tickets s w))
        ≡ escalation
  unfolding supervisor_node
  unusable_account_escalates classify s w context id key c e f g h k n =
      rw (loaded_if s w context id key c e f g h k)
        ((routes_iff _).0.1 (flagged (loaded-needs_human w.tables c s n)))
