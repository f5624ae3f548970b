-- ===== src/Graph/Context/Flags.antt =====
-- The loading of the context drops no reason for a human.
use ai_customer_support_plat.Prelude.{
  Bool, List, Option, String, false, if◌then◌else◌, inl, inr, nat_beq, none, nonempty, refl, some,
  true, ℕ, ◌≡◌, ◌⊎◌,
}
use ai_customer_support_plat.Tools.Database.{
  Customer, Order, Tables, ToolContext, Uuids, World, account_value,
}
use ai_customer_support_plat.Tools.Lookups.{find_row}
use ai_customer_support_plat.Policy.Escalation.{escalation_from_facts}
use ai_customer_support_plat.Value.{field, str, end}
use ai_customer_support_plat.Services.OrderSummary.{Labels}
use ai_customer_support_plat.Services.Tickets.{Ticket}
use ai_customer_support_plat.Graph.State.{SupportState}
use ai_customer_support_plat.Graph.Routing.{NeedsEscalation, by_policy, flagged}
use ai_customer_support_plat.Agents.ToolLoop.{asks_human}
use ai_customer_support_plat.Graph.Context.{
  bound_order_id, is_order, list_customer_orders, load_customer_context_node, load_found,
  load_named, load_parsed, loaded, profiled, ticket_order, with_identity, with_payments,
  with_selected,
}

-- what the node does is to leave the state alone or to load a customer
module _ (u : Uuids) (labels : Labels) (newest_first : List Order → List Order)
    (amount_text : ℕ → String) (tickets : ℕ → Option Ticket) (P : SupportState → Type 0)
    (s : SupportState) (w : World) (as_it_is : P s)
    (when_loaded : (c : Customer)
      → P (loaded u labels newest_first amount_text tickets w.tables c s)) where
  load_customer_context_node-keeps :
      P (load_customer_context_node u labels newest_first amount_text tickets s w)
  unfolding load_customer_context_node
  load_customer_context_node-keeps = by_context w.context
    where
      by_row :
          (r : Option Customer)
          → P (load_found u labels newest_first amount_text tickets w.tables r s)
      by_row none = as_it_is
      by_row (some c) = when_loaded c

      by_key :
          (k : Option ℕ) → P (load_parsed u labels newest_first amount_text tickets w.tables k s)
      by_key none = as_it_is
      by_key (some key) = by_row (find_row (λ c. nat_beq c.id key) w.tables.customers)

      by_text :
          (id : String) (b : Bool)
          → P (
              if b
              then load_parsed u labels newest_first amount_text tickets w.tables (u.parse id) s
              else s)
      by_text id true = by_key (u.parse id)
      by_text id false = as_it_is

      by_name :
          (o : Option String)
          → P (load_named u labels newest_first amount_text tickets w.tables o s)
      by_name none = as_it_is
      by_name (some id) = by_text id (nonempty id)

      by_context :
          (o : Option ToolContext)
          → P (elim o [
            | none ↦ s
            | some context ↦
                load_named u labels newest_first amount_text tickets w.tables s.customer_id s
          ])
      by_context none = as_it_is
      by_context (some context) = by_name s.customer_id

-- A state that asks for a human, by its flag or by its decision.
abbrev pub AsksHuman : SupportState → Type 0
AsksHuman s = (s.needs_human ≡ some true) ⊎ (asks_human s.policy_decision ≡ true)

pub AsksHuman-required : (s : SupportState) → AsksHuman s → NeedsEscalation s
AsksHuman-required s (inl e) = flagged e
AsksHuman-required s (inr e) = by_policy e

module _ (u : Uuids) (labels : Labels) (newest_first : List Order → List Order)
    (amount_text : ℕ → String) (tickets : ℕ → Option Ticket) where
  loaded-AsksHuman :
      (t : Tables) (c : Customer) (s : SupportState)
      → AsksHuman s
      → AsksHuman (loaded u labels newest_first amount_text tickets t c s)
  unfolding loaded
  loaded-AsksHuman t c s h =
      go
        (escalation_from_facts
          (field "account_status" (str (account_value c.account_status)) end)).escalate
        (find_row
          (is_order (
            bound_order_id (ticket_order u tickets s.ticket_id)
              (list_customer_orders newest_first t c.id)))
          (list_customer_orders newest_first t c.id))
    where
      go :
          (b : Bool) (chosen : Option Order)
          → AsksHuman (
              with_identity b (
                with_selected amount_text chosen (
                  profiled u labels newest_first amount_text tickets c
                    (with_payments t (list_customer_orders newest_first t c.id))
                    (bound_order_id
                      (ticket_order u tickets s.ticket_id)
                      (list_customer_orders newest_first t c.id))
                    s)))
      go true none = inl refl
      go true (some o) = inl refl
      go false none = h
      go false (some o) = h

  pub load_customer_context_node-AsksHuman :
      (s : SupportState) (w : World)
      → AsksHuman s
      → AsksHuman (load_customer_context_node u labels newest_first amount_text tickets s w)
  load_customer_context_node-AsksHuman s w h =
      load_customer_context_node-keeps u labels newest_first amount_text tickets AsksHuman s w h
        (λ c. loaded-AsksHuman w.tables c s h)
