-- ===== src/Examples/Contexts.antt =====
-- Runs of the loading of a customer's context.
use ai_customer_support_plat.Value.{real}
use ai_customer_support_plat.Tools.Database.{AccountStatus, Customer, World}
use ai_customer_support_plat.Graph.Context.{load_customer_context_node}
use ai_customer_support_plat.Graph.Accounts.{unusable_account_escalates}
use ai_customer_support_plat.Graph.Nodes.{supervisor_node}
use ai_customer_support_plat.Graph.Edges.{escalation, route_after_supervisor}
use ai_customer_support_plat.Examples.Data.{context, delivered_order, tables, uuids, world}
use ai_customer_support_plat.Examples.Graph.{opened}
use ai_customer_support_plat.Prelude.{
  Bool, [], ap, false, none, refl, true, true_not_false, ◌∷◌, ◌≡◌,
}

abbrev suspended_customer : Customer
suspended_customer = record {
  id = 1;
  public_id = "CUS-0001";
  name = "Rui";
  email = "rui@example.com";
  phone = "12";
  customer_tier = "standard";
  account_status = AccountStatus.suspended;
}

-- the delivered order is the customer's
abbrev suspended_world : World
suspended_world = record world {
  tables = record tables {
    customers = suspended_customer ∷ [];
    orders = record delivered_order { customer_id = 1 } ∷ [];
  };
}

abbrev is_suspended : AccountStatus → Bool
is_suspended AccountStatus.suspended = true
is_suspended _ = false

unusable_account_escalates_example :
    route_after_supervisor (
      supervisor_node
        (λ s. ("billing", real "0.9"))
        (load_customer_context_node uuids []
          (λ os. os)
          (λ n. "500.00")
          (λ k. none)
          opened
          suspended_world))
    ≡ escalation
unusable_account_escalates_example =
    unusable_account_escalates uuids [] (λ os. os) (λ n. "500.00") (λ k. none)
      (λ s. ("billing", real "0.9")) opened suspended_world context
      "00000000-0000-0000-0000-000000000001" 1 suspended_customer refl refl refl refl refl
      (λ e. true_not_false refl (ap is_suspended e))
