-- ===== src/Examples/Workers.antt =====
-- Runs of the workers and their tools.
use ai_customer_support_plat.Policy.Types.{company_config}
use ai_customer_support_plat.Agents.Messages.{Message, Reply}
use ai_customer_support_plat.Agents.ToolLoop.{LoopResult, run_tool_loop}
use ai_customer_support_plat.Tools.Database.{World}
use ai_customer_support_plat.Tools.Refunds.{create_body}
use ai_customer_support_plat.Tools.Logistics.{cancel_body}
use ai_customer_support_plat.Tools.Workers.{Worker, billing, worker_tools}
use ai_customer_support_plat.Tools.Safety.{ReadOnlyScopes, worker_reads_only}
use ai_customer_support_plat.Tools.Writes.{
  CancelWrites, RefundWrites, cancel_order_writes, create_refund_request_writes,
  worker_never_executes,
}
use ai_customer_support_plat.Examples.Data.{
  context, restless_model, search_kb, tables, uuids, world,
}
use ai_customer_support_plat.Prelude.{List, String, [], false, refl, true, ◌∷◌, ◌≡◌}

abbrev run : (List Message → Reply) → Worker → List String → LoopResult World
run model k scopes =
    run_tool_loop model (worker_tools uuids [] company_config search_kb k) scopes
      "You represent TechStore." "Refund my phone" [] "" world

worker_never_executes_example :
    (run restless_model billing ("read" ∷ "write" ∷ [])).refund_executed ≡ false
worker_never_executes_example =
    worker_never_executes uuids [] company_config search_kb billing ("read" ∷ "write" ∷ [])
      restless_model "You represent TechStore." "Refund my phone" [] "" world

create_refund_request_writes_example :
    RefundWrites uuids company_config context 7 "ORD-0001" "defective_product" true world
      (create_body uuids company_config "ORD-0001" "defective_product" false context world).1
create_refund_request_writes_example =
    create_refund_request_writes uuids company_config context 7 refl "ORD-0001" "defective_product"
      false world

cancel_order_writes_example :
    CancelWrites uuids 7 "ORD-0002" world (cancel_body uuids "ORD-0002" context world).1
cancel_order_writes_example = cancel_order_writes uuids context 7 refl "ORD-0002" world

abbrev read_only : ReadOnlyScopes ("read" ∷ [])
read_only = record { no_billing_write = refl; no_logistics_write = refl }

worker_reads_only_example : (run restless_model billing ("read" ∷ [])).state.tables ≡ tables
worker_reads_only_example =
    worker_reads_only uuids [] company_config search_kb ("read" ∷ []) read_only billing
      restless_model "You represent TechStore." "Refund my phone" [] "" world
