-- ===== src/Tools/Safety.antt =====
-- What a worker cannot do with its tools.
use ai_customer_support_plat.Tools.Lookups.{flag_or, required_text, text_or}
use ai_customer_support_plat.Prelude.{
  Bool, Bool-cases, List, Option, String, [], false, inl, inr, none, one_of, refl, some, true, ◌∙◌,
  ◌∷◌, ◌≡◌,
}
use ai_customer_support_plat.Value.{Fields, get, has_key}
use ai_customer_support_plat.Policy.Types.{CompanyConfig}
use ai_customer_support_plat.Agents.Messages.{Message, Outcome, Reply, Tool}
use ai_customer_support_plat.Tools.Database.{ToolContext, Uuids, World}
use ai_customer_support_plat.Services.OrderSummary.{Labels}
use ai_customer_support_plat.Tools.Billing.{
  Body, get_order, get_order_items, get_payment_status, get_payments, order_tool, with_context,
}
use ai_customer_support_plat.Tools.Refunds.{check_refund_eligibility, refund_tool}
use ai_customer_support_plat.Tools.Account.{
  customer_tool, escalation_tool, evaluate_escalation, get_customer, known_triggers,
  verify_identity, verify_profile,
}
use ai_customer_support_plat.Agents.ToolLoop.{run_tool_loop}
use ai_customer_support_plat.Agents.ToolLoop.Keeps.{
  AllTools, AllTools-find_tool, run_tool_loop-keeps,
}
use ai_customer_support_plat.Tools.Workers.{
  Worker, account, billing, logistics, shared_tools, worker_tools,
}
use ai_customer_support_plat.Tools.Logistics.{get_return_status, get_shipment, get_shipping_status}
use ai_customer_support_plat.Security.Authorization.{authorize_tool, has_any_scope}

-- the tool writes no table
abbrev ReadsOnly : Tool World → Type 0
ReadsOnly f = (args : Fields) (w : World) → (f args w).1.tables ≡ w.tables

-- A body that writes no table makes a tool that writes none.
order_tool-tables :
    (o : Option String) (body : String → Body) (w : World)
    → ((id : String) (context : ToolContext) → (body id context w).1.tables ≡ w.tables)
    → (order_tool o body w).1.tables ≡ w.tables
order_tool-tables none body w h = refl
order_tool-tables (some id) body w h = go w.context
  where
    go : (k : Option ToolContext) → (with_context k (body id) w).1.tables ≡ w.tables
    go none = refl
    go (some context) = h id context

refund_tool-tables :
    (o r : Option String) (v : Option Bool) (body : String → String → Bool → Body) (w : World)
    → ((id reason : String) (verified : Bool) (context : ToolContext)
        → (body id reason verified context w).1.tables ≡ w.tables)
    → (refund_tool o r v body w).1.tables ≡ w.tables
refund_tool-tables none r v body w h = refl
refund_tool-tables (some id) none v body w h = refl
refund_tool-tables (some id) (some r) none body w h = refl
refund_tool-tables (some id) (some r) (some v) body w h =
    order_tool-tables (some id) (λ id. body id r v) w (λ id context. h id r v context)

customer_tool-tables :
    (o : Option String) (body : String → Body) (w : World)
    → ((id : String) (context : ToolContext) → (body id context w).1.tables ≡ w.tables)
    → (customer_tool o body w).1.tables ≡ w.tables
customer_tool-tables none body w h = refl
customer_tool-tables (some id) body w h = order_tool-tables (some id) body w h

escalation_tool-tables :
    (t : Option String) (b : Option Bool) (w : World) → (escalation_tool t b w).1.tables ≡ w.tables
escalation_tool-tables none b w = refl
escalation_tool-tables (some t) none w = refl
escalation_tool-tables (some t) (some b) w = elim (Bool-cases (one_of t known_triggers)) [
  | inl e ↦ rw e
  | inr e ↦ rw e
]

verify_profile-tables :
    (profile : Fields) (context : ToolContext) (w : World)
    → (verify_profile profile context w).1.tables ≡ w.tables
verify_profile-tables profile context w = elim (Bool-cases (has_key profile "error")) [
  | inl e ↦ rw e
  | inr e ↦ rw e
]

-- The scopes hold none that lets a principal write.
pub record ReadOnlyScopes (scopes : List String) : Type 0 where
  pub no_billing_write : has_any_scope scopes ("billing:write" ∷ "write" ∷ []) ≡ false
  pub no_logistics_write : has_any_scope scopes ("logistics:write" ∷ "write" ∷ []) ≡ false

-- where the scopes admit the tool, it only reads
abbrev AdmittedReadsOnly : List String → String → Tool World → Type 0
AdmittedReadsOnly scopes name f = authorize_tool scopes name ≡ true → ReadsOnly f

module _ (u : Uuids) (labels : Labels) (c : CompanyConfig) (search_kb : Fields → Outcome)
    (scopes : List String) (ro : ReadOnlyScopes scopes) where
  shared-ReadsOnly : AllTools (AdmittedReadsOnly scopes) (shared_tools u labels c search_kb)
  unfolding evaluate_escalation
  shared-ReadsOnly = (
    λ a args w.
        escalation_tool-tables (required_text (get args "trigger"))
          (flag_or false (get args "customer_insists_after_refusal")) w,
    (λ a args w. refl, tt),
  )

  workers-ReadsOnly :
      (k : Worker) → AllTools (AdmittedReadsOnly scopes) (worker_tools u labels c search_kb k)
  unfolding get_order get_order_items get_payments get_payment_status check_refund_eligibility
      get_shipment get_shipping_status get_return_status get_customer verify_identity authorize_tool
  workers-ReadsOnly billing = (
    λ a args w. order_tool-tables (required_text (get args "order_id")) _ w (λ id context. refl),
    (
      λ a args w. order_tool-tables (required_text (get args "order_id")) _ w (λ id context. refl),
      (
        λ a args w.
            order_tool-tables (required_text (get args "order_id")) _ w (λ id context. refl),
        (
          λ a args w.
              order_tool-tables (required_text (get args "order_id")) _ w (λ id context. refl),
          (
            λ a args w.
                refund_tool-tables (required_text (get args "order_id"))
                  (text_or "customer_preference" (get args "reason"))
                  (flag_or false (get args "identity_verified")) _ w (λ id r v context. refl),
            (λ a args w. absurd (cc ro.no_billing_write), shared-ReadsOnly),
          ),
        ),
      ),
    ),
  )
  workers-ReadsOnly logistics = (
    λ a args w. order_tool-tables (required_text (get args "order_id")) _ w (λ id context. refl),
    (
      λ a args w. order_tool-tables (required_text (get args "order_id")) _ w (λ id context. refl),
      (
        λ a args w.
            order_tool-tables (required_text (get args "order_id")) _ w (λ id context. refl),
        (
          λ a args w.
              order_tool-tables (required_text (get args "order_id")) _ w (λ id context. refl),
          (
            λ a args w.
                order_tool-tables (required_text (get args "order_id")) _ w (λ id context. refl),
            (
              λ a args w. absurd (cc ro.no_logistics_write),
              (λ a args w. absurd (cc ro.no_logistics_write), shared-ReadsOnly),
            ),
          ),
        ),
      ),
    ),
  )
  workers-ReadsOnly account = (
    λ a args w. customer_tool-tables (text_or "" (get args "customer_id")) _ w (λ id context. refl),
    (
      λ a args w.
          customer_tool-tables (text_or "" (get args "customer_id")) _ w
            (λ id context. verify_profile-tables _ context w),
      shared-ReadsOnly,
    ),
  )

  -- A worker whose principal has no writing scope changes no table, whatever the model asks for.
  pub worker_reads_only :
      (k : Worker) (model : List Message → Reply) (prompt message : String) (history : List Message)
      (extra : String) (w : World)
      → (run_tool_loop model
          (worker_tools u labels c search_kb k)
          scopes
          prompt
          message
          history
          extra
          w).state.tables
        ≡ w.tables
  worker_reads_only k model prompt message history extra w =
      run_tool_loop-keeps (λ v. v.tables ≡ w.tables) (worker_tools u labels c search_kb k) scopes
        (λ name f a e args v h.
          AllTools-find_tool (AdmittedReadsOnly scopes) _ name f (workers-ReadsOnly k) e a args v
          ∙ h)
        model prompt message history extra w refl
