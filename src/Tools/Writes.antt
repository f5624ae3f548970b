-- ===== src/Tools/Writes.antt =====
-- What the writing tools write: own orders only, and only what the policy allows.
use mathlib.Core.Option.{some-injective}
use mathlib.Core.Path.{subst}
use ai_customer_support_plat.Value.{Fields, get, obj}
use ai_customer_support_plat.Policy.Types.{CancelDecision, CompanyConfig, RefundDecision}
use ai_customer_support_plat.Agents.Messages.{Message, Outcome, Reply, Tool}
use ai_customer_support_plat.Agents.ToolLoop.{find_tool, payload, run_tool_loop}
use ai_customer_support_plat.Agents.ToolLoop.Execution.{
  NeverExecutes, NotExecuted, run_tool_loop-NoRefund,
}
use ai_customer_support_plat.Tools.Lookups.{
  flag_or, load_order, load_owned, load_shipment, owned, required_text, scoped_to_customer, text_or,
}
use ai_customer_support_plat.Services.OrderSummary.{Labels}
use ai_customer_support_plat.Tools.Billing.{Body, order_tool, with_context}
use ai_customer_support_plat.Tools.Refunds.{
  create_body, create_for, create_refund_request, new_refund, refund_decision_for, refund_tool,
  request_refund,
}
use ai_customer_support_plat.Tools.Logistics.{
  cancel_body, cancel_decision_for, cancel_for, cancel_row, parcel_status, shipment_status_of,
}
use ai_customer_support_plat.Tools.Workers.{Worker, account, billing, logistics, worker_tools}
use ai_customer_support_plat.Tools.Database.{
  Order, Refund, RefundStatus, Shipment, Tables, ToolContext, Uuids, World,
}
use ai_customer_support_plat.Policy.Cancel.{
  InWarehouse, OpenOrder, OrderStatus, can_cancel, can_cancel_iff, cancel_decision, order_value,
}
use ai_customer_support_plat.Prelude.{
  Bool, Bool-cases, List, Option, String, [], ap, arith, false, if◌then◌else◌, inl, inr, nat_beq,
  none, refl, some, sym, true, ℕ, ◌++◌, ◌||◌, ◌∙◌, ◌∷◌, ◌≡◌, ◌≢◌,
}

-- The order that a tool acts on is one of the bound customer's.
pub record OwnOrder (u : Uuids) (t : Tables) (k : ℕ) (id : String) (o : Order) : Type 0 where
  pub found : load_order u t id ≡ some o
  pub owner : o.customer_id ≡ k

scoped_owner :
    (context : ToolContext) (k : ℕ) (o : Order)
    → context.customer_id ≡ some k
    → scoped_to_customer context o.customer_id ≡ true
    → o.customer_id ≡ k
unfolding scoped_to_customer
scoped_owner context k o e h = ground arith

-- An order that passes the ownership test is the bound customer's.
owned-OwnOrder :
    (u : Uuids) (context : ToolContext) (t : Tables) (id : String) (k : ℕ) (o : Order)
    → context.customer_id ≡ some k
    → load_owned u context t id ≡ some o
    → OwnOrder u t k id o
owned-OwnOrder u context t id k o e h = go (load_order u t id) refl h
  where
    pick :
        (o' : Order) (b : Bool)
        → scoped_to_customer context o'.customer_id ≡ b
        → load_order u t id ≡ some o'
        → (if b then some o' else none) ≡ some o
        → OwnOrder u t k id o
    pick o' true s f x =
        let same : o' ≡ o = some-injective o' o x in
        record {
          found = f ∙ x;
          owner = ap (λ (y : Order). y.customer_id) (sym same) ∙ scoped_owner context k o' e s;
        }
    pick o' false s f x = cc

    go : (m : Option Order) → load_order u t id ≡ m → owned context m ≡ some o → OwnOrder u t k id o
    go none f x = cc
    go (some o') f x = pick o' (scoped_to_customer context o'.customer_id) refl f x

-- The refund that a decision grants for an order: the amount of the decision, or the order's total
-- where the decision has none, and a status that waits for an approval where the decision asks for
-- a human.
pub record Grants (d : RefundDecision) (o : Order) (reason : String) (refund : Refund)
    : Type 0 where
  pub for_order : refund.order_id ≡ o.id
  pub granted : (n : ℕ) → d.max_amount ≡ some n → refund.amount ≡ n
  pub total : d.max_amount ≡ none → refund.amount ≡ o.total_amount
  pub awaited : d.requires_human ≡ true → refund.status ≡ RefundStatus.pending_approval
  pub asked : d.requires_human ≡ false → refund.status ≡ RefundStatus.requested
  pub approval : refund.requires_human_approval ≡ d.requires_human
  pub because : refund.reason ≡ reason

new_refund-Grants :
    (u : Uuids) (c : CompanyConfig) (w : World) (d : RefundDecision) (o : Order) (reason : String)
    → Grants d o reason (new_refund u c w o reason d)
unfolding new_refund
new_refund-Grants u c w d o reason = record {
  for_order = refl;
  granted = λ n e. rw e refl;
  total = λ e. rw e refl;
  awaited = λ e. rw e refl;
  asked = λ e. rw e refl;
  approval = refl;
  because = refl;
}

-- What `create_refund_request` may do to the world: nothing, or one refund more, for an order of the
-- bound customer that the policy finds eligible.
pub data RefundWrites (u : Uuids) (c : CompanyConfig) (context : ToolContext) (k : ℕ)
    (id reason : String) (verified : Bool) (w w' : World) : Type 0 where
  unchanged : w' ≡ w → RefundWrites u c context k id reason verified w w'
  requested :
      (o : Order) (refund : Refund)
      → OwnOrder u w.tables k id o
      → (refund_decision_for c context w o reason verified).eligible ≡ true
      → Grants (refund_decision_for c context w o reason verified) o reason refund
      → w'.tables ≡ record w.tables { refunds = w.tables.refunds ++ refund ∷ [] }
      → RefundWrites u c context k id reason verified w w'

module _ (u : Uuids) (c : CompanyConfig) (context : ToolContext) (k : ℕ)
    (bound : context.customer_id ≡ some k) where
  create_for-RefundWrites :
      (id reason : String) (verified : Bool) (w : World) (m : Option Order)
      → ((o : Order) → m ≡ some o → OwnOrder u w.tables k id o)
      → RefundWrites u c context k id reason verified w
          (create_for u c id reason verified context w m).1
  unfolding create_for
  create_for-RefundWrites id reason verified w none own = unchanged refl
  create_for-RefundWrites id reason verified w (some o) own =
      elim (Bool-cases (refund_decision_for c context w o reason verified).eligible) [
        | inl e ↦
            requested o _ (own o refl) e
              (new_refund-Grants u c w (refund_decision_for c context w o reason verified) o reason)
              (rw e)
        | inr e ↦ unchanged (rw e)
      ]

  -- With a customer bound to the context, a refund request writes nothing, or adds one refund for an
  -- order of that customer which the policy finds eligible. The refund has the amount of that
  -- decision, or the order's total if it has none; it waits for an approval where the decision asks
  -- for a human, and is requested otherwise.
  pub create_refund_request_writes :
      (id reason : String) (verified : Bool) (w : World)
      → RefundWrites u c context k id reason
          (verified || context.identity_verified)
          w
          (create_body u c id reason verified context w).1
  unfolding create_body
  create_refund_request_writes id reason verified w =
      create_for-RefundWrites id reason (verified || context.identity_verified) w
        (load_owned u context w.tables id) (λ o e. owned-OwnOrder u context w.tables id k o bound e)

-- Orders of which those with a key have become cancelled, and the others are as they were.
pub data CancelledAt (key : ℕ) : List Order → List Order → Type 0 where
  no_orders : CancelledAt key [] []
  as_it_was :
      (o : Order) (os os' : List Order)
      → o.id ≢ key
      → CancelledAt key os os'
      → CancelledAt key (o ∷ os) (o ∷ os')
  marked :
      (o : Order) (os os' : List Order)
      → o.id ≡ key
      → CancelledAt key os os'
      → CancelledAt key (o ∷ os) (record o { status = OrderStatus.cancelled } ∷ os')

cancel_row-CancelledAt : (key : ℕ) (os : List Order) → CancelledAt key os (cancel_row key os)
cancel_row-CancelledAt key [] = no_orders
cancel_row-CancelledAt key (o ∷ os) = elim (Bool-cases (nat_beq o.id key)) [
  | inl e ↦ rw e (marked o os _ (ground arith) (cancel_row-CancelledAt key os))
  | inr e ↦ rw e (as_it_was o os _ (λ same. apart e same) (cancel_row-CancelledAt key os))
]
  where
    apart : nat_beq o.id key ≡ false → o.id ≡ key → ⊥
    apart e same = ground arith

-- What `cancel_order` may do to the world.
pub data CancelWrites (u : Uuids) (k : ℕ) (id : String) (w w' : World) : Type 0 where
  unchanged : w' ≡ w → CancelWrites u k id w w'
  cancelled :
      (o : Order) (orders : List Order)
      → OwnOrder u w.tables k id o
      → OpenOrder o.status
      → InWarehouse (parcel_status (load_shipment w.tables o.id))
      → CancelledAt o.id w.tables.orders orders
      → w'.tables ≡ record w.tables { orders = orders }
      → CancelWrites u k id w w'

cancel_decision_for-eq :
    (w : World) (o : Order) (s : Option Shipment)
    → can_cancel (shipment_status_of s) (order_value o.status)
      ≡ cancel_decision (parcel_status s) o.status
cancel_decision_for-eq w o none = refl
cancel_decision_for-eq w o (some s) = refl

module _ (u : Uuids) (context : ToolContext) (k : ℕ) (bound : context.customer_id ≡ some k) where
  cancel_for-CancelWrites :
      (id : String) (w : World) (m : Option Order)
      → ((o : Order) → m ≡ some o → OwnOrder u w.tables k id o)
      → CancelWrites u k id w (cancel_for id w m).1
  unfolding cancel_for
  cancel_for-CancelWrites id w none own = unchanged refl
  cancel_for-CancelWrites id w (some o) own = elim (Bool-cases (cancel_decision_for w o).eligible) [
    | inl e ↦
        let (open_order, parcel) =
          (can_cancel_iff (parcel_status (load_shipment w.tables o.id)) o.status).0.0 (
            ap (λ (d : CancelDecision). d.eligible)
              (sym (cancel_decision_for-eq w o (load_shipment w.tables o.id)))
            ∙ e) in
        cancelled o _ (own o refl) open_order parcel (cancel_row-CancelledAt o.id w.tables.orders)
          (rw e)
    | inr e ↦ unchanged (rw e)
  ]

  -- With a customer bound to the context, a cancellation changes nothing, or marks as cancelled the
  -- order that is named, which is that customer's, is still open and whose parcel has not left: the
  -- orders with other ids, and the other tables, stay as they were.
  pub cancel_order_writes :
      (id : String) (w : World) → CancelWrites u k id w (cancel_body u id context w).1
  unfolding cancel_body
  cancel_order_writes id w =
      cancel_for-CancelWrites id w (load_owned u context w.tables id)
        (λ o e. owned-OwnOrder u context w.tables id k o bound e)

-- A payload of the refund tools that does not say that a refund was executed.
order_tool-NotExecuted :
    (o : Option String) (body : String → Body) (w : World)
    → ((id : String) (context : ToolContext) → NotExecuted (obj (body id context w).0))
    → NotExecuted (payload (order_tool o body w)).0
unfolding get
order_tool-NotExecuted none body w h = refl
order_tool-NotExecuted (some id) body w h = go w.context
  where
    go : (k : Option ToolContext) → NotExecuted (payload (with_context k (body id) w)).0
    go none = refl
    go (some context) = h id context

refund_tool-NotExecuted :
    (o r : Option String) (v : Option Bool) (body : String → String → Bool → Body) (w : World)
    → ((id reason : String) (verified : Bool) (context : ToolContext)
        → NotExecuted (obj (body id reason verified context w).0))
    → NotExecuted (payload (refund_tool o r v body w)).0
unfolding get
refund_tool-NotExecuted none r v body w h = refl
refund_tool-NotExecuted (some id) none v body w h = refl
refund_tool-NotExecuted (some id) (some r) none body w h = refl
refund_tool-NotExecuted (some id) (some r) (some v) body w h =
    order_tool-NotExecuted (some id) (λ id. body id r v) w (λ id context. h id r v context)

module _ (u : Uuids) (c : CompanyConfig) where
  created-NotExecuted :
      (reason : String) (d : RefundDecision) (o : Order) (w : World)
      → NotExecuted (obj (request_refund u c reason d o w).0)
  unfolding request_refund get
  created-NotExecuted reason d o w = elim (Bool-cases d.eligible) [ inl e ↦ rw e | inr e ↦ rw e ]

  create-NotExecuted :
      (id reason : String) (verified : Bool) (context : ToolContext) (w : World)
      → NotExecuted (obj (create_body u c id reason verified context w).0)
  unfolding create_body
  create-NotExecuted id reason verified context w = go (load_owned u context w.tables id)
    where
      go :
          (m : Option Order)
          → NotExecuted
              (obj (create_for u c id reason (verified || context.identity_verified) context w m).0)
      go none = unfold get in refl
      go (some o) =
          created-NotExecuted reason
            (refund_decision_for c context w o reason (verified || context.identity_verified)) o w

  -- The tool that creates refund requests never says that it executed one.
  create_refund_request-NotExecuted :
      (args : Fields) (w : World) → NotExecuted (payload (create_refund_request u c args w)).0
  unfolding create_refund_request
  create_refund_request-NotExecuted args w =
      refund_tool-NotExecuted (required_text (get args "order_id"))
        (text_or "customer_preference" (get args "reason"))
        (flag_or false (get args "identity_verified")) (create_body u c) w
        (λ id r v context. create-NotExecuted id r v context w)

module _ (u : Uuids) (labels : Labels) (c : CompanyConfig) (search_kb : Fields → Outcome) where
  workers-NeverExecute : (k : Worker) → NeverExecutes (worker_tools u labels c search_kb k)
  unfolding find_tool
  workers-NeverExecute billing f e args w =
      subst (λ (g : Tool World). NotExecuted (payload (g args w)).0)
        (some-injective (create_refund_request u c) f e)
        (create_refund_request-NotExecuted u c args w)
  workers-NeverExecute logistics f e args w = cc
  workers-NeverExecute account f e args w = cc

  -- Whatever the model asks for, no worker ever reports a refund as executed.
  pub worker_never_executes :
      (k : Worker) (scopes : List String) (model : List Message → Reply) (prompt message : String)
      (history : List Message) (extra : String) (w : World)
      → (run_tool_loop model
          (worker_tools u labels c search_kb k)
          scopes
          prompt
          message
          history
          extra
          w).refund_executed
        ≡ false
  worker_never_executes k scopes model prompt message history extra w =
      run_tool_loop-NoRefund (worker_tools u labels c search_kb k) scopes (workers-NeverExecute k)
        model prompt message history extra w
