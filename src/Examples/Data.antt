-- ===== src/Examples/Data.antt =====
-- A shop with one customer, one delivered order and one order that is still packed.
use ai_customer_support_plat.Prelude.{
  Bool, List, Option, [], false, if◌then◌else◌, length, nat_beq, none, some, suc, true, zero, ℕ,
  ◌+◌, ◌==◌, ◌∷◌,
}
use ai_customer_support_plat.Value.{Fields, arr, end, field, nil, str}
use ai_customer_support_plat.Policy.Cancel.{OrderStatus}
use ai_customer_support_plat.Policy.Refund.{RefundQuery}
use ai_customer_support_plat.Agents.Messages.{Message, Outcome, Reply, ToolCall}
use ai_customer_support_plat.Tools.Database.{
  AccountStatus, Order, PaymentStatus, Product, Tables, ToolContext, Uuids, World,
}

abbrev known_uuid : Bool → Option ℕ
known_uuid true = some 1
known_uuid false = none

abbrev pub uuids : Uuids
uuids = record {
  parse = λ s. known_uuid (s == "00000000-0000-0000-0000-000000000001");
  text = λ n.
      if nat_beq n 1
      then "00000000-0000-0000-0000-000000000001"
      else "00000000-0000-0000-0000-000000000002";
  hex8 = λ n. "0000002A";
  random = λ n. n + 40;
}

abbrev phone : Product
phone = record {
  public_id = "PRD-1";
  name = "Phone";
  category = "smartphones";
  final_sale = false;
  warranty_days = 365;
}

abbrev pub delivered_order : Order
delivered_order = record {
  id = 1;
  public_id = "ORD-0001";
  customer_id = 7;
  status = OrderStatus.delivered;
  total_amount = 50000;
  currency = "BRL";
  created_at = some 0;
  estimated_delivery = some 86400;
  actual_delivery = some 86400;
  items =
      record {
        public_id = "ITM-1";
        quantity = 1;
        unit_price = 50000;
        line_total = 50000;
        product = some phone;
      }
      ∷ [];
}

abbrev pub packed_order : Order
packed_order = record delivered_order {
  id = 2;
  public_id = "ORD-0002";
  status = OrderStatus.paid;
  actual_delivery = none;
}

abbrev pub tables : Tables
tables = record {
  customers =
      record {
        id = 7;
        public_id = "CUS-0007";
        name = "Ana";
        email = "ana@example.com";
        phone = "11";
        customer_tier = "standard";
        account_status = AccountStatus.active;
      }
      ∷ [];
  orders = delivered_order ∷ packed_order ∷ [];
  payments =
      record {
        id = 3;
        public_id = "PAY-0003";
        order_id = 1;
        status = PaymentStatus.paid;
        amount = 50000;
        payment_method = "pix";
        created_at = some 0;
      }
      ∷ [];
  shipments = [];
  returns = [];
  refunds = [];
}

abbrev pub context : ToolContext
context = record { customer_id = some 7; identity_verified = true }

-- four days after the delivery
abbrev pub world : World
world = record { context = some context; tables = tables; drawn = 0; now = 432000 }

abbrev pub search_kb : Fields → Outcome
search_kb args = Outcome.returned (arr nil)

-- a model that always asks for a refund of the delivered order
abbrev pub refund_call : ToolCall
refund_call = record {
  name = "create_refund_request";
  args = field "order_id" (str "ORD-0001") (field "reason" (str "defective_product") end);
  id = "call_1";
}

abbrev pub restless_model : List Message → Reply
restless_model ms = record { content = ""; tool_calls = refund_call ∷ [] }

-- a model that reports a fraud, and then answers
abbrev fraud_reply : ℕ → Reply
fraud_reply zero = record { content = "One moment."; tool_calls = [] }
fraud_reply (suc zero) = record { content = "One moment."; tool_calls = [] }
fraud_reply (suc (suc zero)) = record {
  content = "";
  tool_calls =
      record {
        name = "evaluate_escalation";
        args = field "trigger" (str "fraud") end;
        id = "call_1";
      }
      ∷ [];
}
fraud_reply (suc (suc (suc n))) = record { content = "A specialist will help."; tool_calls = [] }

abbrev pub fraud_model : List Message → Reply
fraud_model ms = fraud_reply (length ms)

-- a phone that was delivered ten days ago and does not work
abbrev pub broken_phone : RefundQuery
broken_phone = record {
  days_since_delivery = some 10;
  amount = 50000;
  product_category = "smartphones";
  final_sale = false;
  reason = "defective_product";
  identity_verified = true;
  warranty_days = 365;
  duplicate_charge = false;
  shipment_status = some "delivered";
}
