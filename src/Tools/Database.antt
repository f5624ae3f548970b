-- ===== src/Tools/Database.antt =====
-- The rows of app/models that the tools read and write, and the runtime of app/tools/context.py.
use ai_customer_support_plat.Prelude.{Bool, List, Option, String, ℕ}
use ai_customer_support_plat.Policy.Cancel.{OrderStatus, ShipmentStatus}

pub data AccountStatus : Type 0 where
  active suspended closed : AccountStatus

pub data PaymentStatus : Type 0 where
  pending authorized paid failed refunded partially_refunded : PaymentStatus

pub data ReturnReason : Type 0 where
  defective_product wrong_item customer_preference missing_parts other : ReturnReason

pub data ReturnStatus : Type 0 where
  requested pending_inspection approved rejected completed cancelled : ReturnStatus

pub data InspectionStatus : Type 0 where
  pending passed failed not_required : InspectionStatus

pub data RefundStatus : Type 0 where
  requested pending_approval approved executed denied : RefundStatus

abbrev pub account_value : AccountStatus → String
account_value AccountStatus.active = "active"
account_value AccountStatus.suspended = "suspended"
account_value AccountStatus.closed = "closed"

abbrev pub payment_value : PaymentStatus → String
payment_value PaymentStatus.pending = "pending"
payment_value PaymentStatus.authorized = "authorized"
payment_value PaymentStatus.paid = "paid"
payment_value PaymentStatus.failed = "failed"
payment_value PaymentStatus.refunded = "refunded"
payment_value PaymentStatus.partially_refunded = "partially_refunded"

abbrev pub reason_value : ReturnReason → String
reason_value ReturnReason.defective_product = "defective_product"
reason_value ReturnReason.wrong_item = "wrong_item"
reason_value ReturnReason.customer_preference = "customer_preference"
reason_value ReturnReason.missing_parts = "missing_parts"
reason_value ReturnReason.other = "other"

abbrev pub return_value : ReturnStatus → String
return_value ReturnStatus.requested = "requested"
return_value ReturnStatus.pending_inspection = "pending_inspection"
return_value ReturnStatus.approved = "approved"
return_value ReturnStatus.rejected = "rejected"
return_value ReturnStatus.completed = "completed"
return_value ReturnStatus.cancelled = "cancelled"

abbrev pub inspection_value : InspectionStatus → String
inspection_value InspectionStatus.pending = "pending"
inspection_value InspectionStatus.passed = "passed"
inspection_value InspectionStatus.failed = "failed"
inspection_value InspectionStatus.not_required = "not_required"

abbrev pub refund_value : RefundStatus → String
refund_value RefundStatus.requested = "requested"
refund_value RefundStatus.pending_approval = "pending_approval"
refund_value RefundStatus.approved = "approved"
refund_value RefundStatus.executed = "executed"
refund_value RefundStatus.denied = "denied"

-- Keys are UUIDs, as numbers; amounts are in cents and times in seconds.
pub record Customer : Type 0 where
  pub id : ℕ
  pub public_id : String
  pub name : String
  pub email : String
  pub phone : String
  pub customer_tier : String
  pub account_status : AccountStatus

pub record Product : Type 0 where
  pub public_id : String
  pub name : String
  pub category : String
  pub final_sale : Bool
  pub warranty_days : ℕ

pub record OrderItem : Type 0 where
  pub public_id : String
  pub quantity : ℕ
  pub unit_price : ℕ
  pub line_total : ℕ
  pub product : Option Product

pub record Order : Type 0 where
  pub id : ℕ
  pub public_id : String
  pub customer_id : ℕ
  pub status : OrderStatus
  pub total_amount : ℕ
  pub currency : String
  pub created_at : Option ℕ
  pub estimated_delivery : Option ℕ
  pub actual_delivery : Option ℕ
  pub items : List OrderItem

pub record Payment : Type 0 where
  pub id : ℕ
  pub public_id : String
  pub order_id : ℕ
  pub status : PaymentStatus
  pub amount : ℕ
  pub payment_method : String
  pub created_at : Option ℕ

pub record Shipment : Type 0 where
  pub order_id : ℕ
  pub public_id : String
  pub carrier : String
  pub tracking_code : String
  pub status : ShipmentStatus
  pub shipped_at : Option ℕ
  pub estimated_delivery : Option ℕ
  pub delivered_at : Option ℕ
  pub customer_received : Option Bool

pub record ReturnRequest : Type 0 where
  pub id : ℕ
  pub public_id : String
  pub order_id : ℕ
  pub customer_id : ℕ
  pub reason : ReturnReason
  pub status : ReturnStatus
  pub requested_at : ℕ
  pub inspection_status : InspectionStatus

pub record Refund : Type 0 where
  pub id : ℕ
  pub public_id : String
  pub order_id : ℕ
  pub return_id : Option ℕ
  pub payment_id : Option ℕ
  pub amount : ℕ
  pub status : RefundStatus
  pub reason : String
  pub requires_human_approval : Bool

pub record Tables : Type 0 where
  pub customers : List Customer
  pub orders : List Order
  pub payments : List Payment
  pub shipments : List Shipment
  pub returns : List ReturnRequest
  pub refunds : List Refund

-- ToolContext, but for the session, which is the tables, and the retriever and principal, which
-- these tools do not read
pub record ToolContext : Type 0 where
  pub customer_id : Option ℕ
  pub identity_verified : Bool

-- `drawn` counts the calls of `uuid4`, whose results the runtime supplies; `now` is the clock.
pub record World : Type 0 where
  pub context : Option ToolContext
  pub tables : Tables
  pub drawn : ℕ
  pub now : ℕ

-- The `uuid` module: texts of UUIDs, and the random source.
pub record Uuids : Type 0 where
  pub parse : String → Option ℕ
  pub text : ℕ → String
  pub hex8 : ℕ → String
  pub random : ℕ → ℕ
