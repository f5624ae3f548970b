-- ===== src/Api.antt =====
-- app/api: the rows behind the ticket routes, who asks for them, and what a failure answers.
pub mod Tickets
pub mod Access
pub mod Creation
pub mod Portal
use ai_customer_support_plat.Tools.Database.{Customer, Order}
use ai_customer_support_plat.Security.Patterns.{Unicode, lower_text}
use ai_customer_support_plat.Prelude.{
  List, Option, Result, String, [], fail, if◌then◌else◌, lower, nat_beq, none, nonempty, ok, some,
  strip, ℕ, ◌==◌, ◌>>=◌, ◌⁀◌, ◌∷◌,
}
use ai_customer_support_plat.Services.Tickets.{
  Desk, Failure, customer_not_found, graph_error, index_error, missing_scopes, multiple_results,
  run_not_found, ticket_conflict, ticket_not_found, ticket_ownership,
}

-- The conversations by the ids of their tickets, with the customers and their orders.
pub record Store : Type 0 where
  pub desks : List (ℕ × Desk)
  pub customers : List Customer
  pub orders : List Order

abbrev pub find_desk : ℕ → List (ℕ × Desk) → Option Desk
find_desk id [] = none
find_desk id ((k, d) ∷ ds) = if nat_beq id k then some d else find_desk id ds

abbrev pub put_desk : ℕ → Desk → List (ℕ × Desk) → List (ℕ × Desk)
put_desk id d [] = []
put_desk id d ((k, e) ∷ ds) = if nat_beq id k then (k, d) ∷ ds else (k, e) ∷ put_desk id d ds

abbrev pub stored : ℕ → Desk → Store → Store
stored id d s = record s { desks = put_desk id d s.desks }

-- the status code and the text that `register_exception_handlers` answers with
unfoldable pub http_error : Failure → ℕ × String
http_error (ticket_not_found id) = (404, "Ticket not found: " ⁀ id)
http_error (ticket_ownership id) = (404, "Ticket not found: " ⁀ id)
http_error (ticket_conflict id message) = (409, message ⁀ ": " ⁀ id)
http_error (customer_not_found email) =
    if email == "missing"
    then (401, "Customer email is required")
    else (404, "Customer not found: " ⁀ email)
http_error (missing_scopes message) = (403, message)
http_error index_error = (500, "Internal server error")
http_error multiple_results = (500, "Internal server error")
http_error (run_not_found id) = (404, "Agent run not found: " ⁀ id)
http_error (graph_error message) = (500, "Internal server error")

-- the customers that an address selects, whatever the case of its letters
abbrev with_email : (String → String) → String → List Customer → List Customer
with_email lower email [] = []
with_email lower email (c ∷ cs) =
    if lower c.email == email then c ∷ with_email lower email cs else with_email lower email cs

abbrev the_customer : String → List Customer → Result Failure Customer
the_customer email [] = fail (customer_not_found email)
the_customer email (c ∷ []) = ok c
the_customer email (c ∷ d ∷ cs) = fail multiple_results

-- `resolve_customer_by_email`, with `lower` the database's function
unfoldable pub resolve_customer_by_email :
    Unicode → (String → String) → String → Store → Result Failure Customer
resolve_customer_by_email u lower email s =
    let normalized = lower_text u (strip email) in
    the_customer normalized (with_email lower normalized s.customers)

abbrev found_customer : Result Failure Customer → Result Failure (Option Customer)
found_customer (ok c) = ok (some c)
found_customer (fail e) = fail e

-- `get_optional_customer`
unfoldable pub get_optional_customer :
    Unicode → (String → String) → Option String → Store → Result Failure (Option Customer)
get_optional_customer u lower none s = ok none
get_optional_customer u lower (some email) s =
    if nonempty (strip email)
    then found_customer (resolve_customer_by_email u lower email s)
    else ok none

abbrev required_or_fail : Option Customer → Result Failure Customer
required_or_fail none = fail (customer_not_found "missing")
required_or_fail (some c) = ok c

-- `get_required_customer`
unfoldable pub get_required_customer : Result Failure (Option Customer) → Result Failure Customer
get_required_customer given = given >>= required_or_fail
