-- ===== src/Services/Analytics.antt =====
-- `get_overview` of app/services/analytics_service.py. A row of a GROUP BY is a value with the number
-- of rows that have it. The database's averages, its order of the days, the day of a time, and the
-- rounded quotient of two numbers are given; so is what the cache returns, which is nothing when it
-- fails.
pub mod Totals
use ai_customer_support_plat.Value.{Value, real}
use ai_customer_support_plat.Tools.Rows.{count}
use ai_customer_support_plat.Services.Tickets.{Ticket, TicketIntent, status_value}
use ai_customer_support_plat.Services.Tickets.Persist.{intent_value}
use ai_customer_support_plat.Prelude.{
  List, Option, String, [], if◌then◌else◌, length, none, one_of, some, suc, zero, ℕ, ◌==◌, ◌∷◌,
}

-- [(key, count) …], of each key that is there
unfoldable pub group_rows : List String → List String → List (String × ℕ)
group_rows all [] = []
group_rows all (k ∷ ks) =
    let rest = group_rows all ks in
    if one_of k ks then rest else (k, count (λ x. x == k) all) ∷ rest

unfoldable pub group_by : List String → List (String × ℕ)
unfolding group_rows
group_by keys = group_rows keys keys

-- by_status[key] = count
abbrev pub set_count : String → ℕ → List (String × ℕ) → List (String × ℕ)
set_count key n [] = (key, n) ∷ []
set_count key n ((k, m) ∷ counts) =
    let rest = set_count key n counts in if k == key then (k, n) ∷ counts else (k, m) ∷ rest

abbrev pub set_counts : List (String × ℕ) → List (String × ℕ) → List (String × ℕ)
set_counts [] counts = counts
set_counts ((k, n) ∷ group) counts = set_counts group (set_count k n counts)

-- counts.get(key, 0)
abbrev pub get_count : String → List (String × ℕ) → ℕ
get_count key [] = 0
get_count key ((k, n) ∷ counts) = if k == key then n else get_count key counts

abbrev pub status_keys : List Ticket → List String
status_keys [] = []
status_keys (t ∷ ts) = status_value t.status ∷ status_keys ts

abbrev pub intent_key : Option TicketIntent → String
intent_key none = "none"
intent_key (some i) = intent_value i

abbrev pub intent_keys : List Ticket → List String
intent_keys [] = []
intent_keys (t ∷ ts) = intent_key t.intent ∷ intent_keys ts

abbrev pub no_statuses : List (String × ℕ)
no_statuses =
    ("open", 0) ∷ ("in_progress", 0) ∷ ("resolved", 0) ∷ ("escalated", 0) ∷ ("closed", 0) ∷ []

abbrev pub no_intents : List (String × ℕ)
no_intents = ("billing", 0) ∷ ("logistics", 0) ∷ ("account", 0) ∷ ("unknown", 0) ∷ ("none", 0) ∷ []

pub record AnalyticsOverviewResponse : Type 0 where
  pub total_tickets : ℕ
  pub by_status : List (String × ℕ)
  pub by_intent : List (String × ℕ)
  pub escalation_rate : Value
  pub avg_confidence : Option Value
  pub avg_resolution_ms : Option Value
  pub volume_by_day : List (String × ℕ)

-- Redis, if there is one, with what it has under a key.
abbrev pub Redis : Type 0 → Type 0
Redis A = Option (Option A)

abbrev pub cache_get : {A : Type 0} → Redis A → Option A
cache_get none = none
cache_get (some entry) = entry

abbrev cache_set : {A : Type 0} → Redis A → A → Redis A
cache_set none a = none
cache_set (some entry) a = some (some a)

module _ (quotient : ℕ → ℕ → Value) (day_of : ℕ → String)
    (by_day : List (String × ℕ) → List (String × ℕ)) where
  abbrev days : List Ticket → List String
  days [] = []
  days (t ∷ ts) = day_of t.created_at ∷ days ts

  abbrev rate : ℕ → ℕ → Value
  rate escalated_count zero = real "0.0"
  rate escalated_count (suc n) = quotient escalated_count (suc n)

  -- what the database is asked for
  unfoldable pub overview : Option Value → Option Value → List Ticket → AnalyticsOverviewResponse
  unfolding group_by
  overview avg_confidence avg_resolution_ms tickets =
      let by_status = set_counts (group_by (status_keys tickets)) no_statuses in
      record {
        total_tickets = length tickets;
        by_status = by_status;
        by_intent = set_counts (group_by (intent_keys tickets)) no_intents;
        escalation_rate = rate (get_count "escalated" by_status) (length tickets);
        avg_confidence = avg_confidence;
        avg_resolution_ms = avg_resolution_ms;
        volume_by_day = by_day (group_by (days tickets));
      }

  abbrev cached_or :
      Option AnalyticsOverviewResponse
      → AnalyticsOverviewResponse
      → Redis AnalyticsOverviewResponse
      → AnalyticsOverviewResponse × Redis AnalyticsOverviewResponse
  cached_or (some cached) response redis = (cached, redis)
  cached_or none response redis = (response, cache_set redis response)

  -- `get_overview`
  unfoldable pub get_overview :
      Option Value
      → Option Value
      → List Ticket
      → Redis AnalyticsOverviewResponse
      → AnalyticsOverviewResponse × Redis AnalyticsOverviewResponse
  unfolding overview
  get_overview avg_confidence avg_resolution_ms tickets redis =
      cached_or (cache_get redis) (overview avg_confidence avg_resolution_ms tickets) redis
