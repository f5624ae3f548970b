-- ===== src/Examples/Overviews.antt =====
-- A run of the overview, with an empty cache.
use ai_customer_support_plat.Value.{Value, real}
use ai_customer_support_plat.Services.Tickets.{Ticket, billing, closed}
use ai_customer_support_plat.Services.Analytics.{
  AnalyticsOverviewResponse, Redis, cache_get, get_overview,
}
use ai_customer_support_plat.Services.Analytics.Totals.{Counted, get_overview-Counted}
use ai_customer_support_plat.Examples.Desks.{desk}
use ai_customer_support_plat.Prelude.{List, [], none, some, ℕ, ◌∷◌, ◌≡◌}

abbrev tickets : List Ticket
tickets = desk.ticket ∷ record desk.ticket { status = closed; intent = some billing } ∷ []

abbrev quotient : ℕ → ℕ → Value
quotient a b = real "0.5"

abbrev empty : Redis AnalyticsOverviewResponse
empty = some none

abbrev shown : AnalyticsOverviewResponse × Redis AnalyticsOverviewResponse
shown = get_overview quotient (λ n. "2026-01-01") (λ rows. rows) none none tickets empty

get_overview-Counted_example :
    (cache_get empty ≡ none → Counted tickets shown.0)
    × ((cached : AnalyticsOverviewResponse)
        → cache_get empty ≡ some cached
        → shown ≡ (cached, empty))
get_overview-Counted_example =
    get_overview-Counted quotient (λ n. "2026-01-01") (λ rows. rows) none none tickets empty
