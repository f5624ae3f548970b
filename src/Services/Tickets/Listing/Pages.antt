-- ===== src/Services/Tickets/Listing/Pages.antt =====
-- What a client sees of a page of a listing.
use ai_customer_support_plat.Services.Tickets.Listing.{
  Direction, SortColumn, TicketQuery, TicketRow, list_tickets, listed, other_filters, page,
  ticket_filters, ticket_to_summary,
}
use ai_customer_support_plat.Tools.Lookups.{rows}
use ai_customer_support_plat.Prelude.{
  Bool, List, String, and_parts, arith, length, nat_beq, refl, some, sym, true, ℕ, ◌∙◌, ◌≡◌, ◌≤◌,
}
use ai_customer_support_plat.Tools.Rows.{
  AllPass, AllPass-drop, AllPass-map, AllPass-take, AllPass-weaken, count, count_all, drop,
  length-map, length-take, sorted-passes,
}

module _ (ilike : String → String → Bool)
    (order_by : SortColumn → Direction → ℕ → ℕ → List TicketRow → List TicketRow)
    (query : TicketQuery) (column : SortColumn) (direction : Direction)
    (table : List TicketRow) where
  -- the whole listing, as it is ordered for a page
  abbrev pub listing : ℕ → ℕ → List TicketRow
  listing limit offset =
      order_by column direction limit offset (rows (ticket_filters ilike order_by query) table)

  module _
      (same_rows : (c : SortColumn) (d : Direction) (limit offset : ℕ) (rs : List TicketRow)
          (test : TicketRow → Bool)
        → count test (order_by c d limit offset rs) ≡ count test rs) where
    length-listing :
        (limit offset : ℕ)
        → length (listing limit offset) ≡ length (rows (ticket_filters ilike order_by query) table)
    length-listing limit offset =
        sym (count_all (listing limit offset))
        ∙ (same_rows column direction limit offset
              (rows (ticket_filters ilike order_by query) table) (λ r. true)
            ∙ count_all (rows (ticket_filters ilike order_by query) table))

    listing-passes :
        (limit offset : ℕ)
        → AllPass (λ r. ticket_filters ilike order_by query r ≡ true) (listing limit offset)
    listing-passes limit offset =
        sorted-passes (order_by column direction limit offset)
          (λ rs test. same_rows column direction limit offset rs test)
          (ticket_filters ilike order_by query) table

    own_row :
        (id : ℕ) (r : TicketRow)
        → query.owner_id ≡ some id
        → ticket_filters ilike order_by query r ≡ true
        → (ticket_to_summary r).customer_id ≡ id
    unfolding ticket_filters ticket_to_summary other_filters
    own_row id r e h =
        same
          (and_parts (nat_beq r.ticket.customer_id id) (other_filters ilike order_by query r)
            (rw e at h)).0
      where
        same : nat_beq r.ticket.customer_id id ≡ true → r.ticket.customer_id ≡ id
        same k = ground arith

    -- Given that ORDER BY returns the rows that it is given, in whatever order: a page that is asked for in the name of a customer holds tickets of
    -- that customer only, and no more than the limit; its total is the number of tickets that pass
    -- the filters.
    pub list_tickets-own :
        (id limit offset : ℕ)
        → query.owner_id ≡ some id
        → let response = list_tickets ilike order_by query column direction limit offset table in
          AllPass (λ i. i.customer_id ≡ id) response.items
          × ((length response.items ≤ limit)
              × (response.total ≡ length (rows (ticket_filters ilike order_by query) table)))
    unfolding list_tickets listed
    list_tickets-own id limit offset e = (
      AllPass-map (λ i. i.customer_id ≡ id) ticket_to_summary
          (page limit offset (listing limit offset))
          (AllPass-take (λ r. (ticket_to_summary r).customer_id ≡ id) limit
            (drop offset (listing limit offset))
            (AllPass-drop (λ r. (ticket_to_summary r).customer_id ≡ id) offset
              (listing limit offset)
              (AllPass-weaken (λ r. ticket_filters ilike order_by query r ≡ true)
                (λ r. (ticket_to_summary r).customer_id ≡ id) (listing limit offset)
                (λ r h. own_row id r e h) (listing-passes limit offset)))),
      (
        omega (
          arith,
          length-map ticket_to_summary (page limit offset (listing limit offset)),
          length-take limit (drop offset (listing limit offset)),
        ),
        refl,
      ),
    )
