-- ===== src/Services/Analytics/Totals.antt =====
-- The counts of the overview are those of the tickets.
use mathlib.Core.Path.{subst}
use ai_customer_support_plat.Services.Analytics.{
  AnalyticsOverviewResponse, Redis, cache_get, get_count, get_overview, group_by, group_rows,
  intent_key, intent_keys, no_intents, no_statuses, overview, set_count, set_counts, status_keys,
}
use ai_customer_support_plat.Value.{Value}
use ai_customer_support_plat.Prelude.{
  Bool, Bool-cases, List, Option, String, [], ap, arith, eq_iff, eq_refl, false, if◌then◌else◌, inl,
  inr, length, none, one_of, refl, some, suc, sym, true, ℕ, ◌+◌, ◌==◌, ◌∙◌, ◌∷◌, ◌≡◌,
}
use ai_customer_support_plat.Tools.Rows.{count}
use ai_customer_support_plat.Services.Tickets.{
  Ticket, TicketIntent, TicketStatus, account, billing, closed, escalated, in_progress, logistics,
  open_, resolved, status_value, unknown,
}
use ai_customer_support_plat.Services.Tickets.Persist.{intent_value}

set_count-get :
    (key k : String) (n : ℕ) (counts : List (String × ℕ))
    → get_count key (set_count k n counts) ≡ (if k == key then n else get_count key counts)
set_count-get key k n [] = refl
set_count-get key k n ((l, m) ∷ counts) =
    ground (arith, eq_iff l k, eq_iff l key, eq_iff k key, set_count-get key k n counts)

-- after the rows of a group: the count of a key that is among the keys, or what was there before
abbrev after_group : List String → String → List String → ℕ → ℕ
after_group all key ks old = if one_of key ks then count (λ x. x == key) all else old

eq_sym_false : (a b : String) → (a == b) ≡ false → (b == a) ≡ false
eq_sym_false a b e = ground (arith, eq_iff a b, eq_iff b a)

key_itself :
    (all : List String) (key : String) (ks : List String) (old : ℕ)
    → after_group all key ks (if key == key then count (λ x. x == key) all else old)
      ≡ after_group all key (key ∷ ks) old
key_itself all key ks old = elim (Bool-cases (one_of key ks)) [
  | inl h ↦ rw (eq_refl key) (rw h refl)
  | inr h ↦ rw (eq_refl key) (rw h refl)
]

group_step :
    (all : List String) (key k : String) (ks : List String) (old : ℕ)
    → after_group all key ks (if k == key then count (λ x. x == k) all else old)
      ≡ after_group all key (k ∷ ks) old
group_step all key k ks old = elim (Bool-cases (k == key)) [
  | inl e ↦
      subst
        (λ x.
          after_group all key ks (if x == key then count (λ y. y == x) all else old)
          ≡ after_group all key (x ∷ ks) old)
        (sym ((eq_iff k key).0 e)) (key_itself all key ks old)
  | inr e ↦ rw e (rw (eq_sym_false k key e) refl)
]

repeated_step :
    (all : List String) (key k : String) (ks : List String) (old : ℕ)
    → one_of k ks ≡ true
    → after_group all key ks old ≡ after_group all key (k ∷ ks) old
repeated_step all key k ks old h = elim (Bool-cases (key == k)) [
  | inl e ↦ rw (subst (λ x. one_of x ks ≡ true) (sym ((eq_iff key k).0 e)) h) (rw e refl)
  | inr e ↦ rw e refl
]

set_counts-get :
    (all : List String) (key : String) (ks : List String) (counts : List (String × ℕ))
    → get_count key (set_counts (group_rows all ks) counts)
      ≡ after_group all key ks (get_count key counts)
unfolding group_rows
set_counts-get all key [] counts = refl
set_counts-get all key (k ∷ ks) counts = elim (Bool-cases (one_of k ks)) [
  | inl e ↦
      rw e (set_counts-get all key ks counts ∙ repeated_step all key k ks (get_count key counts) e)
  | inr e ↦ rw e (
      set_counts-get all key ks (set_count k (count (λ x. x == k) all) counts)
      ∙ (ap (after_group all key ks) (set_count-get key k (count (λ x. x == k) all) counts)
          ∙ group_step all key k ks (get_count key counts)))
]

absent-count :
    (key : String) (ks : List String) → one_of key ks ≡ false → count (λ x. x == key) ks ≡ 0
absent-count key [] h = refl
absent-count key (k ∷ ks) h = ground (arith, eq_iff key k, eq_iff k key, absent-count key ks)

AllZero : List (String × ℕ) → Type 0
AllZero [] = Unit
AllZero ((k, n) ∷ counts) = (n ≡ 0) × AllZero counts

AllZero-get :
    (key : String) (counts : List (String × ℕ)) → AllZero counts → get_count key counts ≡ 0
unfolding AllZero
AllZero-get key [] h = refl
AllZero-get key ((k, n) ∷ counts) h = elim (Bool-cases (k == key)) [
  | inl e ↦ rw e h.0
  | inr e ↦ rw e (AllZero-get key counts h.1)
]

group_by-count :
    (key : String) (keys : List String) (counts : List (String × ℕ))
    → AllZero counts
    → get_count key (set_counts (group_by keys) counts) ≡ count (λ x. x == key) keys
unfolding group_by
group_by-count key keys counts z =
    set_counts-get keys key keys counts
    ∙ (ap (after_group keys key keys) (AllZero-get key counts z) ∙ whole (one_of key keys) refl)
  where
    whole :
        (b : Bool)
        → one_of key keys ≡ b
        → (if b then count (λ x. x == key) keys else 0) ≡ count (λ x. x == key) keys
    whole true e = refl
    whole false e = sym (absent-count key keys e)

-- how many keys are a given one
abbrev pub key_count : String → List String → ℕ
key_count key keys = count (λ x. x == key) keys

status_total :
    (ts : List Ticket)
    → length ts
      ≡ key_count "open" (status_keys ts)
        + key_count "in_progress" (status_keys ts)
        + key_count "resolved" (status_keys ts)
        + key_count "escalated" (status_keys ts)
        + key_count "closed" (status_keys ts)
status_total [] = refl
status_total (t ∷ ts) = go t.status (status_total ts)
  where
    one_more : TicketStatus → String → ℕ
    one_more s key =
        if status_value s == key
        then suc (key_count key (status_keys ts))
        else key_count key (status_keys ts)

    go :
        (s : TicketStatus)
        → length ts
          ≡ key_count "open" (status_keys ts)
            + key_count "in_progress" (status_keys ts)
            + key_count "resolved" (status_keys ts)
            + key_count "escalated" (status_keys ts)
            + key_count "closed" (status_keys ts)
        → suc (length ts)
          ≡ one_more s "open"
            + one_more s "in_progress"
            + one_more s "resolved"
            + one_more s "escalated"
            + one_more s "closed"
    go open_ h = omega arith
    go in_progress h = omega arith
    go resolved h = omega arith
    go escalated h = omega arith
    go closed h = omega arith

-- the tickets of a status, of an intent, and of none
abbrev pub has_status : TicketStatus → Ticket → Bool
has_status s t = status_value t.status == status_value s

abbrev pub has_intent : TicketIntent → Ticket → Bool
has_intent i t = elim t.intent [ none ↦ false | some j ↦ intent_value j == intent_value i ]

abbrev pub has_no_intent : Ticket → Bool
has_no_intent t = elim t.intent [ none ↦ true | some j ↦ false ]

statuses_counted :
    (s : TicketStatus) (ts : List Ticket)
    → key_count (status_value s) (status_keys ts) ≡ count (has_status s) ts
statuses_counted s [] = refl
statuses_counted s (t ∷ ts) = ground (arith, statuses_counted s ts)

abbrev intent_test : TicketIntent → Option TicketIntent → Bool
intent_test i none = false
intent_test i (some j) = intent_value j == intent_value i

not_none : (i : TicketIntent) → ("none" == intent_value i) ≡ false
not_none billing = refl
not_none logistics = refl
not_none account = refl
not_none unknown = refl

none_not : (i : TicketIntent) → (intent_value i == "none") ≡ false
none_not billing = refl
none_not logistics = refl
none_not account = refl
none_not unknown = refl

intents_counted :
    (i : TicketIntent) (ts : List Ticket)
    → key_count (intent_value i) (intent_keys ts) ≡ count (has_intent i) ts
intents_counted i [] = refl
intents_counted i (t ∷ ts) = go t.intent (intents_counted i ts)
  where
    go :
        (o : Option TicketIntent)
        → key_count (intent_value i) (intent_keys ts) ≡ count (has_intent i) ts
        → (if intent_key o == intent_value i
            then suc (key_count (intent_value i) (intent_keys ts))
            else key_count (intent_value i) (intent_keys ts))
          ≡ (if elim o [ none ↦ false | some j ↦ intent_value j == intent_value i ]
              then suc (count (has_intent i) ts)
              else count (has_intent i) ts)
    go none h = rw (not_none i) h
    go (some j) h = rw h refl

no_intents_counted : (ts : List Ticket) → key_count "none" (intent_keys ts) ≡ count has_no_intent ts
no_intents_counted [] = refl
no_intents_counted (t ∷ ts) = go t.intent (no_intents_counted ts)
  where
    go :
        (o : Option TicketIntent)
        → key_count "none" (intent_keys ts) ≡ count has_no_intent ts
        → (if intent_key o == "none"
            then suc (key_count "none" (intent_keys ts))
            else key_count "none" (intent_keys ts))
          ≡ (if elim o [ none ↦ true | some j ↦ false ]
              then suc (count has_no_intent ts)
              else count has_no_intent ts)
    go none h = ap suc h
    go (some j) h = rw (none_not j) h

-- Counts that agree with the tickets.
pub record Counted (tickets : List Ticket) (r : AnalyticsOverviewResponse) : Type 0 where
  pub statuses :
      (s : TicketStatus) → get_count (status_value s) r.by_status ≡ count (has_status s) tickets
  pub intents :
      (i : TicketIntent) → get_count (intent_value i) r.by_intent ≡ count (has_intent i) tickets
  pub without : get_count "none" r.by_intent ≡ count has_no_intent tickets
  pub whole :
      r.total_tickets
      ≡ get_count "open" r.by_status
        + get_count "in_progress" r.by_status
        + get_count "resolved" r.by_status
        + get_count "escalated" r.by_status
        + get_count "closed" r.by_status

module _ (quotient : ℕ → ℕ → Value) (day_of : ℕ → String)
    (by_day : List (String × ℕ) → List (String × ℕ)) where
  overview-Counted :
      (avg_confidence avg_resolution_ms : Option Value) (tickets : List Ticket)
      → Counted tickets (overview quotient day_of by_day avg_confidence avg_resolution_ms tickets)
  unfolding overview AllZero
  overview-Counted avg_confidence avg_resolution_ms tickets =
      let by_status : (key : String)
          → get_count key (set_counts (group_by (status_keys tickets)) no_statuses)
            ≡ key_count key (status_keys tickets) =
        λ key.
          group_by-count key (status_keys tickets) no_statuses
            (refl, (refl, (refl, (refl, (refl, tt))))) in
      let by_intent : (key : String)
          → get_count key (set_counts (group_by (intent_keys tickets)) no_intents)
            ≡ key_count key (intent_keys tickets) =
        λ key.
          group_by-count key (intent_keys tickets) no_intents
            (refl, (refl, (refl, (refl, (refl, tt))))) in
      record {
        statuses = λ s. by_status (status_value s) ∙ statuses_counted s tickets;
        intents = λ i. by_intent (intent_value i) ∙ intents_counted i tickets;
        without = by_intent "none" ∙ no_intents_counted tickets;
        whole =
            rw
              (
                by_status "open",
                by_status "in_progress",
                by_status "resolved",
                by_status "escalated",
                by_status "closed",
              )
              (status_total tickets);
      }

  -- Where the cache has nothing, the overview counts, for every status and every intent, the tickets
  -- that have it, and those without an intent under "none"; the counts of the five statuses add up to
  -- the number of the tickets. Where the cache has an overview, that is returned, and stays.
  pub get_overview-Counted :
      (avg_confidence avg_resolution_ms : Option Value) (tickets : List Ticket)
      (redis : Redis AnalyticsOverviewResponse)
      → (cache_get redis ≡ none
          → Counted tickets
              (get_overview quotient day_of by_day avg_confidence avg_resolution_ms tickets
                redis).0)
        × ((cached : AnalyticsOverviewResponse)
            → cache_get redis ≡ some cached
            → get_overview quotient day_of by_day avg_confidence avg_resolution_ms tickets redis
              ≡ (cached, redis))
  unfolding get_overview
  get_overview-Counted avg_confidence avg_resolution_ms tickets redis =
      (λ h. rw h (overview-Counted avg_confidence avg_resolution_ms tickets), λ cached h. rw h refl)
