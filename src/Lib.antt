-- ===== src/Lib.antt =====
-- The support platform of an online shop: a graph of language-model workers answers the customers'
-- tickets with tools that read and write the shop's tables, under a policy engine. The model follows
-- app/ of the repository.
--
-- Policy (app/policies): the rules for refunds, cancellations and escalations, as pure functions from
-- the facts to a decision. Policy.Types has the decisions, Policy.Refund `can_refund`, Policy.Cancel
-- `can_cancel`, Policy.Escalation `should_escalate` and `escalation_from_facts`. Policy.Loader reads
-- the restricted YAML of the company's configuration; Policy.Loader.Print has the documents that
-- Policy.Loader.Written writes and reads again.
--
-- Config (app/config.py) has the settings and what is made of their texts, Config.Keys the form of the
-- API keys.
--
-- Security (app/security): Security.Authorization has the scopes of a principal and the permission
-- table of the tools, Security.Patterns the patterns of the guardrails and their search,
-- Security.Answers `sanitize_customer_answer` and its steps, Security.Guardrails `sanitize_input` and
-- `validate_output`, and Security.Authentication the caller behind an API key.
--
-- Tools (app/tools, with the rows of app/models): Tools.Database has the tables, the clock and the
-- tool context; Tools.Lookups the searches and the ownership test; Tools.Billing, Tools.Refunds,
-- Tools.Logistics and Tools.Account one function for each tool, from its arguments and the state to a
-- payload and the next state; Tools.Workers the tools of each worker. Tools.Safety and Tools.Writes
-- are about what the workers can do to the tables.
--
-- Agents (app/agents): Agents.ToolLoop has `run_tool_loop`, in which the language model calls the
-- tools, Agents.Facts what the loop tells the escalation rule, and Agents.Escalation the text that
-- hands the customer over.
--
-- Graph (app/graph): Graph.State has the state, Graph.Edges the routes, Graph.Nodes the supervisor,
-- the workers and the two halves of the escalation, before its interrupt and when a human resumes it,
-- and Graph.Workflow the edges, with the nodes that a run visits. A run with a message starts at the
-- input guardrails and waits at the escalation, if it comes there; a run with the answer of a human
-- starts at the escalation and goes on to the output guardrails. It visits at most six nodes, so that
-- six is the fuel of `visit`, and is enough. Graph.Guards has the two guardrail nodes, Graph.Context
-- the loading of the customer's context, Graph.Context.Loading what it takes from the tables,
-- Graph.Context.Flags what it leaves standing, and Graph.Accounts what it does with an account that is
-- not active. Graph.Journeys follows a turn from its input (app/services/chat_service.py) over the
-- nodes to the supervisor.
--
-- Tickets (app/services/ticket_service.py): Services.Tickets has one conversation with its rows,
-- Services.Tickets.Messages `append_message`, Services.Tickets.Persist `persist_graph_result`,
-- Services.Tickets.Lifecycle `close_ticket`, `confirm_resolution` and `assign_agent`,
-- Services.Tickets.Answers what a turn answers and when an escalation is dated, and
-- Services.Tickets.History their calls as steps, with Services.Tickets.Validity for what each keeps.
-- Services.Tickets.Listing has the lists of tickets, with their filters and pages, and
-- Services.Tickets.Runs the runs of a ticket with their events.
--
-- Chat (app/services/chat_service.py, app/services/graph_runner.py): Services.Chat has the packets of
-- a stream, Services.Chat.Runner the result of a checkpoint, Services.Chat.Customer and
-- Services.Chat.Human the two turns, and Services.Chat.Packets what their packets tell. Services.Bus
-- (app/services/chat_bus.py) takes the packets to other subscribers; the broker delivers a packet at
-- most once, and nothing is shown of what arrives.
--
-- Api (app/api, app/security/customer_identity.py) has the rows behind the routes, the customer of the
-- portal and the status codes of the failures, and Api.Tickets the routes of one ticket: `handle` is
-- what they share, `route_body` what each of them does. Api.Creation has `create_ticket`, Api.Portal
-- the routes of the portal (app/api/routes/portal.py) and the lists.
--
-- Services.OrderSummary and Services.OrdersSummary (app/services/order_summary.py) have the payload of
-- an order and what a worker sees of all orders, and Observability.Trace
-- (app/observability/trace_recorder.py) the buffer of execution events. Evaluation (app/evaluation)
-- has the evaluators of a case, and Evaluation.Metrics the metrics of a run with their thresholds.
-- Services.Analytics (app/services/analytics_service.py) has the overview of the tickets, and
-- Retrieval (app/retrieval, app/tools/knowledge_base) the ranking of what a search has found. Examples
-- has concrete runs.
--
-- What the program passes about untyped is a `Value` (Value): null, Booleans, numbers, texts, lists
-- and dictionaries. A dictionary is a list of entries in which the first entry of a key counts.
-- Amounts are natural numbers of cents, times are seconds. The loop is bounded by MAX_TOOL_ITERATIONS,
-- as in the source, so that it needs no fuel of its own. The parser of Policy.Loader runs on fuel:
-- twice as many rounds as there are lines, and two, which Policy.Loader.Fuel shows to be enough. All
-- other functions are structurally recursive.
--
-- Parameters stand for what is not in the repository: the language model, as a function from the
-- conversation to its reply, also where it classifies a message; the system prompts, which are texts
-- for the model; the `uuid` module, as a record of its functions; the labels of
-- data/company/company.yaml; and the search of the knowledge base, which rests on an embedding model
-- and a vector index, as a function that changes no table, where Retrieval has the scores as an
-- ordered type; the Unicode database, as the two functions that Python reads of it; the database's
-- `lower`, its ILIKE and its ORDER BY, which may put rows that tie in another order for each limit and
-- offset; what Python's `int` and `float` make of a text, what PyYAML returns, and the text of a
-- `Decimal`; the `json` module and the broker; and the compiled graph behind the chat, as what a run
-- streams, how it ends and what its checkpoint holds.
--
-- A request that raises is rolled back, so that a failure carries no state.
--
-- The messages of a conversation stand in the order in which they were added. The source sorts them by
-- `created_at`, which the database sets to the start of the transaction, so that messages of one
-- transaction tie and may be read in another order. Text is put into small letters, and compared
-- without their size, character by character, where Python may make several characters of one.
--
-- Not modelled: what the tools of a run write to the shop's tables while a route waits for it (it is
-- in Tools, and is not carried over to the rows behind the routes); the events and runs of the
-- routers, the latencies of the tools, the cache of tool results, the heartbeats of a turn, the
-- workings of the graph's checkpoints, telemetry, migrations, the generators of demonstration data,
-- and the web client.
pub mod Prelude
pub mod Value
pub mod Config
pub mod Policy
pub mod Security
pub mod Tools
pub mod Agents
pub mod Graph
pub mod Services
pub mod Api
pub mod Evaluation
pub mod Retrieval
pub mod Observability
pub mod Examples
