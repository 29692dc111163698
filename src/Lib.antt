-- ===== src/Lib.antt =====
-- A simulated plant for car parts with a multi-agent system that runs it: machines, warehouse and
-- demand (mas/domain), messages between the agents (mas/messaging). Each part is a record for its
-- state and a function for each operation; where the code reads a clock, draws random numbers or
-- makes identifiers, these are arguments.
--
-- Prelude.antt holds shared names: Boolean tests, lists, dictionaries in insertion order and
-- integers over the native naturals. Float.antt is Python's float as a parameter: a record of
-- operations, and the order laws that a theorem may assume for values that are no NaN, met by a
-- fixed point instance.
--
-- Messaging: Message.antt and Topics.antt are mas/messaging/message.py and the tables of
-- mas/messaging/broker.py. Broker.antt is the state of `MessageBroker` and its registrations;
-- Broker/Publish.antt is `publish`, `deliver` and `_enqueue`, Broker/Consume.antt is `consume`,
-- `consume_all` and `acknowledge`. Envelopes are shared objects, kept in a store and known by index.
-- Locks are not modelled: an operation is one step, but for the sleep of a retry, during which
-- consumers take an arbitrary number of messages. Bounds, Delivery, Broadcast, Subscriptions and
-- Acks hold the theorems.
--
-- Domain: Inventory.antt is `FinishedGoodsWarehouse` of mas/domain/inventory.py, Demand.antt is
-- mas/domain/demand.py, Machines/Tool, Sensor, WorkCenter and Line are mas/domain/machines.py, and
-- Machines/States.antt is the state machine of a station under any sequence of actions, and
-- Machines/Fleet.antt applies it to the stations of the line.
--
-- Plant/Shift, Stock, Events and Factory are the state and the parts of `Factory` of
-- mas/domain/environment.py and of mas/domain/business_events.py, Plant/Cycle.antt is `run_cycle`,
-- whose random numbers, clocks and identifiers come in as `Draws`, and Plant/Outcome.antt has its
-- theorems. Environment.antt is mas/domain/manufacturing_env.py, with the settings of
-- mas/scenario/loader.py that it reads.
--
-- Protocol: Value.antt is the dictionaries of Python values that agents exchange, and the
-- conversions `float` and `int` with their exceptions as values. Session.antt is
-- mas/protocol/cnp_session.py, Comparison.antt is mas/protocol/cnp_comparison.py. Sra.antt is the
-- cycle of an agent: mas/protocol/agent_protocol.py, mas/protocol/sra_langgraph.py and the state of
-- mas/agents/base_agent.py, with the cache of graphs as state, the graph library and the identities
-- of objects as arguments. Actions.antt is the actions of mas/protocol/agentic_loop.py.
--
-- Agents: Planning/Evaluate, Rank, Alerts and Round are mas/agents/planning_sub and the planning
-- agent of mas/agents/planning_agent.py. In a round, the other agents are their answers to a call
-- for proposals, and the language model is an arbitrary function; parsing a number from a text and
-- `str` are arguments. Roles/Supply, Inventory, Demand, Equipment and Quality are the files of these
-- names in mas/agents, each with its sense, reason, act and proposal, Roles/Base is the mailboxes of
-- mas/agents/base_agent.py, and Roles/Alerts what the agents share in sending alerts. They read
-- Domain/Plant/Snapshot.antt, the part of `get_snapshot` of mas/domain/environment.py that they
-- need, or a record of what they read of a station.
--
-- Intelligence: Enrichment.antt is mas/intelligence/snapshot_enrichment.py and domain_inference.py,
-- Router.antt, Router/Gate and Router/Route are mas/intelligence/decision_router.py: the rules, the
-- test for asking the language model, and `route` with its counters and log. Predictive.antt is
-- mas/intelligence/equipment_predictive_models.py with mas/agents/equipment_sub, Solver.antt is the
-- strategy and the merge of mas/intelligence/optimization_engine.py. The client of the language
-- model, the clock and Python's formatting of numbers are arguments.
--
-- The digits of a number are printed with one unit of fuel more than the number, which is enough, as
-- a number has no more digits than that; no other loop needs fuel, as each runs over a list.
-- Quantities are naturals where the program keeps them from going below zero, and integers
-- elsewhere.
--
-- Not modelled: threads and locks, the language model, the HTTP and MQTT interfaces, logging and
-- configuration, which are input and output; the views that turn state into JSON or text; the loop
-- of mas/protocol/agentic_loop.py with its tools, the context of
-- mas/domain/manufacturing_context.py, the runtimes of mas/runtime, and the reading of a scenario in
-- mas/scenario/loader.py.
pub mod Prelude
pub mod Float
pub mod Messaging
pub mod Domain
pub mod Protocol
pub mod Agents
pub mod Intelligence
pub mod Tests
