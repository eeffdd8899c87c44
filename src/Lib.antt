-- ===== src/Lib.antt =====
-- Verification library of the WhatsApp OTP server, a NestJS application: how it limits and admits
-- requests, checks one-time passwords, issues and revokes tokens, grants subscriptions, keeps
-- WhatsApp sessions, sends messages and counts them, hands incoming messages on and answers them
-- by rules, and keeps accounts, contacts and templates. Paths are given from the repository's
-- root.
--
-- The parts and their files. Base holds what the others share: Boolean tests on native numbers
-- and texts, lists, texts as JavaScript sees them, JavaScript's Map (Base.JsMap) and a collection
-- of the database (Base.Collection), with lists against duplicates (Base.Pairwise). RateLimit is
-- src/common/interceptors/rate-limit.interceptor.ts. Otp is src/modules/OTP/otp.service.ts
-- (storeOtp, verifyOtp). Users is src/modules/users: the document and the service
-- (Users.Service). Accounts is src/modules/accounts/accounts.service.ts. Auth is
-- src/modules/auth: the tokens (Auth.Issue), the API keys (Auth.Keys), the clean-up of expired
-- tokens, and the strategy of src/common/jwt. Guards is src/common/guards: the message limit, the
-- roles and the API key. Subscriptions is src/modules/subscriptions and
-- src/modules/user-subscriptions: plans, requests, approval and disapproval. Whatsapp.Sessions is
-- src/modules/whatsapp/services/session-manager.service.ts, with what it saves in
-- src/modules/accounts/schema/account.schema.ts (Sessions.Saved); Whatsapp.Ack and
-- Whatsapp.Sender are message-sender.service.ts beside it, and Whatsapp.Incoming is
-- message-handler.service.ts. Scheduling is src/modules/scheduling/scheduling.service.ts. Rules
-- is src/modules/rules/rules.service.ts; AutoResponder is src/modules/auto-responder: the
-- service, its scores (AutoResponder.Score) and the listener that is registered for messages
-- (AutoResponder.Listener). Contacts is src/modules/contacts with src/modules/phone, Groups is
-- src/modules/groups, and Templates is src/modules/templates, whose placeholders are read in
-- Templates.Text. Resolution is recipient-resolver.service.ts and
-- message-content-resolver.service.ts of src/modules/whatsapp/services, Whatsapp.Reconnection is
-- reconnection.service.ts and session-recovery.service.ts there, Whatsapp.Events is
-- event-handler.service.ts, and Whatsapp.Accounts is account.service.ts.
--
-- How they interact. A request passes the rate limiter and the guards; the message limit guard
-- and sendMessage read the subscription that an approval puts into the user's document.
-- sendMessage looks its session up in the session manager, locks it, sends to each recipient
-- (Sender.Single for one message, Sender.Batch for the loop, Sender.Send for the whole call),
-- waits for each acknowledgement (Ack), counts each success in the user's document, and unlocks
-- the session. A schedule's processing asks the sender for its messages one by one, but without a
-- user, and so the sender refuses the first (Scheduling.Refused). The listener of the
-- auto-responder is a handler of incoming messages: it asks the rules for an answer and sends it
-- through the session of the account. A login makes tokens and selects the first account of the
-- user; an account that goes takes its tokens and API keys along, which ApiKeyGuard reads. The
-- events of a client reach the session manager, the incoming messages and the reconnection; the
-- deletion of an account reaches the collections of seven other parts.
--
-- How state is modelled. An operation is a function from the state that its service keeps to the
-- new state and the answer; an exception is a value of an error type. The operations keep the
-- source's names in snake case. A Map or a Set is the list of its entries in insertion order. A
-- collection is a parameter: a record of operations with the laws that Mongoose documents for
-- them, met by the list of the documents (in_memory); its operations are taken to succeed, so a
-- database that fails is not modelled except where a service catches the exception of one read.
-- Times are milliseconds on the native numbers; each call takes the times that it reads from the
-- clock, new identifiers, and the answers of code outside the repository (the WhatsApp client,
-- the accounts) as arguments. A difference of times is written as a sum on the other side, or
-- with a subtraction that the code guards. The texts of rules and templates are lists of 16-bit
-- units; the lower case of a text, the case folding of regular expressions, the hash of a
-- password and the signature of a token are parameters.
--
-- Asynchrony. In Sender one call runs to its end before the next; the answers to each of its
-- steps are one Attempt for each recipient, and the events of a wait are a list in their order; a
-- wait whose events hold no time-out yet is treated as one without an acknowledgement. In
-- Scheduling the processing of a schedule stops at each await: it is a task with the phase that
-- it has reached, and runs are sequences of events of any kind, so requests, timers, the cron job
-- and the steps of other tasks come in between. All loops are over lists, so no fuel is needed;
-- Scheduling.Sending gives a task the five replies that it takes. Auth, Rules, AutoResponder,
-- Accounts, Contacts, Groups, Templates, Resolution, Whatsapp.Reconnection, Whatsapp.Events and
-- Whatsapp.Accounts take one call at a time: Rules.Steps, Accounts.Numbers, Users.Names and
-- AutoResponder.Runs are relations of reachable states.
--
-- What is not modelled: the start of a reconnection in the midst of a send (the sender logs it;
-- Whatsapp.Reconnection is the reconnection itself) and the resolution of its recipients and
-- contents there (the sender takes the answers as arguments; Resolution gives them), the maps of
-- promises of a reconnection, the log of messages, the start of a client up to its readiness and
-- its QR codes, the restoration of sessions and the clean-up of browsers and files, controllers,
-- sockets, logging, seeding, the queries that search, page and count for display, and the
-- sentences that sum an answer up in words.
mod Base
pub mod RateLimit
pub mod Otp
pub mod Users
pub mod Guards
pub mod Subscriptions
pub mod Whatsapp
pub mod Scheduling
pub mod Rules
pub mod AutoResponder
pub mod Accounts
pub mod Auth
pub mod Contacts
pub mod Templates
pub mod Groups
pub mod Resolution
