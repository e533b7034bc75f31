-- ===== src/Lib.antt =====
-- The Nortex travel expense settlement service (backend/src/expense_api), modelled in its core: from
-- the items read off a trip's documents to a judged and settled claim, its submission, its approval
-- chain and the decisions taken on it.
--
-- The parts and how they meet. Documents are read into items, which evidence/extractors/base.py
-- reconciles against the stated subtotal (Evidence/Extraction) and evidence/dedup.py thins out
-- (Evidence/Dedup); figures that the claimant types in come from evidence/corrections.py
-- (Evidence/Corrections). claims/attribution.py and claims/drafting.py make draft lines of them
-- (Claims/Attribution, Claims/Drafting). policy/engine.py judges the lines by the rules of
-- policy/rules, in the order of their dates, with the meals of a day under one cap (Policy/Rules,
-- Policy/Registry, Policy/Engine), and policy/tax.py spreads a bill's tax over them (Policy/Tax).
-- claims/summary.py adds up (Claims/Summary) and approvals/routing.py resolves the chain of the net
-- amount (Approvals/Routing); claims/pipeline.py runs all of this (Claims/Pipeline, whose Collect
-- has the loop over the documents and build_claim, settle_pieces is what follows the loop,
-- and Trip has the queries before it: the policy version in force, the documents, the advances).
-- Documents come from evidence/store.py, which takes a directory of mails in (Evidence/Store), and
-- from evidence/uploads.py, which stores a bill that is uploaded (Evidence/Uploads);
-- Evidence/Classify has the kinds that produce claim lines (evidence/classify.py).
-- claims/materialise.py writes a draft down as a claim with a round of approval steps
-- (Claims/Materialise, on the rows of Claims/Rows), and approvals/service.py records decisions on it
-- (Approvals/Service) along the transition table of claims/lifecycle.py (Claims/Lifecycle).
--
-- The routers stand around this. identity/deps.py says who calls (Identity), and Http holds what is
-- raised to a caller. claims/router.py opens trips to those that are party to them, applies for
-- trips, lists, uploads, corrects and removes their documents and hands claims in (Claims/Trips, with
-- claims/withdrawals.py in Claims/Withdrawals); claims/serialisers.py gives the steps of the present
-- round (Claims/Serialisers); approvals/router.py has the queues and the decision endpoint
-- (Approvals/Queue, whose Listing has the listing of a queue); notifications/service.py and
-- notifications/router.py write and read the inbox (Notifications). They read
-- the tables of Tables, and a handler that writes returns what it leaves.
-- Approvals/Service/Refinement relates record_decision to a decision on an abstract queue.
--
-- State is passed explicitly: a function that changes a claim takes the stored one and returns the
-- one it leaves; a function that raises returns a Result. Approvals/Service/History holds the
-- relation of the claims that submissions and decisions lead to. An amount of money is an integer
-- count of paise, a date its ordinal, a text the list of its ASCII codes, and a message a value with
-- what it quotes. A policy's parameters are a JSON tree (Policy/Params); Policy/Rev4 is the payload
-- of Rev 4. Decimal division keeps the 28 digits of Python's default context (Policy/Decimal). The
-- reporting line is walked for at most twelve people, an application for a trip has at most three
-- attempts, and an upload tries 999 alternative names, as in the source; no other loop has a bound.
-- What a rollback of the session leaves of the caller's row is an argument of create_trip (RowState).
--
-- Not modelled: mail parsing, the classification by wording, OCR and the extractors, all of which
-- arrive as arguments; the bytes of an upload and the envelope of an image, the wire models of the full
-- claim responses, the spreadsheet export, sample data and the database itself. A select that
-- must have one row at most takes the first. Texts are ASCII, and `isdigit` and `strip` are those of
-- ASCII texts.
pub mod Prelude
pub mod Models
pub mod Policy
pub mod Claims
pub mod Approvals
pub mod Evidence
pub mod Tests
pub mod Http
pub mod Identity
pub mod Notifications
pub mod Tables
