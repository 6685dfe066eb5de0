-- ===== src/Lib.antt =====
-- The decisions of the fonio middleware: a server between a telephone assistant (Fonio), the
-- property management system Hostaway, the portal CHECK24 and the payment sources (Qonto, PayPal).
-- Its services read rows and messages, decide, and write the outcome back. The decisions are pure
-- functions or close to it, and they are what this library models; the reading and the writing
-- (Prisma, HTTP, e-mail) enter as arguments and results.
--
-- Files, and the code that each is about:
--   Base, Base/*: tests, lists, integers, text and sorting, as JavaScript has them.
--   Portal/Rule, Portal/Defaults: the data of a portal payment rule and the shipped rules
--     (src/automation/portal-payment-rules.util.ts: PortalPaymentRuleLike,
--     DEFAULT_PORTAL_PAYMENT_RULES, clampPercent, roundMoney).
--   Portal/Matching: which rule stands for a reservation (parseChannelMatchers,
--     buildMatchHaystack, matchPortalRule); its laws in Portal/Matching/Laws.
--   Portal/Balance: whether the payment of a reservation is complete, due or may wait
--     (evaluatePortalBalance); its laws in Portal/Balance/{Bounds,Antitone,Time,Reminders}.
--   Schedule: which action the guest payment schedule takes next
--     (src/automation/guest-payment-schedule.util.ts); its laws in Schedule/{Actions,Amounts}.
--   Rules/Clock, Rules/Conditions: the stored conditions of an approval rule and their cleaning
--     (src/rules/approval-conditions.ts).
--   Rules/Decision: whether a request of a guest is approved, refused or left to a person
--     (src/rules/rules.service.ts: evaluate, checkAutoConditions); its laws in
--     Rules/Decision/{Laws,Sanitized}.
--   Check24/Calendar: the calendar of a listing as the ranges of days that CHECK24 takes
--     (src/check24/check24-calendar.util.ts); its laws in Check24/Calendar/{Nights,Ranges,Maximal}.
--   Check24/Bookings/{Store,Import,Cancel,Process}: the life of a CHECK24 booking, from the webhook or
--     the poll to a reservation at Hostaway, and its cancellation from either side
--     (src/check24/check24-booking.service.ts: handleWebhookNotification, pollRecentBookings, processBooking,
--     importBooking, propagateHostawayCancellation and what they call; syncSingleReservation of
--     src/hostaway/hostaway-sync.service.ts); the laws are in
--     Check24/Bookings/{Links,Refinement,Once,History,Terminal}.
--   Check24/ForceOpen: the nights that a cancellation gives back to the calendar
--     (src/check24/check24-sync.service.ts: forceOpenCalendarRange, applyRecentCancelForceOpens); the
--     laws are in Check24/ForceOpen/{Blockers,Opened,Reopened}.
--   Availability/{Calendar,Evaluate,Regions,Search}: which listings are free for a stay
--     (src/fonio/fonio-availability.service.ts, src/fonio/geo.util.ts, and upsertCalendarDays and
--     syncListingCalendar of src/hostaway/hostaway-sync.service.ts); the laws are in
--     Availability/{Complete,Offers}.
--   Availability/{Weekends,WeekendSearch}: the weekends of a period and the search for a free one, of
--     the same service; the laws are in Availability/Weekly.
--   Plan/Calendar, Plan/DueDate: the due dates of a payment plan (src/automation/payment-plan.util.ts:
--     advanceDueDate, rewindDueDate), on civil dates with the methods of `Date` in UTC.
--   Plan/Ledger: what a payment, and the undoing of one, does to a plan (applyPaymentToPlan,
--     reversePaymentOnPlan, and recordPaymentApplied, recordPaymentReversed of
--     src/automation/payment-plan.service.ts); its laws in Plan/Ledger/{Bounds,Undo}.
--   Split/Names, Split/Amounts: the hint that a payment is a combined deposit for two bookings of one
--     guest (src/automation/payment-split-hint.util.ts: guestsLikelySame, suggestSplitAmounts).
--   Matching/{Evidence,Hint,Decision}: which scored reservation a payment is for, and whether that is
--     certain (src/automation/payment-matcher.service.ts: match and the tests it calls;
--     src/automation/payment-split-hint.util.ts: detectCombinedDepositHint); the laws are in
--     Matching/{Ranking,Certainty}. Matching/Service makes it the matcher of Payments.
--   Payments/Program: the calls of the payment services as programs over the database, the ledger of
--     Hostaway and the answers that are still to come, which may throw.
--   Payments/{Table,Books,Apply,Desk,Filing,Reconcile,Review,Undo}: incoming payments, how they are
--     matched, applied, split, confirmed, skipped and undone
--     (src/automation/payment-reconciliation.service.ts, payment-apply.service.ts and
--     payment-inbox.service.ts, with the parts of guest-payment-automation.service.ts and
--     src/hostaway/listing-offline.util.ts that they call); the laws are in
--     Payments/{Consistency,Lines,Invariant,Outcome,Charges,Taken,Rollback,Undoing}.
--   The Tests files run the definitions and the theorems at concrete inputs.
--
-- How the parts meet: Portal decides for reservations that a portal collects for, Schedule for those
-- that a guest pays to the host; both take the amounts of Hostaway. Rules decides over the guest's
-- requests that the telephone assistant takes down. Payments stands on Plan.Ledger for the plans that a
-- payment is booked on, on Portal.Matching for stays whose money comes through a portal, and on
-- Schedule for the deposit. The search for a match is an interface of Payments (`Matcher`), which
-- Matching fills.
--
-- In Payments every answer of Hostaway is an argument (`External`) that may depend on all calls made so
-- far; it may refuse any of them. The database does not fail. E-mails to the office and the release of
-- the check-in details are calls that are recorded, without an answer.
--
-- In Check24/Bookings the state is the rows of the bookings and of the reservations, the reservations
-- that have been made at Hostaway, and the calls made. Every answer of CHECK24 and Hostaway is an
-- argument (`Outside`) that may depend on the calls made so far. Labels, the payment request and the
-- welcome message are calls that are recorded. One call of the service runs after the other, the
-- database does not fail, and of `processedAt` the model keeps whether it is set.
--
-- Availability reads the calendar rows of a listing; a refresh from Hostaway is an argument and may
-- fail. The distance between two places, which is floating point, and the collation of names
-- are parameters.
--
-- Numbers. Money is whole cents, in an integer where it can be negative and in a natural number
-- where the code has made sure that it is not; the binary floating point of JavaScript, and what it
-- rounds, is not modelled. A `Date` is its number of milliseconds since 1970, and the text of a day,
-- of the form 2026-01-31, is the number of that day. The calendar day in Berlin of a time needs the
-- time zone data, and is a parameter. In Plan, where months are counted, a date is its
-- year, month, day and time of day.
--
-- Text is a list of UTF-16 code units. `toLowerCase` is modelled on ASCII and Latin-1, and leaves any
-- other code unit as it is. `normalize('NFD')` needs the tables of Unicode, and is a parameter.
--
-- Fuel. The loop of `eachNightYmd` runs on fuel: the number of days between its two dates, which is
-- the number of rounds it makes. The nights of a stay and the weekends of a period likewise run on the
-- number of days between their two dates, of which each round takes one or seven. Every other loop is a recursion on a list or on a number
-- of days.
--
-- Not modelled: the queries and updates of the database, the HTTP clients of Hostaway, CHECK24,
-- Qonto, PayPal and Fonio, e-mails, schedulers, controllers, sign-in and the admin pages. A decision
-- that the code takes over the rows of a query takes those rows here as an argument.
--
-- Matching starts from reservations that have been scored: `scoreReservation`, which reads names, dates,
-- notes and amounts, and the regular expressions that find reservation numbers in a text
-- are not modelled. Of Check24 the registration of the webhook and the lists of the admin pages are left
-- out, of Availability the German labels and summaries. Of Payments the wording of notes and reasons is left out where nothing reads it again.
pub mod Base
pub mod Portal
pub mod Schedule
pub mod Rules
pub mod Check24
pub mod Plan
pub mod Split
pub mod Availability
pub mod Matching
pub mod Payments
