-- ===== src/Lib.antt =====
-- Verification of the TypeScript code of Guardian, a family safety product: the policy package that
-- validates and evaluates signed policy bundles, and the parts of the mobile application that keep
-- sessions, the identity of a child's device, its protection, queued requests and the live connection,
-- with the scripts that admit a release.
--
-- Common: lists, texts, tests and results that the other modules share. A text is the list of its
--   UTF-16 code units, as in JavaScript; a thrown exception is the `err` of a `Result`. Programs has
--   programs that change a state and may throw, and the rules on what they do to the state; Screens
--   those of a component with a state of its own, and Endings how a program ends.
-- Contracts: packages/contracts/src/types.ts, the decision and the use counters. Guards: its guards on
--   any value; Guarded: the values that they let through.
-- Policy: packages/policy-schema/src.
--   Bundle: generated.ts, the signed bundle.
--   Platform: `@js-temporal/polyfill`, `tldts` and the URL parser, as a record of functions.
--   Window, Domain, Rules, Budget, Routines, Layers, Evaluator: evaluator.ts, one module for each
--     group of its functions. `choose` is the chain of early returns of `evaluatePolicy`.
--   Window/Week: a window as a set of minutes of the week, the description that `isInWindow` meets.
--   Evaluator/Total, Precedence, Reasons, Usage, Stale: the theorems on decisions.
--   Validation: validation.ts, `validateBundle`; `ajv`, `isIP` and the resolution of a timezone are
--     a record of functions. Distinct: the identifiers; Described: the conditions on rules in words of
--     their own; Accepted: the values it accepts.
--   Canonical: canonical.ts, with the values of JavaScript in Values; `.sort()` on the keys is an
--     insertion. Order: the order of properties; Serializable: the values that have a text.
--   Signature: signature.ts; `atob`, `TextEncoder` and `crypto.subtle` are a record of functions.
--     Trust: the bundles that are accepted.
-- Mobile: apps/mobile/src.
--   Outbox: state/request-outbox.ts. Failures: one flush, as a list of ends of deliveries. Schedule:
--     calls that overlap, as a sequence of events on a storage that does not fail.
--   Session: api/client.ts. The secure store is a record of programs, each of which may throw, with
--     what it documents as laws (`IsSecureStore`). Network has `request` of
--     packages/api-client/src/generated.ts; Client the request with its retry, the refresh, the
--     logout and `realtimeToken`. Bounds and Untouched: what these change; Cleared and Unpaired:
--     what the session storage leaves when calls throw.
--   Sync: hooks/use-family-sync.ts, the socket and the timers as a state machine.
--   Repair: state/child-repair.ts, on the session storage, as app/child/pair.tsx connects them.
--   Child: app/child/home.tsx, the functions that report usage and risk events and apply
--     reputations; the usage of an application is in whole seconds. Delivered, Fetches, Received and
--     Usage have its theorems.
--   Provider: auth/session.tsx, the state of `SessionProvider` beside the session storage. Kept: the
--     credential of the child's device; SignedOut: what a sign-out and the start leave behind.
--   Protection: app/child/home.tsx, the state of the screen of a child's device beside that of what it
--     calls. View: the state and what is shown; Calls: the native module and the client, a record of
--     programs; Sync: the synchronisation and the refreshes; Native: the subscription to native
--     events, which Told, Quiet and Handled are about. Honest: what the screen says. Protocol: the
--     machine that the calls which have returned follow.
--   Endpoints: api/client.ts, the path, the method, the headers and the body of each operation of
--     the client; `encodeURIComponent`, `URLSearchParams`, `JSON.stringify`, the clock and the random
--     part of a key are a record. Authenticated: the credentials that a request carries.
--   Signing: api/device-signing.ts; `Crypto.digest`, `TextEncoder`, base64 and Ed25519 are a record of
--     functions. Binding: what a signed text determines.
--   Pairing: state/pairing-uri.ts and state/pairing.ts; `new URL` is a parameter. Parsed: the links
--     that are read.
--   Requests: app/child/requests.tsx, the state of the screen on the outbox, over a storage that may
--     fail. Honest: what the screen says of the outbox.
--   Time: app/child/time.tsx, the time that the screen shows as left, for a bundle that conforms to
--     the schema. Agreed and Fair: how it compares with the budgets of the evaluator.
--   Recovery: state/role.ts, state/child-device-recovery.ts and state/push-actions.ts.
-- Release: apps/mobile/scripts/release-admission.mjs, but for Artifact.
--   Patterns: its regular expressions, written out. Words: where the words of a placeholder stand.
--   Admission: the validators and `main`; the file system, `new URL`, `JSON.parse` and `Buffer` are
--     a record of functions. Version, Keys and Admitted: what is admitted.
--   Artifact: apps/mobile/scripts/verify-release-artifact.mjs, the approval of a built application.
--     Scans: its regular expressions. Manifest: the checks of manifests and archives. Verification:
--     `main` and the checks of what other tools print, with Judged; these tools and the file system
--     are a record.
--     Libraries: the archives that have all libraries. Contents, Trees and Manifests: which texts
--     pass the checks. Steps, Packages, Bundles and Approved: what is found of an artifact that is approved.
--     Returning, Passing and Decided: an artifact of which this is found is approved.
--
-- A bundle goes through Validation before Evaluator reads it; the evaluator asks nothing of it but
-- that its instants and timezones are readable. Repair, Client, Provider and Recovery share the
-- session storage; Endpoints gives Client its requests, and Protection uses Child. Signature verifies
-- what Canonical gives. Calls that `Promise.all` starts together run one after the other, each to its
-- end, and a promise that is not awaited runs to its end where it is started.
--
-- Bounds: numbers are natural numbers, which the counters, limits and versions are; `Number()` is
-- modelled on texts of digits, and another text counts as NaN. An instant is the number of
-- nanoseconds since the earliest one. Use counters are functions of a key, so a key that only
-- `Object.prototype` has is not considered. There is no fuel: the loops run over lists, and the
-- retry of a request is the one that the code has.
--
-- Not modelled: the rendering of the screens, two callers that share a refresh in flight,
-- `websocketUrl` and the base URL; the service in Python and the native modules in Kotlin and Swift.
pub mod Common
pub mod Contracts
pub mod Mobile
pub mod Policy
pub mod Release
