-- ===== src/Lib.antt =====
-- go-adcore: the shared core of Active Directory tools written in Go.
--
-- The library gives a consumer the vocabulary in which a backend talks of a directory: names,
-- filters, identities, errors, the desired states of objects with their validation, access-control
-- entries, and the discipline of retries and of writes to one object. A consumer builds a spec,
-- which `Validate` checks by parsing its container; a backend joins the escaped name to the
-- container, sends filters built with `Equal` and `And`, classifies the codes it gets back, stamps
-- errors with `WithIdentity`, and waits by `Backoff` before it tries again. Writes to one object
-- wait for one another in a `KeyedMutex`. After a delete it asks `ConfirmAbsent`.
-- adcorefake/ is such a backend in memory: a map from DNs to objects, which searches by identity,
-- creates, moves and deletes, built on the parsing, the validation and the errors of the core.
-- directory.go says what a backend hands a consumer; adcoretest/ tests any backend by it, and so this one.
--
-- A Go string is a list of bytes, each a natural number; a `[]byte` or string index out of range is
-- `none`. An `int` or `int64` is an integer, with the wrap-around of the shift written out. A nil
-- pointer is `none`, an `error` is a value of `GoError`, an enumeration of strings is its strings.
--
--   Common       tests on numbers, lists, results, integers: shared by all
--   Bytes        strings of the package `strings`; Bytes/Trim is `strings.TrimSpace`
--   Folding      `strings.EqualFold` and `strings.ToLower` over Unicode tables, a parameter
--   Dn           dn.go. Dn/Parse: `ParseDN`, whose loop variables are the record Parser, one `step`
--                for a byte, `finish` behind the loop. Dn/Render: `DN.String`, `EscapeValue`.
--                Dn/Compare: `EqualFold`, `AncestorOfFold`. Dn/Strings: `Parent`, `SplitDN`,
--                `ContainerOf`, `EqualFoldDN`. The others hold theorems
--   Filter       filter.go: `EscapeFilter` with its two passes over one buffer, `Equal`, `And`
--   Identity     identity.go
--   Search       search.go: `Query.WithDefaults`
--   Errors       errors.go: `Kind`, `Error` with what it wraps, the trees of `errors.Join` included, `errors.Is`, `errors.As`, the
--                text of an error, `ClassifyCode`; also `WithIdentity` of spec.go
--   Spec         spec.go: the specs, their `Validate` (theorems on them in Spec/Validity),
--                `ConfirmAbsent` (Spec/Deletion)
--   Secret       secret.go
--   Models       models.go
--   Acl          acl.go: `ACE`, `CanonicalACEKey`
--   Delegation   delegation.go: `Tasks`, `Template`
--   Retry        retry.go: `RetryConfig.WithDefaults`, `Backoff`
--   Maps         a Go map with string keys, as an association list
--   Directory    directory.go: the interfaces as records of operations over a world, which is what the
--                backend reads and writes; `Close`
--   Suite        adcoretest/suite.go: the tests as programs over such a directory, which keep the
--                messages of their failures and end where the code calls `t.Fatalf`
--   Fake         adcorefake/, a directory in memory. Fake/Objects: `object`, `store`, the texts of
--                GUIDs and SIDs. Fake/Actions: an operation takes the store to a result or an error
--                and the store after it. Fake/Lookup, Fake/Moving: the helpers of fake.go, with
--                `moveLocked`. Fake/Classes: what the five classes do alike. Fake/Units, Groups,
--                Users, Accounts and Computers: ou.go, group.go, user.go, gmsa.go, computer.go.
--                Fake/Members: the members of groups, with the walk of `MembersRecursive`.
--                Fake/Schemas: schema.go. Fake/Entries: `Grant` and `Revoke` of acl.go on the
--                entries of one object, `none` where there is no such object. Fake/Directory: the
--                calls of all classes as one type. Fake/Backend: `NewRecording`, which fills the
--                records of Directory with the operations on the store. The others hold theorems,
--                those on the conformance suite in Fake/Conforming
--   Catalog      schema/catalog.go: `Catalog`, `Validate`; Catalog/Loading: `Load`, `LoadFile`;
--                Catalog/Embedded: `Baseline` of embed.go. Catalog/Integrity holds theorems
--   Locks        locks.go: `KeyedMutex` with its heap of entries and any number of goroutines; each
--                section under `k.mu` is one step
--   Tests        runs on concrete input
--
-- Bounds: the loops recurse on their input. The hexadecimal digits of a code take fuel 16, enough
-- for 64 bits; the digits of a GUID or SID take the number itself and one more. The walk of
-- `MembersRecursive` takes as fuel the number of objects and one more, which is enough since each
-- group that it enters has a GUID it had not seen. A byte is below 256 where a theorem says so. The
-- count of GUIDs given out is not bounded, since no store holds that many objects.
--
-- The order in which Go meets the entries of a map is the order of a list. `moveLocked` changes the
-- map that it runs over: Go leaves open whether its loop meets the keys that it adds itself, and the model
-- takes the loop that meets the keys there are at the start. `moveLocked` cuts a DN by the length of its
-- text: where lower-casing shortens a DN so much that the cut would end before the text begins, the slice
-- panics in Go and the call has no result. The model keeps nothing of the text there and goes on, so what
-- is stated of an `Update` is stated of the calls that do not panic.
--
-- Parameters: the Unicode tables of case folding (Folding), floating point (Retry), the timer, the
-- context and the random number of `Backoff`, the type of times, and the files and the JSON decoder
-- of schema/. Of case folding the theorem on the conformance suite assumes what the package `strings`
-- does with ASCII text (`KeepsAscii`); the tests instantiate it.
--
-- The six goroutines of the conformance suite's writers are six calls one after the other: they are the
-- same call, and each call of the fake holds the lock of its store throughout.
--
-- Not modelled: package comments, the options of `OU.Delete`, which the fake ignores, and the arguments
-- put into formatted error messages.
pub mod Common
pub mod Bytes
pub mod Folding
pub mod Maps
pub mod Dn
pub mod Filter
pub mod Identity
pub mod Search
pub mod Errors
pub mod Spec
pub mod Secret
pub mod Models
pub mod Acl
pub mod Delegation
pub mod Retry
pub mod Directory
pub mod Fake
pub mod Locks
pub mod Catalog
pub mod Suite
mod Tests
