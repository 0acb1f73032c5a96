-- ===== src/Lib.antt =====
-- go-tumbler: a file key wrapped in one or more slots, each opened by a password, a YubiKey,
-- both, or a recovery code.
--
-- The parts of the program and the files that model them:
-- - tumbler.go: DataKey (`GenerateDEK`), Errors (the sentinel errors and Go's pair of a value and
--   an error as `Result`) and Types (method types, policies, bounds; Types/Strings for their
--   texts).
-- - kdf.go: Kdf. The interface `KDF` with its two implementations is the data type `Kdf`;
--   `parseKDF` is `parse_kdf`, `MarshalParams` is `marshal_params`, `Derive` is `derive` of
--   Kdf/Derive.
-- - envelope.go, the wire format: Slot (the records and the bounds), Wire/Marshal (`marshalMeta`,
--   `Marshal`), Wire/Reader (the cursor), Wire/Parse (`parseSlot`, `validateSlotShape`,
--   `ParseEnvelope`). Wire/Cursor, Wire/Fields and Wire/Slots carry the proofs of Wire/RoundTrip
--   and Wire/Binding; Wire/Refusals is about the errors.
-- - securebytes/securebytes.go: Secure/World (the store of containers and the system below it),
--   Secure/Container (`New`, `NewZero`, `Clone`, `Use`, `Len`, `Destroy`), Secure/Frame (what a
--   computation leaves in the store), Secure/Filled (what a container that is filled in place
--   holds), Secure/Returns (what it returns), Secure/Lifecycle. Secure/Vault is the contract of
--   containers, which Secure/Refinement is about. Secure/Mutex has goroutines that share a
--   container, with their steps under its mutex (`Move`, `Step`): Mutex/Bytewise has the loops
--   over the buffer, Mutex/Progress one call, Mutex/Invariant all of them, and Mutex/Order and
--   Mutex/Ends are what follows. Secure/Locking is securebytes/securebytes_unix.go.
-- - combine.go: Combine (`buildIKM`, `deriveKEK`, `seal`, `open`), Combine/Ikm, Combine/Kek,
--   Combine/Frame.
-- - method.go: Method (the interface, `wrapDEK`, `unwrapDEK`); password.go, recovery.go and
--   yubikey.go: Method/Password, Method/RecoveryCode, Method/RecoveryText, Method/YubiKey.
--   Method/Contract is the interface of laws between a method and the envelope, which the three
--   methods fill; Method/RoundTrip is about wrapping and unwrapping, Method/Tamper about slots
--   that were changed in between, and Method/WrongSecret about wrong secrets, which is what
--   Method/Discerns asks for. Opening what a method enrolled is in RoundTrip/ByPassword,
--   RoundTrip/ByRecoveryCode and YubiKey/RoundTrip (YubiKey/Alone and YubiKey/TwoFactor for its
--   modes), over what all of them share in RoundTrip/Shaped and RoundTrip/Stretched;
--   Method/Reopens is what the envelope asks for. YubiKey/Answers is the interface of laws
--   between the YubiKey method and a transport. Method/Options has the functional options and the
--   constructors of the methods. Method/Sealed and YubiKey/Sealing are about the bounds of the
--   slots that are enrolled.
-- - envelope.go, the operations, and policy.go: Envelope, with Envelope/Policy, Envelope/Remove,
--   Envelope/Grow, Envelope/Unlock, Envelope/Safety, Envelope/Reopen (opening what was made),
--   Envelope/Access (opening what was grown), Unlock/Several (trying several methods),
--   Remove/Access (opening what was cut), Envelope/Stored (writing it), Envelope/Each (what its
--   slots have from their enrolment), Envelope/Infos (what `SlotInfos` shows) and
--   Envelope/Lifecycle (the operations in any order, with Lifecycle/Access and Lifecycle/Tries on
--   who opens what comes of them).
-- - transport/transport.go and transport/piv.go: Transport. transport/ykman.go: Transport/Ykman,
--   a transport over a parameter that runs the tool, with Ykman/Response (what is read of the
--   tool's output), Ykman/Version, Ykman/Errors and Ykman/Key (as the YubiKey of a method).
--   transport/fake.go: Transport/Fake.
-- - The functions of Go's standard library on text that transport/ykman.go calls (strings, bytes,
--   strconv, encoding/hex) are written after their documentation in Text, with the lemmas on them
--   that are used.
-- Tests holds samples and runs.
--
-- How state and operations correspond to the code. A container (`*SecureBytes`) is a number that
-- names a cell of the store (`World`), so two variables may hold the same container, as pointers
-- do. A function that allocates, wipes or asks the system is a computation `M A`: it takes the
-- store and gives a `Result A` and the store after it; `defer x.Destroy()` is `defer_destroy`.
-- The answers of mlock, munlock, crypto/rand and the context are the record `System`, at each
-- call another answer if it likes. A method on an envelope takes the envelope and returns the one
-- after it; where it fails the caller's is unchanged. `==` on arrays, loops and early returns are
-- recursions and guards in the order of the source.
--
-- Parameters: HKDF, ChaCha20-Poly1305, argon2 and scrypt are the record `Crypto`. Assumed of
-- them, as a named hypothesis where it is needed, is that the cipher opens what it sealed, and
-- for the bounds of what is written that it adds sixteen bytes and that crypto/rand returns what
-- it is asked for (`KeepsLengths` of Method/Sealed). Method/Tamper and Method/WrongSecret take
-- the cipher to be an ideal one: what it sealed opens with no other associated data, and to
-- nothing else. base32 is the record `Encoding` of Method/RecoveryText. The transport of a
-- YubiKey and the touch callback are fields of the method. The run of the tool and
-- `exec.LookPath` are parameters of Transport/Ykman, with what the tool does on its command line
-- as the hypothesis `RunsKey` of Ykman/Key, and HMAC-SHA1 is one of Transport/Fake.
-- Between goroutines, a step is one access of the buffer or one operation of the mutex; the calls
-- of the rest of the development are whole, which Secure/Mutex is the reason for.
-- Bounds: no recursion needs fuel. A size that the caller gives as an `int` is an integer
-- (Base/Int), and is refused where it is negative. A byte of the source is a number, and a
-- theorem on parsed input takes that it is below 256. The lengths and offsets of envelope.go stay
-- below 2^31, since the input is at most 1 MiB: they are plain numbers. The length prefixes wrap
-- as the conversions of the source do, and so do the products and the shift of kdf.go, which are
-- computed in words of 64 bits.
--
-- An error that wraps a sentinel is that sentinel. Where transport/ykman.go wraps a second error,
-- it is kept beside the sentinel (`ToolError`), and what goes up is `ErrAuthFailed` if either is.
--
-- Not modelled: the subprocess that `defaultRunner` of transport/ykman.go starts, the text of
-- errors, the constant that a container is rendered as, a callback of `Use` that panics, the
-- mutex of the fake transport, when a finalizer runs, and the zeroing of short-lived slices
-- inside a function: zeroing is modelled for containers and for the slice that `New` is given.
mod Base
pub mod Text
pub mod Errors
pub mod Types
pub mod Kdf
pub mod Slot
pub mod Wire
pub mod Secure
pub mod Combine
pub mod Method
pub mod DataKey
pub mod Envelope
pub mod Transport
mod Tests
