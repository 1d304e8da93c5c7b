-- ===== src/Lib.antt =====
-- Verification of Hands, the default runtime for Brain tools: a Linux guest, its state machines and an
-- AWS Lambda MicroVM adapter.
--
-- The program's core is a set of contract-neutral state machines that every executor shares. A worker
-- that must run an effect first materializes a target: it reserves a slot in a durable registry, which
-- charges the plane's memory quota, launches the target at the provider under the reservation's
-- idempotency token, and installs what was launched. The guest then admits each operation once, bounds
-- what it retains, and forgets a terminal result only when Brain has acknowledged its exact digest.
-- Effects on files pass a durable log, which fences their repetition. Traffic of a target passes a
-- gateway, which checks each destination against a capability and the plane's denies.
--
-- How the files correspond to the code:
--   Base              shared notation: tests, lists, Result and `?`, methods as state actions, 64-bit
--                     arithmetic, HashMap as an association list, texts
--   Policy            crates/hand-policy/src: Identity (identity.rs), Secret (secret.rs), Connector
--                     (connector.rs)
--   Core/Operation    crates/hand-core/src/operation.rs: `OperationRegistry`, each method an action
--   Core/Materialization
--                     crates/hand-core/src/materialization: Spec (mod.rs, spec.rs), Record (record.rs),
--                     Memory and Lifecycle (memory.rs), Materializer (materializer.rs, port.rs)
--   Guest/FileEffects crates/hand-guest/src/file_effects.rs: Effect (its values, with those of
--                     crates/hand-wire/src/lib.rs), Log (the file, `append`, `sync`, the opening) and
--                     the module itself (`reserve`, `claim`, `complete`)
--   Guest/LogFile     what the two logs share: the file system's replies, writes that fail half-way
--   Guest/Acks        crates/hand-guest/src/acks.rs: `AckStore`, with its file
--   Egress/Policy     crates/hand-egress-gateway/src/policy.rs: Host (names and patterns) and the
--                     module itself (`ValidatedPolicy::new` is `validate_policy`, `authorize`)
--   Aws/Registry      crates/hand-brain-aws/src/registry.rs: Item (rows and `parse_record`), Expression
--                     and Writes (the conditions and updates of its requests), Table (the service, as
--                     parameters), Quota (the plane's counter), Client (`acquire`) and Settle
--                     (`install`, `expire_lease`, `get`, `mark_closed` as `transition_closed`,
--                     `purge_terminal`)
-- Proofs stand in the modules below or beside the definitions, and are named for what they prove.
--
-- Conventions. A text is a native String, in Egress its list of code points; `chars()` is `codes`,
-- `len()` counts UTF-8 bytes. A `u64` or `usize` is a number with its checked and saturating
-- operations written out. A method on `&mut self` that returns a Result is a function of the state to
-- a result and a state, and an error keeps what was written before it. A HashMap or BTreeMap is an
-- association list where its order is not observed. A fresh registry of the source's `new` is `init`;
-- the constructor `none` of ConnectorClass is `no_network`, and `LaunchError::Capacity` is
-- `no_capacity`. Diagnostic texts built with `format!` are kept as their template and arguments. The
-- bounded loop of the DynamoDB registry's `acquire` counts its four rounds down; no loop needs fuel.
--
-- Parameters. The digest of a target spec (SHA-256 over canonical JSON) is a function on specs; the
-- theorem on the plane quota assumes that specs in use whose digests agree have equal memory. The
-- provider is a record of replies. The file-effect log takes the replies of the file system with each
-- call, and JSON, canonical JSON and the contract's grammars as a `Codec`; the type of what a contract
-- result holds beyond the fields that the log reads is open. The acknowledgement log takes its
-- operation references, their canonical digest and JSON as an `AckCodec`. A crash of the machine may
-- lose any part of what is not synced and may leave the head of an append without its newline; a
-- restart of the process alone leaves the file as it was, and an opening syncs only when it cuts a
-- tail. An item of DynamoDB is a function of attribute names, and its expressions mean what DynamoDB
-- documents; the calls of the SDK are a `Database` over an open type of states. The theorems that
-- compare this registry with the memory registry assume `IsAlone`: no other client writes between the
-- calls, and every call gets through; the count of confirmed writes assumes nothing of the service.
-- The egress policy takes the address blocks, the classifier of public addresses, IDNA, the address
-- parser and the resolver as a `Network`. Other workers are a function on the registry between the
-- calls of one `ensure`, or a list of calls in any order.
--
-- Not modelled: network, process and file-system I/O, AWS SDK calls, serialisation, redaction and
-- zeroisation of secrets, poisoned locks, and the parts that the manifest lists as not modelled.
pub mod Base
pub mod Policy
pub mod Core
pub mod Guest
pub mod Egress
pub mod Aws
