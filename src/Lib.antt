-- ===== src/Lib.antt =====
-- DockerMap: the parts of its Rust crates that decide what may be read, what is shown and in which
-- order, as functions, with the theorems that make them correct.
--
-- The Docker Read Gateway (crates/dockermap-docker-gateway/src/lib.rs) stands between the daemon and
-- the raw Docker socket, and lets a few measured reads through. The daemon
-- (crates/dockermap-daemon) observes Docker through it, keeps one cache, and answers the routes of
-- its API from that cache: the pages of a container's log, and the history of observed changes,
-- among others. The core crate (crates/dockermap-core) holds the models and the pure derivations that
-- both share.
--
-- Common holds what the Rust standard library is taken for: texts as lists of the codes of their
-- characters (a text of bytes where the code indexes bytes), decimal numbers, 64-bit integers,
-- lists, and `BTreeMap` as the ascending list of its entries.
--
-- Models: crates/dockermap-core/src/models.rs, the snapshot of Docker and the observed changes. Kinds,
-- EvidenceKinds and Runtime have the runtime map, its evidence and the findings; Evidence has
-- `has_valid_versioned_shape` and `evidence_ref_matches_edge`.
--
-- Logs: crates/dockermap-core/src/logs.rs. Cursor has `LogCursor` with its `parse` and `Display`;
-- Page has `page_log_entries`, cut into the sort, the resumption behind a cursor, and the page with
-- its next cursor; Timestamp has `parse_rfc3339_nano_millis` and `days_from_civil`. `usize` is 64
-- bits wide, and its arithmetic wraps as in a release build; an index out of range is the result
-- `none`.
--
-- Gateway: crates/dockermap-docker-gateway/src/lib.rs. `Policy::new` and `Policy::allow` with
-- `inventory`, `logs` and `valid_container_name` are functions of the same names; `allow` is cut at
-- the point where the target is known (check_target, route). `Result<String, Deny>` and the panic of
-- a slice are the data type Verdict. `serde_json::to_string` and `form_urlencoded::byte_serialize`
-- are parameters. Handler has `handle`, with what the peers do as an argument; the HTTP server, the
-- sockets and their permissions are not modelled.
--
-- History: crates/dockermap-core/src/observed_history.rs (Inventory), and `ObservedHistoryCache` of
-- crates/dockermap-daemon/src/cache_refresh.rs. Its methods are functions from one state to the
-- next; the panic of a sequence number that overflows 64 bits is the result `none`. The SHA-256
-- digest and the boot component of the system's random source are parameters.
--
-- Slots: the provider slots of crates/dockermap-daemon/src/cache_refresh.rs, with the fixed slots and
-- their intervals of runtime_collection.rs. Claim has `claim_due_slots_with_active_workers`, Settle
-- what `apply_provider_slot_outcome` does to a slot, States `provider_states_for`, and Cache the
-- functions under the cache's lock. `apply_provider_slot_outcome` ends where it frees the lock; the
-- claim that follows is a step of its own. The collections of host evidence, with their sanitizing,
-- are an interface (Collections), and so are the comparison and the publication of snapshots and what
-- `rebuild_runtime_map` and `assign_revision` call: the runtime map, the findings and the revisions
-- that they derive, with `none` for a panic (Outside). Reach has the steps of the daemon as a
-- relation. The clock on the wall and the number of running workers are arguments.
--
-- Graph: the graph of a snapshot in crates/dockermap-core/src/snapshot_runtime.rs. Identity has
-- `GraphIdentityIndex`, Aliases `ContainerAliases`, Ports `is_host_published_docker_port`. A reference
-- to a container is its position with its record; the JSON texts that sort nodes and edges are
-- parameters.
--
-- Access: crates/dockermap-daemon/src/auth.rs (Token), docker_config.rs and config.rs (Label, with the
-- gateway's own check of the label), and pid_namespace.rs (Scope). The parser of IP addresses is a
-- parameter; environment variables and files are arguments.
--
-- TopologyId: crates/dockermap-core/src/identity.rs, `collision_resistant_id_component`, with the
-- SHA-256 digest as a parameter.
--
-- Findings: crates/dockermap-core/src/findings.rs. Shapes and Candidates have the tests on nodes,
-- edges and evidence, Ends those on the two ends of an edge, Survey what `derive_findings` counts
-- before its loops, Rules the body of each of its loops, and Derive the function itself; Texts has
-- what the findings say. An index into an empty list of evidence is the result `none`. Summary has
-- `FindingSummary::from_findings` of models.rs.
--
-- Compose: crates/dockermap-core/src/compose_runtime_binding.rs. Binding has
-- `derive_compose_runtime_mount_findings`, cut into its guard (is_unusable), the test for the bound
-- container (is_candidate) and the body of its loop (mount_findings); an `unreachable!` is the result
-- `none`. Of crates/dockermap-core/src/compose.rs, Correlate has `correlate_compose_runtime` and Graph
-- has `derive_compose_graph`.
--
-- Publication: crates/dockermap-daemon/src/publication.rs. Sensitive has the tests for secrets and the
-- redaction of a text, Entities the redaction of the nodes, edges and diagnostics of the runtime map,
-- Topology `normalize_runtime_map_topology`, `redact_runtime_map` and the appended collision, and
-- Snapshot the inventory of Docker. The texts by which `serde_json` sorts nodes, edges and evidence
-- are parameters. The characters that Rust takes for space and control are written out for ASCII and
-- the Unicode ranges that the code names.
--
-- Not modelled: the collection from Docker and the host, the asynchronous shell around the cache, the
-- reading of Compose files, the edit plans and their redaction, and the HTTP routes; neither are the
-- TypeScript applications of the repository.
pub mod Common
pub mod Models
pub mod Logs
pub mod Gateway
pub mod History
pub mod Slots
pub mod Graph
pub mod Access
pub mod TopologyId
pub mod Findings
pub mod Compose
pub mod Publication
