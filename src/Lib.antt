-- ===== src/Lib.antt =====
-- apohara-sealchain seals a file into a self-contained receipt and verifies it: `seal_deterministic`
-- builds the canonical preimage of a payload and signs it with HMAC-SHA256 and Ed25519; siblings of
-- the signatures are a C2PA manifest, an RFC 3161 timestamp and a Sigstore Rekor v2 anchor; `verify`
-- checks a raw record and `verify_artifact_bytes` a file against its receipt, layer by layer; a policy
-- sets the bar that a verified receipt must clear, and the command line turns all this into exit codes.
--
-- The files, and the code that each models (paths from the repository's root, under
-- crates/apohara-sealchain-core/src unless another root is given):
--  Error           error.rs: the taxonomy, as a data type; Rust's Result and `?` as a bind
--  Json            serde_json::Value, its accessors; maps are entries in iteration order
--  Crypto          the interface to serde_jcs, hex, sha2, hmac and ed25519-dalek, and their laws
--  Schema          schema.rs: the wire types, the derived serializers and readers, detect_schema
--  Excluded        excluded.rs: strip_excluded
--  Layers          jcs.rs, layers/hmac.rs, layers/ed25519.rs, and the hex helpers
--  Layers.C2pa     layers/c2pa.rs: sidecar and embedded manifests
--  Layers.Tsa      layers/tsa.rs: timestamp tokens
--  Layers.Rekor    layers/rekor.rs: anchors, shard keys, shard activeness
--  Seal            seal.rs: build_preimage, seal_deterministic
--  Verify          verify.rs: verify
--  Keystore        keystore.rs: the encrypted blob. Keystore.Dir is the directory of key files,
--                  Keystore.Store its two storage modes, Keystore.Operations the calls (load or
--                  generate, encrypt, decrypt, rotate), Keystore.Info the summary; the Vault of
--                  Keystore.Operations is their abstract view
--  Index           index.rs: present_layers, index_record_from; Index.Store is the table of rows,
--                  its queries, the scan of a directory and the rebuilding
--  Provenance      provenance.rs: provenance_statement, model_signing_statement
--  Artifact        artifact.rs: verify_artifact_bytes and its layers, in the native build, and
--                  Artifact.Chain render_chain
--  Sealing         artifact.rs: seal_artifact, over an explicit disk, clock and network
--  TrustProfile    trust_profile.rs: the named profiles and hosts of trust-profile.json
--  Policy          policy.rs: evaluate, from_profile
--  Cli             crates/apohara-sealchain/src/cli.rs: verify, and the exit code of a batch;
--                  Cli.Inputs is the expansion of the inputs of a seal, and Cli.RunSeal the command
--                  seal from its arguments to the exit code, over a disk, an index and a keystore;
--                  Cli.RunDashboard the command dashboard, and the table that ls and find print;
--                  Cli.RunKeys the commands keygen and key
--  Mcp             crates/apohara-sealchain/src/mcp.rs: the three tools of the MCP server
--  Dashboard       dashboard.rs and build_dashboard_entry of the command line: status, escaping, the page
--  Paths           std::path::Path on Unix: file_name and extension; Paths.Order is the order
--                  of paths, component by component
--  Prelude         lists, texts and numbers that all share
--  Tests           runs over small concrete crates, and every property at a concrete input
--
-- A string field of a Rust struct is a String, a byte string a list of numbers, an i64 an integer ℤ
-- that `IsI64` bounds where it matters. Functions are total and structurally recursive; decimal printing
-- (`show`) runs on n + 1 fuel, which bounds the digits of n.
-- A struct is read from a parsed JSON object: that the derive refuses a field that a text has twice, and takes
-- a struct written as an array, is not modelled. Objects keep their entries in insertion order, as the
-- workspace builds serde_json.
-- Where the code panics, on a slice inside a character, the model answers `none`.
--
-- The crates that the code calls are parameters: records of operations (Crypto, TsaCrates, RekorCrates,
-- MediaCrates), whose documented behaviour is a record of laws that a theorem takes where it needs it.
-- Texts of serde's shape errors come from the parameter `shape_error`.
--
-- Sealing threads the disk: it returns the disk after the call, rewritten in embed mode, and a write
-- that fails is taken to leave it as it was. The time, the MIME table and the answers of the network are
-- fields of `Environment`; those of the command line's files and parsers, of `Shell`. In the keystore every
-- file access may fail, as `Faults` says, and what the system's generators return is a `Fresh`; the modes of
-- the files are not kept. The header's length field is a 32-bit word, and a `usize` has 64 bits.
--
-- Not modelled: the network clients (Rekor submission, the TUF fetch), certificate building, opening the
-- SQLite database (its statements act on a sequence of rows, and do not fail), the other commands of the
-- command line and the browser bindings.
pub mod Artifact
pub mod Cli
pub mod Crypto
pub mod Dashboard
pub mod Error
pub mod Excluded
pub mod Index
pub mod Json
pub mod Keystore
pub mod LayerResult
pub mod Layers
pub mod Mcp
pub mod Paths
pub mod Policy
pub mod Prelude
pub mod Provenance
pub mod Schema
pub mod Seal
pub mod Sealing
pub mod Tests
pub mod TrustProfile
pub mod Verify
