-- ===== src/Lib.antt =====
-- Models of the cardanowall Python SDK for Label 309 proofs of existence (src/cardanowall), and
-- the theorems on them. A byte string is a list of natural numbers, a byte a number below 256; a
-- Python exception is the `err` of a result, with a constructor for each that callers tell apart,
-- and its message is left out.
--
-- The parts, and how they interact:
-- - Prelude: Boolean tests, lists and results; Bytes: slices, big-endian integers and collisions
--   of a hash function.
-- - Merkle, src/cardanowall/_crypto/merkle_sha2_256.py: the RFC 9162 tree that a Merkle commitment
--   in a record stands for. Each function has its name without the leading underscore. SHA-256 is
--   the parameter `sha256`, whose digest has 32 bytes where a theorem needs it. Indices and sizes
--   are natural numbers, since the program refuses a negative index as it does one too large. The
--   recursion on the leaves is on fuel, one unit for each leaf, which suffices because both halves
--   are smaller than the whole.
-- - Stream, src/cardanowall/_crypto/stream.py: the STREAM construction of sealed content. `Machine`
--   is the state of StreamSealer and StreamOpener (counter and done flag), seal_chunk and
--   open_chunk are their steps, stream_seal and stream_open the loops over them. The AEAD is a pair
--   of parameters, and `Stream.Layout.IsAead` its laws: opening inverts sealing, whatever opens is
--   sealed, a tag of 16 bytes. The loops are on fuel, one unit for each byte and one more, which
--   suffices because every chunk but the last has 65536 bytes.
-- - Walker, src/cardanowall/verifier/cbor_walker.py: _read_head and _skip_cbor_item, the walk over
--   raw CBOR at its positions. `Walker.Format` says what a well-formed item is, without reference
--   to the walk. Its fuel is one unit for each byte and one more, and a theorem says that it is
--   never used up. Python's limit on the depth of recursion is not modelled.
-- - Transaction, the same file: slice_tx_components, auxiliary_data_hash_from_tx_body and
--   unwrap_auxiliary_data, which cut a transaction into its on-chain slices with the walker and
--   find the value under metadata label 309.
-- - Carriage, src/cardanowall/verifier/carriage.py: the transport of a record body as an array of
--   chunks under that label. The CBOR encoder (cbor2) is a parameter, and RFC 8949's shortest form
--   of an array of byte strings is what the round trip asks of it.
-- - TxBinding, src/cardanowall/verifier/tx_binding.py: bind_transaction_bytes, the check that the
--   slices of Transaction are those of the requested transaction. BLAKE2b-256 is the parameter
--   `blake2b_256`, and str.lower is modelled on ASCII, which decides for hexadecimal digits.
-- - Sse, src/cardanowall/client/poe_events.py, the class _SseParser: server-sent events out of the
--   chunks of a response. bytes.decode with replacement is the parameter `decode_utf8`. The loop of
--   `feed` is on fuel, one unit for each byte of the buffer and one more, which suffices because a
--   turn takes a newline out; `Sse.Machine` is the parser as a machine over single bytes, without
--   fuel, to which `feed` is equal.
-- - PoeWait, the same file: snapshots and _wait_loop, which reconnects until a record reaches a
--   status, on the parser of Sse. json.loads is a parameter, and the answers of the network with the
--   jitter of the delays come as a list of attempts; times are milliseconds. A stream that breaks
--   off is one that ends, as the loop has it. The timeout around the loop is a list that ends.
-- - ErrorCodes, src/cardanowall/poe_standard/error_codes.py: the registry, the layers that emit a
--   code, the severities and the order.
-- - Verdict, src/cardanowall/verifier/types.py, profile.py and verify.py: the issues of a run and
--   how they are added, the conformance profiles, the fields above a profile,
--   _verdict_from_issues, and in `Verdict.Order` _sort_issues, where UTF-8 is a parameter. The
--   messages of issues are left out.
-- - Cid, src/cardanowall/verifier/content_binding.py: the content identifiers of ipfs URIs in their
--   multibase forms, and verify_ipfs_cid_binding, which Content takes as a parameter. The loops are
--   structural; the hash functions are parameters.
-- - Content, src/cardanowall/verifier/fetch.py and items.py: iterate_blob_sources, which makes the
--   candidate bytes for a claim out of its URIs, and check_item_content, which hashes them. A
--   generator is the list of its steps, which the consumer takes up to the one that settles the
--   claim. What a fetch answers, the hash functions and the binding of bytes to a content identifier
--   are parameters.
-- - LeavesList, src/cardanowall/_crypto/merkle_leaves_list.py: the file of the leaves behind a Merkle
--   commitment, on the dicts of Cbor and the tree of Merkle. The loops are structural.
-- - MerkleCheck, src/cardanowall/verifier/merkle.py: check_merkle_commit, which takes the sources of
--   Content and holds their files, read by LeavesList, against the commitment. The root is recomputed
--   after the decoder has computed it, so that it raises nothing.
-- - Outbound, src/cardanowall/verifier/fetch.py: the deny list, and default_fetch_outbound with its
--   redirects and its limit on the body. The network, urljoin, urlparse, str.lower and the digits of
--   a regular expression are parameters. The loop over the hops is structural, on how many redirects
--   are left, three at first, as in the program.
-- - Cbor, src/cardanowall/_crypto/cbor.py: the Python objects that the canonical decoder gives, with
--   what a lookup in a dict finds. The decoder and the encoder (cbor2) are parameters.
-- - CidProfile, src/cardanowall/poe_standard/cid_profile.py: the content identifiers that a record
--   may name. Its loops are structural.
-- - Validator, src/cardanowall/poe_standard/validator.py with is_extension_key of schema.py: the
--   structural validation of a record. `validate` composes collect_non_text_key_map_issues,
--   schema_parse (Validator.Shape), check_record and emit; the envelope is in Validator.Envelope and
--   Validator.Slots, the forbidden ciphers in Validator.Ciphers, the URIs in Validator.Uris, the
--   other fields in Validator.Fields, the signatures with decode_cose_sign1 of
--   src/cardanowall/_crypto/cose_sign1.py in Validator.Signatures. A check gives the issues that it
--   appends, in their order. `Raised` is a KeyError, a TypeError or an exception of the encoder that
--   leaves the validator. UTF-8 is a parameter, and the two regular expressions that ignore case
--   have the letters outside ASCII that Python folds into theirs. The loops are structural.
-- - Fixtures: a digest and an AEAD without any strength, at which the theorems are applied.
--
-- Not modelled: the record encoder (src/cardanowall/poe_standard/encoder.py), the sealed
-- envelope (src/cardanowall/_crypto/sealed_poe.py), the orchestration of a verification and its
-- retries (src/cardanowall/verifier/resolve.py, signatures.py, decrypt.py and the rest of fetch.py
-- and verify.py), the rest of the gateway client (src/cardanowall/client), certificates
-- (src/cardanowall/certificate), and the encodings of keys and identifiers; the wrappers of
-- cryptographic libraries hold no logic.
pub mod Prelude
pub mod Bytes
pub mod Merkle
pub mod Stream
pub mod Walker
pub mod Transaction
pub mod Carriage
pub mod TxBinding
pub mod Sse
pub mod PoeWait
pub mod ErrorCodes
pub mod Verdict
pub mod Cid
pub mod CidProfile
pub mod Content
pub mod Cbor
pub mod Validator
pub mod LeavesList
pub mod MerkleCheck
pub mod Outbound
pub mod Fixtures
