-- ===== src/Lib.antt =====
-- open_pg_tde: transparent data encryption for PostgreSQL.
--
-- The extension encrypts the pages of relations and the WAL. A relation has a key of its own, kept in
-- the key file of its database and sealed there under the principal key of the database, which a key
-- provider (a file or a key server) stores. WAL is encrypted by ranges, each with a key, kept in the
-- WAL key file under the server's principal key. This library models the parts below and proves what
-- makes each correct.
--
-- Base        shared names, lists and C integers over the native numbers, exclusive or, and the state
--             and error monad. A function that may call ereport(ERROR) is a function from a state to a
--             result and a state: what it wrote before an error stays written.
-- Cipher      the registry of cipher suites (src/encryption/cipher_provider.c, and
--             open_pg_tde_cipher_key_length of src/encryption/enc_tde.c).
-- Stream      the stream cipher of the WAL: open_pg_tde_stream_crypt of src/encryption/enc_tde.c and
--             AesCtrEncryptedZeroBlocks of src/encryption/enc_aes.c. The loop over batches runs on
--             fuel, one unit for each 16-byte block, while each round takes up to 200 blocks; the
--             equation with the byte-by-byte description shows that it is enough.
-- Aes         the cached contexts for CBC and XTS (AesRunCbc and AesRunXts of src/encryption/enc_aes.c).
-- Block       one page: tde_encrypt_smgr_block and tde_decrypt_smgr_block of src/encryption/enc_tde.c,
--             which choose the suite by Cipher and run it by Aes.
-- Keys        AES-GCM, principal keys and their signed form, and new keys (src/encryption/enc_aes.c,
--             src/encryption/enc_tde.c, src/access/open_pg_tde_tdemap.c).
-- KeyMap      the key file of a database, whole: src/access/open_pg_tde_tdemap.c. The state is the
--             directory of files, the WAL records emitted, and the coming random buffers. Entries
--             stand at file offsets 320 + 128 * i, as in the C structures. KeyMap.Old reads versions
--             3, 4 and 5.
-- Wal         ranges of the WAL, their entries, and the cache of a process
--             (src/access/open_pg_tde_xlog_keys.c), and CalcXLogPageIVPrefix of
--             src/access/open_pg_tde_xlog_smgr.c. Wal.File is the WAL key file with its header:
--             saving, rotating and removing the server's principal key, and the migration of
--             versions 1 and 2. Wal.Crypt is TDEXLogCryptBuffer, with the positions of a segment
--             (Wal.Crypt.Covered) and its description byte by byte (Wal.Crypt.Crypted).
--             Wal.Segments is the storage manager over it: tdeheap_xlog_seg_write,
--             tdeheap_xlog_seg_read, tde_ensure_xlog_key_location, TDEXLogSmgrInitWrite and the
--             shared memory. Segments have at most 1 GB, as in PostgreSQL, and a size that is a
--             power of two.
-- Principal   principal keys in the server (src/catalog/tde_principal_key.c), over KeyMap and
--             Wal.File: the shared cache, loading a key from a key file and its key server,
--             setting, rotating and deleting keys with the SQL functions for it, the default
--             key, and the checks of key providers in use. GetKeyProviderByID,
--             GetKeyProviderByName and KeyringGetKey are the record Keyrings. KeyMap and
--             Wal.File each keep their own list of WAL records and of coming random buffers.
-- Providers   the file of key providers: src/catalog/tde_keyring.c.
-- Examples    ciphers that can be computed with, and the theorems applied to small inputs.
--
-- Parameters. OpenSSL is the records Evp (one cipher and its contexts), AesBlock (AES on one block)
-- and Gcm, with the laws that its documentation states: decryption undoes encryption, an
-- initialisation sets key, direction and IV, lengths are kept. RAND_bytes is a list of outcomes, and
-- fails at its end. PostgreSQL's macros on WAL positions and memory are the records SegmentMacros and
-- Settings, with what they are documented to compute. What check_provider_record and readdir return,
-- the databases in the order of a scan and the time of day are arguments of the functions that use
-- them, and so is what GetPrincipalKey returns in KeyMap and Wal.
--
-- Not modelled: failing system calls and partial writes, since the server stops or retries there;
-- locks, which make each modelled function one step; OpenSSL's contexts for the keystream of the
-- WAL, each of which serves one key; key files of old versions that end inside an entry; the views
-- of key information and the cache of front-end programs in src/catalog/tde_principal_key.c; the
-- storage manager (src/smgr/open_pg_tde_smgr.c), event triggers (src/open_pg_tde_event_capture.c),
-- memory barriers between the shared numbers of WAL writers and readers, the parser of provider
-- options, the clients of key servers (src/keyring), settings, and the command line tools (src/bin
-- and fetools).
pub mod Base
pub mod Cipher
pub mod Stream
pub mod Aes
pub mod Block
pub mod Keys
pub mod KeyMap
pub mod Wal
pub mod Principal
pub mod Providers
pub mod Examples
