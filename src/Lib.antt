-- ===== src/Lib.antt =====
-- Verification of the Vox Desktop client, a messenger with end-to-end encryption in C++ and Qt.
--
-- Paths are those from the repository's root.
--
-- The parts. The domain (src/domain) is the data that all parts share. The crypto layer (src/crypto)
-- derives keys, runs the ratchet of a conversation, rotates the keys of groups, wraps the key of the
-- account's synchronised data and keeps secrets in an encrypted file, the vault; identity keys and
-- prekeys are secrets of the vault. The storage layer (src/storage) is an SQLite database and a
-- directory of attachments. The network layer (src/network) speaks JSON over HTTP. The services
-- (src/services) join them: a message goes to the server and into the database, with a job if the
-- server did not take it; synchronised records are pulled page by page into the database;
-- attachments are kept on the server and in the directory. A sign-in makes keys and keeps its tokens
-- in the vault and in the database. The application (bin) turns what the user does into calls of the
-- services, and envelopes that the server sends, through the realtime socket or when it is polled,
-- into messages of the database.
--
-- The files.
--   Base           helpers: Boolean tests, lists over the native numbers, `Dict` for QHash, and
--                  `Int` for the C++ `int`.
--   Qt, Qt/Json, Qt/Text
--                  what the sources call of Qt: conversions as a parameter (`Qt`) with its
--                  documented round trips (`QtLaws`), JSON values as data, and the operations on
--                  texts as a parameter (`QtText`).
--   Domain         src/domain/Models.hpp and Models.cpp: the enumerations, the records, and the
--                  names of the enumerations (Domain/Names).
--   Crypto/Sodium  libsodium: a parameter with its documented laws (`SodiumLaws`).
--   Crypto/Helpers src/crypto/CryptoHelpers.cpp (`CryptoHelpers::aeadEncrypt` is `aead_encrypt`).
--   Crypto/Hkdf    src/crypto/HkdfSha256.cpp, with RFC 5869 as its specification.
--   Crypto/Ratchet src/crypto/DoubleRatchetSession.cpp: the session is a record, `encrypt` and
--                  `decrypt` return the new session; Ratchet/Chain is the chain of keys that a
--                  session walks, Ratchet/Past the receiving counter over later calls, and
--                  Ratchet/Delivery two sessions joined by a channel.
--   Crypto/X3dh, Crypto/SenderKeys, Crypto/SyncWrap, Crypto/AttachmentCrypto
--                  X3dhSessionBuilder.cpp, SenderKeyManager.cpp, SyncCrypto.cpp and
--                  AttachmentCrypto.cpp of src/crypto.
--   Crypto/Vault   src/crypto/VaultService.cpp; the file is part of the state, and `Disk` says what
--                  the file system answers.
--   Crypto/Identity, Crypto/Prekeys
--                  IdentityKeyStore.cpp and PrekeyManager.cpp of src/crypto, over the vault.
--   Crypto/Fingerprint
--                  src/crypto/FingerprintService.cpp.
--   Storage/Table  what the SQL statements mean: `upsert`, `keep` and `order_by` over a dictionary
--                  of rows by primary key.
--   Storage/*      one file to a repository of src/storage/Repositories.cpp, and FileStore.cpp.
--   Storage/Migrations
--                  src/storage/Migrations.cpp: the statements as data (Migrations/Schema), and the
--                  connection with its transaction.
--   Network        the requests, responses and results of src/network/ApiDtos.hpp and ApiResult.hpp.
--   Network/JsonCodec, Network/Printing, Network/Parsing
--                  JsonCodec.cpp and ApiDtos.cpp of src/network: `toJson` of a type is
--                  `<type>_to_json`, and its parser `parse_<type>`.
--   Network/Access src/network/NetworkAccess.hpp and NetworkAccess.cpp; the server is a function of
--                  the request (`Transport`).
--   Network/Responses, Network/ApiPaths, Network/Clients/*
--                  the clients AuthApi, ConversationsApi, DirectoryApi, SyncApi and AttachmentsApi of
--                  src/network, the paths that they use, and what they make of a response.
--   Network/RealtimeSocket
--                  src/network/RealtimeSocket.cpp as a state machine: `step` takes a signal or a call
--                  and gives the new state and what the object emits or calls.
--   Services/Sync, Services/MessageSend, Services/Attachments
--                  SyncService.cpp, MessageSendService.cpp and AttachmentService.cpp of
--                  src/services; the server's answers are arguments. Sync/Served runs a pull over
--                  the client and a server that prints records as the client does.
--   Services/Auth  src/services/AuthService.cpp: SignIn has `registerUser` and `login`, Restore has
--                  `restoreSession` and `logout`.
--   Services/Conversation, Services/Search, Services/Notification, Services/Discovery
--                  ConversationService.cpp, SearchService.cpp, NotificationService.cpp and
--                  ServerDiscoveryService.cpp of src/services.
--   App/*          parts of bin/Application.cpp: the text of a message on the network (Transport),
--                  envelopes and polling (Envelopes), the creation of conversations (Create),
--                  the submission of a text (Submit), the selection of a conversation (Selection) and
--                  the order of the chats (ChatList).
--   App/Startup    src/app/ServiceLocator.cpp: `initialize` over what is installed on the device.
--   Checks         concrete libraries that keep the laws, and an input to each theorem.
--
-- Choices. A method that changes its object returns the new object beside its result. A failure is
-- `none`, an empty byte array or `false`, as in the sources. Randomness is an argument (`Draw`), one
-- to a call; so are the clock, a new UUID, whether the database runs a statement and what the file
-- system answers. An `int` is an integer whose successor at 2^31 - 1 is the smallest `int`, where C++
-- leaves it undefined; numbers of milliseconds and of the server's sequence are not negative and
-- have no upper limit. Bytes are numbers, and no theorem needs them to be below 256. A null and an
-- empty QString or QByteArray are one. The order of a QHash is left open, and so is that of rows
-- which ORDER BY does not tell apart. A JSON number that is no integer is `fraction`. An
-- object keeps its fields in the order in which they came; Qt sorts them, which shows in the printed
-- bytes alone, and these are a parameter: what reads an object back looks its fields up by name, or
-- puts them into a QHash. A response is a function of the request that is sent, and each call gets
-- its server as an argument. The keys of a header map are compared as they are written.
-- A server's time before 1970 counts as 0. The realtime socket is the one of a build with Qt
-- WebSockets, and its counter of attempts an `int`.
-- What SQLite runs outside of a transaction is stored at once; what it runs in one is stored by the
-- commit, and dropped by a rollback or when the connection is closed.
--
-- bin/Application.cpp has the lines that make a message of an envelope twice, and so has the model:
-- `message_of_envelope` and `selected_message`.
-- The next start of the application reads the vault's file, and never the vault in memory.
--
-- Fuel. `expand` of HKDF has 256 rounds, which its 8-bit counter cannot exceed. `catch_up` of the
-- ratchet runs as many rounds as the counter is ahead. The loop over the pages of a pull has fuel,
-- since a server may never end it; a theorem says how much is enough when the server does.
--
-- Not modelled: the user interface (src/ui) and the wiring of its signals in bin/Application.cpp, with
-- the timers and the service thread; the URL of the realtime socket; the
-- opening of the database and the
-- binding of values (Database.cpp and SqlHelpers.cpp of src/storage), which are calls of Qt; the
-- creation of the directories of FileStore.cpp; the event loop that waits for a reply.
pub mod Base
pub mod Qt
pub mod Domain
pub mod Crypto
pub mod Storage
pub mod Network
pub mod Services
pub mod App
mod Checks
