-- ===== src/Lib.antt =====
-- Verification library of MasPassword (Sesamo), a password manager with end-to-end encryption. It
-- models the JavaScript of the web client and the browser extension.
--
-- Parts, and the files that model them:
--   Base            lists measured by native numbers, texts as lists of UTF-16 code units, the laws
--                   of the bit operations
--   Csv             parseCSV (web/import.js) and csvCell (web/export.js). A position in the text is
--                   the rest of the text; `parse_rows` has as fuel the length of the text, of which
--                   each row consumes a code unit at least, and each row has one more than the rest
--                   of the text, of which each field but the last consumes its comma
--   Item            the decrypted data of an item, and the fields that depend on its type
--                   (extraFields of web/export.js)
--   Export          buildCsv (web/export.js)
--   Import          csvHasHeaders, mapCSVToItems and extractTOTPSecret (web/import.js); a cell that
--                   is `undefined` in the source is `none`
--   Generator       web/generator.js: randomInt, pick, shuffle, generatePassword, generatePassphrase
--                   and the word list. The values that crypto.getRandomValues delivers are a list,
--                   taken from the front; a run may be starved of values, and Generator/Run says
--                   how many are enough. Generator/Extension is extension/generator.js
--   Domain          extension/domain.js: registrableDomain and domainsMatch
--   Blake2b         the two implementations of BLAKE2b: Wide and Context are web/blake2b.js, where a
--                   BigInt is a number; Pairs is the one of web/kdbx-read.js, whose 64-bit words are
--                   two 32-bit numbers. Its loop over the blocks runs the number of blocks
--   Argon2          web/kdbx-read.js: fBlaMka and umulHi, the block that a step of argon2 refers to, and
--                   in Fill hPrime and argon2 itself. A step is its pass, slice, lane and index; the
--                   memory is a list of blocks
--   Kdbx            KDBX files: Header, Blocks, Stream and Container are buildKdbx (web/export.js) and
--                   readKdbx4 and readKdbx3 (web/kdbx-read.js) from bytes to the XML text; Document and
--                   Xml are that text, Entries the items in it. Every reading loop has as fuel one
--                   more than its bytes or characters, of which each turn takes one at least
--   Share           web/sharelink.js: the base64url text of a key and the URL of a share link; padding
--                   runs at most three turns
--   Qr              web/qr.js: GF(256) and the Reed-Solomon code (Code), the versions, the bit
--                   buffer (Bits), the data codewords (Encode) and their interleaving. The rounds
--                   that fill the capacity have as fuel the data codewords of the version. Matrix is
--                   buildMatrix, with the zigzag in Place, penaltyScore in Penalty and the masks in Build. A
--                   cell is an item of `modules` with that of `isFunction`; the zigzag has as fuel
--                   the size, and goes two columns on with each turn. The penalty for the share of
--                   dark cells is computed without a fraction: no quotient that is off by a rounding
--                   comes near a multiple of five percent
--   Totp            extension/totp.js: base32Decode, counterBytes and the dynamic truncation
--   WebAuthn        extension/webauthn.js: the CBOR encoder, COSE keys, authenticatorData, DER
--                   signatures and rpIdValidFor. Cbor has a reader of CBOR, whose fuel is the
--                   depth of the value, Der one of DER signatures, Authenticator a relying party's view of a registration
--   Background      extension/background.js, the service worker: its variables (Memory),
--                   chrome.storage.session (Storage), the clock and what is behind the network
--                   are a World, and a handler is an Action on it, which ends with a value or an exception (Monad). Session is
--                   isLoggedIn, logout, api, saveSession and restoreSession, Items the vault keys and the
--                   item cache, Pending the staged credentials, Passkeys passkeyCandidates and passkeyAssert,
--                   Registration passkeyRegister, Vaults vaultsWithNames, Login the login with a
--                   password, Unlock the one through SSO. Events is handleMessage, with the steps of a worker
--                   (a message, a closed tab, a wait, a stop and start, a change behind the network)
--                   and what can be reached by them. A handler runs to its end before the next starts
--
-- How they interact: Export writes rows with the cell writer of Csv, Import reads them with its
-- reader, and Import/RoundTrip composes both. Argon2 takes the pairs of words from Blake2b, whose
-- digests it starts from. The generator, Share, Totp and Qr stand alone. Kdbx takes the fields of items
-- from Item and the pattern for a secret from Import. Blake2b/Digest composes its modules: words and
-- their arithmetic (Words), arrays of pairs (Arrays), G and the rounds (Registers, Mix, PairMix, Rounds), a compression
-- (Compress), message words (Load, Fill), buffering (Stream), the block loop (Chunk, Equal).
--
-- Kdbx/Container/RoundTrip composes writer and reader of the container, Kdbx/Entries/Restored those of
-- the items.
--
-- Background takes domainsMatch from Domain, and rpIdValidFor, authenticatorData and the DER form of
-- signatures from WebAuthn, which takes registrableDomain from Domain. Background/Events composes the
-- handlers, and Background/Events/Locked what their modules named Locked show.
--
-- Qr/Symbol composes Encode and Interleave with a reader of the codewords.
--
-- Parameters: `toLowerCase`, `toUpperCase`, the URL parser of the browser, `btoa` and `atob`, and the
-- values of its random source. The laws asked for are that `toLowerCase` maps a text of ASCII code
-- units letter by letter, and that `btoa` writes base64 with padding, which `atob` reads back. Kdbx takes the digests,
-- HMAC, AES, the text codec and gunzip of the browser as a record, Kdbx/Container.Browser, and states
-- their laws in a record Laws. A parameter of the key derivation that has another type than the format
-- gives it is left to a member of the record when it is one of Argon2. Background takes the requests to the
-- server, WebCrypto, JSON and the URL parser as a record, Background.Env, the window of the SSO
-- provider as Identity, the signatures of passkeys as Signer, new key pairs as Registrar and the SRP login
-- as Srp; a request is a function of the token and of what is behind the network, which it changes. Its
-- laws are that decodeURIComponent gives text for text, that the server grants a login a token, and that
-- keys which were exported are imported again. WebAuthn takes the encoder of UTF-8, with a reader for the
-- texts in question.
--
-- Not modelled: the server, the mobile and desktop clients (other languages), the DOM, network and
-- storage code of the web client, the content scripts and the popup of the extension, and calls of
-- WebCrypto. Of the service worker: the SRP client and its copy of BLAKE2b (a parameter of Login), the URL and
-- mode of the server, filling in a page, and handlers that run interleaved.
pub mod Base
pub mod Csv
pub mod Generator
pub mod Domain
pub mod Item
pub mod Export
pub mod Import
pub mod Blake2b
pub mod Argon2
pub mod Totp
pub mod Share
pub mod Kdbx
pub mod Qr
pub mod WebAuthn
pub mod Background
