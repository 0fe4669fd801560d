-- ===== src/Lib.antt =====
-- meowNY keeps a person's money: transactions, bills that are shared with friends, what friends owe,
-- recurring items, and a currency. Its data is an SQLite database that the Rust code reads and writes;
-- this library models the core of that code, with the checks that the database makes by itself.
--
-- The parts, and the files that model them:
--   Money               src-tauri/src/money.rs: amounts as text (parse_amount, format_amount)
--   Fields              the cleaners of src-tauri/src/categories.rs and transactions.rs, clean_note of
--                       debts/ledger.rs, and the calendar
--   Store, Store.Table  the rows of the tables (src-tauri/migrations) and the statements on one table
--   Splits.Allocate     src-tauri/src/debts/splits.rs, allocate: a division to the cent
--                       (Splits.Allocate.Machine: the same in u128 numbers that wrap around)
--   Splits.Lines        write_lines: the parts of a bill, with the triggers of migration 0012
--   Splits.Input        who_of and weights: a split as it is typed
--   Splits.Bill         set_split, clear_split, preview, rescale, replace_lines
--   Splits.Template     the split of a recurring item, which its payments take over
--   Splits.Check        check: the finished state
--   Transactions        src-tauri/src/transactions.rs: create, get, delete; Transactions.Update: update
--   Ledger              src-tauri/src/debts/ledger.rs: loans and repayments; Ledger.Balance: the
--                       balance and settle
--   Recurring           src-tauri/src/recurring.rs: the occurrences; Recurring.Items: create, update,
--                       delete; Recurring.Moves: advance, pay, skip, set_active, end
--   Stamp               src-tauri/src/sync/stamp.rs: stamps and the hybrid clock
--   Sync                the tables and errors of src-tauri/src/sync (wire.rs, engine.rs, flow.rs)
--   Sync.Digest         engine.rs, digest and to_send: what each device holds and has to send
--   Sync.Messages       digest_messages, DigestCollector, and receive_digest of flow.rs
--   Sync.Conflicts      conflicts: what both devices changed
--   Sync.Hello          the greeting and check_hello; which way a sync goes
--   Sync.Documents      apply, and documents and markers of its Applier: what a device takes in of the
--                       documents and their deletions, and which stamps it refuses; Sync.Documents.Sent: what the other one sends
--   Currency            src-tauri/src/currency.rs: rates, conversions, a change of the currency
--   Tokens              src-tauri/src/tokens.rs: the access tokens of the local API
--   Api.Http            src-tauri/src/api/http.rs: the head of a request to the local API
--   Backup.Stream       src-tauri/src/backup/stream.rs: the sealed stream of a backup
--   Documents           src-tauri/src/documents/names.rs: names of documents (Documents.Names), and the
--                       kind and size of a file from its first bytes (Documents.Kinds)
--   Common, Tests       shared helpers; the theorems at concrete inputs
-- A transaction calls Splits.Bill when its amount changes; a payment of a recurring item calls
-- Splits.Template; the ledger calls Transactions when a loan is an expense too; a change of the
-- currency calls Splits.Bill for every bill, Splits.Check and Stamp.
--
-- In a sync each device lists what it holds (Sync.Digest), the lists go over in pieces
-- (Sync.Messages), and each sends what the other lacks or has older, which is then applied.
--
-- State is the record Db of the tables. An operation takes it and gives the tables that it leaves, or
-- an error (Result), which leaves them as they were, as the rolled-back database transaction of the
-- code does. A statement that a check of the database refuses is the error `internal`. A table is the
-- list of its rows in the order of their ids; the parts of a bill and the weights of a template stand
-- in the row that they belong to. The link of a payment to a deleted item, and of an entry to a deleted
-- transaction, is cleared.
--
-- The sync has a state of its own (State of Sync.Documents), the tables that it writes, and an error
-- type (Answer). A BTreeMap by id is the list of its entries in the order of their ids.
--
-- Numbers: an amount is a natural number of cents up to 999999999999, as its column has it; balances
-- and what is left of a split are signed. Text is the list of its code points.
--
-- Parameters: the calendar of the crate chrono (the record Calendar of Fields: reading, showing and
-- adding days and months), with the hypothesis Bounded that its days have numbers below 2 ^ 32; and
-- to_lowercase of the standard library, with the hypothesis FoldsAscii that it folds the ASCII letters;
-- the crates sha2 and chrono as the tokens use them (Crates of Tokens), with the hypothesis IsOrderly that
-- times are shown in their order; char::is_alphanumeric of the standard library, of which nothing is asked;
-- the cipher of a backup (Cipher of Backup.Stream), with the hypothesis IsCipher that a sealed chunk is
-- longer by its tag and opens to what it was, and IsAuthentic that what opens was sealed so.
--
-- Fuel: the counter of the occurrences is an u32, so the searches try 2 ^ 32 of them at most; the loop
-- of advance has 2 ^ 32 steps, and every step goes to a later day, so that is more than it can take.
-- The loops of Backup.Stream take a byte in each round and have as many rounds as there are bytes; the
-- markers of a JPEG are followed 4096 times, as in the code. The digits of a number are made with fuel
-- 20, enough for an i64.
--
-- Not modelled: what only shows rows (lists, pages, the statement of a friend), the stamps and markers
-- that triggers write for the sync, updated_at and the audit log; people, reminders, dues, bill codes,
-- categories, budgets, statistics, the files of documents, reports, exports, what a backup holds, keys, and
-- the connections and routes of the local API; of the sync the connection, the hashes, the files and the
-- merge of the other tables;
-- two writers at once, since one connection holds the database while an operation runs.
pub mod Common
pub mod Money
pub mod Store
pub mod Fields
pub mod Splits
pub mod Transactions
pub mod Ledger
pub mod Recurring
pub mod Tests
pub mod Stamp
pub mod Currency
pub mod Sync
pub mod Tokens
pub mod Api
pub mod Backup
pub mod Documents
