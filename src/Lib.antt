-- ===== src/Lib.antt =====
-- Material Email: the logic of the mail client that runs without a network or a window.
--
-- The program keeps one state for all accounts. Its main process caches messages per folder, tags
-- them, runs the filters of the reader over them, and trains a junk model; the renderer narrows the
-- cached lists by a quick filter, gathers them in unified folders, and reviews attachments before
-- they are saved. The modules follow the files of the repository:
--
-- * Mail (src/shared/contracts.ts): messages, addresses and folders, and objects used as maps.
--   Mail/Objects models `record[key]`, a write and `delete` on lists of entries in insertion order.
-- * Tags (src/shared/message-tags.ts): Names has the normalisation of names and colours, the keys of
--   messages and the choice of an identifier; Catalog makes, renames and recolours tags; Assignments
--   puts tags on messages, moves them and forgets them. Schema has the schema of a stored tag
--   (src/main/persisted-state.ts). The other children hold proofs.
-- * Filters (src/shared/message-filters.ts): Model has the data and the table of operators,
--   Validation the checks before a filter is stored, Conditions the tests of a message, Collapse
--   `collapseMessageFilterActions`, Evaluation `evaluateMessageFilters` and `planMessageFilterRun`,
--   Effects what `#applyFilterPlan` of src/main/app-service.ts gathers from the actions on a message,
--   before it writes. The other children hold proofs.
-- * Junk (src/shared/junk-classifier.ts): tokens, training, untraining and pruning of the model.
-- * Regex (src/shared/regex.ts): the validation of patterns, with the checks for expressions that
--   backtrack (Atoms, Risk), and `createMatcher`.
-- * Organization (src/main/mail-organization.ts): State has the operations on the tags of the stored
--   state, FilterList those on its filters and its junk model, Runs the runs of the filters. They call
--   Tags, Filters and Junk.
-- * QuickFilter (src/shared/quick-filter.ts), UnifiedFolders (src/shared/unified-folders.ts),
--   Attachments (src/shared/attachment-safety.ts), BulkTabs (src/renderer/lib/bulk-tab-close.ts) and
--   Sending (src/main/send-outcome.ts): one module each, named in the same way.
-- * Identities (src/shared/identities.ts): Normal has the normalisation and the checks of the fields
--   of an identity, Choice the edits of the list of identities and the choice of one, Signature the
--   signature in a body; Stored has the operations of src/main/identity-store.ts. The other children
--   hold proofs.
-- * Queue (src/main/app-service.ts): Model has the part of the state that the queues use, Heads the
--   head of a queue and the record of a failure, Delivery `#deliverOutboxItem`, Replay
--   `#replayPending`, Commands the retries, `discardPendingOperation` and `cancelOutbox`, Drafts
--   `sendMessage` and the operations on drafts, Summaries the lists. It calls Sending and Identities.
--   Draining is the abstract queue; Lists and the children that follow hold proofs.
-- * Prelude has texts as lists of UTF-16 code units, arrays as lists with native numbers, sorting,
--   and their lemmas. Tests applies the theorems to small values.
--
-- A function of the source is a function here, in snake case. One that changes an object returns
-- the new one; one that throws returns a result with the error's code, or `none`. A sort is an
-- insertion sort, which agrees with the runtime's stable sort on a consistent comparator.
--
-- What the runtime provides is a parameter (Runtime): Unicode tables and collation, floating-point
-- numbers and dates, and the engine for regular expressions. That collation is a consistent
-- comparison is a field of its record. That the escape of a text compiles is a hypothesis of the
-- theorem that needs it.
--
-- The mail server, the decryption of secrets, the authorization of attached files and the words of a
-- network error are a parameter of the queues (Transport). New identifiers and times are arguments. An
-- operation on the queues is modelled from its reading of the state to its last write; Queue/Interleaving
-- parts a delivery at its call of the server, with other operations between. An update that throws
-- leaves the state as it was, and writing does not fail.
--
-- Loops over arrays are recursions on lists. `uniqueTagId` runs for as many rounds as the source
-- does. The decimal digits of a number n have fuel n, and the scanners of patterns the length of the
-- pattern, of which each step uses one or more.
--
-- Not modelled: the scores of the junk classifier, which are floating-point, the samples of the
-- pattern builder, the stored form of the review of tabs, conversations, the cached search, windows,
-- accounts, folders and synchronisation, tokens and their storage, the transports, and the
-- components of the renderer.
pub mod Prelude
pub mod Runtime
pub mod Mail
pub mod Regex
pub mod Tags
pub mod Filters
pub mod Junk
pub mod Organization
pub mod QuickFilter
pub mod UnifiedFolders
pub mod Attachments
pub mod BulkTabs
pub mod Sending
pub mod Identities
pub mod Queue
pub mod Tests
