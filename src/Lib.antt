-- ===== src/Lib.antt =====
-- BusTub, a disk-oriented database system: its storage, buffer, index and locking layers, its integer
-- values, and the executors that answer queries.
--
-- The parts of the program and the files that model them:
-- - src/storage/disk/disk_manager.cpp: Storage/Disk. The database file is a list of whole pages of any
--   type D; `ReadPage` and `GetFileSize` compute in a 32-bit `int`, which is written out.
-- - src/buffer/lru_replacer.cpp: Buffer/Lru. The nodes of the linked list live in a store of
--   addresses, with `new` and `delete`; an access to a node that is gone is undefined. Buffer/Replacer
--   is the contract of src/include/buffer/replacer.h, which Buffer/Lru/Contract fills.
-- - src/buffer/buffer_pool_manager.cpp: Buffer/Pool, over any replacer that keeps the contract and over
--   the disk manager. `fetch_page_impl` is the body of `FetchPageImpl`, and `fetch_page` the body under
--   `latch_`; so for the other methods. Pages are known by their ids; INVALID_PAGE_ID is `none`.
-- - src/storage/page/b_plus_tree_page.cpp, b_plus_tree_leaf_page.cpp and b_plus_tree_internal_page.cpp:
--   BTree/Leaf and BTree/Internal, over the comparator of BTree/Order and the loops of BTree/Entries and
--   BTree/Search. `array` is a function of the index, of which a page counts the first `size`.
-- - src/storage/index/b_plus_tree.cpp and index_iterator.cpp: BTree/Tree the state and the searches,
--   BTree/PageSet the way down to a leaf page that is going to change, BTree/Growth the insertion,
--   BTree/Shrink the removal, and BTree/Iterator. They stand on BTree/Pages, which is the buffer pool as
--   they see it: contents, pins, and the number of frames that hold a pinned page. One operation runs at
--   a time, without the latches of the pages; `root_Latch_` is `root_locked`.
-- - src/storage/page/table_page.cpp: Storage/TablePage. The slots are two functions of the index, and
--   the tuples bytes of the page; numbers of type uint32_t wrap. `enable_logging` is false, as nothing in
--   the sources sets it.
-- - src/storage/table/table_heap.cpp, and the table write set in src/concurrency/transaction_manager.cpp:
--   Storage/TableHeap, over the table pages by their ids and the lock manager, which ApplyDelete calls.
--   Which pages can be fetched is a parameter.
-- - src/storage/table/table_iterator.cpp: Storage/TableIterator, with Begin and End of the table heap. The
--   iterator keeps its RID beside its tuple; INVALID_PAGE_ID is `none` here too.
-- - src/type/tinyint_type.cpp, smallint_type.cpp, integer_type.cpp and bigint_type.cpp: Types/Tinyint,
--   Types/Smallint, Types/Integer and Types/Bigint, one definition for each override. The templates of
--   src/include/type/integer_parent_type.h are Types/Arithmetic, with C++'s promotion and the overflow of
--   the promoted type written out; src/type/value.cpp is Types/Value, and the calls through the table of
--   src/type/type.cpp are Types/Dispatch. A number is an integer of Common/Int, narrowed to its width.
-- - src/execution/limit_executor.cpp, nested_loop_join_executor.cpp, seq_scan_executor.cpp and
--   aggregation_executor.cpp: Execution/Limit, Execution/NestedLoopJoin, Execution/SeqScan and
--   Execution/Aggregation. Execution/Executor is what they have in common, `Init` and `Next` on a state,
--   with the loop of src/include/execution/execution_engine.h. An executor is a function of its child
--   executors; a scan stands on the table iterator, and an aggregation on the values of Types. A plan's
--   expressions are functions of the rows, and the RID that a join, a limit or an aggregation leaves in its
--   out parameter is not kept.
-- - src/include/catalog/catalog.h: Catalog, the maps from names to oids and from oids to tables and
--   indexes. Identifiers wrap at 32 bits, and CreateTable cuts them to 16.
-- - src/storage/page/header_page.cpp: Storage/HeaderPage. The page is an array of records, and the
--   operations are those of a partial map from names to root pages.
-- - src/concurrency/lock_manager.cpp and src/include/concurrency/transaction.h: Concurrency. A lock
--   method is a request, which runs up to its wait, and a resumption from the moment at which the wait's
--   predicate holds; both run under `latch_`. Concurrency/LockQueue is the
--   queue of requests of a RID, Concurrency/LockManager the methods, and Concurrency/WaitsFor the graph
--   of the cycle detection and `dfs`.
--
-- Failure is a value of Common/Results: a failed `assert`, a deadlock on a mutex, undefined
-- behaviour, or an exception. The binary search runs on fuel; a search from l to
-- r gets more than r - l, which is enough. `dfs` gets more fuel than there are transactions that are
-- not active, which is enough. The loop of the internal page's `CopyFirstFrom` takes its fuel from
-- the caller, since no amount is enough. The way down a tree and the way back up take one unit of
-- fuel for each level, and an iterator one for each entry and one for its end. A table iterator takes one
-- unit for each page, InsertTuple of a table heap one more for a new page, and `Next` and Execute's loop
-- one for each row and one for the end. Counts and sizes are natural numbers without a bound;
-- `sharelock_count_` is an integer.
--
-- Not modelled: the log file, stream errors, the latches of B+ tree pages, the record of the root
-- page id in the header page, ReleaseLocks at the end of Commit and Abort, the pins and latches
-- under a table iterator, index write sets, the values of BOOLEAN, DECIMAL, TIMESTAMP and VARCHAR,
-- also as operands of the integer types, since doubles have no model here, ToString and Sqrt,
-- expressions, the schemas, the executors that write or read an index, recovery, and the thread that
-- runs the cycle detection.
pub mod Common
pub mod Storage
pub mod Buffer
pub mod BTree
pub mod Concurrency
pub mod Types
pub mod Catalog
pub mod Execution
