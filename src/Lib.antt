-- ===== src/Lib.antt =====
-- Steve serves the Kubernetes API of a cluster to users who may see only a part of it. A request
-- comes with a user; the access control gathers what the roles bound to the user and its groups
-- allow; the SQL store cuts the list or watch that the user asked for into partitions that hold
-- only what it may see, and a cache in a database selects the rows of these partitions, with the
-- filters, the order and the page that the query names.
--
-- * AccessControl models pkg/accesscontrol. AccessControl.AccessSet is access_set.go: a set maps a
--   verb and a resource to accesses, each a namespace and a name, with `*` for all. Its second
--   half, the access lists by verb, is AccessControl.Verbs. AccessControl.Roles is
--   policy_rule_index.go with the types of user_grants.go: from a subject by its bindings to the
--   rules. AccessControl.Store is access_store.go: the set of a user, cached under a digest;
--   AccessControl.Store.Written reads back what the digest is made of.
--   The objects of Kubernetes are read through the fields that the code reads. The informer
--   caches, MakeUsername, the URL matchers of k8s.io/apiserver, the digest and the expiring cache
--   are parameters.
-- * Partitions.Partitioner models pkg/stores/sqlpartition/partitioner.go and
--   pkg/sqlcache/partition/partition.go: the partitions that the access list of a verb gives, and
--   what a partition admits. Partitions.Clauses is the part of constructQuery, in
--   pkg/sqlcache/informer/listoption_indexer.go, that turns them into WHERE clauses. RSplit of
--   wrangler's kv is a parameter.
-- * Query models pkg/stores/sqlpartition/queryparser/selector.go and
--   pkg/stores/sqlpartition/selection/operator.go: Query.Token has their constants, Query.Lexer the
--   scanner, Query.Requirement NewRequirement, Query.Outcome what the parser's
--   methods return, and Query.Parser the parser. The state of the
--   scanner is the text behind its position, that of the parser the list of items behind its own.
--   A text is a list of bytes.
-- * Options models pkg/stores/sqlpartition/listprocessor/processor.go with the types of
--   pkg/sqlcache/sqltypes/types.go, Options.Types: Options.Parameters is ParseQuery, over a record of the query
--   parameters that it reads, with a panic and a loop without end as answers of their own.
--   Options.Fields has the two ways to cut the accessor of a field, SafeSplit of
--   pkg/stores/queryhelper/safesplit.go and splitQuery.
-- * Partitions.Proxy is the partitioner of the store without a cache, pkg/stores/proxy/rbac_store.go,
--   with List of the store of a partition and ByNames of pkg/stores/proxy/proxy_store.go; what the
--   cluster lists for the user and for the administrator are parameters. Watches.Synthetic is
--   pkg/sqlcache/informer/synthetic_watcher.go, where one tick is one step.
-- * Watches.Log is the part of pkg/sqlcache/informer/listoption_indexer.go around the table of
--   events: notifyEvent, Watch with its replay, and the deletion of old rows by RunGC. The table is
--   the list of its rows by row id. Watches.Buffer is watcherWithBackfill, a list of moves of the
--   sender, of Watch, of the proxy and of the client. Watches.Log.Sees puts the replay and the
--   channel of a watcher together, with the transaction in which notifyEvent runs.
-- * Encryption models pkg/sqlcache/encryption/encrypt.go: the manager with its keys and the counter
--   of the last one. The cipher is a record of its operations with the law that it opens what it
--   sealed; what is drawn at random is an argument of each call.
-- * Listing models the lists of the store without a cache: Listing.Parallel is
--   pkg/stores/partition/parallel.go, with the partition lister and the schedule of
--   its goroutines parameters, and Listing.Pages is
--   PaginateList of pkg/stores/partition/listprocessor/processor.go, with the ints that wrap around.
-- * Queries is constructQuery of pkg/sqlcache/informer/listoption_indexer.go, text and parameters:
--   Queries.Columns has the columns of fields, Queries.Filters the clauses of one filter, Queries.Construct
--   the query with its joins, order and page; the conditions of the partitions are those of
--   Partitions.Clauses. strconv.ParseFloat is a parameter; an index out of range is a crash.
-- * Common has what they share: equality, lists, Go's maps as association lists, sorting, numbers,
--   and the interface of the sets of strings of k8s.io/apimachinery, a parameter of the model with
--   its documented laws. Common.Listed is one implementation of it, for the tests.
--
-- Numbers are natural numbers; an int is 64 bits wide where a text is read as one and where the
-- offset of a page is computed. The loops of
-- the lexer's `scan` and of the parser's `parse` run on fuel, one more than the bytes of the text
-- or the items scanned: each item but the last takes a byte, and each requirement takes an item.
-- The rounds of a goroutine of the parallel lister are fuel too: each reads a chunk, so as many as
-- a partition has chunks are enough.
--
-- Not modelled: the Kubernetes clients and informers, the database, the HTTP server and its
-- wiring, schemas and their conversion, formatters, counts, the summary and cluster caches, pod
-- impersonation, and generated code. Singleflight is not modelled, nor are locks: an operation is one
-- step, but for notifyEvent and the transaction around it, which Watches.Log.Moments takes apart where
-- a watch can come in between. The iteration order of a Go map is the order of its association list.
pub mod Common
pub mod AccessControl
pub mod Partitions
pub mod Query
pub mod Options
pub mod Watches
pub mod Encryption
pub mod Listing
pub mod Queries
