-- ===== src/Options/Types.antt =====
-- The list options, the types of pkg/sqlcache/sqltypes/types.go, and what a method that makes them
-- of the parameters of a request returns.
use steve.Common.{Str, Bool, List}
use steve.Common.Numbers.{ℤ}
use steve.Query.Outcome.{ParseError}

-- sqltypes.Op
pub data Op : Type 0 where
  op_eq op_not_eq op_exists op_not_exists op_in op_not_in op_lt op_gt : Op

pub record Filter : Type 0 where
  pub fields : List Str
  pub matches : List Str
  pub op : Op
  pub is_partial : Bool

abbrev pub OrFilter : Type 0
OrFilter = List Filter

pub data SortOrder : Type 0 where
  asc desc : SortOrder

pub record Sort : Type 0 where
  pub sort_fields : List Str
  pub order : SortOrder
  pub sort_as_ip : Bool

pub record Pagination : Type 0 where
  pub page_size : ℤ
  pub page : ℤ

pub record ListOptions : Type 0 where
  pub filters : List OrFilter
  pub projects_or_namespaces : OrFilter
  pub sort_list : List Sort
  pub pagination : Pagination
  pub revision : Str

-- The query parameters that are read: all values of `filter`, the first of the others.
pub record Parameters : Type 0 where
  pub filter : List Str
  pub sort : Str
  pub pagesize : Str
  pub page_number : Str
  pub projectsornamespaces : Str
  pub not_projectsornamespaces : Str
  pub wanted_revision : Str

pub data Refusal : Type 0 where
  bad_filter : ParseError → Refusal
  unknown_op : Refusal
  bad_revision : Str → Refusal

-- `crash` is a panic, `endless` a loop that ran out of fuel.
pub data Answer {ℓ} (A : Type ℓ) : Type ℓ where
  answer : A → Answer A
  refused : Refusal → Answer A
  crash : Answer A
  endless : Answer A

infixl 5 ◌>>=◌
abbrev pub ◌>>=◌ {ℓ κ} : {A : Type ℓ} {B : Type κ} → Answer A → (A → Answer B) → Answer B
◌>>=◌ m f = elim m [ answer a ↦ f a | refused r ↦ refused r | crash ↦ crash | endless ↦ endless ]
