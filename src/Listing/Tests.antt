-- ===== src/Listing/Tests.antt =====
-- Pages of the two listers at concrete inputs.
use steve.Common.{
  ℕ, zero, suc, ◌+◌, ◌^◌, ◌≤◌, ◌<◌, ◌≡◌, refl, Str, str_eq, str_beq, ◌==◌, codes, true, false, List,
  [], ◌∷◌, ◌++◌, Option, none, some, length, arith,
}
use steve.Common.Numbers.{pos}
use steve.Common.Indices.{take, drop, get_elem?}
use steve.Common.Results.{done, failed}
use steve.Listing.Pages.{cut, crash, paginate_list}
use steve.Listing.Pages.Tiles.{pages_from, pages_from_all}
use steve.Listing.Parallel.{
  Chunk, ListState, Feed, feed_partitions, list_partition, send, unseen, index_or_zero, index_of,
  used_up, list_page, blocked,
}
use steve.Listing.Parallel.Partitions.{IsServed}
use steve.Listing.Parallel.Resumes.{IsAnswer, requested, list_page-resumes}

abbrev names : List ℕ
names = 11 ∷ 12 ∷ 13 ∷ 14 ∷ 15 ∷ []

pages_from_all_example : pages_from 3 0 2 names ≡ names
pages_from_all_example = pages_from_all 2 names (omega arith) (omega arith)

second_page :
    paginate_list names (record { page_size = pos 2; page = pos 2 }) ≡ cut (13 ∷ 14 ∷ []) 3
unfolding paginate_list take drop
second_page = refl

-- The offset of this page wraps to a negative number.
far_page :
    paginate_list names (record { page_size = pos (2 ^ 32); page = pos (2 ^ 31 + 1) }) ≡ crash
unfolding paginate_list
far_page = refl

-- Three partitions: one of three objects in two chunks, one of none, and one of one object.
abbrev name : ℕ → Str
name zero = codes "a"
name (suc zero) = codes "b"
name (suc (suc n)) = codes "c"

abbrev second : Str
second = codes "next"

abbrev chunk : ℕ → Str → Chunk ℕ
chunk zero [] = record { items = 1 ∷ 2 ∷ []; next = second; version = codes "7" }
chunk zero (x ∷ c) = record { items = 3 ∷ []; next = []; version = codes "7" }
chunk (suc zero) c = record { items = []; next = []; version = codes "7" }
chunk (suc (suc n)) c = record { items = 4 ∷ []; next = []; version = codes "7" }

abbrev remaining : ℕ → Str → List ℕ
remaining zero [] = 1 ∷ 2 ∷ 3 ∷ []
remaining zero (x ∷ c) = 3 ∷ []
remaining (suc zero) c = []
remaining (suc (suc n)) c = 4 ∷ []

abbrev lister : ℕ → Str → Str → ℕ → Option (Chunk ℕ)
lister p c revision limit = some (chunk p c)

last_chunk : (p : ℕ) (c : Str) → ((chunk p c).next == []) ≡ true → remaining p c ≡ (chunk p c).items
unfolding str_beq
last_chunk zero [] h = absurd cc
last_chunk zero (x ∷ c) h = refl
last_chunk (suc zero) c h = refl
last_chunk (suc (suc n)) c h = refl

more_chunks :
    (p : ℕ) (c : Str)
    → ((chunk p c).next == []) ≡ false
    → remaining p c ≡ (chunk p c).items ++ remaining p (chunk p c).next
unfolding str_beq
more_chunks zero [] h = refl
more_chunks zero (x ∷ c) h = absurd cc
more_chunks (suc zero) c h = cc
more_chunks (suc (suc n)) c h = cc

abbrev chunks_left : ℕ → Str → ℕ
chunks_left zero [] = 1
chunks_left zero (x ∷ c) = 0
chunks_left (suc p) c = 0

chunks_end :
    (p : ℕ) (c : Str)
    → ((chunk p c).next == []) ≡ false
    → chunks_left p (chunk p c).next < chunks_left p c
unfolding str_beq
chunks_end zero [] h = omega arith
chunks_end zero (x ∷ c) h = absurd cc
chunks_end (suc zero) c h = absurd cc
chunks_end (suc (suc n)) c h = absurd cc

small_chunk : (p : ℕ) (c : Str) → length (chunk p c).items ≤ 3
small_chunk zero [] = omega arith
small_chunk zero (x ∷ c) = omega arith
small_chunk (suc zero) c = omega arith
small_chunk (suc (suc n)) c = omega arith

few_chunks : (p : ℕ) (c : Str) → chunks_left p c < 2
few_chunks zero [] = omega arith
few_chunks zero (x ∷ c) = omega arith
few_chunks (suc p) c = omega arith

abbrev served : IsServed lister 3
served = record {
  chunk = chunk;
  remaining = remaining;
  served = λ p c revision. refl;
  small = small_chunk;
  last = last_chunk;
  more = more_chunks;
  chunks_left = chunks_left;
  ends = chunks_end;
}

abbrev partitions : List ℕ
partitions = 0 ∷ 1 ∷ 2 ∷ []

-- A first request takes all tickets, so that the partitions are listed one by one.
list_page-resumes_example :
    (page : Feed ℕ) × (list_page name lister 3 2 (λ p. false) partitions 3 none [] ≡ done page)
    × IsAnswer name lister 3 served partitions
        (requested name lister 3 served partitions none [])
        page
unfolding str_beq
list_page-resumes_example =
    list_page-resumes name lister 3 served partitions 3 2 (λ p. false) 3 none [] (refl, (refl, tt))
      ((refl, (refl, tt)), ((refl, tt), (tt, tt))) (omega arith) (omega arith) few_chunks refl

abbrev token : ListState
token = record {
  state_revision = codes "7";
  partition_name = codes "c";
  cont = [];
  offset = 0;
  limit = 3;
}

-- The first partition fills the page, and the capacity is read before it is done.
saved_page :
    list_page name lister 3 2 (λ p. false) (0 ∷ 2 ∷ []) 3 none []
    ≡ done
        (record { sent = 1 ∷ 2 ∷ 3 ∷ []; capacity = 0; saved = some token; revision = codes "7" })
unfolding list_page feed_partitions list_partition send unseen index_or_zero used_up take drop
    get_elem? str_beq
saved_page = refl

resumed_page :
    list_page name lister 3 2 (λ p. false) (0 ∷ 2 ∷ []) 3 (some token) []
    ≡ done (record { sent = 4 ∷ []; capacity = 2; saved = none; revision = codes "7" })
unfolding list_page feed_partitions list_partition send unseen index_or_zero index_of used_up take
    drop get_elem? str_beq
resumed_page = refl

-- With an empty partition behind it the capacity is always read when it is done: the page is full,
-- no token is saved, and the object of the third partition is never listed.
lost_token :
    list_page name lister 3 2 (λ p. false) partitions 3 none []
    ≡ done (record { sent = 1 ∷ 2 ∷ 3 ∷ []; capacity = 0; saved = none; revision = codes "7" })
unfolding list_page feed_partitions list_partition send unseen index_or_zero used_up take drop
    get_elem? str_beq
lost_token = refl

-- Without the tickets of a first request its goroutines never start.
too_few_tickets : list_page name lister 2 2 (λ p. false) partitions 3 none [] ≡ failed blocked
unfolding list_page feed_partitions index_or_zero used_up drop get_elem? str_beq
too_few_tickets = refl
