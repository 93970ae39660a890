-- ===== src/Options/Tests.antt =====
-- ParseQuery and the cuts of accessors at small inputs.
use steve.Common.{Str, codes, str_beq, ◌≡◌, ◌↔◌, refl, true, false, [], ◌∷◌, ◌++◌, none, some, any}
use steve.Common.Listed.{listed}
use steve.Options.Fields.{split_on, closed, safe_split, split_query}
use steve.Options.Fields.Splits.{
  join, bracketed, has_byte, join-split_on, split_query-safe_split, safe_split-none_iff,
}
use steve.Options.Types.{Parameters, answer, crash, desc, asc}
use steve.Options.Parameters.{
  parse_query, parse_sort, parse_sort_parts, parse_sort_part, signed_directive, sort_directive,
  ip_argument,
}
use steve.Options.Parameters.Answers.{IsAnswered}
use steve.Options.Parameters.Total.{FiltersMatch, parse_query_total}

abbrev request : Parameters
request = record {
  filter = codes "metadata.name in (a,b)" ∷ codes "!metadata.labels.k" ∷ [];
  sort = codes "-metadata.name,ip(spec.address)";
  pagesize = codes "10";
  page_number = [];
  projectsornamespaces = [];
  not_projectsornamespaces = codes "p-1";
  wanted_revision = codes "7";
}

sorted :
    parse_sort request.sort
    ≡ answer (
        record {
          sort_fields = codes "metadata" ∷ codes "name" ∷ [];
          order = desc;
          sort_as_ip = false;
        }
        ∷ record {
          sort_fields = codes "spec" ∷ codes "address" ∷ [];
          order = asc;
          sort_as_ip = true;
        }
        ∷ [])
unfolding parse_sort parse_sort_parts parse_sort_part signed_directive sort_directive ip_argument
    split_on safe_split closed any str_beq
sorted = refl

-- A sort key whose only bracket is its last byte.
sort_crash : parse_sort (codes "a[") ≡ crash
unfolding parse_sort parse_sort_parts parse_sort_part signed_directive sort_directive ip_argument
    split_on safe_split any str_beq
sort_crash = refl

no_sort_bracket : has_byte b'[' request.sort ≡ false
unfolding any
no_sort_bracket = refl

parse_query_total_example : IsAnswered FiltersMatch (parse_query listed request (codes "Namespace"))
parse_query_total_example = parse_query_total listed request (codes "Namespace") no_sort_bracket

clean :
    (has_byte b'[' (codes "m.l") ≡ false)
    × (has_byte b'[' (codes "k/x") ≡ false)
    × (has_byte 10 (bracketed (codes "m.l") (codes "k/x")) ≡ false)
unfolding any
clean = (refl, refl, refl)

split_query-safe_split_example :
    (safe_split (bracketed (codes "m.l") (codes "k/x"))
      ≡ some (split_on b'.' (codes "m.l") ++ codes "k/x" ∷ []))
    × (split_query (bracketed (codes "m.l") (codes "k/x"))
        ≡ split_on b'.' (codes "m.l") ++ codes "k/x" ∷ [])
split_query-safe_split_example =
    split_query-safe_split (codes "m.l") (codes "k/x") (λ e. cc) (λ e. cc) clean.0 clean.1 clean.2

join-split_on_example : join b'.' (split_on b'.' (codes "a..b")) ≡ codes "a..b"
join-split_on_example = join-split_on b'.' (codes "a..b")

safe_split-none_iff_example :
    (safe_split (codes "a[") ≡ none)
    ↔ (before : Str) × (has_byte b'[' before ≡ false) × (codes "a[" ≡ before ++ b'[' ∷ [])
safe_split-none_iff_example = safe_split-none_iff (codes "a[")
