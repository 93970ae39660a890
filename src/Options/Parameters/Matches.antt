-- ===== src/Options/Parameters/Matches.antt =====
-- What the operators of a request's filters compare with.
use steve.Common.{
  Str, str_eq, ◌≡◌, ◌≢◌, refl, Bool, true, false, List, [], ◌∷◌, some, any, foldl, arith, length,
  contains, str_beq_iff, ◌∙◌,
}
use steve.Common.Sets.{StringSets}
use steve.Query.Token.{
  Operator, unset, does_not_exist, equals, double_equals, partial_equals, in_set, not_equals,
  not_partial_equals, not_in, exists, greater_than, less_than,
}
use steve.Query.Requirement.{Requirement}
use steve.Query.Outcome.{Outcome, ok, err, panic, stuck}
use steve.Query.Parser.{parse_to_requirements}
use steve.Query.Parser.Total.{IsResult, parse_to_requirements_total}
use steve.Query.Parser.Valid.{FollowsRules, IsValid, AllValid, parse_to_requirements-AllValid}
use steve.Options.Types.{
  Op, op_eq, op_not_eq, op_exists, op_not_exists, op_in, op_not_in, op_lt, op_gt, Filter, OrFilter,
}
use steve.Options.Parameters.{
  k8s_op_to_rancher_op, values, k8s_requirement_to_or_filter, or_filter, parse_filter,
  parse_filters,
}
use steve.Options.Parameters.Answers.{IsAnswered, IsAnswered-bind}

-- The matches that an operator of the cache is given.
abbrev pub HasMatches : Op → List Str → Type 0
HasMatches op_exists ms = ms ≡ []
HasMatches op_not_exists ms = ms ≡ []
HasMatches op_eq ms = ms ≢ []
HasMatches op_not_eq ms = ms ≢ []
HasMatches op_in ms = ms ≢ []
HasMatches op_not_in ms = ms ≢ []
HasMatches op_lt ms = ms ≢ []
HasMatches op_gt ms = ms ≢ []

abbrev pub IsFilter : Filter → Type 0
IsFilter f = HasMatches f.op f.matches

abbrev pub AllFilters : OrFilter → Type 0
AllFilters [] = Unit
AllFilters (f ∷ fs) = IsFilter f × AllFilters fs

abbrev pub AllOrFilters : List OrFilter → Type 0
AllOrFilters [] = Unit
AllOrFilters (fs ∷ filters) = AllFilters fs × AllOrFilters filters

one_some : (l : List Str) → length l ≡ 1 → l ≢ []
one_some [] h = absurd (omega arith)
one_some (v ∷ l) h = λ e. cc

module _ (sets : StringSets) where
  open sets use {StringSet, new, insert, has, list}

  foldl_keeps :
      (x : Str) (vs : List Str) (s : StringSet)
      → has s x ≡ true
      → has (foldl (λ ret v. insert v ret) s vs) x ≡ true
  foldl_keeps x [] s h = h
  foldl_keeps x (v ∷ vs) s h =
      foldl_keeps x vs (insert v s) (ground (arith, sets.has_insert v x s, h))

  members_some : (vs : List Str) → vs ≢ [] → list (foldl (λ ret v. insert v ret) new vs) ≢ []
  unfolding contains any
  members_some [] h = absurd (h refl)
  members_some (v ∷ vs) h = λ e.
      let inside =
        foldl_keeps v vs (insert v new)
          (ground (arith, sets.has_insert v v new, str_beq_iff v v)) in
      ground
        (arith, e, inside, sets.contains_list v (foldl (λ ret u. insert u ret) (insert v new) vs))

  no_members : (l : List Str) → ((x : Str) → contains l x ≡ false) → l ≡ []
  unfolding contains any
  no_members [] h = refl
  no_members (x ∷ l) h = ground (arith, h x, str_beq_iff x x)

  values_none : (r : Requirement) → r.str_values ≡ [] → values sets r ≡ []
  unfolding values
  values_none r h = rw h (no_members (list new) (λ x. sets.contains_list x new ∙ sets.has_new x))

  values_some : (r : Requirement) → r.str_values ≢ [] → values sets r ≢ []
  unfolding values
  values_some r h = members_some r.str_values h

  -- The operator and the matches of the filter of a valid requirement.
  FollowsRules-filter :
      (r : Requirement) (o : Operator)
      → FollowsRules r.key r.str_values o
      → (made : Op × Bool) × (k8s_op_to_rancher_op o ≡ some made)
        × HasMatches made.0 (values sets r)
  unfolding k8s_op_to_rancher_op
  FollowsRules-filter r unset h = absurd h
  FollowsRules-filter r equals h = ((op_eq, false), refl, values_some r (one_some r.str_values h))
  FollowsRules-filter r double_equals h =
      ((op_eq, false), refl, values_some r (one_some r.str_values h))
  FollowsRules-filter r partial_equals h =
      ((op_eq, true), refl, values_some r (one_some r.str_values h))
  FollowsRules-filter r not_equals h =
      ((op_not_eq, false), refl, values_some r (one_some r.str_values h))
  FollowsRules-filter r not_partial_equals h =
      ((op_not_eq, true), refl, values_some r (one_some r.str_values h))
  FollowsRules-filter r in_set h = ((op_in, false), refl, values_some r h)
  FollowsRules-filter r not_in h = ((op_not_in, false), refl, values_some r h)
  FollowsRules-filter r exists h = ((op_exists, false), refl, values_none r h.0)
  FollowsRules-filter r does_not_exist h = ((op_not_exists, false), refl, values_none r h.0)
  FollowsRules-filter r less_than h = ((op_lt, false), refl, values_some r (λ e. cc))
  FollowsRules-filter r greater_than h = ((op_gt, false), refl, values_some r (λ e. cc))

  requirement-IsAnswered :
      (r : Requirement) → IsValid r → IsAnswered IsFilter (k8s_requirement_to_or_filter sets r)
  unfolding k8s_requirement_to_or_filter
  requirement-IsAnswered r h =
      let (made, known, matched) = FollowsRules-filter r r.operator h in
      rw (known, IsAnswered) matched

  or_filter-IsAnswered :
      (qs : List Requirement) → AllValid qs → IsAnswered AllFilters (or_filter sets qs)
  unfolding or_filter
  or_filter-IsAnswered [] h = tt
  or_filter-IsAnswered (q ∷ qs) (h, hs) =
      IsAnswered-bind IsFilter AllFilters (k8s_requirement_to_or_filter sets q) _
        (requirement-IsAnswered q h)
        (λ f good.
          IsAnswered-bind AllFilters AllFilters (or_filter sets qs) _ (or_filter-IsAnswered qs hs)
            (λ fs rest. (good, rest)))

  outcome-IsAnswered :
      (text : Str) (o : Outcome (List Requirement))
      → parse_to_requirements sets text ≡ o
      → IsResult o
      → IsAnswered AllFilters (parse_filter sets text)
  unfolding parse_filter
  outcome-IsAnswered text (ok qs l) e h =
      rw (e, IsAnswered) (or_filter-IsAnswered qs (parse_to_requirements-AllValid sets text qs l e))
  outcome-IsAnswered text (err x) e h = rw (e, IsAnswered) tt
  outcome-IsAnswered text panic e h = absurd h
  outcome-IsAnswered text stuck e h = absurd h

  pub parse_filters-IsAnswered :
      (texts : List Str) → IsAnswered AllOrFilters (parse_filters sets texts)
  unfolding parse_filters
  parse_filters-IsAnswered [] = tt
  parse_filters-IsAnswered (text ∷ texts) =
      IsAnswered-bind AllFilters AllOrFilters (parse_filter sets text) _
        (outcome-IsAnswered text _ refl (parse_to_requirements_total sets text))
        (λ f good.
          IsAnswered-bind AllOrFilters AllOrFilters (parse_filters sets texts) _
            (parse_filters-IsAnswered texts) (λ fs rest. (good, rest)))
