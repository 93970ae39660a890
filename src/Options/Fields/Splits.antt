-- ===== src/Options/Fields/Splits.antt =====
-- What the cuts of an accessor are.
use steve.Common.{
  ℕ, Str, ◌≡◌, ◌≢◌, ◌↔◌, refl, ap, Bool, false, List, [], ◌∷◌, ◌++◌, none, some, any, eqb,
  if◌then◌else◌, arith, eqb_iff, Bool-cases, ◌∙◌, ◌⊎◌, inl, inr, any-append,
}
use steve.Options.Fields.{
  split_on, cut, without_last, safe_split, closed, last_bracket, ends_with_bracket, split_query,
}

-- strings.Join
unfoldable pub join : ℕ → List Str → Str
join sep [] = []
join sep (part ∷ []) = part
join sep (part ∷ next ∷ parts) = part ++ sep ∷ join sep (next ∷ parts)

abbrev pub has_byte : ℕ → Str → Bool
has_byte b s = any (λ c. eqb c b) s

join_extend :
    (sep c : ℕ) (part : Str) (parts : List Str)
    → join sep ((c ∷ part) ∷ parts) ≡ c ∷ join sep (part ∷ parts)
unfolding join
join_extend sep c part [] = refl
join_extend sep c part (q ∷ parts) = refl

split_on_some : (sep : ℕ) (s : Str) → split_on sep s ≢ []
unfolding split_on
split_on_some sep [] = λ h. cc
split_on_some sep (c ∷ s) = λ h. ground arith

join_cons :
    (sep c : ℕ) (parts : List Str)
    → parts ≢ []
    → join sep (
        if eqb c sep
        then [] ∷ parts
        else elim parts [ [] ↦ (c ∷ []) ∷ [] | part ∷ rest ↦ (c ∷ part) ∷ rest ])
      ≡ c ∷ join sep parts
unfolding join
join_cons sep c [] h = absurd (h refl)
join_cons sep c (part ∷ parts) h = ground (arith, eqb_iff c sep, join_extend sep c part parts)

-- The dots of an accessor are all that its parts lack: joined by dots they are the accessor.
pub join-split_on : (sep : ℕ) (s : Str) → join sep (split_on sep s) ≡ s
unfolding split_on join
join-split_on sep [] = refl
join-split_on sep (c ∷ s) =
    ground (arith, join_cons sep c (split_on sep s) (split_on_some sep s), join-split_on sep s)

without_last_snoc : (s : Str) (c : ℕ) → without_last (s ++ c ∷ []) ≡ some s
unfolding without_last
without_last_snoc [] c = refl
without_last_snoc (d ∷ s) c = rw (without_last_snoc s c)

cut-append : (b : ℕ) (s t : Str) → has_byte b s ≡ false → cut b (s ++ b ∷ t) ≡ some (s, t)
unfolding cut any
cut-append b [] t h = ground arith
cut-append b (c ∷ s) t h = ground (arith, cut-append b s t)

closed_snoc : (c : ℕ) (s : Str) → closed b']' (c ∷ s ++ b']' ∷ []) ≡ some (c ∷ s)
unfolding closed
closed_snoc c [] = refl
closed_snoc c (d ∷ []) = refl
closed_snoc c (d ∷ e ∷ s) = rw (closed_snoc d (e ∷ s))

no_bracket : (s : Str) → has_byte b'[' s ≡ false → last_bracket s ≡ none
unfolding last_bracket any
no_bracket [] h = refl
no_bracket (c ∷ s) h = ground (arith, no_bracket s)

last_bracket-append :
    (s t : Str) (inner : Str)
    → last_bracket t ≡ none
    → closed b']' t ≡ some inner
    → last_bracket (s ++ b'[' ∷ t) ≡ some (s, inner)
unfolding last_bracket
last_bracket-append [] t inner h k = ground arith
last_bracket-append (c ∷ s) t inner h k = rw (last_bracket-append s t inner h k)

-- A key in brackets behind the parts in front of it.
abbrev pub bracketed : Str → Str → Str
bracketed before inner = before ++ (b'[' ∷ (inner ++ b']' ∷ []))

no_later_bracket :
    (inner : Str) → has_byte b'[' inner ≡ false → last_bracket (inner ++ b']' ∷ []) ≡ none
unfolding any
no_later_bracket inner h =
    no_bracket (inner ++ b']' ∷ [])
      (ground (arith, any-append (λ c. eqb c b'[') inner (b']' ∷ []), h))

-- Where the texts in front of and in the brackets are not empty and hold no opening bracket and no
-- newline, a key in brackets is the last part for both cuts, behind the parts in front of it.
pub split_query-safe_split :
    (before inner : Str)
    → before ≢ []
    → inner ≢ []
    → has_byte b'[' before ≡ false
    → has_byte b'[' inner ≡ false
    → has_byte 10 (bracketed before inner) ≡ false
    → (safe_split (bracketed before inner) ≡ some (split_on b'.' before ++ inner ∷ []))
      × (split_query (bracketed before inner) ≡ split_on b'.' before ++ inner ∷ [])
unfolding safe_split split_query ends_with_bracket
split_query-safe_split [] inner ne ni hb hi line = absurd (ne refl)
split_query-safe_split (c ∷ before) [] ne ni hb hi line = absurd (ni refl)
split_query-safe_split (c ∷ before) (d ∷ inner) ne ni hb hi line =
    let last = d ∷ inner ++ b']' ∷ [] in
    (
      ground (arith, cut-append b'[' (c ∷ before) last hb, without_last_snoc (d ∷ inner) b']'),
      ground (
        arith,
        line,
        last_bracket-append (c ∷ before) last (d ∷ inner) (no_later_bracket (d ∷ inner) hi)
            (closed_snoc d inner),
      ),
    )

-- The two outcomes of a cut.
cut_cases :
    (b : ℕ) (s : Str)
    → (cut b s ≡ none)
      ⊎ ((x : Str) × (y : Str) × (cut b s ≡ some (x, y))
          × (has_byte b x ≡ false)
          × (s ≡ x ++ b ∷ y))
unfolding cut any
cut_cases b [] = inl refl
cut_cases b (c ∷ s) = elim (Bool-cases (eqb c b)) [
  | inl here ↦ inr ([], s, ground (arith, here), refl, ap (λ n. n ∷ s) ((eqb_iff c b).0 here))
  | inr later ↦ elim (cut_cases b s) [
    | inl missing ↦ inl (ground (arith, later, missing))
    | inr (x, y, found, clean, parts) ↦ inr (
      c ∷ x,
      y,
      ground (arith, later, found),
      ground (arith, later, clean),
      ap (λ t. c ∷ t) parts,
    )
  ]
]

without_last-none : (s : Str) → without_last s ≡ none → s ≡ []
unfolding without_last
without_last-none [] h = refl
without_last-none (c ∷ s) h = ground arith

-- SafeSplit fails on an accessor whose first bracket is its last byte, and on no other.
pub safe_split-none_iff :
    (s : Str)
    → (safe_split s ≡ none)
      ↔ (before : Str) × (has_byte b'[' before ≡ false) × (s ≡ before ++ b'[' ∷ [])
unfolding safe_split without_last
safe_split-none_iff s = (
  λ h. elim (cut_cases b'[' s) [
    | inl missing ↦ ground arith
    | inr (x, y, found, clean, parts) ↦
        let last = without_last-none y (ground arith) in
        (x, clean, parts ∙ ap (λ t. x ++ b'[' ∷ t) last)
  ],
  λ (before, clean, parts). rw parts (ground (arith, cut-append b'[' before [] clean)),
)
