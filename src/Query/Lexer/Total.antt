-- ===== src/Query/Lexer/Total.antt =====
-- The loops of the lexer: what each of them leaves of the text.
use steve.Common.{
  ℕ, zero, suc, ◌<◌, ◌≤◌, Str, str_eq, ◌≡◌, refl, Bool, true, false, List, [], ◌∷◌, ◌++◌, Option,
  none, some, arith, length, eqb, Bool-cases, inl, inr, Option-cases,
}
use steve.Query.Token.{Token, ScannedItem, string2token, to_lower, is_special_symbol, is_whitespace}
use steve.Query.Lexer.{
  scan_identifier, scan_id_or_keyword, scan_quoted_string, last_scanned, scan_special_symbol,
  skip_white_spaces, lex_from, lex, is_end, scan_fuel, scan, keyword_or_identifier,
}

length-scan_identifier : (b s : Str) → length (scan_identifier b s).1 ≤ length s
unfolding scan_identifier
length-scan_identifier b [] = omega arith
length-scan_identifier b (c ∷ s) = ground (arith, length-scan_identifier (b ++ c ∷ []) s)

-- An identifier is not empty where its first byte neither ends nor divides it.
length-scan_id_or_keyword :
    (c : ℕ) (s : Str)
    → eqb c 0 ≡ false
    → is_special_symbol c ≡ false
    → is_whitespace c ≡ false
    → length (scan_id_or_keyword (c ∷ s)).rest ≤ length s
unfolding scan_id_or_keyword scan_identifier
length-scan_id_or_keyword c s h k l = ground (arith, length-scan_identifier (c ∷ []) s)

length-scan_quoted_string :
    (d : ℕ) (e : Bool) (b s : Str) → length (scan_quoted_string d e b s).rest ≤ length s
unfolding scan_quoted_string
length-scan_quoted_string d e b [] = omega arith
length-scan_quoted_string d e b (c ∷ s) =
    ground (
      arith,
      length-scan_quoted_string d false (b ++ c ∷ []) s,
      length-scan_quoted_string d true b s,
    )

length-scan_special_symbol :
    (l : Option ScannedItem) (b s : Str) → length (scan_special_symbol l b s).rest ≤ length s
unfolding scan_special_symbol last_scanned
length-scan_special_symbol l b [] = ground arith
length-scan_special_symbol l b (c ∷ s) =
    let longer : Str = b ++ c ∷ [] in
    elim (Option-cases (string2token longer)) [
      | inl no_token ↦ ground (arith, length-scan_special_symbol l longer s)
      | inr (t, token) ↦
          ground (
            arith,
            length-scan_special_symbol (some (record { tok = t; literal = longer })) longer s,
          )
    ]

-- Behind a special symbol that starts it, the scan has read a byte.
length-first_symbol :
    (c : ℕ) (s : Str)
    → is_special_symbol c ≡ true
    → length (scan_special_symbol none [] (c ∷ s)).rest ≤ length s
unfolding scan_special_symbol last_scanned
length-first_symbol c s h = elim (Option-cases (string2token (c ∷ []))) [
  | inl no_token ↦ ground (arith, length-scan_special_symbol none (c ∷ []) s)
  | inr (t, token) ↦
      ground
        (arith, length-scan_special_symbol (some (record { tok = t; literal = c ∷ [] })) (c ∷ []) s)
]

length-skip_white_spaces : (s : Str) → length (skip_white_spaces s) ≤ length s
unfolding skip_white_spaces
length-skip_white_spaces [] = omega arith
length-skip_white_spaces (c ∷ s) = ground (arith, length-skip_white_spaces s)

not_blank : (c : ℕ) (s r : Str) → skip_white_spaces s ≡ c ∷ r → is_whitespace c ≡ false
unfolding skip_white_spaces
not_blank c [] r h = cc
not_blank c (d ∷ s) r h = ground (arith, not_blank c s r)

-- An item that is not the end has taken a byte.
length-lex_from :
    (s : Str)
    → ((c : ℕ) (r : Str) → s ≡ c ∷ r → is_whitespace c ≡ false)
    → is_end (lex_from s).item.tok ≡ false
    → length (lex_from s).rest < length s
unfolding lex_from
length-lex_from [] b h = cc
length-lex_from (c ∷ s) b h = ground (
  arith,
  length-first_symbol c s,
  length-scan_id_or_keyword c s,
  length-scan_quoted_string c false [] s,
  b c s refl,
)

pub length-lex : (s : Str) → is_end (lex s).item.tok ≡ false → length (lex s).rest < length s
unfolding lex
length-lex s h = omega (
  arith,
  length-lex_from (skip_white_spaces s) (λ c r e. not_blank c s r e) h,
  length-skip_white_spaces s,
)

keyword_no_end : (s : Str) (t : Token) → string2token s ≡ some t → is_end t ≡ false
unfolding string2token
keyword_no_end s t h = ground arith

scan_id_or_keyword_no_end : (s : Str) → is_end (scan_id_or_keyword s).item.tok ≡ false
unfolding scan_id_or_keyword keyword_or_identifier
scan_id_or_keyword_no_end s =
    let (buffer, rest) = scan_identifier [] s in
    elim (Option-cases (string2token (to_lower buffer))) [
      | inl e ↦ ground arith
      | inr (t, e) ↦ ground (arith, keyword_no_end (to_lower buffer) t e)
    ]

scan_quoted_string_no_end :
    (d : ℕ) (e : Bool) (b s : Str) → is_end (scan_quoted_string d e b s).item.tok ≡ false
unfolding scan_quoted_string
scan_quoted_string_no_end d e b [] = refl
scan_quoted_string_no_end d e b (c ∷ s) =
    ground (
      arith,
      scan_quoted_string_no_end d false (b ++ c ∷ []) s,
      scan_quoted_string_no_end d true b s,
    )

-- No token so far, or one that is not the end.
abbrev NoEnd : Option ScannedItem → Type 0
NoEnd none = Unit
NoEnd (some i) = is_end i.tok ≡ false

scan_special_symbol-NoEnd :
    (l : Option ScannedItem) (b s : Str)
    → NoEnd l
    → is_end (scan_special_symbol l b s).item.tok ≡ false
unfolding scan_special_symbol last_scanned
scan_special_symbol-NoEnd l b [] h = ground arith
scan_special_symbol-NoEnd l b (c ∷ s) h =
    let longer : Str = b ++ c ∷ [] in
    elim (Option-cases (string2token longer)) [
      | inl no_token ↦ ground (arith, scan_special_symbol-NoEnd l longer s h)
      | inr (t, token) ↦ ground (
        arith,
        scan_special_symbol-NoEnd (some (record { tok = t; literal = longer })) longer s
            (keyword_no_end longer t token),
      )
    ]

-- The end token has no text.
lex_from_end : (s : Str) → is_end (lex_from s).item.tok ≡ true → (lex_from s).item.literal ≡ []
unfolding lex_from
lex_from_end [] h = refl
lex_from_end (c ∷ s) h = ground (
  arith,
  scan_special_symbol-NoEnd none [] (c ∷ s) tt,
  scan_id_or_keyword_no_end (c ∷ s),
  scan_quoted_string_no_end c false [] s,
)

-- A list of items that ends with the end token, which has no text, and has no other.
abbrev pub EndsOnce : List ScannedItem → Type 0
EndsOnce [] = ⊥
EndsOnce (i ∷ []) = (is_end i.tok ≡ true) × (i.literal ≡ [])
EndsOnce (i ∷ j ∷ r) = (is_end i.tok ≡ false) × EndsOnce (j ∷ r)

EndsOnce-cons :
    (i : ScannedItem) (l : List ScannedItem) → is_end i.tok ≡ false → EndsOnce l → EndsOnce (i ∷ l)
EndsOnce-cons i [] h k = absurd k
EndsOnce-cons i (j ∷ l) h k = (h, k)

scan_fuel_total :
    (n : ℕ) (s : Str)
    → length s < n
    → (l : List ScannedItem) × (scan_fuel n s ≡ some l) × EndsOnce l
unfolding scan_fuel lex
scan_fuel_total zero s h = absurd (omega arith)
scan_fuel_total (suc n) s h = elim (Bool-cases (is_end (lex s).item.tok)) [
  | inl last ↦ ((lex s).item ∷ [], rw last, (last, lex_from_end (skip_white_spaces s) last))
  | inr more ↦
      let (l, found, once) = scan_fuel_total n (lex s).rest (omega (arith, length-lex s more)) in
      ((lex s).item ∷ l, rw (more, found), EndsOnce-cons (lex s).item l more once)
]

-- Every text has its items, and the end token stands behind them and nowhere else.
pub scan_total : (s : Str) → (l : List ScannedItem) × (scan s ≡ some l) × EndsOnce l
unfolding scan
scan_total s = scan_fuel_total (suc (length s)) s (omega arith)
