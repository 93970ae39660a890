-- ===== src/Encryption/Manager/Wear.antt =====
-- How often Encrypt uses one key.
use steve.Common.{
  ℕ, ◌+◌, ◌-◌, ◌^◌, ◌≤◌, ◌<◌, Str, List, [], ◌∷◌, ltb, eqb, length, length-append, if◌then◌else◌,
  arith, inl, inr, Option-cases, ap,
}
use steve.Common.Results.{Result, done, failed, Result-cases}
use steve.Encryption.Manager.{
  Gcm, Draw, Failure, Manager, new_data_encryption_key, active_key, fetch_active_data_key, encrypt,
  Call, call, after_calls, key_size, new_manager,
}
use steve.Encryption.Manager.Trips.{after_calls-Extends, fetched_parts, encrypted_parts}

-- One use of the id `k` where it was handed out.
abbrev handed : ℕ → Result Failure (Str × ℕ) → ℕ
handed k (failed e) = 0
handed k (done (dek, id)) = if eqb id k then 1 else 0

module _ (max_write_count : ℕ) where
  -- How often a key may still be used: one behind the active one, the active one, one to come.
  abbrev left_of : ℕ → Manager → ℕ
  left_of k m =
      if ltb (k + 1) (length m.data_keys)
      then 0
      else if eqb (k + 1) (length m.data_keys)
      then max_write_count - 1 - m.active_key_counter
      else max_write_count - 1

  new_key_left :
      (k : ℕ) (draw : Draw) (m : Manager)
      → 2 ≤ max_write_count
      → max_write_count ≤ m.active_key_counter
      → length (new_data_encryption_key draw m).0.data_keys ≤ 2 ^ 32
      → handed k (new_data_encryption_key draw m).1 + left_of k (new_data_encryption_key draw m).0
        ≤ left_of k m
  unfolding new_data_encryption_key
  new_key_left k draw m two full small = elim (Option-cases (draw key_size)) [
    | inl missing ↦ ground arith
    | inr (dek, e) ↦ ground (arith, e, length-append m.data_keys (dek ∷ []))
  ]

  fetch_left :
      (k : ℕ) (draw : Draw) (m : Manager)
      → 2 ≤ max_write_count
      → length (fetch_active_data_key max_write_count draw m).0.data_keys ≤ 2 ^ 32
      → handed k (fetch_active_data_key max_write_count draw m).1
          + left_of k (fetch_active_data_key max_write_count draw m).0
        ≤ left_of k m
  unfolding fetch_active_data_key active_key
  fetch_left k draw m two small =
      let used : Manager = record m { active_key_counter = m.active_key_counter + 1 } in
      ground (arith, new_key_left k draw used)

  module _ {C : Type 0} (g : Gcm C) (k : ℕ) where
    -- How many calls return the id `k`.
    unfoldable pub uses : List (Call max_write_count g) → Manager → ℕ
    uses [] m = 0
    uses (c ∷ cs) m =
        (elim (call max_write_count g c m).1 [
          | done s ↦ if eqb s.key_id k then 1 else 0
          | failed e ↦ 0
        ])
        + uses cs (call max_write_count g c m).0

    once-le-handed :
        (c : Call max_write_count g) (m : Manager)
        → (elim (call max_write_count g c m).1 [
          | done s ↦ if eqb s.key_id k then 1 else 0
          | failed e ↦ 0
        ])
          ≤ handed k (fetch_active_data_key max_write_count c.draw_key m).1
    once-le-handed c m = elim (Result-cases (call max_write_count g c m).1) [
      | inr (x, e) ↦ rw e (omega arith)
      | inl (s, e) ↦
          let (dek, id, fetched, enc) = fetched_parts max_write_count g c m s e in
          let (aead, made, data_is, id_is) =
            encrypted_parts max_write_count g c.draw_nonce c.plain dek id s enc in
          rw (e, fetched) (ground (arith, id_is))
    ]

    uses-left :
        (cs : List (Call max_write_count g)) (m : Manager)
        → 2 ≤ max_write_count
        → length (after_calls max_write_count g cs m).data_keys ≤ 2 ^ 32
        → uses cs m ≤ left_of k m
    unfolding uses after_calls encrypt
    uses-left [] m two small = omega arith
    uses-left (c ∷ cs) m two small =
        let m' = (fetch_active_data_key max_write_count c.draw_key m).0 in
        let (more, e) = after_calls-Extends max_write_count g cs (call max_write_count g c m).0 in
        let shorter : length m'.data_keys ≤ 2 ^ 32 =
          omega (arith, ap (λ l. length l) e, length-append m'.data_keys more, small) in
        omega (
          arith,
          once-le-handed c m,
          fetch_left k c.draw_key m two shorter,
          uses-left cs (call max_write_count g c m).0 two small,
        )

    -- With a maximum of two or more, from NewManager on fewer calls of Encrypt than the maximum
    -- return any one key id, while there are no more keys than ids: the active key is rotated
    -- before it is worn out.
    pub uses-bound :
        (draw : Draw) (cs : List (Call max_write_count g))
        → 2 ≤ max_write_count
        → length (after_calls max_write_count g cs (new_manager draw)).data_keys ≤ 2 ^ 32
        → uses cs (new_manager draw) < max_write_count
    unfolding new_manager new_data_encryption_key
    uses-bound draw cs two small = ground (arith, uses-left cs (new_manager draw) two small)
