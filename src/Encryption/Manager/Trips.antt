-- ===== src/Encryption/Manager/Trips.antt =====
-- What Decrypt makes of what Encrypt returned.
use steve.Common.{
  ℕ, ◌+◌, ◌^◌, ◌≤◌, ◌≡◌, refl, Str, List, [], ◌∷◌, ◌++◌, some, leb, length, length-append, arith,
  inl, inr, Option-cases, Bool-cases, sym, ap, ◌∙◌,
}
use mathlib.Core.List.{append-nil, append_assoc}
use steve.Common.Results.{done, Result-cases}
use steve.Common.Indices.{get_elem?, get_elem?-append, get_elem?-length, get_elem?-bound}
use steve.Encryption.Manager.{
  Gcm, Draw, Manager, new_data_encryption_key, active_key, fetch_active_data_key, key, encrypt_with,
  encrypt, decrypt, Sealed, Call, call, after_calls, key_size,
}

new_key :
    (draw : Draw) (m : Manager) (dek : Str) (id : ℕ)
    → (new_data_encryption_key draw m).1 ≡ done (dek, id)
    → length (new_data_encryption_key draw m).0.data_keys ≤ 2 ^ 32
    → get_elem? (new_data_encryption_key draw m).0.data_keys id ≡ some dek
unfolding new_data_encryption_key
new_key draw m dek id h small = elim (Option-cases (draw key_size)) [
  | inl missing ↦ ground arith
  | inr (drawn, e) ↦
      ground (arith, e, length-append m.data_keys (drawn ∷ []), get_elem?-length m.data_keys drawn)
]

old_key :
    (m : Manager) (dek : Str) (id : ℕ)
    → active_key m ≡ done (dek, id)
    → get_elem? m.data_keys id ≡ some dek
unfolding active_key
old_key m dek id h = ground arith

module _ (max_write_count : ℕ) where
  -- A key that is handed out stands at its id.
  fetched_key :
      (draw : Draw) (m : Manager) (dek : Str) (id : ℕ)
      → (fetch_active_data_key max_write_count draw m).1 ≡ done (dek, id)
      → length (fetch_active_data_key max_write_count draw m).0.data_keys ≤ 2 ^ 32
      → get_elem? (fetch_active_data_key max_write_count draw m).0.data_keys id ≡ some dek
  unfolding fetch_active_data_key
  fetched_key draw m dek id h small =
      let used : Manager = record m { active_key_counter = m.active_key_counter + 1 } in
      ground (arith, new_key draw used dek id, old_key used dek id)

  -- Keys are only added.
  abbrev pub Extends : Manager → Manager → Type 0
  Extends m m' = (more : List Str) × (m'.data_keys ≡ m.data_keys ++ more)

  new_key-Extends : (draw : Draw) (m : Manager) → Extends m (new_data_encryption_key draw m).0
  unfolding new_data_encryption_key
  new_key-Extends draw m = elim (Option-cases (draw key_size)) [
    | inl missing ↦ rw (missing, new_data_encryption_key) ([], sym (append-nil m.data_keys))
    | inr (dek, drawn) ↦ rw (drawn, new_data_encryption_key) (dek ∷ [], refl)
  ]

  pub fetch-Extends :
      (draw : Draw) (m : Manager) → Extends m (fetch_active_data_key max_write_count draw m).0
  unfolding fetch_active_data_key
  fetch-Extends draw m = elim (Bool-cases (leb max_write_count (m.active_key_counter + 1))) [
    | inl full ↦
        rw full (new_key-Extends draw (record m { active_key_counter = m.active_key_counter + 1 }))
    | inr room ↦ rw room ([], sym (append-nil m.data_keys))
  ]

  module _ {C : Type 0} (g : Gcm C) where
    pub after_calls-Extends :
        (cs : List (Call max_write_count g)) (m : Manager)
        → Extends m (after_calls max_write_count g cs m)
    unfolding after_calls encrypt
    after_calls-Extends [] m = ([], sym (append-nil m.data_keys))
    after_calls-Extends (c ∷ cs) m =
        let (more, e) = fetch-Extends c.draw_key m in
        let (rest, f) =
          after_calls-Extends cs (fetch_active_data_key max_write_count c.draw_key m).0 in
        (more ++ rest, f ∙ ap (λ l. l ++ rest) e ∙ append_assoc m.data_keys more rest)

    pub fetched_parts :
        (c : Call max_write_count g) (m : Manager) (s : Sealed max_write_count g)
        → (call max_write_count g c m).1 ≡ done s
        → (dek : Str) × (id : ℕ) × ((fetch_active_data_key max_write_count c.draw_key m).1
            ≡ done (dek, id))
          × (encrypt_with max_write_count g c.draw_nonce c.plain (dek, id) ≡ done s)
    unfolding encrypt
    fetched_parts c m s h =
        elim (Result-cases (fetch_active_data_key max_write_count c.draw_key m).1) [
          | inl ((dek, id), e) ↦ (dek, id, e, ground arith)
          | inr (x, e) ↦ ground arith
        ]

    pub encrypted_parts :
        (draw : Draw) (plain dek : Str) (id : ℕ) (s : Sealed max_write_count g)
        → encrypt_with max_write_count g draw plain (dek, id) ≡ done s
        → (aead : C) × (g.new_gcm dek ≡ some aead)
          × (s.edata ≡ g.seal aead s.nonce plain)
          × (s.key_id ≡ id)
    unfolding encrypt_with
    encrypted_parts draw plain dek id s h = elim (Option-cases (g.new_gcm dek)) [
      | inl no_gcm ↦ ground arith
      | inr (aead, made) ↦ elim (Option-cases (draw (g.nonce_size aead))) [
        | inl no_nonce ↦ ground arith
        | inr (nonce, drawn) ↦ (aead, made, ground arith, ground arith)
      ]
    ]

    decrypt_at :
        (m : Manager) (dek plain : Str) (aead : C) (s : Sealed max_write_count g)
        → get_elem? m.data_keys s.key_id ≡ some dek
        → g.new_gcm dek ≡ some aead
        → s.edata ≡ g.seal aead s.nonce plain
        → decrypt max_write_count g m s.edata s.nonce s.key_id ≡ done plain
    unfolding decrypt key
    decrypt_at m dek plain aead s at made e =
        ground
          (arith, get_elem?-bound m.data_keys s.key_id dek at, g.unseal_seal aead s.nonce plain)

    -- Decrypt finds the data that Encrypt was given, also behind further calls of Encrypt, while
    -- there are no more keys than ids.
    pub decrypt-encrypt :
        (c : Call max_write_count g) (m : Manager) (s : Sealed max_write_count g)
        (cs : List (Call max_write_count g))
        → (call max_write_count g c m).1 ≡ done s
        → length (call max_write_count g c m).0.data_keys ≤ 2 ^ 32
        → decrypt max_write_count g
            (after_calls max_write_count g cs (call max_write_count g c m).0)
            s.edata
            s.nonce
            s.key_id
          ≡ done c.plain
    decrypt-encrypt c m s cs h small =
        let (dek, id, fetched, enc) = fetched_parts c m s h in
        let (aead, made, data_is, id_is) = encrypted_parts c.draw_nonce c.plain dek id s enc in
        let (more, e) = after_calls-Extends cs (call max_write_count g c m).0 in
        let at = fetched_key c.draw_key m dek id fetched (unfold encrypt in small) in
        decrypt_at (after_calls max_write_count g cs (call max_write_count g c m).0) dek c.plain
          aead s (rw (e, id_is) (get_elem?-append _ more id dek (unfold encrypt in at))) made
          data_is
