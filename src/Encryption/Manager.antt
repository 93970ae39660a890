-- ===== src/Encryption/Manager.antt =====
-- Manager of pkg/sqlcache/encryption/encrypt.go. AES-GCM of the standard library and its random
-- bytes are parameters: a call that reads random bytes takes what is read as an argument. An
-- operation holds its lock to its end, and is one step.
pub mod Trips
pub mod Wear
use steve.Common.{
  ℕ, zero, suc, ◌+◌, ◌-◌, ◌*◌, ◌%◌, ◌^◌, ◌≡◌, Str, Bool, List, [], ◌∷◌, ◌++◌, Option, none, some,
  leb, eqb, length, if◌then◌else◌, arith,
}
use steve.Common.Results.{Result, done, failed}
use steve.Common.Indices.{get_elem?}

-- aes.NewCipher with cipher.NewGCM, and the methods of cipher.AEAD.
pub record Gcm (C : Type 0) : Type 0 where
  pub new_gcm : Str → Option C
  pub nonce_size : C → ℕ
  pub seal : C → Str → Str → Str
  pub unseal : C → Str → Str → Option Str
  -- Open finds what Seal was given, under the nonce that Seal was given.
  pub unseal_seal : (c : C) (nonce plain : Str) → unseal c nonce (seal c nonce plain) ≡ some plain

-- rand.Read of so many bytes; `none` is an error.
abbrev pub Draw : Type 0
Draw = ℕ → Option Str

pub data Failure : Type 0 where
  key_not_found no_random no_cipher not_decrypted : Failure

pub record Manager : Type 0 where
  pub data_keys : List Str
  pub active_key_counter : ℕ

abbrev pub key_size : ℕ
key_size = 32

-- uint32(n)
abbrev pub uint32 : ℕ → ℕ
uint32 n = n % 2 ^ 32

unfoldable pub new_data_encryption_key : Draw → Manager → Manager × Result Failure (Str × ℕ)
new_data_encryption_key draw m = elim (draw key_size) [
  | none ↦ (m, failed no_random)
  | some dek ↦ (
    record { data_keys = m.data_keys ++ dek ∷ []; active_key_counter = 1 },
    done (dek, uint32 (length (m.data_keys ++ dek ∷ []) - 1)),
  )
]

-- The index is in range, as a part of a length; where it is not, Go would panic.
unfoldable pub active_key : Manager → Result Failure (Str × ℕ)
active_key m =
    if eqb (length m.data_keys) 0
    then failed key_not_found
    else elim (get_elem? m.data_keys (uint32 (length m.data_keys - 1))) [
      | none ↦ failed key_not_found
      | some dek ↦ done (dek, uint32 (length m.data_keys - 1))
    ]

unfoldable pub key : Manager → ℕ → Result Failure Str
key m key_id =
    if leb (length m.data_keys) key_id
    then failed key_not_found
    else elim (get_elem? m.data_keys key_id) [ none ↦ failed key_not_found | some dek ↦ done dek ]

-- NewManager, which ignores a failure to draw a key.
unfoldable pub new_manager : Draw → Manager
new_manager draw =
    (new_data_encryption_key draw (record { data_keys = []; active_key_counter = 0 })).0

-- `max_write_count` is a variable of the package, 2 ^ 32.
module _ (max_write_count : ℕ) where
  unfoldable pub fetch_active_data_key : Draw → Manager → Manager × Result Failure (Str × ℕ)
  unfolding active_key
  fetch_active_data_key draw m =
      let used = record m { active_key_counter = m.active_key_counter + 1 } in
      if leb max_write_count (m.active_key_counter + 1)
      then new_data_encryption_key draw used
      else (used, active_key used)

  module _ {C : Type 0} (g : Gcm C) where
    -- What Encrypt returns: the data, the nonce and the id of the key.
    pub record Sealed : Type 0 where
      pub edata : Str
      pub nonce : Str
      pub key_id : ℕ

    -- encrypt, behind createGCMCypher
    unfoldable pub encrypt_with : Draw → Str → Str × ℕ → Result Failure Sealed
    encrypt_with draw plain dek = elim (g.new_gcm dek.0) [
      | none ↦ failed no_cipher
      | some aead ↦ elim (draw (g.nonce_size aead)) [
        | none ↦ failed no_random
        | some nonce ↦
            done (record { edata = g.seal aead nonce plain; nonce = nonce; key_id = dek.1 })
      ]
    ]

    -- Manager.Encrypt; the first draw is for a key, the second for the nonce.
    unfoldable pub encrypt : Draw → Draw → Str → Manager → Manager × Result Failure Sealed
    unfolding fetch_active_data_key encrypt_with
    encrypt draw_key draw_nonce plain m =
        let fetched = fetch_active_data_key draw_key m in
        (
          fetched.0,
          elim fetched.1 [ failed e ↦ failed e | done dek ↦ encrypt_with draw_nonce plain dek ],
        )

    -- Manager.Decrypt
    unfoldable pub decrypt : Manager → Str → Str → ℕ → Result Failure Str
    unfolding key
    decrypt m edata nonce key_id = elim (key m key_id) [
      | failed e ↦ failed e
      | done dek ↦ elim (g.new_gcm dek) [
        | none ↦ failed no_cipher
        | some aead ↦ elim (g.unseal aead nonce edata) [
          | none ↦ failed not_decrypted
          | some plain ↦ done plain
        ]
      ]
    ]

    -- A call of Encrypt: its draws and its data.
    pub record Call : Type 0 where
      pub draw_key : Draw
      pub draw_nonce : Draw
      pub plain : Str

    abbrev pub call : Call → Manager → Manager × Result Failure Sealed
    call c m = encrypt c.draw_key c.draw_nonce c.plain m

    -- Calls in a row.
    unfoldable pub after_calls : List Call → Manager → Manager
    after_calls [] m = m
    after_calls (c ∷ cs) m = after_calls cs (call c m).0
