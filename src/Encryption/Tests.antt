-- ===== src/Encryption/Tests.antt =====
-- The manager with a cipher that writes the nonce in front of the data.
use steve.Common.{
  ℕ, zero, suc, ◌<◌, ◌≡◌, refl, Str, codes, [], ◌∷◌, ◌++◌, none, some, eqb, length, if◌then◌else◌,
  arith, ap,
}
use steve.Common.Results.{done}
use steve.Common.Indices.{get_elem?, drop}
use steve.Encryption.Manager.{
  Gcm, Draw, Manager, new_data_encryption_key, active_key, fetch_active_data_key, encrypt_with,
  encrypt, decrypt, Sealed, Call, call, after_calls, new_manager,
}
use steve.Encryption.Manager.Trips.{decrypt-encrypt}
use steve.Encryption.Manager.Wear.{uses, uses-bound}

fill : ℕ → ℕ → Str
fill c zero = []
fill c (suc n) = c ∷ fill c n

drop-length : (s t : Str) → drop (length s) (s ++ t) ≡ t
unfolding drop
drop-length [] t = refl
drop-length (c ∷ s) t = drop-length s t

found_again : (c nonce plain : Str) → some (drop (length nonce) (nonce ++ plain)) ≡ some plain
found_again c nonce plain = ap (λ s. some s) (drop-length nonce plain)

abbrev prefix_gcm : Gcm Str
prefix_gcm = record {
  new_gcm = λ k. if eqb (length k) 32 then some k else none;
  nonce_size = λ c. 12;
  seal = λ c nonce plain. nonce ++ plain;
  unseal = λ c nonce edata. some (drop (length nonce) edata);
  unseal_seal = found_again;
}

abbrev draws : ℕ → Draw
draws c n = some (fill c n)

abbrev a_call : Call 3 prefix_gcm
a_call = record { draw_key = draws 7; draw_nonce = draws 9; plain = codes "secret" }

abbrev fresh : Manager
fresh = new_manager (draws 5)

abbrev secret : Sealed 3 prefix_gcm
secret = record { edata = fill 9 12 ++ codes "secret"; nonce = fill 9 12; key_id = 0 }

first_sealed : (call 3 prefix_gcm a_call fresh).1 ≡ done secret
unfolding encrypt fetch_active_data_key new_manager new_data_encryption_key active_key encrypt_with
    get_elem? fill
first_sealed = refl

one_key : length (call 3 prefix_gcm a_call fresh).0.data_keys ≡ 1
unfolding encrypt fetch_active_data_key new_manager new_data_encryption_key
one_key = refl

-- Two more calls, the first of which rotates the key.
two_keys : length (after_calls 3 prefix_gcm (a_call ∷ a_call ∷ a_call ∷ []) fresh).data_keys ≡ 2
unfolding after_calls encrypt fetch_active_data_key new_manager new_data_encryption_key
two_keys = refl

decrypt-encrypt_example :
    decrypt 3 prefix_gcm
      (after_calls 3 prefix_gcm (a_call ∷ a_call ∷ []) (call 3 prefix_gcm a_call fresh).0)
      secret.edata
      secret.nonce
      secret.key_id
    ≡ done (codes "secret")
decrypt-encrypt_example =
    decrypt-encrypt 3 prefix_gcm a_call fresh secret (a_call ∷ a_call ∷ []) first_sealed
      (omega (arith, one_key))

uses-bound_example : uses 3 prefix_gcm 0 (a_call ∷ a_call ∷ a_call ∷ []) (new_manager (draws 5)) < 3
uses-bound_example =
    uses-bound 3 prefix_gcm 0 (draws 5) (a_call ∷ a_call ∷ a_call ∷ []) (omega arith)
      (omega (arith, two_keys))
