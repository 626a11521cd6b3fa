-- ===== src/EvmAccounts/Addresses.antt =====
-- The addresses and accounts that pallets/evm-accounts/src/lib.rs derives where no mapping is stored, and
-- the message that a claim signs.
use neuroweb.Prelude.{
  ℕ, Bool-cases, Option-cases, ◌⊎◌, none, some, inl, inr, ◌≡◌, ◌≢◌, ◌↔◌, sym, ap, List, ◌++◌,
  bytes_eq, bytes_eq_iff, bytes_instance, arith, take, drop, replicate, length, take-append,
  drop-append, take-all, take_append_drop, length-take, length-drop, drop-add,
}
use neuroweb.Storage.{get}
use neuroweb.EvmAccounts.{
  AccountId, EvmAddress, Config, Pallet, get_account_id, get_evm_address, padded_account,
  underlying_address, evm_prefix, evm_account_domain_separator, eip712_signable_message,
  evm_account_payload_hash,
}
use neuroweb.EvmAccounts.Mapping.{IsInverse}

underlying_address-padded_account :
    (a : EvmAddress) → length a ≡ 20 → underlying_address (padded_account a) ≡ some a
underlying_address-padded_account a h =
    let whole : take 20 a ≡ a = take-all 20 a (omega arith) in
    let front : take 20 (a ++ replicate 8 0) ≡ a = take-append 20 a (replicate 8 0) h in
    rw (whole, front)

split_account : (who : AccountId) → take 4 who ++ (take 20 (drop 4 who) ++ drop 24 who) ≡ who
split_account who = cc (take_append_drop 4 who, take_append_drop 20 (drop 4 who), drop-add 4 20 who)

underlying_address-inversion :
    (who : AccountId) (a : EvmAddress)
    → underlying_address who ≡ some a
    → (take 4 who ≡ evm_prefix) × (take 20 (drop 4 who) ≡ a)
underlying_address-inversion who a h = ground (arith, bytes_eq_iff (take 4 who) evm_prefix)

-- An account with the prefix is the padded account of the address inside it exactly if it ends in zeros.
padded_account_iff :
    (who : AccountId) (a : EvmAddress)
    → length who ≡ 32
    → underlying_address who ≡ some a
    → (padded_account a ≡ who) ↔ (drop 24 who ≡ replicate 8 0)
padded_account_iff who a h e =
    let (prefix, inside) = underlying_address-inversion who a e in
    let size : length a ≡ 20 =
      omega (arith, ap length inside, length-take 20 (drop 4 who), length-drop 4 who) in
    let whole : take 20 a ≡ a = take-all 20 a (omega arith) in
    let front : (x : List ℕ) → drop 20 (a ++ x) ≡ x = λ x. drop-append 20 a x size in
    (
      λ same. sym (cc (whole, front (replicate 8 0))),
      λ zeros. cc (split_account who, prefix, inside, zeros, whole),
    )

module _ {W : Type 0} where
  -- Every address of 20 bytes is the address of its account, claimed or not, if its padded account
  -- is not itself mapped and the two maps are inverse to one another.
  pub get_evm_address-get_account_id :
      (a : EvmAddress) (s : Pallet W)
      → IsInverse s
      → length a ≡ 20
      → get (padded_account a) s.evm_addresses ≡ none
      → get_evm_address (get_account_id a s) s ≡ some a
  unfolding get_account_id get_evm_address
  get_evm_address-get_account_id a s c h free = elim (Option-cases (get a s.accounts)) [
    | inl unclaimed ↦ ground (arith, underlying_address-padded_account a h)
    | inr (who, claimed) ↦ ground (arith, c.forward a who claimed)
  ]

  -- The account of an unmapped account's address, which no account has claimed, is that account of
  -- 32 bytes exactly if its last eight bytes are zeros.
  pub get_account_id-get_evm_address :
      (who : AccountId) (a : EvmAddress) (s : Pallet W)
      → length who ≡ 32
      → get who s.evm_addresses ≡ none
      → get a s.accounts ≡ none
      → get_evm_address who s ≡ some a
      → (get_account_id a s ≡ who) ↔ (drop 24 who ≡ replicate 8 0)
  unfolding get_account_id get_evm_address
  get_account_id-get_evm_address who a s h hw ha e =
      let inside : underlying_address who ≡ some a = ground arith in
      ground (arith, padded_account_iff who a h inside)

-- The text whose hash is `evm_account_payload_hash`.
abbrev pub payload : {W : Type 0} → Config W → AccountId → List ℕ
payload cfg who = cfg.keccak_256 cfg.transaction_type ++ cfg.keccak_256 (cfg.encode who)

module _ {W : Type 0} (cfg : Config W)
    (length-keccak_256 : (m : List ℕ) → length (cfg.keccak_256 m) ≡ 32) where
  -- Two different texts with the same hash.
  abbrev pub Collides : List ℕ → List ℕ → Type 0
  Collides m n = (m ≢ n) × (cfg.keccak_256 m ≡ cfg.keccak_256 n)

  keccak_256-cases : (m n : List ℕ) → cfg.keccak_256 m ≡ cfg.keccak_256 n → (m ≡ n) ⊎ Collides m n
  keccak_256-cases m n h = elim (Bool-cases (bytes_eq m n)) [
    | inl same ↦ inl (ground (arith, bytes_eq_iff m n))
    | inr distinct ↦ inr ((λ e. ground (arith, bytes_eq_iff m n)), h)
  ]

  append-cancel : (n : ℕ) (a b x y : List ℕ) → length a ≡ n → length b ≡ n → a ++ x ≡ b ++ y → x ≡ y
  append-cancel n a b x y ha hb e = cc (drop-append n a x ha, drop-append n b y hb)

  -- If the messages of two different accounts, with different encodings, have the same hash, then
  -- the two messages, or the two texts in them, or the two encodings are different and have the
  -- same hash: only such a collision of keccak, whose hashes have 32 bytes, lets two accounts sign
  -- the same hash.
  pub eip712_signable_message-injective :
      (who w : AccountId)
      → (cfg.encode who ≡ cfg.encode w → who ≡ w)
      → cfg.keccak_256 (eip712_signable_message cfg who)
        ≡ cfg.keccak_256 (eip712_signable_message cfg w)
      → (who ≡ w)
        ⊎ (Collides (eip712_signable_message cfg who) (eip712_signable_message cfg w)
            ⊎ (Collides (payload cfg who) (payload cfg w)
                ⊎ Collides (cfg.encode who) (cfg.encode w)))
  unfolding eip712_signable_message evm_account_payload_hash evm_account_domain_separator
  eip712_signable_message-injective who w injective h =
      let same_domain =
        append-cancel 32 (evm_account_domain_separator cfg) (evm_account_domain_separator cfg)
          (cfg.keccak_256 (payload cfg who)) (cfg.keccak_256 (payload cfg w)) (length-keccak_256 _)
          (length-keccak_256 _) in
      let same_type =
        append-cancel 32 (cfg.keccak_256 cfg.transaction_type) (cfg.keccak_256 cfg.transaction_type)
          (cfg.keccak_256 (cfg.encode who)) (cfg.keccak_256 (cfg.encode w)) (length-keccak_256 _)
          (length-keccak_256 _) in
      elim (keccak_256-cases (eip712_signable_message cfg who) (eip712_signable_message cfg w) h) [
        | inr collision ↦ inr (inl collision)
        | inl e ↦
            elim (keccak_256-cases (payload cfg who) (payload cfg w)
              (same_domain (ap (drop 2) e))) [
                | inr collision ↦ inr (inr (inl collision))
                | inl e' ↦ elim (keccak_256-cases (cfg.encode who) (cfg.encode w) (same_type e')) [
                  | inr collision ↦ inr (inr (inr collision))
                  | inl same ↦ inl (injective same)
                ]
              ]
      ]
