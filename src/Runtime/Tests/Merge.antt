-- ===== src/Runtime/Tests/Merge.antt =====
-- A bank of balances, and the theorems on merges of runtime/src/lib.rs at it.
use neuroweb.Prelude.{
  ℕ, ◌+◌, ◌*◌, ◌-◌, ◌&&◌, inr, ◌≡◌, refl, some, [], ◌∷◌, ◌++◌, leb, nat_eq, nat_eq_iff, not, min,
  take, replicate, bytes_eq, bytes_eq_iff, if◌then◌else◌, arith, bytes_instance,
}
use neuroweb.Storage.{get, insert}
use neuroweb.Dispatch.{ok, err, bad_origin}
use neuroweb.EvmAccounts.{
  AccountId, EvmAddress, Config, Pallet, padded_account, claim_account_call,
  verify_eip712_signature, recover_signer, merge_padded, get_account_id, kill_accounts, map_account,
}
use neuroweb.Runtime.Weights.{existential_deposit, otp}
use neuroweb.Runtime.Merge.{Balances, IsCurrency, merge_account, wealth, claim_account-collects}

record Bank : Type 0 where
  pub free : AccountId → ℕ
  pub reserved : AccountId → ℕ

abbrev changed : (AccountId → ℕ) → AccountId → ℕ → AccountId → ℕ
changed f who n other = if bytes_eq other who then n else f other

abbrev bank_balances : Balances Bank
bank_balances = record {
  free_balance = λ who b. b.free who;
  reserved_balance = λ who b. b.reserved who;
  unreserve = λ who v b. record {
    free = changed b.free who (b.free who + min v (b.reserved who));
    reserved = changed b.reserved who (b.reserved who - v);
  };
  transfer = λ source dest v b.
      if nat_eq v 0
      then ok b
      else if leb v (b.free source) && leb existential_deposit (b.free dest + v + b.reserved dest)
      then ok (
          if leb (existential_deposit + v) (b.free source + b.reserved source)
          then record b {
            free = changed (changed b.free source (b.free source - v)) dest (b.free dest + v);
          }
          else record {
            free = changed (changed b.free source 0) dest (b.free dest + v);
            reserved = changed b.reserved source 0;
          })
      else err bad_origin;
}

bank-IsCurrency : IsCurrency bank_balances
bank-IsCurrency = record {
  unreserve_free = λ who v w alive h. ground (arith, bytes_eq_iff who who);
  unreserve_reserved = λ who v w alive h. ground (arith, bytes_eq_iff who who);
  unreserve_others = λ who other v w ne. ground (arith, bytes_eq_iff other who);
  transfer_covered = λ source dest v w w' e. ground arith;
  transfer_kept = λ source dest v w w' ne e enough.
      ground (arith, bytes_eq_iff source dest, bytes_eq_iff source source);
  transfer_reaped = λ source dest v w w' ne e pos little.
      ground (arith, bytes_eq_iff source dest, bytes_eq_iff source source);
  transfer_nothing = λ source dest w w' e. ground arith;
  transfer_given =
      λ source dest v w w' ne e. ground (arith, bytes_eq_iff dest source, bytes_eq_iff dest dest);
  transfer_others = λ source dest other v w w' os od e.
      ground (arith, bytes_eq_iff other source, bytes_eq_iff other dest);
}

abbrev alice : AccountId
alice = replicate 32 1

abbrev bob : AccountId
bob = replicate 32 2

abbrev bob_address : EvmAddress
bob_address = replicate 20 2

-- The padded account of the address has 30 and 12 OTP, Bob has 5 and Alice 8.
abbrev bank : Bank
bank = record {
  free =
      changed (changed (changed (λ who. 0) alice (8 * otp)) bob (5 * otp))
        (padded_account bob_address) (30 * otp);
  reserved = changed (λ who. 0) (padded_account bob_address) (12 * otp);
}

abbrev merged : Bank
merged =
    let source = padded_account bob_address in
    let free = changed bank.free source (42 * otp) in
    record {
      free = changed (changed free source 0) bob (47 * otp);
      reserved = changed (changed bank.reserved source 0) source 0;
    }

-- The hash is the first 32 bytes; a signature is the public key; who has something exists.
abbrev config : Config Bank
config = record {
  keccak_256 = λ m. take 32 (m ++ replicate 32 0);
  blake2_256 = λ m. replicate 32 9;
  encode = λ who. who;
  secp256k1_ecdsa_recover = λ sig hash. some sig;
  chain_id = 2043;
  genesis_hash = replicate 32 7;
  transaction_type = b'T' ∷ [];
  domain_type = b'E' ∷ [];
  claim_name = b'O' ∷ [];
  claim_version = b'1' ∷ [];
  account_exists = λ who b. not (nat_eq (wealth bank_balances who b) 0);
  merge_account = λ source dest b. err bad_origin;
}

abbrev pallet : Pallet Bank
pallet = record { accounts = []; evm_addresses = []; events = []; world = bank }

abbrev claimed : Pallet Bank
claimed = map_account bob_address bob (record pallet { world = merged })

claim_account-collects_example :
    (claimed.world.free bob ≡ 5 * otp + 42 * otp)
    × (wealth bank_balances (padded_account bob_address) claimed.world ≡ 0)
unfolding claim_account_call verify_eip712_signature recover_signer merge_padded get_account_id
    kill_accounts merge_account get insert
claim_account-collects_example =
    claim_account-collects bank_balances bank-IsCurrency config bob bob_address
      (replicate 12 0 ++ bob_address) pallet claimed
      (λ who b e. ground (arith, nat_eq_iff (wealth bank_balances who b) 0)) (λ e. ground arith)
      (inr (omega arith)) refl
