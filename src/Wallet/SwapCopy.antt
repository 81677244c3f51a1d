-- ===== src/Wallet/SwapCopy.antt =====
-- What the Exchange app's parameters leave in the app (`swap_copy_transaction_parameters`,
-- src/swap/handle_swap_sign_transaction.c).
use zknox_hw_falcon.Common.{
  ℕ, zero, suc, ◌+◌, ◌*◌, ◌≤◌, ◌<◌, ◌≡◌, ◌≢◌, ◌↔◌, ap, ap₂, sym, ◌∙◌, [], ◌∷◌, get_or, arith, ◌⊎◌,
  inl, inr, refl, Bytes, map, Option, some, none, true, false, ◌==◌, ==_iff, length, Bool-cases,
  Option-cases,
}
use zknox_hw_falcon.Wallet.State.{App, SwapValidated, zero_context, zero_dynamic_token}
use zknox_hw_falcon.Wallet.Sdk.{Sdk}
use zknox_hw_falcon.Wallet.Swap.{
  CreateTransactionParameters, upper, config_of, validated, swap_parameters,
  swap_copy_transaction_parameters,
}

-- The upper-case character of a character.
abbrev pub IsUpper : ℕ → ℕ → Type 0
IsUpper c u = ((97 ≤ c) × (c ≤ 122) × (u + 32 ≡ c)) ⊎ (((c < 97) ⊎ (122 < c)) × (u ≡ c))

-- A coin configuration says the ticker and the decimals; without one they are those of BOL.
abbrev pub IsConfigured : Sdk → Option Bytes → Bytes → ℕ → Type 0
IsConfigured s o ticker decimals =
    ((o ≡ none) × (ticker ≡ 66 ∷ 79 ∷ 76 ∷ []) × (decimals ≡ 3))
    ⊎ ((config : Bytes) × (o ≡ some config)
        × (s.swap_parse_config config ≡ some (ticker, decimals)))

-- The parameters are complete, and `v` holds their values.
pub record IsStored (s : Sdk) (p : CreateTransactionParameters) (v : SwapValidated) : Type 0 where
  pub destination : Bytes
  pub has_destination : p.destination_address ≡ some destination
  pub is_address : length destination ≡ 40
  pub amount : Bytes
  pub has_amount : p.amount ≡ some amount
  pub amount_value : s.swap_str_to_u64 amount ≡ some v.amount
  pub has_fee : s.swap_str_to_u64 p.fee_amount ≡ some v.fee
  pub has_config : IsConfigured s p.coin_configuration v.ticker v.decimals
  pub recipient_size : length v.recipient ≡ 40
  pub in_upper_case : (i : ℕ) → i < 40 → IsUpper (get_or destination i 0) (get_or v.recipient i 0)
  pub is_initialized : v.initialized ≡ true

upper-IsUpper : (c : ℕ) → IsUpper c (upper c)
unfolding upper
upper-IsUpper c = ground arith

map-upper-IsUpper :
    (xs : Bytes) (i : ℕ) → i < length xs → IsUpper (get_or xs i 0) (get_or (map upper xs) i 0)
map-upper-IsUpper [] i h = absurd (omega arith)
map-upper-IsUpper (x ∷ xs) zero h = upper-IsUpper x
map-upper-IsUpper (x ∷ xs) (suc i) h = map-upper-IsUpper xs i (omega arith)

length-map-upper : (xs : Bytes) → length (map upper xs) ≡ length xs
length-map-upper [] = refl
length-map-upper (x ∷ xs) = ap suc (length-map-upper xs)

config_of-IsConfigured :
    (s : Sdk) (o : Option Bytes) (ticker : Bytes) (decimals : ℕ)
    → (config_of s o ≡ some (ticker, decimals)) ↔ IsConfigured s o ticker decimals
unfolding config_of
config_of-IsConfigured s none ticker decimals = (
  λ h. inl (refl, cc, cc),
  λ h. elim h [
    | inl (e, t, d) ↦ ap₂ (λ (x : Bytes) (y : ℕ). some (x, y)) (sym t) (sym d)
    | inr (config, e, f) ↦ absurd cc
  ],
)
config_of-IsConfigured s (some config) ticker decimals = (
  λ h. inr (config, refl, h),
  λ h. elim h [
    | inl (e, t, d) ↦ absurd cc
    | inr (other, e, f) ↦ let same : config ≡ other = cc in rw same f
  ],
)

validated_lem :
    (destination : Bytes) (config : Option (Bytes × ℕ)) (amount fee : Option ℕ) (v : SwapValidated)
    → validated destination config amount fee ≡ some v
    → (config ≡ some (v.ticker, v.decimals))
      × (amount ≡ some v.amount)
      × (fee ≡ some v.fee)
      × (v.recipient ≡ map upper destination)
      × (v.initialized ≡ true)
unfolding validated
validated_lem destination none amount fee v h = absurd cc
validated_lem destination (some c) none fee v h = absurd cc
validated_lem destination (some c) (some a) none v h = absurd cc
validated_lem destination (some (t, d)) (some a) (some f) v h =
    let r : SwapValidated = record {
      initialized = true;
      amount = a;
      fee = f;
      recipient = map upper destination;
      decimals = d;
      ticker = t;
    } in
    let e : r ≡ v = cc in rw (← e) (refl, refl, refl, refl, refl)

stored_lem :
    (s : Sdk) (p : CreateTransactionParameters) (v : SwapValidated) (o o' : Option Bytes)
    → p.destination_address ≡ o
    → p.amount ≡ o'
    → swap_parameters s p ≡ some v
    → IsStored s p v
unfolding swap_parameters
stored_lem s p v none o' d m h = absurd (let e = rw d at h in cc)
stored_lem s p v (some destination) none d m h = absurd (let e = rw (d, m) at h in cc)
stored_lem s p v (some destination) (some amount) d m h =
    elim (Bool-cases (length destination == 20 * 2)) [
      | inr bad ↦ absurd (let e = rw (d, m, bad) at h in cc)
      | inl good ↦
          let w =
            validated_lem destination (config_of s p.coin_configuration) (s.swap_str_to_u64 amount)
              (s.swap_str_to_u64 p.fee_amount) v (rw (d, m, good) at h) in
          record {
            destination = destination;
            has_destination = d;
            is_address = (==_iff (length destination) 40).0 good;
            amount = amount;
            has_amount = m;
            amount_value = w.1;
            has_fee = w.2;
            has_config = (config_of-IsConfigured s p.coin_configuration v.ticker v.decimals).0 w.0;
            recipient_size =
                ap length w.3
                ∙ length-map-upper destination
                ∙ (==_iff (length destination) 40).0 good;
            in_upper_case = λ i h. rw (w.3) (
                map-upper-IsUpper destination i
                  (let e = (==_iff (length destination) 40).0 good in omega arith));
            is_initialized = w.4;
          }
    ]

-- Complete parameters are accepted.
complete_lem :
    (s : Sdk) (p : CreateTransactionParameters) (v : SwapValidated)
    → IsStored s p v
    → swap_parameters s p ≢ none
unfolding swap_parameters validated
complete_lem s p v h refused =
    let config =
      (config_of-IsConfigured s p.coin_configuration v.ticker v.decimals).1 h.has_config in
    let size = (==_iff (length h.destination) 40).1 h.is_address in
    let e =
      rw (h.has_destination, h.has_amount, size, config, h.amount_value, h.has_fee) at refused in
    cc

-- The parameters are accepted exactly if they are complete: a destination of 40 characters, an
-- amount and a fee that are numbers, and a coin configuration that can be read or none, which
-- stands for BOL with its three decimals. Then their values are what the transaction will be
-- checked against, with the letters of the recipient in upper case, and nothing of the context,
-- the provided token or the prepared answer of before is left. If not, nothing changes.
pub swap_copy_transaction_parameters-stores :
    (s : Sdk) (p : CreateTransactionParameters) (a : App)
    → let (ok, a') = swap_copy_transaction_parameters s p a in
      ((ok ≡ true)
        × IsStored s p a'.swap_validated
        × (a'.context ≡ zero_context)
        × (a'.dynamic_token ≡ zero_dynamic_token)
        × (a'.swap_response_ready ≡ false))
      ⊎ ((ok ≡ false) × (a' ≡ a) × ((v : SwapValidated) → ¬ IsStored s p v))
unfolding swap_copy_transaction_parameters
swap_copy_transaction_parameters-stores s p a = elim (Option-cases (swap_parameters s p)) [
  | inl refused ↦
      rw (swap_copy_transaction_parameters, refused)
        (inr (refl, refl, λ v h. complete_lem s p v h refused))
  | inr (v, taken) ↦
      rw (swap_copy_transaction_parameters, taken)
        (inl
          (refl, stored_lem s p v p.destination_address p.amount refl refl taken, refl, refl, refl))
]
