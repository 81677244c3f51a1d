-- ===== src/Wallet/SwapCheck.antt =====
-- When a swap's transaction is signed (src/swap/handle_swap_sign_transaction.c,
-- `check_and_sign_swap_tx` of src/handler/sign_tx.c).
use zknox_hw_falcon.Common.{
  ℕ, ◌≡◌, ◌↔◌, ◌⊎◌, inl, inr, refl, Bytes, some, none, Bool, arith, true, sym, [], ◌∷◌, ◌∙◌, false,
  ◌==◌, ==_iff, take, bytes_eq, bytes_eq_sound, bytes_eq_refl, Bool-cases, Option-cases,
}
use zknox_hw_falcon.Wallet.State.{
  App, TokenInfo, SwapValidated, Outcome, SwapEc, SwapErrorCode, exits, fails_swap,
}
use zknox_hw_falcon.Wallet.Sdk.{Sdk}
use zknox_hw_falcon.Wallet.Token.{ticker_text}
use zknox_hw_falcon.Wallet.Serialize.{bytes_at}
use zknox_hw_falcon.Wallet.Swap.{bol, is_token_swap, token_check, swap_check_validity, hex_text}
use zknox_hw_falcon.Wallet.Review.{validate_transaction, crypto_sign_message}
use zknox_hw_falcon.Wallet.SignTx.{check_and_sign_swap_tx}

-- The Exchange app had validated a payment of BOL, with its three decimals.
abbrev pub IsNative : SwapValidated → Type 0
IsNative v = (v.ticker ≡ 66 ∷ 79 ∷ 76 ∷ []) × (v.decimals ≡ 3)

-- The transaction is the one that the Exchange app had validated.
pub record IsPromised (s : Sdk) (a : App) (amount fee : ℕ) (destination : Bytes) (info : TokenInfo)
    : Type 0 where
  pub initialized : a.swap_validated.initialized ≡ true
  pub native_kind : a.context.tx_info.is_token_tx ≡ false → IsNative a.swap_validated
  pub token_kind : a.context.tx_info.is_token_tx ≡ true → ¬ IsNative a.swap_validated
  pub same_token :
      a.context.tx_info.is_token_tx ≡ true
      → (a.swap_validated.ticker ≡ ticker_text a.dynamic_token info.ticker)
        × (a.swap_validated.decimals ≡ info.decimals)
  pub same_amount : a.swap_validated.amount ≡ amount
  pub same_fee : a.swap_validated.fee ≡ fee
  pub same_destination :
      a.swap_validated.recipient ≡ hex_text (s.format_hex (take 20 destination) 41)

bytes_eq_iff : (x y : Bytes) → (bytes_eq x y ≡ true) ↔ (x ≡ y)
bytes_eq_iff x y = (bytes_eq_sound x y, λ e. rw e (bytes_eq_refl y))

is_token_swap_iff : (v : SwapValidated) → (is_token_swap v ≡ false) ↔ IsNative v
unfolding is_token_swap
is_token_swap_iff v =
    let t = bytes_eq_iff v.ticker bol in
    elim (Bool-cases (bytes_eq v.ticker bol)) [
      | inl same ↦ elim (Bool-cases (v.decimals == 3)) [
        | inl eq ↦ rw (same, eq) (λ h. (t.0 same, (==_iff _ _).0 eq), λ h. refl)
        | inr ne ↦ rw (same, ne) (λ h. absurd cc, λ h. absurd (let e = (==_iff _ _).1 h.1 in cc))
      ]
      | inr other ↦ rw other (λ h. absurd cc, λ h. absurd (let e = t.1 h.0 in cc))
    ]

-- The kind of the transaction is the one of the validated swap.
kind_iff :
    (b : Bool) (v : SwapValidated)
    → (b ≡ is_token_swap v) ↔ ((b ≡ false → IsNative v) × (b ≡ true → ¬ IsNative v))
kind_iff b v =
    let t = is_token_swap_iff v in
    (
      λ e. (λ h. t.0 (sym e ∙ h), λ h n. absurd (let f = t.1 n in cc)),
      λ k. elim (Bool-cases (is_token_swap v)) [
        | inr off ↦ elim (Bool-cases b) [
          | inl is_token ↦ absurd (k.1 is_token (t.0 off))
          | inr native ↦ native ∙ sym off
        ]
        | inl on ↦ elim (Bool-cases b) [
          | inl is_token ↦ is_token ∙ sym on
          | inr native ↦ absurd (let f = t.1 (k.0 native) in cc)
        ]
      ],
    )

token_check_iff :
    (a : App) (info : TokenInfo)
    → (token_check a info ≡ none) ↔ (
        (a.context.tx_info.is_token_tx ≡ is_token_swap a.swap_validated)
        × (a.context.tx_info.is_token_tx ≡ true
            → (a.swap_validated.ticker ≡ ticker_text a.dynamic_token info.ticker)
              × (a.swap_validated.decimals ≡ info.decimals)))
unfolding token_check
token_check_iff a info =
    let t = bytes_eq_iff a.swap_validated.ticker (ticker_text a.dynamic_token info.ticker) in
    elim (Bool-cases a.context.tx_info.is_token_tx) [
      | inl token ↦ elim (Bool-cases (is_token_swap a.swap_validated)) [
        | inl swap ↦
            rw (token, swap)
              (elim (Bool-cases
                (bytes_eq a.swap_validated.ticker (ticker_text a.dynamic_token info.ticker))) [
                  | inl same ↦ elim (Bool-cases (a.swap_validated.decimals == info.decimals)) [
                    | inl eq ↦
                        rw (same, eq) (λ h. (refl, λ e. (t.0 same, (==_iff _ _).0 eq)), λ h. refl)
                    | inr ne ↦
                        rw (same, ne)
                          (λ h. absurd cc, λ h. absurd (let e = (==_iff _ _).1 (h.1 refl).1 in cc))
                  ]
                  | inr other ↦
                      rw other (λ h. absurd cc, λ h. absurd (let e = t.1 (h.1 refl).0 in cc))
                ])
        | inr swap ↦ rw (token, swap) (λ h. absurd cc, λ h. absurd (let e = h.0 in cc))
      ]
      | inr token ↦ elim (Bool-cases (is_token_swap a.swap_validated)) [
        | inl swap ↦ rw (token, swap) (λ h. absurd cc, λ h. absurd (let e = h.0 in cc))
        | inr swap ↦ rw (token, swap) (λ h. (refl, λ e. absurd cc), λ h. refl)
      ]
    ]

-- The check passes exactly on the transaction that the Exchange app had validated.
pub swap_check_validity_iff :
    (s : Sdk) (a : App) (amount fee : ℕ) (destination : Bytes) (info : TokenInfo)
    → (swap_check_validity s a amount fee destination info ≡ none)
      ↔ IsPromised s a amount fee destination info
unfolding swap_check_validity
swap_check_validity_iff s a amount fee destination info = (
  λ h. elim (Bool-cases a.swap_validated.initialized) [
    | inr off ↦ absurd (let e = rw off at h in cc)
    | inl on ↦ elim (Option-cases (token_check a info)) [
      | inr (err, e) ↦ absurd (let f = rw (e, on) at h in cc)
      | inl checked ↦ elim (Bool-cases (a.swap_validated.amount == amount)) [
        | inr ne ↦ absurd (let f = rw (checked, on, ne) at h in cc)
        | inl amounts ↦ elim (Bool-cases (a.swap_validated.fee == fee)) [
          | inr ne ↦ absurd (let f = rw (checked, on, amounts, ne) at h in cc)
          | inl fees ↦
              elim (Bool-cases (
                bytes_eq a.swap_validated.recipient
                  (hex_text (s.format_hex (take 20 destination) 41)))) [
                    | inr ne ↦ absurd (let f = rw (checked, on, amounts, fees, ne) at h in cc)
                    | inl there ↦
                        let tokens = (token_check_iff a info).0 checked in
                        record {
                          initialized = on;
                          native_kind = ((kind_iff _ _).0 tokens.0).0;
                          token_kind = ((kind_iff _ _).0 tokens.0).1;
                          same_token = tokens.1;
                          same_amount = (==_iff a.swap_validated.amount amount).0 amounts;
                          same_fee = (==_iff a.swap_validated.fee fee).0 fees;
                          same_destination =
                              bytes_eq_sound a.swap_validated.recipient
                                (hex_text (s.format_hex (take 20 destination) 41)) there;
                        }
                  ]
        ]
      ]
    ]
  ],
  λ p.
      let checked =
        (token_check_iff a info).1 ((kind_iff _ _).1 (p.native_kind, p.token_kind), p.same_token) in
      let amounts = (==_iff a.swap_validated.amount amount).1 p.same_amount in
      let fees = (==_iff a.swap_validated.fee fee).1 p.same_fee in
      let there =
        (bytes_eq_iff a.swap_validated.recipient
            (hex_text (s.format_hex (take 20 destination) 41))).1
          p.same_destination in
      rw (checked, p.initialized, amounts, fees, there) refl,
)

signed_keeps :
    (s : Sdk) (a : App)
    → (validate_transaction s a true).0.swap_response_ready ≡ a.swap_response_ready
unfolding validate_transaction crypto_sign_message
signed_keeps s a = ground arith

-- The three ways a swap's transaction can end.
abbrev pub IsEnded : Sdk → App → App × Outcome → Type 0
IsEnded s a (a', o) =
    let t = a.context.tx_info in
    (a'.swap_response_ready ≡ true)
    × (((a.swap_response_ready ≡ true) × (o ≡ exits none))
        ⊎ ((a.swap_response_ready ≡ false)
            × (IsPromised s a t.transaction.value t.transaction.fee
                (bytes_at t.raw_tx t.transaction.to 20) t.token_info)
            × (o
                ≡ exits (
                    some
                      (validate_transaction s (record a { swap_response_ready = true }) true).1)))
        ⊎ ((a.swap_response_ready ≡ false)
            × ¬ (
                IsPromised s a t.transaction.value t.transaction.fee
                  (bytes_at t.raw_tx t.transaction.to 20) t.token_info)
            × ((e : SwapEc) × (code : SwapErrorCode) × (o ≡ fails_swap e code))))

-- Whatever happens, a swap's transaction ends the app and leaves the flag set that an answer was
-- prepared: nothing is answered if the flag was set before; else the answer is that of the approved
-- transaction if it is the promised one, and an error to the Exchange app if not.
pub check_and_sign_swap_tx-outcome : (s : Sdk) (a : App) → IsEnded s a (check_and_sign_swap_tx s a)
unfolding check_and_sign_swap_tx
check_and_sign_swap_tx-outcome s a =
    let t = a.context.tx_info in
    let a1 = record a { swap_response_ready = true } in
    let destination = bytes_at t.raw_tx t.transaction.to 20 in
    let iff =
      swap_check_validity_iff s a1 t.transaction.value t.transaction.fee destination t.token_info in
    elim (Bool-cases a.swap_response_ready) [
      | inl before ↦ rw before (refl, inl (refl, refl))
      | inr first ↦
          elim (Option-cases (
            swap_check_validity s a1 t.transaction.value t.transaction.fee destination
              t.token_info)) [
                | inl fine ↦
                    rw (first, fine)
                      (signed_keeps s a1, inr (inl (refl, promised (iff.0 fine), refl)))
                | inr (err, e) ↦
                    rw (first, e)
                      (
                        refl,
                        inr (
                            inr (
                              refl,
                              λ p. absurd (let f = iff.1 (made p) in cc),
                              (err.0, err.1, refl),
                            )),
                      )
              ]
    ]
  where
    promised :
        {s : Sdk} {a : App} {amount fee : ℕ} {destination : Bytes} {info : TokenInfo}
        → IsPromised s (record a { swap_response_ready = true }) amount fee destination info
        → IsPromised s a amount fee destination info
    promised p = record {
      initialized = p.initialized;
      native_kind = p.native_kind;
      token_kind = p.token_kind;
      same_token = p.same_token;
      same_amount = p.same_amount;
      same_fee = p.same_fee;
      same_destination = p.same_destination;
    }

    made :
        {s : Sdk} {a : App} {amount fee : ℕ} {destination : Bytes} {info : TokenInfo}
        → IsPromised s a amount fee destination info
        → IsPromised s (record a { swap_response_ready = true }) amount fee destination info
    made p = record {
      initialized = p.initialized;
      native_kind = p.native_kind;
      token_kind = p.token_kind;
      same_token = p.same_token;
      same_amount = p.same_amount;
      same_fee = p.same_fee;
      same_destination = p.same_destination;
    }
