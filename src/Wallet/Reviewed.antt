-- ===== src/Wallet/Reviewed.antt =====
-- What a review shows, and what an approval signs (src/handler/sign_tx.c,
-- src/ui/nbgl_display_transaction.c, src/ui/action/validate.c).
use Prim.Native.Nat.{bit_and}
use zknox_hw_falcon.Common.{
  ℕ, ◌+◌, ◌%◌, ◌^◌, ◌≡◌, ◌≢◌, ◌⊎◌, inl, inr, refl, ap, sym, ◌∙◌, List, drop, Bytes, [], ◌∷◌, ◌++◌,
  Option, some, none, Bool, true, false, ◌&&◌, ◌==◌, ==_iff, if◌then◌else◌, arith, take, bytes_eq,
  Bool-cases, Option-cases,
}
use zknox_hw_falcon.Common.Apdu.{Buffer, send_response, swo_success}
use zknox_hw_falcon.Wallet.State.{
  App, Transaction, TokenInfo, DynamicTokenInfo, ReviewItem, token_item, amount_item, to_item,
  ParserStatus, parsing_ok, nonce_parsing_error, to_parsing_error, value_parsing_error,
  memo_length_error, memo_parsing_error, memo_encoding_error, wrong_length_error,
  token_address_parsing_error, RequestType, confirm_address, confirm_transaction,
  confirm_token_transaction, confirm_blind_sign_hash, state_none, state_parsed, state_approved,
  Screen, transaction_screen, reviews,
}
use zknox_hw_falcon.Wallet.Sdk.{Sdk}
use zknox_hw_falcon.Wallet.Parse.{transaction_deserialize}
use zknox_hw_falcon.Wallet.Serialize.{bytes_at}
use zknox_hw_falcon.Wallet.Token.{get_token_info, ticker_text}
use zknox_hw_falcon.Wallet.TokenLookup.{known_tokens, first_for, entry_shown, get_token_info-first}
use zknox_hw_falcon.Wallet.Swap.{swap_check_validity}
use zknox_hw_falcon.Wallet.Review.{
  review_pairs, display_review, ui_display_transaction_bs_token_choice,
  ui_display_blind_signed_transaction, ui_display_transaction, ui_display_token_transaction,
  same_request, is_parsed, validate_transaction, crypto_sign_message, helper_send_response_sig,
}
use zknox_hw_falcon.Wallet.SignTx.{
  read_path, token_address_of, accumulate_transaction_data, init_transaction_context,
  process_transaction, hash_transaction, is_parsing_ok, ask_user, check_and_sign_swap_tx,
  finish_transaction, handler_sign_tx, string_at, blind_sign,
}

-- The buffer that the accumulated bytes are.
abbrev raw_buffer : App → Buffer
raw_buffer a = record {
  ptr = a.context.tx_info.raw_tx;
  size = a.context.tx_info.raw_tx_len;
  offset = 0;
}

-- The ticker and the decimals in the context are those of the first known token for the address in
-- the transaction.
abbrev pub IsKnown : App → Type 0
IsKnown a =
    let t = a.context.tx_info in
    (p : ℕ) × (t.transaction.token_address ≡ some p)
    × (some (ticker_text a.dynamic_token t.token_info.ticker, t.token_info.decimals)
        ≡ entry_shown (first_for (take 32 (drop p t.raw_tx)) (known_tokens a.dynamic_token)))

-- The context holds a parsed transaction and the hash of the same bytes, and its token.
pub record IsProcessed (s : Sdk) (is_token : Bool) (a : App) : Type 0 where
  pub parsed : a.context.state ≡ state_parsed
  pub before : Transaction
  pub from_raw :
      transaction_deserialize s (raw_buffer a) before is_token
      ≡ (parsing_ok, a.context.tx_info.transaction)
  pub hashed :
      a.context.tx_info.m_hash
      ≡ (s.keccak_256 (take a.context.tx_info.raw_tx_len a.context.tx_info.raw_tx)).1
  pub known : is_token ≡ true → IsKnown a

-- The bytes of the recipient: 20 from where the transaction points to.
abbrev pub recipient_of : Bytes → Option ℕ → Bytes
recipient_of raw none = []
recipient_of raw (some p) = take 20 (drop p raw)

-- The lines of a review: the amount with its unit and the recipient, and for a token its ticker
-- first. The buffers of the ticker and of the amount hold 9 and 29 characters.
abbrev pub lines : Bool → Bytes → Bytes → Bytes → List (ReviewItem × Bytes)
lines false ticker amount address =
    (amount_item, take 29 (amount ++ (32 ∷ 66 ∷ 79 ∷ 76 ∷ []))) ∷ (to_item, address) ∷ []
lines true ticker amount address =
    (token_item, take 9 ticker)
    ∷ (amount_item, take 29 (amount ++ (32 ∷ ticker)))
    ∷ (to_item, address)
    ∷ []

-- The screen shows the amount and the recipient of the transaction in the context, and for a token
-- its ticker.
pub record IsShown (s : Sdk) (is_token : Bool) (a : App) (screen : Screen) : Type 0 where
  pub amount : Bytes
  pub amount_text :
      s.format_fpu64
        (50 + s.max_ticker_size)
        a.context.tx_info.transaction.value
        (if is_token then a.context.tx_info.token_info.decimals else 3)
      ≡ some amount
  pub address : Bytes
  pub address_text :
      s.format_hex (recipient_of a.context.tx_info.raw_tx a.context.tx_info.transaction.to) 43
      ≡ some address
  pub blind : Bool
  pub shows :
      screen
      ≡ transaction_screen blind is_token (
          lines is_token
            (ticker_text a.dynamic_token a.context.tx_info.token_info.ticker)
            amount
            address)

review_pairs-lines :
    (a : App) (is_token : Bool) (amount address : Bytes)
    → review_pairs a is_token amount address
      ≡ lines is_token
          (ticker_text a.dynamic_token a.context.tx_info.token_info.ticker)
          amount
          address
unfolding review_pairs
review_pairs-lines a false amount address = refl
review_pairs-lines a true amount address = refl

bytes_at-recipient_of : (raw : Bytes) (o : Option ℕ) → bytes_at raw o 20 ≡ recipient_of raw o
unfolding bytes_at
bytes_at-recipient_of raw none = refl
bytes_at-recipient_of raw (some p) = refl

-- A lookup that succeeds leaves the first known token.
found_token :
    (d : DynamicTokenInfo) (raw : Bytes) (o : Option ℕ) (info : TokenInfo)
    → let looked = get_token_info d (token_address_of raw o) info in
      looked.0 ≡ true
      → (p : ℕ) × (o ≡ some p)
        × (some (ticker_text d looked.1.ticker, looked.1.decimals)
            ≡ entry_shown (first_for (take 32 (drop p raw)) (known_tokens d)))
unfolding get_token_info bytes_at
found_token d raw none info h = absurd cc
found_token d raw (some p) info h =
    let first = get_token_info-first d (take 32 (drop p raw)) info in
    (
      p,
      refl,
      sym (
            ap
              (λ (b : Bool).
                let x = get_token_info d (some (take 32 (drop p raw))) info in
                if b then some (ticker_text d x.1.ticker, x.1.decimals) else none)
              h)
          ∙ first,
    )

is_parsing_ok-true : (x : ParserStatus) → is_parsing_ok x ≡ true → x ≡ parsing_ok
is_parsing_ok-true parsing_ok h = refl
is_parsing_ok-true nonce_parsing_error h = absurd cc
is_parsing_ok-true to_parsing_error h = absurd cc
is_parsing_ok-true value_parsing_error h = absurd cc
is_parsing_ok-true memo_length_error h = absurd cc
is_parsing_ok-true memo_parsing_error h = absurd cc
is_parsing_ok-true memo_encoding_error h = absurd cc
is_parsing_ok-true wrong_length_error h = absurd cc
is_parsing_ok-true token_address_parsing_error h = absurd cc

and-left : (x y : Bool) → (x && y) ≡ true → x ≡ true
and-left true y h = refl
and-left false y h = h

display_review-inverts :
    (a : App) (blind is_token : Bool) (o o' : Option Bytes) (screen : Screen)
    → display_review a blind is_token o o' ≡ reviews screen
    → (amount : Bytes) × (o ≡ some amount)
      × ((address : Bytes) × (o' ≡ some address)
          × (screen ≡ transaction_screen blind is_token (review_pairs a is_token amount address)))
unfolding display_review
display_review-inverts a blind is_token none o' screen h = absurd cc
display_review-inverts a blind is_token (some x) none screen h = absurd cc
display_review-inverts a blind is_token (some x) (some y) screen h = (x, refl, (y, refl, cc))

module _ (s : Sdk) where
  shown_lem :
      (a : App) (blind is_token : Bool) (screen : Screen)
      → (ui_display_transaction_bs_token_choice s a blind is_token).1 ≡ reviews screen
      → ((ui_display_transaction_bs_token_choice s a blind is_token).0 ≡ a)
        × (same_request a.context.req_type
              (if is_token then confirm_token_transaction else confirm_transaction)
            ≡ true)
        × IsShown s is_token a screen
  unfolding ui_display_transaction_bs_token_choice
  shown_lem a blind is_token screen h =
      let expected = if is_token then confirm_token_transaction else confirm_transaction in
      elim (Bool-cases (same_request a.context.req_type expected && is_parsed a.context.state)) [
        | inr bad ↦ absurd (let e = rw bad at h in cc)
        | inl good ↦
            let t = a.context.tx_info in
            let inv =
              display_review-inverts a blind is_token
                (s.format_fpu64 (50 + s.max_ticker_size) t.transaction.value
                  (if is_token then t.token_info.decimals else 3))
                (s.format_hex (bytes_at t.raw_tx t.transaction.to 20) 43) screen (rw good at h) in
            rw good (
              refl,
              and-left (same_request a.context.req_type expected) (is_parsed a.context.state) good,
              record {
                amount = inv.0;
                amount_text = inv.1;
                address = inv.2.0;
                address_text =
                    ap (λ (b : Bytes). s.format_hex b 43)
                      (sym (bytes_at-recipient_of t.raw_tx t.transaction.to))
                    ∙ inv.2.1;
                blind = blind;
                shows =
                    inv.2.2
                    ∙ ap (transaction_screen blind is_token)
                        (review_pairs-lines a is_token inv.0 inv.2.0);
              },
            )
      ]

  hash_transaction-IsProcessed :
      (is_token : Bool) (a : App) (before : Transaction)
      → transaction_deserialize s (raw_buffer a) before is_token
        ≡ (parsing_ok, a.context.tx_info.transaction)
      → (is_token ≡ true → IsKnown a)
      → IsProcessed s is_token (hash_transaction s a).0
  unfolding hash_transaction
  hash_transaction-IsProcessed is_token a before h k = record {
    parsed = refl;
    before = before;
    from_raw = h;
    hashed = refl;
    known = k;
  }

  process_transaction-IsProcessed :
      (is_token : Bool) (a : App)
      → (process_transaction s is_token a).1 ≡ swo_success
      → IsProcessed s is_token (process_transaction s is_token a).0
  unfolding process_transaction
  process_transaction-IsProcessed false a h =
      let t = a.context.tx_info in
      let r = transaction_deserialize s (raw_buffer a) t.transaction false in
      elim (Bool-cases (is_parsing_ok r.0)) [
        | inr bad ↦ absurd (let e = rw bad at h in omega arith)
        | inl fine ↦
            let whole : r ≡ (parsing_ok, r.1) = ap (λ x. (x, r.1)) (is_parsing_ok-true r.0 fine) in
            rw fine (hash_transaction-IsProcessed false _ t.transaction whole (λ e. absurd cc))
      ]
  process_transaction-IsProcessed true a h =
      let t = a.context.tx_info in
      let r = transaction_deserialize s (raw_buffer a) t.transaction true in
      let looked =
        get_token_info a.dynamic_token (token_address_of t.raw_tx r.1.token_address) t.token_info in
      elim (Bool-cases (is_parsing_ok r.0)) [
        | inr bad ↦ absurd (let e = rw bad at h in omega arith)
        | inl fine ↦ elim (Bool-cases looked.0) [
          | inr missing ↦ absurd (let e = rw (fine, missing) at h in omega arith)
          | inl found ↦
              let whole : r ≡ (parsing_ok, r.1) =
                ap (λ x. (x, r.1)) (is_parsing_ok-true r.0 fine) in
              rw (fine, found)
                (hash_transaction-IsProcessed true _ t.transaction whole
                  (λ e. found_token a.dynamic_token t.raw_tx r.1.token_address t.token_info found))
        ]
      ]

  -- The request type stays as it is from the accumulated data to the review.
  process_transaction-req_type :
      (is_token : Bool) (a : App)
      → (process_transaction s is_token a).0.context.req_type ≡ a.context.req_type
  unfolding process_transaction hash_transaction
  process_transaction-req_type is_token a = ground arith

  accumulated_lem :
      (cdata : Buffer) (req_type : RequestType) (a : App)
      → (accumulate_transaction_data s cdata req_type a).1 ≡ swo_success
      → same_request (accumulate_transaction_data s cdata req_type a).0.context.req_type req_type
        ≡ true
  unfolding accumulate_transaction_data
  accumulated_lem cdata req_type a h = ground arith

  one_request :
      (x : RequestType)
      → same_request x confirm_token_transaction ≡ true
      → same_request x confirm_transaction ≡ true
      → ⊥
  one_request confirm_address h k = cc
  one_request confirm_transaction h k = cc
  one_request confirm_token_transaction h k = cc
  one_request confirm_blind_sign_hash h k = cc

  swap_shows_nothing : (a : App) (screen : Screen) → (check_and_sign_swap_tx s a).1 ≢ reviews screen
  unfolding check_and_sign_swap_tx
  swap_shows_nothing a screen h =
      let t = a.context.tx_info in
      let verdict =
        swap_check_validity s (record a { swap_response_ready = true }) t.transaction.value
          t.transaction.fee (bytes_at t.raw_tx t.transaction.to 20) t.token_info in
      elim (Bool-cases a.swap_response_ready) [
        | inl before ↦ let e = rw before at h in cc
        | inr first ↦ elim (Option-cases verdict) [
          | inl fine ↦ let e = rw (first, fine) at h in cc
          | inr (err, bad) ↦ let e = rw (first, bad) at h in cc
        ]
      ]

  ask_user-IsShown :
      (is_token : Bool) (a : App) (screen : Screen)
      → same_request a.context.req_type
          (if is_token then confirm_token_transaction else confirm_transaction)
        ≡ true
      → (ask_user s is_token a).1 ≡ reviews screen
      → ((ask_user s is_token a).0 ≡ a) × IsShown s is_token a screen
  unfolding ask_user ui_display_blind_signed_transaction ui_display_token_transaction
      ui_display_transaction
  ask_user-IsShown is_token a screen kind h =
      let t = a.context.tx_info in
      elim (Bool-cases a.called_from_swap) [
        | inl swap ↦ absurd (swap_shows_nothing a screen (simp swap at h))
        | inr direct ↦
            elim (Bool-cases (bytes_eq (string_at t.raw_tx t.transaction.memo) blind_sign)) [
              | inl blind ↦
                  simp (direct, blind) (blind_lem is_token kind (simp (direct, blind) at h))
              | inr clear ↦ simp (direct, clear) (clear_lem is_token (simp (direct, clear) at h))
            ]
      ]
    where
      blind_lem :
          (b : Bool)
          → same_request a.context.req_type
              (if b then confirm_token_transaction else confirm_transaction)
            ≡ true
          → (ui_display_transaction_bs_token_choice s a true false).1 ≡ reviews screen
          → ((ui_display_transaction_bs_token_choice s a true false).0 ≡ a) × IsShown s b a screen
      blind_lem false k e = let r = shown_lem a true false screen e in (r.0, r.2)
      blind_lem true k e =
          absurd (one_request a.context.req_type k (shown_lem a true false screen e).1)

      clear_lem :
          (b : Bool)
          → (if b
              then ui_display_transaction_bs_token_choice s a false true
              else ui_display_transaction_bs_token_choice s a false false).1
            ≡ reviews screen
          → ((if b
                then ui_display_transaction_bs_token_choice s a false true
                else ui_display_transaction_bs_token_choice s a false false).0
              ≡ a)
            × IsShown s b a screen
      clear_lem false e = let r = shown_lem a false false screen e in (r.0, r.2)
      clear_lem true e = let r = shown_lem a false true screen e in (r.0, r.2)

  finished_lem :
      (is_token : Bool) (a : App) (screen : Screen)
      → same_request a.context.req_type
          (if is_token then confirm_token_transaction else confirm_transaction)
        ≡ true
      → (finish_transaction s is_token a).1 ≡ reviews screen
      → IsProcessed s is_token (finish_transaction s is_token a).0
        × IsShown s is_token (finish_transaction s is_token a).0 screen
  unfolding finish_transaction
  finished_lem is_token a screen kind h =
      let p = process_transaction s is_token a in
      elim (Bool-cases (p.1 == swo_success)) [
        | inr bad ↦ absurd (elim (Bool-cases p.0.called_from_swap) [
          | inl swap ↦ let e = rw (bad, swap) at h in cc
          | inr direct ↦ let e = rw (bad, direct) at h in cc
        ])
        | inl fine ↦
            let kept = process_transaction-req_type is_token a in
            let asked = ask_user-IsShown is_token p.0 screen (rw kept kind) (rw fine at h) in
            rw (fine, asked.0)
              (
                process_transaction-IsProcessed is_token a ((==_iff p.1 swo_success).0 fine),
                asked.1,
              )
      ]

  -- A SIGN_TX or SIGN_TOKEN_TX that starts a review shows the amount and the recipient of the
  -- transaction that the accumulated bytes parse to and, for a token, the ticker and the decimals of
  -- the first known token for the address in that transaction, and holds the hash of exactly these
  -- bytes.
  pub handler_sign_tx-IsShown :
      (cdata : Buffer) (chunk : ℕ) (more is_token : Bool) (a : App) (screen : Screen)
      → (handler_sign_tx s cdata chunk more is_token a).1 ≡ reviews screen
      → let a' = (handler_sign_tx s cdata chunk more is_token a).0 in
        IsProcessed s is_token a' × IsShown s is_token a' screen
  unfolding handler_sign_tx init_transaction_context
  handler_sign_tx-IsShown cdata chunk more is_token a screen h =
      let req_type = if is_token then confirm_token_transaction else confirm_transaction in
      let acc = accumulate_transaction_data s cdata req_type a in
      elim (Bool-cases (chunk == 0)) [
        | inl first ↦ absurd (elim (Bool-cases (read_path s cdata req_type a).0) [
          | inl fine ↦ let e = rw (first, fine) at h in cc
          | inr bad ↦ let e = rw (first, bad) at h in cc
        ])
        | inr later ↦ elim (Bool-cases (acc.1 == swo_success)) [
          | inr bad ↦ absurd (let e = rw (later, bad) at h in cc)
          | inl fine ↦ elim (Bool-cases more) [
            | inl again ↦ absurd (let e = rw (later, fine, again) at h in cc)
            | inr last ↦
                rw (later, fine, last)
                  (finished_lem is_token acc.0 screen
                    (accumulated_lem cdata req_type a ((==_iff acc.1 swo_success).0 fine))
                    (rw (later, fine, last) at h))
          ]
        ]
      ]

  -- An approval that succeeds signs the hash in the context under the path in the context and
  -- returns that signature; one that fails, and a refusal, return no signature and leave the app
  -- in STATE_NONE.
  pub validate_transaction-signs :
      (a : App) (choice : Bool)
      → let g =
          s.ecdsa_sign a.context.bip32_path a.context.bip32_path_len a.context.tx_info.m_hash in
        let (a', r) = validate_transaction s a choice in
        ((choice ≡ true)
          × (g.error ≡ 0)
          × (a'.context.state ≡ state_approved)
          × (r
              ≡ send_response
                  (g.sig_len % 2 ^ 8
                    ∷ (take (g.sig_len % 2 ^ 8) g.signature
                        ++ (bit_and g.info s.eccinfo_parity_odd % 2 ^ 8 ∷ [])))
                  swo_success))
        ⊎ ((a'.context.state ≡ state_none) × (r.data_out ≡ []) × (r.sw ≢ swo_success))
  unfolding validate_transaction crypto_sign_message helper_send_response_sig
  validate_transaction-signs a false = inr (refl, refl, λ e. omega arith)
  validate_transaction-signs a true =
      let g = s.ecdsa_sign a.context.bip32_path a.context.bip32_path_len a.context.tx_info.m_hash in
      elim (Bool-cases (g.error == 0)) [
        | inl fine ↦ rw fine (inl (refl, (==_iff g.error 0).0 fine, refl, refl))
        | inr bad ↦ rw bad (inr (refl, refl, λ e. omega arith))
      ]
