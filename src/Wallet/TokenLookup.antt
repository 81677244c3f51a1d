-- ===== src/Wallet/TokenLookup.antt =====
-- What a token lookup finds, and what PROVIDE_TOKEN_INFO leaves (src/token/dynamic_token_info.c,
-- src/token/token_db.c, src/handler/provide_token_info.c).
use zknox_hw_falcon.Common.{
  ℕ, ◌≡◌, inl, inr, refl, Bytes, List, [], ◌∷◌, Option, some, none, Bool, ◌&&◌, if◌then◌else◌, take,
  bytes_eq, Bool-cases,
}
use zknox_hw_falcon.Common.Apdu.{Buffer}
use zknox_hw_falcon.Wallet.State.{TokenInfo, DynamicTokenInfo}
use zknox_hw_falcon.Wallet.Sdk.{Sdk}
use zknox_hw_falcon.Wallet.Token.{
  TokenEntry, tokens, get_token_info, get_dynamic_token_info, get_hardcoded_token_info, ticker_text,
  handle_tuid_token_address, validate_coin_type,
}

-- Every token that the device knows, the provided one first.
abbrev pub known_tokens : DynamicTokenInfo → List TokenEntry
known_tokens d =
    if d.received
    then record { address = d.address; ticker = d.ticker; decimals = d.decimals } ∷ tokens
    else tokens

-- The first entry for an address.
unfoldable pub first_for : Bytes → List TokenEntry → Option TokenEntry
first_for a [] = none
first_for a (e ∷ es) = if bytes_eq (take 32 a) e.address then some e else first_for a es

-- A lookup's result as the display reads it: the ticker's text and the decimals, if found.
abbrev pub shown : DynamicTokenInfo → Bool × TokenInfo → Option (Bytes × ℕ)
shown d (found, info) = if found then some (ticker_text d info.ticker, info.decimals) else none

abbrev pub entry_shown : Option TokenEntry → Option (Bytes × ℕ)
entry_shown none = none
entry_shown (some e) = some (e.ticker, e.decimals)

hardcoded_shown :
    (d : DynamicTokenInfo) (es : List TokenEntry) (a : Bytes) (info : TokenInfo)
    → shown d (get_hardcoded_token_info es a info) ≡ entry_shown (first_for a es)
unfolding get_hardcoded_token_info first_for ticker_text
hardcoded_shown d [] a info = refl
hardcoded_shown d (e ∷ es) a info = elim (Bool-cases (bytes_eq (take 32 a) e.address)) [
  | inl same ↦ rw same refl
  | inr other ↦ rw other (hardcoded_shown d es a info)
]

-- A lookup finds the first token for the address among the provided token, if there is one, and
-- the database, in this order, and the ticker and the decimals that it gives are that token's.
pub get_token_info-first :
    (d : DynamicTokenInfo) (a : Bytes) (info : TokenInfo)
    → shown d (get_token_info d (some a) info) ≡ entry_shown (first_for a (known_tokens d))
unfolding get_token_info get_dynamic_token_info first_for ticker_text
get_token_info-first d a info = elim (Bool-cases d.received) [
  | inr empty ↦ rw empty (hardcoded_shown d tokens a info)
  | inl held ↦ elim (Bool-cases (bytes_eq (take 32 a) d.address)) [
    | inl same ↦ rw (held, same) refl
    | inr other ↦ rw (held, other) (hardcoded_shown d tokens a info)
  ]
]

-- The tests that a descriptor has to pass.
abbrev pub is_accepted : Sdk → Buffer → Bool
is_accepted s cdata =
    let out = s.dynamic_descriptor cdata in
    let tuid = s.parse_tlv (handle_tuid_token_address s) out.tuid in
    out.success && validate_coin_type out.coin_type && tuid.accepted && tuid.has_address
