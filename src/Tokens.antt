-- ===== src/Tokens.antt =====
-- Access tokens: access-token-service/src/rng.rs (here) and service.rs (Tokens/Service). The random
-- letters, CRC-32, base 62 and SHA-3 are parameters; positions in a text are in bytes.
pub mod Validity
pub mod Service
pub mod Tests
use Prim.Native.String.{◌++◌ as str_append, len}
use text.Mathlib.Text.{get?}
use drogue_cloud.Base.{
  ℕ, ◌+◌, ◌≤◌, String, ◌≡◌, Bool, true, false, not, ◌&&◌, Option, none, some, Result, ok, err,
  if◌then◌else◌, string_eq, ◌==◌, leb, ◌>>=◌,
}

abbrev pub prefix_length : ℕ
prefix_length = 6

abbrev pub key_length : ℕ
key_length = 30

abbrev pub min_token_length : ℕ
min_token_length = 4 + prefix_length + 1 + key_length

abbrev pub max_token_length : ℕ
max_token_length = min_token_length + 6

-- The crates crc and base62, and the hash of a token. A checksum of 32 bits has six digits at most.
pub record Digests : Type 0 where
  pub checksum : String → ℕ
  pub base62 : ℕ → String
  pub hash_token : String → String
  pub len-base62 : (text : String) → len (base62 (checksum text)) ≤ 6

pub record AccessTokenCreated : Type 0 where
  pub prefix : String
  pub token : String

-- The range of a text, where a range that splits a character, or is out of the text, panics.
pub data Panic : Type 0 where
  not_a_boundary : Panic

unfoldable pub range : String → ℕ → ℕ → Result Panic String
range text from to = elim (get? text from to) [ none ↦ err not_a_boundary | some part ↦ ok part ]

module _ (digests : Digests) where
  unfoldable pub serialize_token : String → String → AccessTokenCreated × String
  serialize_token prefix key =
      let token = str_append prefix (str_append "_" key) in
      let token = str_append token (digests.base62 (digests.checksum token)) in
      (record { prefix = prefix; token = token }, digests.hash_token token)

  -- `generate_access_token`, given the letters that are drawn.
  unfoldable pub generate_access_token : String → String → AccessTokenCreated × String
  unfolding serialize_token
  generate_access_token letters key = serialize_token (str_append "drg_" letters) key

  -- The last two tests of `is_valid`: the checksum, and the prefix that is returned.
  unfoldable pub compare_crc : String → String → String → Result Panic (Option String)
  unfolding range
  compare_crc token key expected_crc =
      if not (expected_crc == digests.base62 (digests.checksum key))
      then ok none
      else do prefix ← range token 0 (prefix_length + 4); ok (some prefix)

  unfoldable pub check_prefix : String → String → Result Panic (Option String)
  unfolding range compare_crc
  check_prefix token prefix_1 = if not (prefix_1 == "drg_") then ok none else do
    key ← range token 0 min_token_length
    expected_crc ← range token min_token_length (len token)
    compare_crc token key expected_crc

  unfoldable pub is_valid : String → Result Panic (Option String)
  unfolding range check_prefix
  is_valid token =
      if not (leb min_token_length (len token) && leb (len token) max_token_length)
      then ok none
      else do prefix_1 ← range token 0 4; check_prefix token prefix_1
