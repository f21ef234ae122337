-- ===== src/Tokens/Validity.antt =====
-- access-token-service/src/rng.rs: a token that was generated is valid.
use Prim.Native.String.{◌++◌ as str_append, len}
use text.Mathlib.Text.{get?}
use text.Mathlib.TextLemmas.{append_assoc, append-nil, nil-append}
use text.Mathlib.TextPositions.{len-append, get?-append_middle}
use drogue_cloud.Base.{
  ℕ, ◌+◌, String, ◌≡◌, refl, sym, ◌∙◌, subst, true, ◌&&◌, some, ok, arith, string_eq, beq_refl, leb,
}
use drogue_cloud.Tokens.{
  Digests, prefix_length, key_length, range, serialize_token, generate_access_token, compare_crc,
  check_prefix, is_valid,
}

range-start : (s t : String) (n : ℕ) → len s ≡ n → range (str_append s t) 0 n ≡ ok s
unfolding range
range-start s t n e =
    let none_before : 0 + len s ≡ len s = omega arith in
    let at_start : get? (str_append s t) 0 (0 + len s) ≡ some s =
      rw nil-append at (get?-append_middle "" s t) in
    let here : get? (str_append s t) 0 (len s) ≡ some s = rw none_before at at_start in
    rw (← e, range, here) refl

range-end :
    (s t : String) (n : ℕ) → len s ≡ n → range (str_append s t) n (len (str_append s t)) ≡ ok t
unfolding range
range-end s t n e =
    let here : get? (str_append s t) (len s) (len s + len t) ≡ some t =
      rw append-nil at (get?-append_middle s t "") in
    rw (← e, len-append, range, here) refl

module _ (digests : Digests) where
  -- A generated token is valid, and its prefix is read from it.
  pub is_valid-generate_access_token :
      (letters key : String)
      → len letters ≡ prefix_length
      → len key ≡ key_length
      → let created = (generate_access_token digests letters key).0 in
        is_valid digests created.token ≡ ok (some created.prefix)
  unfolding generate_access_token serialize_token is_valid check_prefix compare_crc
  is_valid-generate_access_token letters key six thirty =
      let prefix = str_append "drg_" letters in
      let body = str_append prefix (str_append "_" key) in
      let crc = digests.base62 (digests.checksum body) in
      let token = str_append body crc in
      let prefix_len : len prefix ≡ 10 = ground (arith, len-append "drg_" letters, six) in
      let body_len : len body ≡ 41 =
        ground
          (arith, len-append prefix (str_append "_" key), len-append "_" key, prefix_len, thirty) in
      let token_len : len token ≡ 41 + len crc = ground (arith, len-append body crc, body_len) in
      let whole : token ≡ str_append prefix (str_append (str_append "_" key) crc) =
        append_assoc prefix (str_append "_" key) crc in
      let all : token
          ≡ str_append "drg_" (str_append letters (str_append (str_append "_" key) crc)) =
        whole ∙ append_assoc "drg_" letters (str_append (str_append "_" key) crc) in
      let first : range token 0 4 ≡ ok "drg_" =
        subst (λ t. range t 0 4 ≡ ok "drg_") (sym all)
          (range-start "drg_" (str_append letters (str_append (str_append "_" key) crc)) 4 refl) in
      let name : range token 0 10 ≡ ok prefix =
        subst (λ t. range t 0 10 ≡ ok prefix) (sym whole)
          (range-start prefix (str_append (str_append "_" key) crc) 10 prefix_len) in
      let long : (leb 41 (len token) && leb (len token) 47) ≡ true =
        ground (arith, token_len, digests.len-base62 body) in
      ground (
        arith,
        long,
        first,
        name,
        range-start body crc 41 body_len,
        range-end body crc 41 body_len,
        beq_refl crc,
      )
