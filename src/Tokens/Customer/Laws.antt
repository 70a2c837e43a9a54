-- ===== src/Tokens/Customer/Laws.antt =====
-- pkg/jwt/customer.go: a kiosk session is read back from its token, and neither of the two kinds of
-- token is taken for the other.
use kfc_userapi.Prelude.{
  ℕ, ◌+◌, ◌*◌, ◌<◌, String, ◌==◌, eq_refl, ◌≡◌, ◌≢◌, refl, sym, ap, ◌∙◌, true, false, some,
}
use kfc_userapi.Prelude.Int.{ℤ, pos, ltb_ℤ, ◌+ℤ◌}
use kfc_userapi.Prelude.Options.{one_result}
use kfc_userapi.Domain.Errors.{GoError, wrap}
use kfc_userapi.Domain.Result.{Result, ok, err, ◌>>=◌, bind-eq-ok}
use kfc_userapi.Domain.Device.{CustomerClaims, KioskLoyaltyClaims}
use kfc_userapi.Trace.{map_error-eq-ok}
use kfc_userapi.Tokens.Claims.{
  text, Claims, lookup, Parsed, expired, refused, parsed, Jwt, IsJwt, checked_claims,
}
use kfc_userapi.Tokens.Customer.{
  aud_customer, aud_kiosk_loyalty, CustomerTokenManager, sign, parse, access_claims, issue_access,
  kiosk_claims, issue_kiosk_session, access_claims_of, verify_access, kiosk_claims_of,
  verify_kiosk_session,
}

checked_claims-eq-ok :
    (p : Parsed) (claims : Claims) → checked_claims p ≡ ok claims → p ≡ parsed claims
unfolding checked_claims
checked_claims-eq-ok expired claims h = cc
checked_claims-eq-ok refused claims h = cc
checked_claims-eq-ok (parsed found) claims h = cc

same_ok : {A : Type 0} {a b : A} → ok a ≡ ok b → a ≡ b
same_ok h = cc

err-not-ok : {A : Type 0} {e : GoError} {a : A} → err e ≡ ok a → ⊥
err-not-ok h = cc

module _ (jwt : Jwt) (law : IsJwt jwt) (m : CustomerTokenManager) where
  abbrev with_end : ℤ → jwt.Token → Result (jwt.Token × ℤ)
  with_end exp token = ok (token, exp)

  signed-eq-ok :
      (claims : Claims) (exp ends : ℤ) (token : jwt.Token)
      → (sign jwt m claims >>= with_end exp) ≡ with_end ends token
      → (jwt.sign m.secret claims ≡ ok token) × (exp ≡ ends)
  unfolding sign
  signed-eq-ok claims exp ends token h =
      let (t, signed, same) = bind-eq-ok (sign jwt m claims) (with_end exp) h in
      let there = map_error-eq-ok (wrap "sign customer token") (jwt.sign m.secret claims) signed in
      (rw (ap (λ x. x.0) (same_ok same)) at there, ap (λ x. x.1) (same_ok same))

  -- A token of one kind does not pass for one of another audience.
  foreign_audience :
      (claims found : Claims) (own other : String) (token : jwt.Token) (now : ℤ)
      → jwt.sign m.secret claims ≡ ok token
      → lookup "aud" claims ≡ some (text own)
      → (own == other) ≡ false
      → parse jwt m token other now ≢ ok found
  unfolding parse
  foreign_audience claims found own other token now signed mine apart h =
      let read =
        checked_claims-eq-ok (jwt.parse m.secret m.issuer (some other) now token) found h in
      let theirs = law.audience_is_checked m.secret m.issuer other now token found read in
      let same =
        law.signed_claims m.secret m.issuer (some other) now token claims found signed read in
      let equal = sym mine ∙ ap (lookup "aud") (sym same) ∙ theirs in
      cc (apart, eq_refl other, equal)

  verified-parsed :
      (r : Result Claims) (c : KioskLoyaltyClaims)
      → kiosk_claims_of jwt m r ≡ some (ok c)
      → (claims : Claims) × (r ≡ ok claims)
  verified-parsed (err e) c h = absurd (err-not-ok (one_result refl h))
  verified-parsed (ok claims) c h = (claims, refl)

  accessed-parsed :
      (r : Result Claims) (c : CustomerClaims)
      → access_claims_of jwt m r ≡ some (ok c)
      → (claims : Claims) × (r ≡ ok claims)
  accessed-parsed (err e) c h = absurd (err-not-ok (one_result refl h))
  accessed-parsed (ok claims) c h = (claims, refl)

-- With a library that keeps what its documentation says, and for ids that are read back as they
-- are, the token of a kiosk session is read back before the last whole second of its expiry as
-- that session: the same member, the same kiosk, and the expiry cut to whole seconds.
pub verify_kiosk_session-issue :
    (jwt : Jwt) (m : CustomerTokenManager) (member device : String) (now issued later : ℤ) (s r : ℕ)
    (token : jwt.Token)
    → IsJwt jwt
    → jwt.parse_uuid member ≡ some member
    → jwt.parse_uuid device ≡ some device
    → r < 1000000000
    → issue_kiosk_session jwt m member device now issued ≡ ok (token, pos (s * 1000000000 + r))
    → ltb_ℤ later (pos (s * 1000000000)) ≡ true
    → verify_kiosk_session jwt m token later
      ≡ some
          (ok record { member_id = member; device_id = device; expires_at = pos (s * 1000000000) })
unfolding issue_kiosk_session verify_kiosk_session parse checked_claims
verify_kiosk_session-issue jwt m member device now issued later s r token law mem dev small made
      alive =
    let ends = now +ℤ m.kiosk_ttl in
    let cut = law.cut_to_seconds s r small in
    let (signed, same) =
      signed-eq-ok jwt law m (kiosk_claims jwt m member device issued ends) ends
        (pos (s * 1000000000 + r)) token made in
    let read =
      law.signed_is_parsed m.secret m.issuer aud_kiosk_loyalty later (jwt.unix ends)
        (kiosk_claims jwt m member device issued ends) token signed refl refl refl refl
        (rw (same, cut) alive) in
    rw (read, mem, dev, same, cut) refl

-- With a library that keeps what its documentation says, an access token is never verified as a
-- kiosk session, and a kiosk session never as an access token.
pub audiences_apart :
    (jwt : Jwt) (m : CustomerTokenManager) (member token_id device : String) (now issued later : ℤ)
    (access session : jwt.Token × ℤ) (kiosk : KioskLoyaltyClaims) (customer : CustomerClaims)
    → IsJwt jwt
    → issue_access jwt m token_id member now issued ≡ ok access
    → issue_kiosk_session jwt m member device now issued ≡ ok session
    → (verify_kiosk_session jwt m access.0 later ≢ some (ok kiosk))
      × (verify_access jwt m session.0 later ≢ some (ok customer))
unfolding issue_access issue_kiosk_session verify_kiosk_session verify_access
audiences_apart jwt m member token_id device now issued later access session kiosk customer law a
      k =
    let ends_a = now +ℤ m.access_ttl in
    let ends_k = now +ℤ m.kiosk_ttl in
    let claims_a = access_claims jwt m member token_id issued ends_a in
    let claims_k = kiosk_claims jwt m member device issued ends_k in
    let (signed_a, _) = signed-eq-ok jwt law m claims_a ends_a access.1 access.0 a in
    let (signed_k, _) = signed-eq-ok jwt law m claims_k ends_k session.1 session.0 k in
    (
      λ h.
          let (found, read) =
            verified-parsed jwt law m (parse jwt m access.0 aud_kiosk_loyalty later) kiosk h in
          foreign_audience jwt law m claims_a found aud_customer aud_kiosk_loyalty access.0 later
            signed_a refl refl read,
      λ h.
          let (found, read) =
            accessed-parsed jwt law m (parse jwt m session.0 aud_customer later) customer h in
          foreign_audience jwt law m claims_k found aud_kiosk_loyalty aud_customer session.0 later
            signed_k refl refl read,
    )
