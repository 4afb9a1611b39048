-- ===== src/Rfc3161/Laws.antt =====
-- When a token verifies.
use nexuscone.Prelude.{ℕ, ◌≡◌, sym, ◌∙◌, ap, ◌↔◌, true, not, some, ◌==◌}
use nexuscone.Text.{Text, Bytes, text_eq, text_eq_iff}
use nexuscone.Canonical.{Sha256}
use nexuscone.Exec.{ok, bad_url, tsa_http_failed, tsa_malformed, tsa_no_info, or_raise, raise_if}
use nexuscone.Exec.Inversion.{
  >>=-eq-ok, or_raise-eq-ok, raise_if-eq-ok, text_eq-true, not-false, ok-injective,
}
use nexuscone.Rfc3161.{
  Tsa, TstInfo, TimeStampResp, TsaResponse, is_granted, response_of, sha256_oid, submit_to_tsa,
  verify_tst,
}

-- A granted token over the SHA-256 of the digest.
pub record IsToken (tsa : Tsa) (h : Sha256) (tst_blob digest : Bytes) (info : TstInfo)
    : Type 0 where
  pub response : TimeStampResp
  pub decoded : tsa.decode_timestamp_response tst_blob ≡ some response
  pub granted : is_granted tsa response.status ≡ true
  pub informed : response.tst_info ≡ some info
  pub algorithm : info.hash_algorithm ≡ sha256_oid
  pub imprint : h.digest digest ≡ info.message

-- `verify_tst` returns exactly on a granted token whose imprint is the SHA-256 of the digest, and
-- returns what the token says.
pub verify_tst_iff :
    (tsa : Tsa) (h : Sha256) (tst_blob digest : Bytes) (url : Text) (r : TsaResponse)
    → (verify_tst tsa h tst_blob digest url ≡ ok r) ↔ (
        (info : TstInfo) × IsToken tsa h tst_blob digest info × (r ≡ response_of tst_blob url info))
unfolding verify_tst
verify_tst_iff tsa h tst_blob digest url r = (forward, backward)
  where
    forward :
        verify_tst tsa h tst_blob digest url ≡ ok r
        → (info : TstInfo) × IsToken tsa h tst_blob digest info
          × (r ≡ response_of tst_blob url info)
    forward e =
        let (response, e₁, f₁) =
          >>=-eq-ok (or_raise tsa_malformed (tsa.decode_timestamp_response tst_blob)) _ e in
        let (_, e₂, f₂) = >>=-eq-ok (raise_if (not (is_granted tsa response.status)) _) _ f₁ in
        let (info, e₃, f₃) = >>=-eq-ok (or_raise tsa_no_info response.tst_info) _ f₂ in
        let (_, e₄, f₄) =
          >>=-eq-ok (raise_if (not (text_eq info.hash_algorithm sha256_oid)) _) _ f₃ in
        let (_, e₅, f₅) =
          >>=-eq-ok (raise_if (not (text_eq (h.digest digest) info.message)) _) _ f₄ in
        (
          info,
          record {
            response = response;
            decoded = or_raise-eq-ok _ _ e₁;
            granted = not-false _ (raise_if-eq-ok _ _ e₂);
            informed = or_raise-eq-ok _ _ e₃;
            algorithm = text_eq-true _ _ (raise_if-eq-ok _ _ e₄);
            imprint = text_eq-true _ _ (raise_if-eq-ok _ _ e₅);
          },
          sym (ok-injective _ _ f₅),
        )

    backward :
        ((info : TstInfo) × IsToken tsa h tst_blob digest info
          × (r ≡ response_of tst_blob url info))
        → verify_tst tsa h tst_blob digest url ≡ ok r
    backward (info, t, same) = rw (
      t.decoded,
      t.granted,
      t.informed,
      (text_eq_iff info.hash_algorithm sha256_oid).1 t.algorithm,
      (text_eq_iff (h.digest digest) info.message).1 t.imprint,
      same,
    )

-- What `submit_to_tsa` returned is verified by `verify_tst` against the same digest, and returned
-- again, where the token that came back holds the SHA-256 of that digest.
pub verify_tst-submit_to_tsa :
    (tsa : Tsa) (h : Sha256) (n : ℕ) (digest : Bytes) (url : Text) (r : TsaResponse)
    → ((response : TimeStampResp) (info : TstInfo)
        → tsa.decode_timestamp_response r.tst_blob ≡ some response
        → response.tst_info ≡ some info
        → (info.hash_algorithm ≡ sha256_oid) × (h.digest digest ≡ info.message))
    → submit_to_tsa tsa n digest url ≡ ok r
    → verify_tst tsa h r.tst_blob digest url ≡ ok r
unfolding submit_to_tsa
verify_tst-submit_to_tsa tsa h n digest url r honest e =
    let (request, _, f₁) = >>=-eq-ok (or_raise (bad_url url) (tsa.request url digest)) _ e in
    let (answer, _, f₂) =
      >>=-eq-ok (or_raise (tsa_http_failed url) (tsa.urlopen n url request)) _ f₁ in
    let (_, _, f₃) = >>=-eq-ok (raise_if (not (answer.0 == 200)) _) _ f₂ in
    let (response, e₄, f₄) =
      >>=-eq-ok (or_raise tsa_malformed (tsa.decode_timestamp_response answer.1)) _ f₃ in
    let (_, e₅, f₅) = >>=-eq-ok (raise_if (not (is_granted tsa response.status)) _) _ f₄ in
    let (info, e₆, f₆) = >>=-eq-ok (or_raise tsa_no_info response.tst_info) _ f₅ in
    let same : response_of answer.1 url info ≡ r = ok-injective _ _ f₆ in
    let blob : answer.1 ≡ r.tst_blob = ap (λ (x : TsaResponse). x.tst_blob) same in
    let decoded = ap tsa.decode_timestamp_response (sym blob) ∙ or_raise-eq-ok _ _ e₄ in
    let informed = or_raise-eq-ok _ _ e₆ in
    let (algorithm, imprint) = honest response info decoded informed in
    (verify_tst_iff tsa h r.tst_blob digest url r).1 (
      info,
      record {
        response = response;
        decoded = decoded;
        granted = not-false _ (raise_if-eq-ok _ _ e₅);
        informed = informed;
        algorithm = algorithm;
        imprint = imprint;
      },
      sym same ∙ ap (λ b. response_of b url info) blob,
    )
