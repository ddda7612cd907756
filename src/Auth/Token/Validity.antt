-- ===== src/Auth/Token/Validity.antt =====
-- An authenticated user holds a token that is valid at the time of the request.
use mathlib.Core.Path.{subst₂}
use flowify_workflows_server.Common.{
  ℕ, ◌≤◌, ◌<◌, String, Bool, true, false, List, ◌==◌, string_eq, Option, none, some, In, ◌≡◌, ◌≢◌,
  sym, ◌∙◌, ◌↔◌, arith, eq_iff,
}
use flowify_workflows_server.Common.Result.{Result, ok, fail_if, >>=-eq-ok, wrap-eq-ok}
use flowify_workflows_server.Auth.Token.{
  TokenUser, new_token_user, ClaimChecks, valid, TokenParser, parse, bearer_token, split_space,
  Authenticator, authenticate,
}

-- A claim that is set to a time with the property.
abbrev pub SetTo : (ℕ → Type 0) → Option ℕ → Type 0
SetTo P none = ⊥
SetTo P (some t) = P t

-- What the JWT library documents of its comparisons, where the claim has to be set.
pub record IsJwt (checks : ClaimChecks) : Type 0 where
  pub expires :
      (claim : Option ℕ) (now : ℕ)
      → (checks.verify_expires_at claim now true ≡ true) ↔ SetTo (λ t. now < t) claim
  pub issued :
      (claim : Option ℕ) (now : ℕ)
      → (checks.verify_issued_at claim now true ≡ true) ↔ SetTo (λ t. t ≤ now) claim
  pub not_before :
      (claim : Option ℕ) (now : ℕ)
      → (checks.verify_not_before claim now true ≡ true) ↔ SetTo (λ t. t ≤ now) claim
  pub audience :
      (claim : List String) (expected : String)
      → expected ≢ ""
      → (checks.verify_audience claim expected true ≡ true) ↔ In expected claim

-- `ParseWithClaims` accepts no token whose claims the method `Valid` refuses, and neither way of
-- parsing changes what the server expects.
pub record IsParser (parser : TokenParser) : Type 0 where
  pub validates :
      (token : String) (t t' : TokenUser) (check : TokenUser → Result (Unit {0}))
      → parser.parse_with_claims token t check ≡ ok t'
      → check t' ≡ ok tt
  pub keeps_verified :
      (token : String) (t t' : TokenUser) (check : TokenUser → Result (Unit {0}))
      → parser.parse_with_claims token t check ≡ ok t'
      → (t'.expected_audience ≡ t.expected_audience) × (t'.expected_issuer ≡ t.expected_issuer)
  pub keeps_unverified :
      (token : String) (t t' : TokenUser)
      → parser.parse_unverified token t ≡ ok t'
      → (t'.expected_audience ≡ t.expected_audience) × (t'.expected_issuer ≡ t.expected_issuer)

-- The token is in its life-time at `now`, is meant for this audience and comes from this issuer.
pub record IsCurrent (now : ℕ) (audience issuer : String) (t : TokenUser) : Type 0 where
  pub unexpired : SetTo (λ e. now < e) t.expires_at
  pub issued : SetTo (λ i. i ≤ now) t.issued_at
  pub started : SetTo (λ n. n ≤ now) t.not_before
  pub addressed : In audience t.audience
  pub from : t.issuer ≡ issuer

module _ (checks : ClaimChecks) (jwt : IsJwt checks) (now : ℕ) where
  -- `Valid` accepts a token exactly when it is current, and all of its claims are set.
  pub valid_iff :
      (t : TokenUser)
      → t.expected_audience ≢ ""
      → (valid checks now t ≡ ok tt) ↔ IsCurrent now t.expected_audience t.expected_issuer t
  unfolding valid
  valid_iff t named = (
    λ e. record {
      unexpired = (jwt.expires t.expires_at now).0 (ground arith);
      issued = (jwt.issued t.issued_at now).0 (ground arith);
      started = (jwt.not_before t.not_before now).0 (ground arith);
      addressed = (jwt.audience t.audience t.expected_audience named).0 (ground arith);
      from = (eq_iff t.issuer t.expected_issuer).0 (ground arith);
    },
    λ c. rw (
      (jwt.expires t.expires_at now).1 c.unexpired,
      (jwt.issued t.issued_at now).1 c.issued,
      (jwt.not_before t.not_before now).1 c.started,
      (jwt.audience t.audience t.expected_audience named).1 c.addressed,
      (eq_iff t.issuer t.expected_issuer).1 c.from,
    ),
  )

  module _ (parser : TokenParser) (sound : IsParser parser) where
    parse-valid :
        (t t' : TokenUser) (token : String) (disabled : Bool)
        → parse checks parser now t token disabled ≡ ok t'
        → (valid checks now t' ≡ ok tt)
          × (t'.expected_audience ≡ t.expected_audience)
          × (t'.expected_issuer ≡ t.expected_issuer)
    unfolding parse
    parse-valid t t' token true e =
        let (u, decoded, rest) = >>=-eq-ok (parser.parse_unverified token t) _ e in
        let (done, checked, same) = >>=-eq-ok (valid checks now u) _ rest in
        let (a, i) = sound.keeps_unverified token t u decoded in ground (arith, checked, same, a, i)
    parse-valid t t' token false e =
        let (a, i) = sound.keeps_verified token t t' _ e in (sound.validates token t t' _ e, a, i)

    -- Whoever is authenticated, with the signature verified or not, holds a token that is in its
    -- life-time and names the audience and the issuer that the server is configured for.
    pub authenticate-IsCurrent :
        (a : Authenticator) (auth_str : String) (t : TokenUser)
        → a.audience ≢ ""
        → authenticate checks parser now a auth_str ≡ ok t
        → IsCurrent now a.audience a.issuer t
    unfolding authenticate
    authenticate-IsCurrent a auth_str t named e =
        let (_, _, given) = >>=-eq-ok (fail_if (auth_str == "") _) _ e in
        let (token, _, wrapped) = >>=-eq-ok (bearer_token (split_space auth_str)) _ given in
        let parsed =
          wrap-eq-ok _ (parse checks parser now _ token a.disable_verification) wrapped in
        let (checked, same_audience, same_issuer) =
          parse-valid (new_token_user a.audience a.issuer) t token a.disable_verification parsed in
        let current = (valid_iff t (λ empty. named (sym same_audience ∙ empty))).0 checked in
        subst₂ (λ audience issuer. IsCurrent now audience issuer t) same_audience same_issuer
          current
