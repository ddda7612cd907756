-- ===== src/Auth/Token.antt =====
-- auth/azure_token.go: the validation of bearer tokens. The JWT library is a parameter: how it
-- compares each claim, and how it parses and verifies a token.
pub mod Validity
use Prim.Native.Char.{code}
use flowify_workflows_server.Common.{
  ℕ, ◌+◌, String, Bool, true, false, ◌&&◌, ◌||◌, not, List, [], ◌∷◌, ◌==◌, nat_eq, string_eq,
  Option, none, some, leb, if◌then◌else◌,
}
use flowify_workflows_server.Common.Result.{Result, ok, err, message, wrap, fail_if, ◌>>=◌, ◌>>◌}
use flowify_workflows_server.User.{Role, User}

-- The claims of a token, with times in seconds, and what the server expects of them.
pub record TokenUser : Type 0 where
  pub name : String
  pub email : String
  pub oid : String
  pub roles : List Role
  pub issuer : String
  pub audience : List String
  pub expires_at : Option ℕ
  pub issued_at : Option ℕ
  pub not_before : Option ℕ
  pub expected_audience : String
  pub expected_issuer : String

-- `NewAzureTokenUser`
abbrev pub new_token_user : String → String → TokenUser
new_token_user audience issuer = record {
  name = "";
  email = "";
  oid = "";
  roles = [];
  issuer = "";
  audience = [];
  expires_at = none;
  issued_at = none;
  not_before = none;
  expected_audience = audience;
  expected_issuer = issuer;
}

-- The methods by which a token is a `User`.
abbrev pub as_user : TokenUser → User
as_user t = record { uid = t.oid; name = t.name; email = t.email; roles = t.roles }

-- The comparisons of github.com/golang-jwt/jwt: the claim, the time or text to compare with, and
-- whether the claim has to be set.
pub record ClaimChecks : Type 0 where
  pub verify_expires_at : Option ℕ → ℕ → Bool → Bool
  pub verify_issued_at : Option ℕ → ℕ → Bool → Bool
  pub verify_not_before : Option ℕ → ℕ → Bool → Bool
  pub verify_audience : List String → String → Bool → Bool

-- The method `Valid`, at the time `now`.
unfoldable pub valid : ClaimChecks → ℕ → TokenUser → Result (Unit {0})
valid checks now t = do
  fail_if (not (checks.verify_expires_at t.expires_at now true)) (message "token expired")
  fail_if (not (checks.verify_issued_at t.issued_at now true)) (message "token not valid")
  fail_if (not (checks.verify_not_before t.not_before now true)) (message "token not yet valid")
  fail_if (not (checks.verify_audience t.audience t.expected_audience true))
      (message "invalid token `aud`")
  fail_if (not (t.issuer == t.expected_issuer)) (message "invalid token `iss`")
  ok tt

-- The parser: `parse_unverified` decodes the claims into the user that it is given, and
-- `parse_with_claims` also verifies the signature and calls the given method `Valid`.
pub record TokenParser : Type 0 where
  pub parse_unverified : String → TokenUser → Result TokenUser
  pub parse_with_claims : String → TokenUser → (TokenUser → Result (Unit {0})) → Result TokenUser

module _ (checks : ClaimChecks) (parser : TokenParser) (now : ℕ) where
  -- The method `Parse`: the user with the claims of the token.
  unfoldable pub parse : TokenUser → String → Bool → Result TokenUser
  parse t token disable_verification =
      if disable_verification
      then (parser.parse_unverified token t >>= λ t'. valid checks now t' >> ok t')
      else parser.parse_with_claims token t (valid checks now)

-- ASCII folding. `strings.EqualFold` folds no other character to a letter of "bearer".
fold : ℕ → ℕ
fold c = if leb b'A' c && leb c b'Z' then c + 32 else c

equal_fold : String → String → Bool
unfolding fold
equal_fold String.[] String.[] = true
equal_fold (String.◌∷◌ c s) (String.◌∷◌ d t) = fold (code c) == fold (code d) && equal_fold s t
equal_fold _ _ = false

push_front : Prim.Native.Char.Char → Option (String × String) → Option (String × String)
push_front c none = none
push_front c (some (first, rest)) = some (String.◌∷◌ c first, rest)

-- `strings.SplitN(s, " ", 2)`: the two parts, if there is a space.
split_space : String → Option (String × String)
unfolding push_front
split_space String.[] = none
split_space (String.◌∷◌ c s) =
    let rest = split_space s in if code c == b' ' then some (String.[], s) else push_front c rest

bearer_token : Option (String × String) → Result String
unfolding equal_fold
bearer_token none = err (message "bad Authorization header")
bearer_token (some (scheme, token)) =
    if equal_fold scheme "bearer" then ok token else err (message "bad Authorization header")

pub record Authenticator : Type 0 where
  pub audience : String
  pub issuer : String
  pub disable_verification : Bool

-- `AzureTokenAuthenticator.Authenticate`, of the header `Authorization`.
module _ (checks : ClaimChecks) (parser : TokenParser) (now : ℕ) where
  unfoldable pub authenticate : Authenticator → String → Result TokenUser
  unfolding bearer_token split_space parse
  authenticate a auth_str = do
    fail_if (auth_str == "") (message "no Authorization header given")
    token ← bearer_token (split_space auth_str)
    wrap "authentication error"
        (parse checks parser now (new_token_user a.audience a.issuer) token a.disable_verification)
