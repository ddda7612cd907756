-- ===== src/Rest/Requests/Answers.antt =====
-- The codes of the responses of the handlers.
use flowify_workflows_server.Common.{ℕ, List, [], ◌∷◌, ◌≡◌, ◌≢◌, ap, sym, ◌∙◌}
use flowify_workflows_server.Common.Result.{some-injective}
use flowify_workflows_server.Rest.Requests.{Response, answer_with}

-- The code that the client gets: the first one that is written.
unfoldable pub code_of : List ℕ → ℕ
code_of [] = 0
code_of (code ∷ codes) = code

pub pair_of : {A B : Type 0} (r : A × B) {a : A} {b : B} → r.0 ≡ a → r.1 ≡ b → r ≡ (a, b)
pair_of r p q = λ i. (p i, q i)

pub answer_with-code :
    {B : Type 0} (n m : ℕ) (b : B) (r : Response B) → r.codes ≡ m ∷ [] → n ≢ m → answer_with n b ≢ r
unfolding code_of
answer_with-code n m b r codes differ e = differ (ap (λ x. code_of x.codes) e ∙ ap code_of codes)

pub answered_body : {B : Type 0} (n : ℕ) (b c : B) → answer_with n b ≡ answer_with n c → b ≡ c
answered_body n b c e = some-injective (ap (λ x. x.body) e)

-- There is exactly one response, with the code.
abbrev pub IsAnswer : {B : Type 0} → ℕ → Response B → Type 0
IsAnswer code r = r.codes ≡ code ∷ []

pub answers_differ :
    {B S : Type 0} (r r' : Response B) (s s' : S) (n m : ℕ)
    → IsAnswer n r
    → IsAnswer m r'
    → n ≢ m
    → ◌≡◌ {A = Response B × S} (r, s) (r', s')
    → ⊥
unfolding code_of
answers_differ r r' s s' n m is is' differ e =
    differ (sym (ap code_of is) ∙ ap (λ x. code_of x.0.codes) e ∙ ap code_of is')
