-- ===== src/Rest/Paging.antt =====
-- rest/components.go: the page that a request asks for, and the handler of the listings. `atoi` is
-- `strconv.Atoi`.
use mathlib.Core.Path.{subst}
use flowify_workflows_server.Common.{
  ◌⊎◌, ℕ, String, Bool, true, List, [], ◌∷◌, ◌==◌, string_eq, Option, none, some, if◌then◌else◌,
  ◌≡◌, sym, inl, inr, Bool-cases, arith,
}
use flowify_workflows_server.Common.Int.{ℤ, pos, negsuc, ltb_ℤ, ◌≤ℤ◌}
use flowify_workflows_server.Common.Result.{
  Result, ok, err, message, wrap, ◌>>=◌, ◌>>◌, fail_if, >>=-eq-ok, ok-injective, ok≢err,
}
use flowify_workflows_server.Models.Versions.{ComponentReference}
use flowify_workflows_server.Storage.Query.{Query}
use flowify_workflows_server.Storage.Listing.{Pagination, ListOf}

module _ (atoi : String → Result ℤ) where
  -- One of the two numbers: a default for the empty text, and no negative number.
  unfoldable pub number_or_default : String → ℤ → String → Result ℤ
  number_or_default failure d number =
      if number == ""
      then ok d
      else (wrap failure (atoi number) >>= λ n. fail_if (ltb_ℤ n (pos 0)) (message failure) >> ok n)

  unfoldable pub parse_pagination_or_default : String → String → Result Pagination
  unfolding number_or_default
  parse_pagination_or_default limit_string offset_string = do
    limit ←
        number_or_default "could not parse 'limit' query parameter into non-negative integer"
          (pos 10) limit_string
    offset ←
        number_or_default "could not parse 'offset' query parameter into non-negative integer"
          (pos 0) offset_string
    ok (record { limit = limit; skip = offset })

  -- The first value of a query parameter, or the empty text.
  abbrev pub first_or_empty : List String → String
  first_or_empty [] = ""
  first_or_empty (s ∷ strings) = s

  unfoldable pub parse_paginations_or_default : List String → List String → Result Pagination
  unfolding parse_pagination_or_default
  parse_paginations_or_default limits offsets =
      parse_pagination_or_default (first_or_empty limits) (first_or_empty offsets)

  abbrev pub list_response : {I : Type 0} → Result (ListOf I) → ℕ × Option (ListOf I)
  list_response (ok items) = (200, some items)
  list_response (err _) = (500, none)

  -- `list` is the call of the storage for the kind of documents.
  unfoldable pub component_like_list_handler :
      {I : Type 0}
      → (Pagination → List String → List String → Result (ListOf I))
      → (limits offsets filters sorts : List String) → ℕ × Option (ListOf I)
  unfolding parse_paginations_or_default
  component_like_list_handler list limits offsets filters sorts =
      elim (parse_paginations_or_default limits offsets) [
        | err _ ↦ (400, none)
        | ok pagination ↦ list_response (list pagination filters sorts)
      ]

  -- `id` is what `getIdFromMuxerPath` returns, and `list` the call of the storage.
  unfoldable component_version_like_list_handler :
      {I : Type 0}
      → (ComponentReference → Pagination → List String → Result (ListOf I))
      → Result ComponentReference
      → (limits offsets sorts : List String) → ℕ × Option (ListOf I)
  unfolding parse_paginations_or_default
  component_version_like_list_handler list id limits offsets sorts =
      elim (parse_paginations_or_default limits offsets) [
        | err _ ↦ (400, none)
        | ok pagination ↦ elim id [
          | err _ ↦ (400, none)
          | ok found ↦ list_response (list found pagination sorts)
        ]
      ]

  not_negative :
      (failure : String) (x : ℤ) → fail_if (ltb_ℤ x (pos 0)) (message failure) ≡ ok tt → pos 0 ≤ℤ x
  not_negative failure (pos n) e = omega arith
  not_negative failure (negsuc n) e =
      absurd (ok≢err (sym (subst (λ b. fail_if b (message failure) ≡ ok tt) (negative n) e)))
    where
      negative : (n : ℕ) → ltb_ℤ (negsuc n) (pos 0) ≡ true
      negative n = ground arith

  number_or_default-nonnegative :
      (failure number : String) (d n : ℤ)
      → pos 0 ≤ℤ d
      → number_or_default failure d number ≡ ok n
      → pos 0 ≤ℤ n
  unfolding number_or_default
  number_or_default-nonnegative failure number d n h e = elim (Bool-cases (number == "")) [
    | inl empty ↦ subst (λ x. pos 0 ≤ℤ x) (ok-injective (rw (number_or_default, empty) at e)) h
    | inr given ↦
        let (x, _, checked) =
          >>=-eq-ok (wrap failure (atoi number)) _ (rw (number_or_default, given) at e) in
        let (_, kept, same) =
          >>=-eq-ok (fail_if (ltb_ℤ x (pos 0)) (message failure)) (λ _. ok x) checked in
        subst (λ y. pos 0 ≤ℤ y) (ok-injective same) (not_negative failure x kept)
  ]

  -- The page that a request asks for has neither a negative limit nor a negative offset.
  pub parse_paginations_or_default-nonnegative :
      (limits offsets : List String) (p : Pagination)
      → parse_paginations_or_default limits offsets ≡ ok p
      → (pos 0 ≤ℤ p.limit) × (pos 0 ≤ℤ p.skip)
  unfolding parse_paginations_or_default parse_pagination_or_default
  parse_paginations_or_default-nonnegative limits offsets p e =
      let (l, e₁, rest) = >>=-eq-ok (number_or_default _ (pos 10) (first_or_empty limits)) _ e in
      let (o, e₂, same) = >>=-eq-ok (number_or_default _ (pos 0) (first_or_empty offsets)) _ rest in
      let is : record { limit = l; skip = o } ≡ p = ok-injective same in
      subst (λ (x : Pagination). (pos 0 ≤ℤ x.limit) × (pos 0 ≤ℤ x.skip)) is
        (
          number_or_default-nonnegative _ _ (pos 10) l (omega arith) e₁,
          number_or_default-nonnegative _ _ (pos 0) o (omega arith) e₂,
        )

  -- What a query parameter says: the number of its first text, and the default if there is no text.
  abbrev pub IsNumber : List String → ℤ → ℤ → Type 0
  IsNumber strings d n =
      ((first_or_empty strings ≡ "") × (n ≡ d))
      ⊎ (¬ (first_or_empty strings ≡ "") × (atoi (first_or_empty strings) ≡ ok n))
