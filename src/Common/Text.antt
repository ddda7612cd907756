-- ===== src/Common/Text.antt =====
-- `strings.Contains`, over the native texts.
use Prim.Native.String.{String, [], ◌∷◌, ◌++◌}
use Prim.Native.Nat.{ℕ, suc}
use mathlib.Core.Path.{◌≡◌}
use mathlib.Core.Bool.{Bool, true, ◌||◌}
use mathlib.Core.Logic.{inl, inr}
use text.Mathlib.Text.{starts_with, ◌==◌}
use text.Mathlib.TextLemmas.{nil-append, cons-append}
use flowify_workflows_server.Common.Tests.{Bool-cases, if◌then◌else◌}

unfoldable pub has_substring : String → String → Bool
has_substring [] part = part == ""
has_substring (c ∷ s) part = starts_with (c ∷ s) part || has_substring s part

-- `strings.Count`, of a text of one character.
unfoldable pub count_of : String → String → ℕ
count_of [] part = 0
count_of (c ∷ s) part =
    let rest = count_of s part in if starts_with (c ∷ s) part then suc rest else rest

-- What a text contains stays in it when text is put in front.
pub has_substring-append :
    (s t part : String) → has_substring t part ≡ true → has_substring (s ++ t) part ≡ true
unfolding has_substring
has_substring-append [] t part h = rw nil-append h
has_substring-append (c ∷ s) t part h =
    rw cons-append (elim (Bool-cases (starts_with (c ∷ (s ++ t)) part)) [
      | inl now ↦ rw now
      | inr later ↦ rw later (has_substring-append s t part h)
    ])
