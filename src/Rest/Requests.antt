-- ===== src/Rest/Requests.antt =====
-- rest/components.go: what the handlers of documents share, the variables of the path and the
-- metadata of a new or a changed document.
pub mod Answers
pub mod New
use flowify_workflows_server.Common.{
  ℕ, String, Bool, not, List, [], ◌∷◌, Option, none, some, if◌then◌else◌,
}
use flowify_workflows_server.Common.Int.{ℤ, pos, negsuc, ltb_ℤ}
use flowify_workflows_server.Common.Result.{
  Result, ok, err, Error, message, wrap, wrapped, fail_if, ◌>>=◌, ◌>>◌,
}
use flowify_workflows_server.Models.{Metadata, Time}
use flowify_workflows_server.Models.Versions.{
  ComponentReference, VersionNumber, is_zero, initialize_new,
}
use flowify_workflows_server.Storage.Access.{Context}

-- The codes that a handler writes, in their order, and the object that it writes last, if any.
-- After a panic there is no response: the list is empty.
pub record Response (B : Type 0) : Type 0 where
  pub codes : List ℕ
  pub body : Option B

abbrev pub answer : {B : Type 0} → ℕ → Response B
answer code = record { codes = code ∷ []; body = none }

abbrev pub answer_with : {B : Type 0} → ℕ → B → Response B
answer_with code b = record { codes = code ∷ []; body = some b }

abbrev pub panics : {B : Type 0} → Response B
panics = record { codes = []; body = none }

-- `mux.Vars`
pub record Route : Type 0 where
  pub id : Option String
  pub version : Option String

-- `uuid.Parse` and `strconv.Atoi`
pub record Parsers : Type 0 where
  pub parse_uuid : String → Result ComponentReference
  pub atoi : String → Result ℤ

module _ (parsers : Parsers) where
  unfoldable pub get_id_from_muxer_path : Route → Result ComponentReference
  get_id_from_muxer_path route = elim route.id [
    | none ↦ err (message "no {id} parameter in component query")
    | some text ↦ wrap "error parsing id parameter" (parsers.parse_uuid text)
  ]

  -- The number and the error that the code returns next to it.
  unfoldable pub get_version_no_from_muxer_path : Route → VersionNumber × Option Error
  get_version_no_from_muxer_path route = elim route.version [
    | none ↦ (negsuc 0, some (message "no {version} parameter in component query"))
    | some text ↦ elim (parsers.atoi text) [
      | err e ↦ (negsuc 1, some (wrapped "error parsing version parameter" e))
      | ok n ↦ (n, none)
    ]
  ]

-- `err.Error()` of a version -2: there is no error when the path has this number.
abbrev pub bad_version : {B : Type 0} → Option Error → Response B
bad_version (some e) = answer 400
bad_version none = panics

-- `now` is the time in milliseconds. The middleware has put a user into the context.
abbrev pub touch_metadata : Context → Time → Metadata → Metadata
touch_metadata ctx now meta = record meta {
  modified_by = record { oid = ctx.user.uid; email = ctx.user.email };
  timestamp = now;
}

-- `id` is the new reference.
unfoldable pub initialize_metadata :
    Context → ComponentReference → Time → Metadata → Result Metadata
initialize_metadata ctx id now meta =
    if not (is_zero meta.uid)
    then err (message "cannot initialize Metadata when uid is set")
    else (initialize_new meta.version >>= λ v.
        ok (touch_metadata ctx now (record meta { uid = id; version = v })))

-- `errors.Unwrap` takes the stack trace off a wrapped error, and leaves its message.
abbrev pub unwrap : Error → Option Error
unwrap (wrapped text e) = some (wrapped text e)
unwrap _ = none
