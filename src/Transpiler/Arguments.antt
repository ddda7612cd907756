-- ===== src/Transpiler/Arguments.antt =====
-- transpiler/helpers.go: the arguments of a container, those that Argo is given as texts and those
-- that are mounted volumes, and the texts of expressions.
use mathlib.Core.Path.{subst}
use Prim.Native.String.{◌++◌}
use flowify_workflows_server.Common.{
  false, suc, eq_iff, true, String, List, [], ◌∷◌, length, All, ◌+◌, ◌==◌, if◌then◌else◌, Option,
  none, some, string_eq, ◌≡◌, refl, sym, arith, Bool-cases, inl, inr, Option-cases,
}
use flowify_workflows_server.Common.Result.{
  ok≢err, Result, ok, err, message, ◌>>=◌, >>=-eq-ok, ok-injective,
}
use flowify_workflows_server.Models.{
  Argument, ArgumentSource, text, port, file, ArgumentTarget, Expression, Operand, value,
}
use flowify_workflows_server.Transpiler.{Map}

-- The text of an argument: none for a volume, which is mounted.
unfoldable pub container_arg : ArgumentTarget → ArgumentSource → Result (Option String)
container_arg target (text t) = ok (some t)
container_arg target (file f) = err (message "Unrecognized argument")
container_arg target (port p) =
    if target.type == "artifact"
    then ok (some (target.prefix ++ "{{inputs.artifacts." ++ p ++ ".path}}" ++ target.suffix))
    else if target.type == "parameter"
    then ok (some (target.prefix ++ "{{inputs.parameters." ++ p ++ "}}" ++ target.suffix))
    else if target.type == "volume"
    then ok none
    else err (message "Unrecognized argument target type")

abbrev pub prepend {ℓ} : {A : Type ℓ} → Option A → List A → List A
prepend none xs = xs
prepend (some x) xs = x ∷ xs

unfoldable pub get_container_args : List Argument → Result (List String)
unfolding container_arg
get_container_args [] = ok []
get_container_args (a ∷ args) = container_arg a.target a.source >>= λ arg.
    get_container_args args >>= λ args_str. ok (prepend arg args_str)

pub record VolumeMount : Type 0 where
  pub volume_ref : String
  pub mount_path : String

-- An argument that is no volume has a text.
container_arg-text :
    (target : ArgumentTarget) (p : String) (arg : Option String)
    → target.type == "volume" ≡ false
    → container_arg target (port p) ≡ ok arg
    → (s : String) × (arg ≡ some s)
unfolding container_arg
container_arg-text target p arg other e = elim (Bool-cases (target.type == "artifact")) [
  | inl artifact ↦ (_, sym (ok-injective (rw artifact at e)))
  | inr nor ↦ elim (Bool-cases (target.type == "parameter")) [
    | inl parameter ↦ (_, sym (ok-injective (rw (nor, parameter) at e)))
    | inr unknown ↦ absurd (ok≢err (sym (rw (nor, unknown, other) at e)))
  ]
]

-- `V` is the type of the volumes of Kubernetes, `name` their name, and `join` is `path.Join`.
module _ {V : Type 0} (name : V → String) (join : String → String → String → String) where
  unfoldable pub container_volume :
      Map V → ArgumentTarget → ArgumentSource → Result (Option VolumeMount)
  container_volume vols target (text t) = ok none
  container_volume vols target (file f) = ok none
  container_volume vols target (port p) =
      if target.type == "volume"
      then elim (vols p) [
        | none ↦ err (message "no such volume")
        | some vol ↦ ok (
            some
              (record { volume_ref = name vol; mount_path = join target.prefix p target.suffix }))
      ]
      else ok none

  unfoldable pub get_container_volumes : Map V → List Argument → Result (List VolumeMount)
  unfolding container_volume
  get_container_volumes vols [] = ok []
  get_container_volumes vols (a ∷ args) = container_volume vols a.target a.source >>= λ mount.
      get_container_volumes vols args >>= λ vol_mounts. ok (prepend mount vol_mounts)

  -- The mount is of a volume in the map.
  abbrev pub IsMountOf : Map V → VolumeMount → Type 0
  IsMountOf vols m = (p : String) × (vol : V) × (vols p ≡ some vol) × (m.volume_ref ≡ name vol)

  -- One argument gives one text or one mount.
  OneOf : Map V → Option String → Option VolumeMount → Type 0
  OneOf vols arg mount =
      (length (prepend arg []) + length (prepend mount []) ≡ 1)
      × All (IsMountOf vols) (prepend mount [])

  mount-OneOf :
      (vols : Map V) (target : ArgumentTarget) (p : String) (mount : Option VolumeMount)
      → target.type == "volume" ≡ true
      → container_volume vols target (port p) ≡ ok mount
      → OneOf vols none mount
  unfolding container_volume OneOf
  mount-OneOf vols target p mount is f = elim (Option-cases (vols p)) [
    | inl missing ↦ absurd (ok≢err (sym (rw (is, missing) at f)))
    | inr (vol, there) ↦
        subst (OneOf vols none) (ok-injective (rw (is, there) at f))
          (refl, ((p, vol, there, refl), tt))
  ]

  one_of :
      (vols : Map V) (target : ArgumentTarget) (source : ArgumentSource) (arg : Option String)
      (mount : Option VolumeMount)
      → container_arg target source ≡ ok arg
      → container_volume vols target source ≡ ok mount
      → OneOf vols arg mount
  unfolding container_arg container_volume OneOf
  one_of vols target (text t) arg mount e f =
      subst (λ x. OneOf vols x mount) (ok-injective e)
        (subst (OneOf vols (some t)) (ok-injective f) (refl, tt))
  one_of vols target (file f) arg mount e k = absurd (ok≢err (sym e))
  one_of vols target (port p) arg mount e f = elim (Bool-cases (target.type == "volume")) [
    | inl is ↦
        let same : target.type ≡ "volume" = (eq_iff target.type "volume").0 is in
        subst (λ x. OneOf vols x mount) (ok-injective (rw same at e))
          (mount-OneOf vols target p mount is f)
    | inr other ↦
        let (s, same) = container_arg-text target p arg other e in
        subst (λ x. OneOf vols x mount) (sym same)
          (subst (OneOf vols (some s)) (ok-injective (rw other at f)) (refl, tt))
  ]

  prepend-OneOf :
      (vols : Map V) (ts : List String) (ms : List VolumeMount) (args : List Argument)
      (arg : Option String) (mount : Option VolumeMount)
      → (length ts + length ms ≡ length args) × All (IsMountOf vols) ms
      → OneOf vols arg mount
      → (length (prepend arg ts) + length (prepend mount ms) ≡ suc (length args))
        × All (IsMountOf vols) (prepend mount ms)
  unfolding OneOf
  prepend-OneOf vols ts ms args none none (sum, all) (one, here) = absurd (omega arith)
  prepend-OneOf vols ts ms args none (some m) (sum, all) (one, here) = (omega arith, (here.0, all))
  prepend-OneOf vols ts ms args (some t) none (sum, all) (one, here) = (omega arith, all)
  prepend-OneOf vols ts ms args (some t) (some m) (sum, all) (one, here) = absurd (omega arith)

  -- Where the arguments of a container have texts and mounts, each argument is one text or one
  -- mount, and each mount is of a volume in the map.
  pub get_container_args-volumes :
      (vols : Map V) (args : List Argument) (texts : List String) (mounts : List VolumeMount)
      → get_container_args args ≡ ok texts
      → get_container_volumes vols args ≡ ok mounts
      → (length texts + length mounts ≡ length args) × All (IsMountOf vols) mounts
  unfolding get_container_args get_container_volumes OneOf
  get_container_args-volumes vols [] texts mounts e f =
      subst (λ x. (length texts + length x ≡ 0) × All (IsMountOf vols) x) (ok-injective f)
        (subst (λ x. (length x + 0 ≡ 0) × Unit) (ok-injective e) (refl, tt))
  get_container_args-volumes vols (a ∷ args) texts mounts e f =
      let (arg, e₁, e₂) = >>=-eq-ok (container_arg a.target a.source) _ e in
      let (ts, e₃, e₄) = >>=-eq-ok (get_container_args args) _ e₂ in
      let (mount, f₁, f₂) = >>=-eq-ok (container_volume vols a.target a.source) _ f in
      let (ms, f₃, f₄) = >>=-eq-ok (get_container_volumes vols args) _ f₂ in
      let one = one_of vols a.target a.source arg mount e₁ f₁ in
      let rest = get_container_args-volumes vols args ts ms e₃ f₃ in
      subst (λ x. (length x + length mounts ≡ suc (length args)) × All (IsMountOf vols) mounts)
        (ok-injective e₄)
        (subst
          (λ x. (length (prepend arg ts) + length x ≡ suc (length args)) × All (IsMountOf vols) x)
          (ok-injective f₄) (prepend-OneOf vols ts ms args arg mount rest one))

unfoldable pub operand_text : Operand → String
operand_text (text t) = t
operand_text (value d) = "{{inputs.parameters." ++ d.name ++ "}}"

-- The model's operands have the two types that the decoders give, so there is no error.
unfoldable pub expression_to_string : Expression → String
unfolding operand_text
expression_to_string expression =
    operand_text expression.left
    ++ " "
    ++ expression.operator
    ++ " "
    ++ operand_text expression.right
