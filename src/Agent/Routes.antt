-- ===== src/Agent/Routes.antt =====
-- cmd/executor-agent/main.go: the address and the paths of the agent. `net/http` matches a path as it stands, since
-- no pattern ends in a slash; its redirections of paths that are not clean are left out.
use aws_build_farm.Prelude.{
  if◌then◌else◌, Bool-cases, some-injective, Bytes, codes, bytes_eq, bytes_eq_iff, ℕ, ◌≡◌, refl,
  sym, ap, ◌⊎◌, inl, inr, Bool, true, false, not, ◌||◌, Option, some, List, [], ◌∷◌, ◌++◌, arith,
}
use aws_build_farm.Digest.{Sha256}
use aws_build_farm.Proto.{ActionResult, Directory, Tree, Command, Codec}
use aws_build_farm.Task.{TaskCodec, ResultCodec, health_path, execute_path}
use aws_build_farm.Os.{Os}
use aws_build_farm.Cas.Interface.{Store}
use aws_build_farm.Agent.Outputs.{AgentError}
use aws_build_farm.Agent.Handler.{handle_execute}
use aws_build_farm.Microvm.{Response}

-- The address to listen on, from the variable `PORT`.
abbrev listen_address : Bytes → Bytes
listen_address port = b':' ∷ (if bytes_eq port [] then codes "8080" else port)

-- The paths that are only acknowledged: the agent's health, and the hooks of the platform.
abbrev hooks : List Bytes
hooks =
    codes "run"
    ∷ codes "resume"
    ∷ codes "suspend"
    ∷ codes "terminate"
    ∷ codes "ready"
    ∷ codes "validate"
    ∷ []

abbrev is_hook : Bytes → List Bytes → Bool
is_hook path [] = false
is_hook path (h ∷ hs) =
    bytes_eq path (codes "/aws/lambda-microvms/runtime/v1/" ++ h) || is_hook path hs

data Route : Type 0 where
  acknowledged : Route
  executed : Route
  unknown : Route

abbrev route : Bytes → Route
route path =
    if bytes_eq path health_path
    then acknowledged
    else if bytes_eq path execute_path
    then executed
    else if is_hook path hooks
    then acknowledged
    else unknown

route-executed : (path : Bytes) → route path ≡ executed → path ≡ execute_path
route-executed path h = elim (Bool-cases (bytes_eq path execute_path)) [
  | inl e ↦ (bytes_eq_iff path execute_path).0 e
  | inr e ↦ absurd (ground (arith, e, h))
]

module _ (tasks : TaskCodec) (results : ResultCodec) (actions : Codec ActionResult)
    (error_text : AgentError → Bytes) (json_error : Bytes → Bytes) (proto_error : Bytes)
    (sha : Sha256) (st : Store) (os : Os) (directories : Codec Directory) (trees : Codec Tree)
    (commands : Codec Command) (config_error : Bytes → Option Bytes) (fuel : ℕ) where
  abbrev Both : Type 0
  Both = os.State × st.State

  abbrev answer_route : Route → Bytes → Bytes → Both → Option (Option Response × Both)
  answer_route acknowledged method body w = some (some (record { status = 200; body = [] }), w)
  answer_route executed method body w =
      handle_execute tasks results actions error_text json_error proto_error sha st os directories
        trees commands config_error fuel method body w
  answer_route unknown method body w =
      some (some (record { status = 404; body = codes "404 page not found" ++ 10 ∷ [] }), w)

  -- The handlers that `main` registers: the answer to a request with this method, path and body.
  abbrev serve : Bytes → Bytes → Bytes → Both → Option (Option Response × Both)
  serve method path body w = answer_route (route path) method body w

  guarded :
      (b : Bool) (answer answer' : Option Response) (w w' : Both)
      (rest : Option (Option Response × Both))
      → (if not b then some (answer, w) else rest) ≡ some (answer', w')
      → (w' ≡ w) ⊎ (b ≡ true)
  guarded true answer answer' w w' rest h = inr refl
  guarded false answer answer' w w' rest h = inl (ap (λ p. p.1) (some-injective (sym h)))

  answer_route-same :
      (r : Route) (method body : Bytes) (w w' : Both) (answer : Option Response)
      → answer_route r method body w ≡ some (answer, w')
      → (w' ≡ w) ⊎ ((method ≡ codes "POST") × (r ≡ executed))
  unfolding handle_execute
  answer_route-same acknowledged method body w w' answer h =
      inl (ap (λ p. p.1) (some-injective (sym h)))
  answer_route-same executed method body w w' answer h =
      elim (guarded (bytes_eq method (codes "POST")) _ answer w w' _ h) [
        | inl same ↦ inl same
        | inr post ↦ inr ((bytes_eq_iff method (codes "POST")).0 post, refl)
      ]
  answer_route-same unknown method body w w' answer h = inl (ap (λ p. p.1) (some-injective (sym h)))

  -- Only a POST to the path of executions changes the host or the store.
  serve-same :
      (method path body : Bytes) (w w' : Both) (answer : Option Response)
      → serve method path body w ≡ some (answer, w')
      → (w' ≡ w) ⊎ ((method ≡ codes "POST") × (path ≡ execute_path))
  serve-same method path body w w' answer h =
      elim (answer_route-same (route path) method body w w' answer h) [
        | inl same ↦ inl same
        | inr (post, at) ↦ inr (post, route-executed path at)
      ]
