-- ===== src/Farm/Started.antt =====
-- What the flags make of the server: when it starts, and that its agents use its store.
use aws_build_farm.Prelude.{
  if◌then◌else◌, is_some, >>=-eq-ok, some-injective, ℤ, Bytes, bytes_eq, bytes_eq_iff, Result, ok,
  err, panic, ℕ, ◌≡◌, refl, sym, ap, ◌∙◌, ◌≢◌, ◌↔◌, Bool, true, false, not, Option, none, some, [],
  arith,
}
use aws_build_farm.Digest.{Sha256, DigestRef}
use aws_build_farm.Proto.{ActionResult, Directory, Tree, Command, Codec}
use aws_build_farm.Os.{Os}
use aws_build_farm.Cas.S3.{S3}
use aws_build_farm.Cas.S3Store.{S3Store, new_s3_store}
use aws_build_farm.Cas.S3Store.Laws.{s3_store}
use aws_build_farm.Agent.Work.{run_task}
use aws_build_farm.Agent.Remote.{run_remote}
use aws_build_farm.Server.Capabilities.{get_capabilities}
use aws_build_farm.Microvm.{Config, task_of, with_defaults}
use aws_build_farm.Farm.{
  Flags, bucket_required, execution_enabled, Served, Platform, region_option, executor_config,
  serving, resolved, listening, start,
}

resolved-ok :
    (r : Result Bytes Bytes) (region : Bytes)
    → resolved r ≡ ok region
    → (r ≡ ok region) × (region ≢ [])
resolved-ok (ok x) region h = (ground (arith), λ e. ground (arith, bytes_eq_iff x []))
resolved-ok (err e) region h = absurd (cc)
resolved-ok panic region h = absurd (cc)

listening-ok :
    (address : Bytes) (o : Option Bytes) (s t : Served)
    → listening address o s ≡ ok t
    → (o ≡ none) × (t ≡ s)
listening-ok address none s t h = (refl, cc)
listening-ok address (some e) s t h = absurd (cc)

-- What it takes to serve: a bucket, a region of the AWS configuration, and the address.
abbrev pub IsReady : Platform → Flags → Bytes → Type 0
IsReady p f region =
    (f.bucket ≢ [])
    × (p.load_config (region_option f.region) ≡ ok region)
    × (region ≢ [])
    × (p.listen f.listen ≡ none)

guard-ok :
    {E A : Type 0} (b : Bool) (e : E) (r : Result E A) (a : A)
    → ◌≡◌ {A = Result E A} (if b then err e else r) (ok a)
    → (b ≡ false) × (r ≡ ok a)
guard-ok true e r a h = absurd (cc)
guard-ok false e r a h = (refl, h)

not_empty : (s : Bytes) → bytes_eq s [] ≡ false ↔ (s ≢ [])
not_empty s = ((λ h e. ground (arith, bytes_eq_iff s [])), λ h. ground (arith, bytes_eq_iff s []))

-- The server starts exactly if a bucket is given, the AWS configuration loads and has a region, and the address can
-- be listened on; it is then the server of the flags in that region.
pub start_iff :
    (p : Platform) (f : Flags) (served : Served)
    → (start p f ≡ ok served)
      ↔ ((region : Bytes) × IsReady p f region × (served ≡ serving f region))
unfolding start
start_iff p f served = (
  (λ h.
      let (given, h₁) = guard-ok (bytes_eq f.bucket []) bucket_required _ served h in
      let (region, eq, rest) = >>=-eq-ok (resolved (p.load_config (region_option f.region))) _ h₁ in
      let (loaded, named) = resolved-ok (p.load_config (region_option f.region)) region eq in
      let (free, same) = listening-ok f.listen (p.listen f.listen) (serving f region) served rest in
      (region, ((not_empty f.bucket).0 given, loaded, named, free), same)),
  λ (region, (bucket, loaded, named, free), same).
      rw ((not_empty f.bucket).1 bucket, loaded, (not_empty region).1 named, free, same) refl,
)

is_some-unless : {A : Type 0} (b : Bool) (x : A) → is_some (if b then none else some x) ≡ not b
is_some-unless true x = refl
is_some-unless false x = refl

unless-some :
    {A : Type 0} (b : Bool) (x y : A)
    → ◌≡◌ {A = Option A} (if b then none else some x) (some y)
    → x ≡ y
unless-some true x y h = absurd (cc)
unless-some false x y h = some-injective h

executor_config-enabled :
    (f : Flags) (region : Bytes) → is_some (executor_config f region) ≡ not (bytes_eq f.image [])
unfolding executor_config
executor_config-enabled f region = is_some-unless (bytes_eq f.image []) _

-- The executor is told the bucket and the prefix of the flags, and the region.
executor_config-same :
    (f : Flags) (region : Bytes) (cfg : Config)
    → executor_config f region ≡ some cfg
    → (cfg.bucket ≡ f.bucket) × (cfg.prefix ≡ f.prefix) × (cfg.region ≡ region)
unfolding executor_config with_defaults
executor_config-same f region cfg h =
    let same = unless-some (bytes_eq f.image []) _ cfg h in
    (
      ap (λ (c : Config). c.bucket) (sym same),
      ap (λ (c : Config). c.prefix) (sym same),
      ap (λ (c : Config). c.region) (sym same),
    )

advertised : (b : Bool) → is_some (get_capabilities b).execution_capabilities ≡ b
advertised true = refl
advertised false = refl

-- A server that has started executes exactly if an image was given, and its capabilities say so. The task of
-- each execution has the bucket and the prefix of the server's own store, and the region of the configuration
-- that was loaded; and the agent, which makes its store of that task, runs it in the server's store: that of
-- the same bucket and prefix, over the client for that region.
pub start-executes :
    (p : Platform) (f : Flags) (served : Served) (clients : Bytes → S3)
    (actions : Codec ActionResult) (sha : Sha256) (os : Os) (directories : Codec Directory)
    (trees : Codec Tree) (commands : Codec Command) (config_error : Bytes → Option Bytes) (fuel : ℕ)
    → start p f ≡ ok served
    → (execution_enabled served.server ≡ not (bytes_eq f.image []))
      × (is_some (get_capabilities (execution_enabled served.server)).execution_capabilities
          ≡ not (bytes_eq f.image []))
      × ((cfg : Config)
          → served.server.executor ≡ some cfg
          → (command : Bytes) (root : DigestRef) (timeout : ℤ)
          → let task = task_of cfg command root timeout in
            (new_s3_store task.bucket task.prefix ≡ served.server.store)
            × (p.load_config (region_option f.region) ≡ ok task.region)
            × ((w : os.State × (clients task.region).State)
                → run_remote clients actions sha os directories trees commands config_error fuel
                    task w
                  ≡ run_task sha
                      (s3_store (clients task.region) served.server.store actions)
                      os
                      directories
                      trees
                      commands
                      config_error
                      fuel
                      task
                      w))
unfolding serving run_remote
start-executes p f served clients actions sha os directories trees commands config_error fuel h =
    let (region, (bucket, loaded, named, free), same) = (start_iff p f served).0 h in
    let enabled : execution_enabled served.server ≡ not (bytes_eq f.image []) =
      ap (λ (s : Served). execution_enabled s.server) same ∙ executor_config-enabled f region in
    (
      enabled,
      advertised (execution_enabled served.server) ∙ enabled,
      λ cfg executor command root timeout.
          let (b, x, r) =
            executor_config-same f region cfg
              (sym (ap (λ (s : Served). s.server.executor) same) ∙ executor) in
          let task = task_of cfg command root timeout in
          let own : new_s3_store task.bucket task.prefix ≡ served.server.store =
            (λ i. new_s3_store (b i) (x i)) ∙ sym (ap (λ (s : Served). s.server.store) same) in
          (
            own,
            loaded ∙ ap (λ q. ok q) (sym r),
            λ w.
                ap
                  (λ (c : S3Store).
                    run_task sha (s3_store (clients task.region) c actions) os directories trees
                      commands config_error fuel task w)
                  own,
          ),
    )
