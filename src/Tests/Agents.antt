-- ===== src/Tests/Agents.antt =====
-- The agent's environment, and a standard stream that it attaches.
use aws_build_farm.Prelude.{codes, ok, ◌≡◌, refl, false, some, [], ◌∷◌}
use aws_build_farm.Digest.{from_bytes, is_empty}
use aws_build_farm.Proto.{ActionResult}
use aws_build_farm.Cas.MemStore.{new_mem_store, put}
use aws_build_farm.Agent.{attach_stream, build_env}
use aws_build_farm.Tests.Sample.{toy_sha, store, bare_result, hello, hello_digest}

-- The empty environment of a command in an agent without a `PATH`.
default_environment :
    build_env [] [] ≡ codes "PATH=/usr/local/sbin:/usr/local/bin:/usr/sbin:/usr/bin:/sbin:/bin" ∷ []
unfolding build_env
default_environment = refl

abbrev named : ActionResult
named = record (bare_result 7) { stdout_digest = some hello_digest }

attached :
    (attach_stream toy_sha store new_mem_store (bare_result 7) (some hello) false).0 ≡ ok named
unfolding attach_stream put is_empty from_bytes
attached = refl
