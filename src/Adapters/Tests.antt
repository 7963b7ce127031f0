-- ===== src/Adapters/Tests.antt =====
-- Runs of the adapter registry, and its theorem at one.
use small_server.Prelude.{
  ℕ, ◌≡◌, refl, true, false, none, some, List, [], ◌∷◌, ◌==◌, if◌then◌else◌, err,
}
use small_server.Prelude.Dict
use small_server.Prelude.Text.{text_equal, codes}
use small_server.Adapters.{
  Adapters, Registry, exception, adapter_taken, shutdown_failed, register, shutdown,
}
use small_server.Adapters.Shutdown.{last_first, shutdown-last_first}

-- Adapters that log their numbers; the second raises.
abbrev logged : Adapters
logged = record {
  World = List ℕ;
  is_identifier = λ _. true;
  has_methods = λ _. true;
  shutdown = λ a _ _ w. (if a == 2 then some (exception a) else none, a ∷ w);
}

abbrev registry : Registry
registry = record {
  adapters = (codes "a", 1) ∷ (codes "b", 2) ∷ (codes "c", 3) ∷ [];
  closed = false;
}

test_registered : register logged registry (codes "d") 2 ≡ err adapter_taken
unfolding register Dict.get text_equal
test_registered = refl

test_shutdown : shutdown logged registry true false [] ≡ (
  err (shutdown_failed ((codes "b", 2) ∷ [])),
  record registry { closed = true },
  1 ∷ 2 ∷ 3 ∷ [],
)
unfolding shutdown
test_shutdown = refl

shutdown-last_first_example :
    ((shutdown logged registry true false []).1 ≡ record registry { closed = true })
    × ((shutdown logged registry true false []).2
        ≡ last_first logged true false registry.adapters [])
shutdown-last_first_example = shutdown-last_first logged true false registry [] refl
