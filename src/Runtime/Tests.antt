-- ===== src/Runtime/Tests.antt =====
-- A configuration with client defaults, and its theorem at it.
use small_server.Prelude.{◌≡◌, refl, true, some, [], ◌∷◌, ok, err}
use small_server.Prelude.Dict
use small_server.Prelude.Text.{codes, text_eq}
use small_server.Runtime.{
  Value, Arguments, ManagedRuntimeConfig, int, negative, bool, text, settings, sections,
  value_error, type_error, collect, client_defaults, post_init, to_smallos_config,
}
use small_server.Runtime.Roundtrip.{to_smallos_config-post_init}

abbrev with_levels : Value → Value → Arguments
with_levels levels client = record {
  task_capacity = int 64;
  priority_levels = levels;
  io_buffer_length = int 0;
  eternal_watchers = bool true;
  client_defaults =
      sections ((text (codes "http"), settings ((text (codes "retries"), client) ∷ [])) ∷ []);
}

abbrev config : ManagedRuntimeConfig
config = record {
  task_capacity = 64;
  priority_levels = 4;
  io_buffer_length = 0;
  eternal_watchers = true;
  client_defaults = some ((codes "http", (codes "retries", 3) ∷ []) ∷ []);
}

constructed : post_init (with_levels (int 4) (int 3)) ≡ ok config
unfolding post_init client_defaults collect Dict.put
constructed = refl

test_one_level : post_init (with_levels (int 1) (int 3)) ≡ err value_error
unfolding post_init client_defaults collect Dict.put
test_one_level = refl

test_negative : post_init (with_levels (int 2) (negative 0)) ≡ err value_error
unfolding post_init client_defaults collect Dict.put
test_negative = refl

test_bool : post_init (with_levels (bool true) (int 3)) ≡ err type_error
unfolding post_init client_defaults collect Dict.put
test_bool = refl

to_smallos_config-post_init_example : post_init (to_smallos_config config) ≡ ok config
to_smallos_config-post_init_example =
    to_smallos_config-post_init (with_levels (int 4) (int 3)) config constructed
