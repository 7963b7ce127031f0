-- ===== src/Adapters/Shutdown.antt =====
-- `AdapterRegistry.shutdown` reaches every adapter, whatever the others raise.
use small_server.Prelude.{ℕ, ◌≡◌, refl, ◌∙◌, Bool, true, false, none, [], ◌∷◌}
use small_server.Prelude.Dict.{Dict}
use small_server.Prelude.Text.{Text}
use small_server.Adapters.{Adapters, Registry, Gathered, shutdown_items, reverse_onto, shutdown}

-- The world behind the shutdown of each adapter, the last one registered first.
unfoldable pub last_first : (env : Adapters) → Bool → Bool → Dict Text ℕ → env.World → env.World
last_first env wait cancel [] w = w
last_first env wait cancel ((name, adapter) ∷ items) w =
    (env.shutdown adapter wait cancel (last_first env wait cancel items w)).1

-- The world behind the shutdown of each adapter in order.
unfoldable pub in_order : (env : Adapters) → Bool → Bool → Dict Text ℕ → env.World → env.World
in_order env wait cancel [] w = w
in_order env wait cancel ((name, adapter) ∷ items) w =
    in_order env wait cancel items (env.shutdown adapter wait cancel w).1

module _ (env : Adapters) (wait cancel : Bool) where
  shutdown_items-in_order :
      (items : Dict Text ℕ) (g : Gathered) (w : env.World)
      → (shutdown_items env wait cancel items g w).1 ≡ in_order env wait cancel items w
  unfolding shutdown_items in_order
  shutdown_items-in_order [] g w = refl
  shutdown_items-in_order ((name, adapter) ∷ items) g w =
      shutdown_items-in_order items _ (env.shutdown adapter wait cancel w).1

  in_order-reverse_onto :
      (items more : Dict Text ℕ) (w : env.World)
      → in_order env wait cancel (reverse_onto items more) w
        ≡ in_order env wait cancel more (last_first env wait cancel items w)
  unfolding in_order last_first
  in_order-reverse_onto [] more w = refl
  in_order-reverse_onto ((name, adapter) ∷ items) more w =
      in_order-reverse_onto items ((name, adapter) ∷ more) w

  -- Shutting an open registry down closes it and shuts every adapter down once, the last one
  -- registered first, whatever the adapters raise.
  pub shutdown-last_first :
      (r : Registry) (w : env.World)
      → r.closed ≡ false
      → ((shutdown env r wait cancel w).1 ≡ record r { closed = true })
        × ((shutdown env r wait cancel w).2 ≡ last_first env wait cancel r.adapters w)
  unfolding shutdown
  shutdown-last_first r w running = rw running (refl, worlds)
    where
      worlds :
          (shutdown_items env wait cancel
            (reverse_onto r.adapters [])
            (record { failures = []; interrupted_by = none })
            w).1
          ≡ last_first env wait cancel r.adapters w
      worlds =
          shutdown_items-in_order (reverse_onto r.adapters []) _ w
          ∙ (unfold in_order in in_order-reverse_onto r.adapters [] w)
