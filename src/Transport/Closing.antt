-- ===== src/Transport/Closing.antt =====
-- What closing a handle leaves of it.
use small_server.Prelude.{
  ℕ, ◌≡◌, refl, sym, ap, subst, Bool, true, false, Option, none, some, inl, inr, Bool-cases,
  if◌then◌else◌,
}
use small_server.Transport.{TransportHandle, settle_close, close, succeeded}

-- The handle, with the exception that was raised and what `measure` tells of the world.
pub record Closed {W : Type 0} (measure : W → ℕ) (h : TransportHandle) (w : W)
    (r : Option ℕ × TransportHandle × W) : Type 0 where
  pub tells : r.1.closed ≡ (succeeded r).0
  pub kept : h.closed ≡ true → r.1.closed ≡ true
  pub unmeasured : measure r.2 ≡ measure w

module _ {W : Type 0} (measure : W → ℕ) where
  settle_close-Closed :
      (h : TransportHandle) (w : W) (r : Option ℕ × W)
      → h.closed ≡ false
      → measure r.1 ≡ measure w
      → Closed measure h w (settle_close h r)
  settle_close-Closed h w (none, w') open_h q = record {
    tells = refl;
    kept = λ c. refl;
    unmeasured = q;
  }
  settle_close-Closed h w (some x, w') open_h q = record {
    tells = open_h;
    kept = λ c. c;
    unmeasured = q;
  }

  -- A handle that has been closed stays closed, and without an exception it is closed.
  pub close-Closed :
      (socket_close : W → Option ℕ × W) (h : TransportHandle) (w : W)
      → measure (socket_close w).1 ≡ measure w
      → Closed measure h w (close socket_close h w)
  unfolding close
  close-Closed socket_close h w q = elim (Bool-cases h.closed) [
    | inl done ↦
        subst (Closed measure h w) (sym (ap choose done))
          (record { tells = done; kept = λ c. c; unmeasured = refl })
    | inr again ↦
        subst (Closed measure h w) (sym (ap choose again))
          (settle_close-Closed h w (socket_close w) again q)
  ]
    where
      choose : Bool → Option ℕ × TransportHandle × W
      choose b = if b then (none, h, w) else settle_close h (socket_close w)
