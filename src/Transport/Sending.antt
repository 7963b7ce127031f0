-- ===== src/Transport/Sending.antt =====
-- What `send_all` hands to the kernel, on a kernel that takes the bytes it says it takes.
use small_server.Prelude.{
  ℕ, zero, suc, ◌+◌, ◌≤◌, ◌<◌, ◌≡◌, ◌≢◌, refl, sym, ap, ◌∙◌, true, Option, none, some, inl, inr,
  ◌⊎◌, [], ◌∷◌, ◌++◌, append_assoc, append-nil, leb, leb→le, le→leb, Bool-cases, Option-cases,
  Result-cases, length, take, drop, take-append-drop, drop_all, ok, err, arith,
}
use small_server.Prelude.Text.{Text}
use small_server.Transport.{
  Kernel, RetryMode, SendError, Sent, Turn, again, failed, take_count, wait_for_retry, attempt,
  after_wait, send_from,
}

drop-drop : (o n m : ℕ) (s : Text) → o + n ≡ m → drop n (drop o s) ≡ drop m s
drop-drop zero n m s h = ap (λ i. drop i s) (omega (arith, h))
drop-drop (suc o) zero m [] h = sym (drop_all m [] (omega arith))
drop-drop (suc o) (suc n) m [] h = sym (drop_all m [] (omega arith))
drop-drop (suc o) n zero (c ∷ s) h = absurd (omega (arith, h))
drop-drop (suc o) n (suc m) (c ∷ s) h = drop-drop o n m s (omega (arith, h))

-- A count that the loop takes moves the offset.
take_count_again : (size offset n : ℕ) {o : ℕ} → take_count size offset n ≡ again o → o ≡ offset + n
take_count_again size offset n {o} h = ground arith

Turn-cases : (t : Turn) → ((o : ℕ) × (t ≡ again o)) ⊎ ((x : SendError) × (t ≡ failed x))
Turn-cases (again o) = inl (o, refl)
Turn-cases (failed x) = inr (x, refl)

take_count_progress : (size offset n : ℕ) {o : ℕ} → take_count size offset n ≡ again o → offset < o
take_count_progress size offset n {o} h = ground arith

-- The documented behaviour of a stream: a send that returns a count has taken so many bytes from the
-- front, and a send that raises has taken none, nor does waiting.
pub record Stream (k : Kernel) (accepted : k.World → Text) : Type 0 where
  pub takes :
      (w : k.World) (new : Text) (n : ℕ)
      → (k.socket_send w new).0 ≡ ok n
      → accepted (k.socket_send w new).1 ≡ accepted w ++ take n new
  pub refuses :
      (w : k.World) (new : Text) (x : ℕ)
      → (k.socket_send w new).0 ≡ err x
      → accepted (k.socket_send w new).1 ≡ accepted w
  pub waits : (m : RetryMode) (w : k.World) → accepted (k.wait m w).1 ≡ accepted w

module _ (k : Kernel) (accepted : k.World → Text) (stream : Stream k accepted) where
  wait-accepted : (x : ℕ) (w : k.World) → accepted (wait_for_retry k x w).1 ≡ accepted w
  unfolding wait_for_retry
  wait-accepted x w = elim (Option-cases (k.socket_retry_mode x)) [
    | inl raise ↦ rw (raise, wait_for_retry) refl
    | inr (mode, retry) ↦
        rw (retry, wait_for_retry)
          (elim (Result-cases (k.wait mode w).0) [
            | inl (y, bad) ↦ rw (bad, wait_for_retry) (stream.waits mode w)
            | inr (_, good) ↦ rw (good, wait_for_retry) (stream.waits mode w)
          ])
  ]

  retried :
      (x offset o : ℕ) (w : k.World)
      → (after_wait offset (wait_for_retry k x w)).0 ≡ again o
      → (o ≡ offset) × (accepted (after_wait offset (wait_for_retry k x w)).1 ≡ accepted w)
  retried x offset o w h = elim (Result-cases (wait_for_retry k x w).0) [
    | inl (y, bad) ↦ absurd (failed_ne (rw bad at h))
    | inr (_, good) ↦ rw good (again_injective (rw good at h), wait-accepted x w)
  ]
    where
      failed_ne : {y : SendError} → failed y ≡ again o → ⊥
      failed_ne e = cc

      again_injective : again offset ≡ again o → o ≡ offset
      again_injective e = cc

  attempt-accepted :
      (new : Text) (offset : ℕ) (w : k.World) {o : ℕ}
      → (attempt k new offset w).0 ≡ again o
      → accepted (attempt k new offset w).1 ++ drop o new ≡ accepted w ++ drop offset new
  unfolding attempt
  attempt-accepted new offset w {o} h = elim (Result-cases (k.socket_send w (drop offset new)).0) [
    | inl (x, bad) ↦
        rw (bad, attempt)
          (waited x bad
            (retried x offset o (k.socket_send w (drop offset new)).1 (rw (bad, attempt) at h)))
    | inr (n, sent) ↦
        rw (sent, attempt)
          (sent_on n sent (take_count_again (length new) offset n (rw (sent, attempt) at h)))
  ]
    where
      waited :
          (x : ℕ)
          → (k.socket_send w (drop offset new)).0 ≡ err x
          → (o ≡ offset)
            × (accepted
                  (after_wait offset (wait_for_retry k x (k.socket_send w (drop offset new)).1)).1
                ≡ accepted (k.socket_send w (drop offset new)).1)
          → accepted
                (after_wait offset (wait_for_retry k x (k.socket_send w (drop offset new)).1)).1
              ++ drop o new
            ≡ accepted w ++ drop offset new
      waited x bad (same, kept) =
          rw same (ap (λ a. a ++ drop offset new) (kept ∙ stream.refuses w (drop offset new) x bad))

      sent_on :
          (n : ℕ)
          → (k.socket_send w (drop offset new)).0 ≡ ok n
          → o ≡ offset + n
          → accepted (k.socket_send w (drop offset new)).1 ++ drop o new
            ≡ accepted w ++ drop offset new
      sent_on n sent moved =
          ap (λ a. a ++ drop o new) (stream.takes w (drop offset new) n sent)
          ∙ append_assoc (accepted w) (take n (drop offset new)) (drop o new)
          ∙ ap (λ s. accepted w ++ (take n (drop offset new) ++ s))
              (sym (drop-drop offset n o new (sym moved)))
          ∙ ap (◌++◌ (accepted w)) (take-append-drop n (drop offset new))

  -- `send_all` is at the end of its data.
  at_end :
      (new : Text) (offset : ℕ) (w w' : k.World)
      → leb (length new) offset ≡ true
      → ◌≡◌ {A = Option (Sent k)} (some (ok tt, w)) (some (ok tt, w'))
      → accepted w' ≡ accepted w ++ drop offset new
  at_end new offset w w' all h =
      ap accepted same
      ∙ sym (append-nil (accepted w))
      ∙ ap (◌++◌ (accepted w)) (sym (drop_all offset new (leb→le (length new) offset all)))
    where
      same : w' ≡ w
      same = cc

  -- On a kernel that takes the bytes that it says it takes: where `send_all` returns, the kernel
  -- has taken exactly the data that was left, whatever its counts, its exceptions and the waits
  -- between them.
  pub send_from-accepted :
      (fuel : ℕ) (new : Text) (offset : ℕ) (w w' : k.World)
      → send_from k fuel new offset w ≡ some (ok tt, w')
      → accepted w' ≡ accepted w ++ drop offset new
  unfolding send_from
  send_from-accepted zero new offset w w' h = elim (Bool-cases (leb (length new) offset)) [
    | inl all ↦ at_end new offset w w' all (rw (all, send_from) at h)
    | inr more ↦ absurd (none_ne (rw (more, send_from) at h))
  ]
    where
      none_ne : ◌≡◌ {A = Option (Sent k)} none (some (ok tt, w')) → ⊥
      none_ne e = cc
  send_from-accepted (suc fuel) new offset w w' h = elim (Bool-cases (leb (length new) offset)) [
    | inl all ↦ at_end new offset w w' all (rw (all, send_from) at h)
    | inr more ↦ elim (Turn-cases (attempt k new offset w).0) [
      | inl (o, turn) ↦
          send_from-accepted fuel new o (attempt k new offset w).1 w'
            (rw (more, turn, send_from) at h)
          ∙ attempt-accepted new offset w turn
      | inr (x, turn) ↦ absurd (failed_ne (rw (more, turn, send_from) at h))
    ]
  ]
    where
      failed_ne :
          {x : SendError} {v : k.World}
          → ◌≡◌ {A = Option (Sent k)} (some (err x, v)) (some (ok tt, w'))
          → ⊥
      failed_ne e = cc

module _ (k : Kernel)
    (quiet : (w : k.World) (new : Text) → (n : ℕ) × ((k.socket_send w new).0 ≡ ok n)) where
  attempt-progress :
      (new : Text) (offset : ℕ) (w : k.World) {o : ℕ}
      → (attempt k new offset w).0 ≡ again o
      → offset < o
  unfolding attempt
  attempt-progress new offset w h =
      let sent = quiet w (drop offset new) in
      take_count_progress (length new) offset sent.0 (rw (sent.1, attempt) at h)

  -- Where the kernel's sends do not raise, `send_all` ends with as much fuel as there are bytes
  -- left.
  pub send_from-total :
      (fuel : ℕ) (new : Text) (offset : ℕ) (w : k.World)
      → length new ≤ offset + fuel
      → send_from k fuel new offset w ≢ none
  unfolding send_from
  send_from-total zero new offset w h e =
      some_ne (rw (le→leb (length new) offset (omega (arith, h)), send_from) at e)
    where
      some_ne : ◌≡◌ {A = Option (Sent k)} (some (ok tt, w)) none → ⊥
      some_ne e = cc
  send_from-total (suc fuel) new offset w h e = elim (Bool-cases (leb (length new) offset)) [
    | inl all ↦ some_ne (rw (all, send_from) at e)
    | inr more ↦ elim (Turn-cases (attempt k new offset w).0) [
      | inl (o, turn) ↦
          send_from-total fuel new o (attempt k new offset w).1
            (omega (arith, h, attempt-progress new offset w turn)) (rw (more, turn, send_from) at e)
      | inr (x, turn) ↦ some_ne (rw (more, turn, send_from) at e)
    ]
  ]
    where
      some_ne : {r : Sent k} → ◌≡◌ {A = Option (Sent k)} (some r) none → ⊥
      some_ne e = cc
