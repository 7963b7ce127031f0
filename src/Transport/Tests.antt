-- ===== src/Transport/Tests.antt =====
-- The theorems on `send_all` at a kernel that takes two bytes at a time.
use small_server.Prelude.{
  ℕ, ◌≡◌, ◌≢◌, refl, ap, min, none, some, [], ◌++◌, length, take, drop, Result, ok, err, arith,
}
use small_server.Prelude.Text.{Text, codes}
use small_server.Transport.{Kernel, attempt, send_from}
use small_server.Transport.Sending.{Stream, send_from-accepted, send_from-total}

-- The world is what the kernel has taken.
abbrev two_bytes : Kernel
two_bytes = record {
  World = Text;
  socket_send = λ w new. (ok (min 2 (length new)), w ++ take (min 2 (length new)) new);
  socket_retry_mode = λ _. none;
  wait = λ _ w. (ok tt, w);
}

count_of :
    (new : Text) (n : ℕ)
    → ◌≡◌ {A = Result ℕ ℕ} (ok (min 2 (length new))) (ok n)
    → min 2 (length new) ≡ n
count_of new n h = cc

never_raised : (new : Text) (x : ℕ) → ◌≡◌ {A = Result ℕ ℕ} (ok (min 2 (length new))) (err x) → ⊥
never_raised new x h = cc

two_bytes-Stream : Stream two_bytes (λ w. w)
two_bytes-Stream = record {
  takes = λ w new n h. ap (λ m. w ++ take m new) (count_of new n h);
  refuses = λ w new x h. absurd (never_raised new x h);
  waits = λ _ _. refl;
}

send_hello : send_from two_bytes 5 (codes "hello") 0 [] ≡ some (ok tt, codes "hello")
unfolding send_from attempt
send_hello = refl

send_from-accepted_example : codes "hello" ≡ [] ++ drop 0 (codes "hello")
send_from-accepted_example =
    send_from-accepted two_bytes (λ w. w) two_bytes-Stream 5 (codes "hello") 0 [] (codes "hello")
      send_hello

send_from-total_example : send_from two_bytes 5 (codes "hello") 0 [] ≢ none
send_from-total_example =
    send_from-total two_bytes (λ _ new. (min 2 (length new), refl)) 5 (codes "hello") 0 []
      (omega arith)
