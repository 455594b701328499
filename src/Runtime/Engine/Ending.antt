-- ===== src/Runtime/Engine/Ending.antt =====
-- The requests to end that the engine sends to its threads, and when.
use boson.Prelude.{
  ℕ, zero, suc, ◌<◌, ◌≤◌, ◌≡◌, refl, sym, ◌∙◌, ap, ==_iff, add_size, true, List, [], ◌∷◌, ◌++◌,
  append_assoc, append-nil, some, arith, Bool-cases, inl, inr, if◌then◌else◌, update,
}
use boson.Runtime.State.{ThreadCommand, add_routine, finish}
use boson.Runtime.Engine.{
  Engine, ThreadView, new_routine, notify_idle, handle, choose_thread, execute_commands, remaining,
  send_end_requests, wait_turn,
}
use boson.Runtime.Engine.Commands.{Running}

-- The requests for the threads below `n` that did not get one, in order.
unfoldable pub requests : (ℕ → ThreadView) → ℕ → List (ℕ × ThreadCommand)
requests at zero = []
requests at (suc n) = requests at n ++ (if (at n).sent_end_request then [] else (n, finish) ∷ [])

-- What a call changes: the flags of the threads below `n`, and nothing of the others.
record Requested (n : ℕ) (e e' : Engine) : Type 0 where
  flags : (i : ℕ) → i < n → (e'.threads.at i).sent_end_request ≡ true
  others : (i : ℕ) → n ≤ i → e'.threads.at i ≡ e.threads.at i
  size : e'.threads.size ≡ e.threads.size
  sent : e'.sent ≡ e.sent ++ requests e.threads.at n

send_end_requests-Requested : (n : ℕ) (e : Engine) → Requested n e (send_end_requests n e)
unfolding send_end_requests requests
send_end_requests-Requested zero e = record {
  flags = λ i h. absurd (omega arith);
  others = λ i h. refl;
  size = refl;
  sent = sym (append-nil e.sent);
}
send_end_requests-Requested (suc n) e =
    let v = send_end_requests-Requested n e in
    let here : (send_end_requests n e).threads.at n ≡ e.threads.at n = v.others n (omega arith) in
    elim (Bool-cases (e.threads.at n).sent_end_request) [
      | inl done ↦ record {
        flags = λ i h. ground (arith, v.flags i, here, done);
        others = λ i h. ground (arith, v.others i, here, done);
        size = ground (arith, v.size, here, done);
        sent = rw (here, done) (v.sent ∙ ap (◌++◌ e.sent) (sym (append-nil _)));
      }
      | inr asked ↦ record {
        flags = λ i h. ground (arith, v.flags i, here, asked);
        others = λ i h. ground (arith, v.others i, here, asked);
        size = ground (arith, v.size, here, asked);
        sent =
            rw (here, asked)
              (ap (λ (l : List (ℕ × ThreadCommand)). l ++ (n, finish) ∷ []) v.sent
                ∙ append_assoc e.sent _ _);
      }
    ]

send_end_requests-done :
    (n : ℕ) (e : Engine)
    → ((i : ℕ) → i < n → (e.threads.at i).sent_end_request ≡ true)
    → send_end_requests n e ≡ e
unfolding send_end_requests
send_end_requests-done zero e h = refl
send_end_requests-done (suc n) e h =
    rw (send_end_requests-done n e (λ i k. h i (omega arith))) (ground (arith, h n (omega arith)))

-- Every thread below `n` has its request to end after the call, and was sent one now exactly if it had
-- none before; the same call again sends nothing and changes nothing.
pub send_end_requests_once :
    (n : ℕ) (e : Engine)
    → ((i : ℕ) → i < n → ((send_end_requests n e).threads.at i).sent_end_request ≡ true)
      × ((send_end_requests n e).sent ≡ e.sent ++ requests e.threads.at n)
      × (send_end_requests n (send_end_requests n e) ≡ send_end_requests n e)
send_end_requests_once n e =
    let v = send_end_requests-Requested n e in
    (v.flags, v.sent, send_end_requests-done n (send_end_requests n e) v.flags)

remaining-zero :
    (at : ℕ → ThreadView) (n : ℕ) → ((i : ℕ) → i < n → (at i).nb_routines ≡ 0) → remaining at n ≡ 0
unfolding remaining
remaining-zero at zero h = refl
remaining-zero at (suc n) h =
    rw (remaining-zero at n (λ i k. h i (omega arith)), h n (omega arith)) refl

requests-eq :
    (f g : ℕ → ThreadView) (n : ℕ)
    → ((i : ℕ) → (f i).sent_end_request ≡ (g i).sent_end_request)
    → requests f n ≡ requests g n
unfolding requests
requests-eq f g zero h = refl
requests-eq f g (suc n) h = rw (requests-eq f g n h, h n) refl

-- If all threads count as idle, and the notice of an idle thread stands in the queue behind the new
-- routine for that thread, then after one turn the routine was sent to its thread and every thread was
-- asked to end.
pub wait_turn_premature :
    (e : Engine) (max t r : ℕ)
    → Running e max
    → t < max
    → ((i : ℕ) → i < max → (e.threads.at i).nb_routines ≡ 0)
    → e.command_queue ≡ new_routine t r ∷ notify_idle t 0 ∷ []
    → e.command_pushers ≡ 6
    → (e' : Engine) × (wait_turn 3 e ≡ some e')
      × ((i : ℕ) → i < max → (e'.threads.at i).sent_end_request ≡ true)
      × (e'.sent ≡ (e.sent ++ (t, add_routine r) ∷ []) ++ requests e.threads.at max)
unfolding wait_turn execute_commands handle choose_thread
wait_turn_premature e max t r h k idle q p =
    let counted : ThreadView = record (e.threads.at t) {
      nb_routines = add_size (e.threads.at t).nb_routines 1;
    } in
    let at : ℕ → ThreadView =
      update (update e.threads.at t counted) t (record counted { nb_routines = 0 }) in
    let d : Engine = record e {
      threads = record { size = e.threads.size; at = at };
      command_queue = [];
      command_pushers = 0;
      sent = e.sent ++ (t, add_routine r) ∷ [];
    } in
    let ran : execute_commands 3 e ≡ some d =
      ground (arith, h.cores, h.views, k, q, p, ==_iff t max) in
    let none_left : remaining at e.threads.size ≡ 0 =
      remaining-zero at e.threads.size (λ i l. ground (arith, idle i, h.views)) in
    let same : (i : ℕ) → (at i).sent_end_request ≡ (e.threads.at i).sent_end_request =
      λ i. ground (arith, ==_iff t i) in
    let v = send_end_requests-Requested e.threads.size d in
    (
      send_end_requests e.threads.size d,
      rw (ran, none_left) refl,
      (λ i l. v.flags i (omega (arith, h.views))),
      v.sent
          ∙ ap (◌++◌ d.sent) (
              requests-eq at e.threads.at e.threads.size same ∙ ap (requests e.threads.at) h.views),
    )
