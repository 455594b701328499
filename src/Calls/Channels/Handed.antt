-- ===== src/Calls/Channels/Handed.antt =====
-- A read that waits for the value of a write.
use boson.Prelude.{
  ℕ, suc, ◌+◌, ◌%◌, ◌^◌, ◌<◌, ◌≡◌, ◌≢◌, sym, ap, subst, ◌∙◌, ◌==◌, ltb, leb, Int32, int, Bool, true,
  false, ◌||◌, [], Option, some, update, arith, add_size, get,
}
use boson.Memory.SparseVector.{has}
use boson.Runtime.Routine.Round.{update_self}
use boson.Queues.VectorizedQueue.Invariant.{Holds}
use boson.Sync.Semaphore
use boson.Sync.Semaphore.{WaitingUnit, SemaphoreReturnValue, is_ok, disabling_threshold}
use boson.Sync.Channel.{ChannelResultValue}
use boson.Runtime.State.{RoutineStatus, World}
use boson.Runtime.Semaphores.{post, begin_wait}
use boson.Runtime.Semaphores.Handover.{next_turn, Resumed, post_signals, turn_resumes}
use boson.Runtime.Semaphores.Posted.{Free, begin_wait-Waits, end_wait-Resumed, given_back}
use boson.Calls.State.{Channel, Os, N, ◌>>=◌, runtime}
use boson.Calls.Channels.{consume_write, consume_read, wait, read, write}
use boson.Calls.Channels.Tickets.{
  post-Counted, elsewhere, elsewhere-Waits, lowered, begin_wait-taken,
}

-- The channel with one more value, and with one less.
abbrev pub filled : Channel → ℕ → Channel
filled ch value = record ch {
  head = add_size ch.head 1;
  buffer = record {
    size = ch.buffer.size;
    at = update ch.buffer.at (ch.head % ch.buffer.size) value;
  };
}

abbrev pub drained : Channel → Channel
drained ch = record ch { tail = add_size ch.tail 1 }

module _ {K : Type 0} where
  -- What happens until the reader runs again, if the routine `r'` writes. What it would do while it waits
  -- itself is `others`.
  abbrev pub written_meanwhile :
      (ℕ → N K (Unit {0})) → (fuel now' r' c value : ℕ) → Int32 → ℕ → N K (Unit {0})
  written_meanwhile others fuel now' r' c value timeout' r = do
    result ← write others now' r' c value timeout'
    runtime (next_turn fuel r)

  consume_write_posts :
      (o : Os K) (c value : ℕ) (v : World)
      → 0 < (o.channels c).buffer.size
      → post (o.channels c).readers_slots o.world ≡ some (SemaphoreReturnValue.ok, v)
      → consume_write c value o
        ≡ some (
          tt,
          record o {
            world = v;
            channels =
                update
                  (update o.channels c
                    (record (o.channels c) { head = add_size (o.channels c).head 1 }))
                  c
                  (filled (o.channels c) value);
          },
        )
  unfolding consume_write
  consume_write_posts o c value v room e =
      let inside : ltb ((o.channels c).head % (o.channels c).buffer.size) (o.channels c).buffer.size
          ≡ true =
        ground (arith, room) in
      ground (arith, e, inside)

  write_takes :
      (o : Os K) (others : ℕ → N K (Unit {0})) (now r c value : ℕ) (timeout : Int32) (v : World)
      (o' : Os K)
      → begin_wait now r (o.channels c).writer_slots timeout o.world
        ≡ some (some SemaphoreReturnValue.ok, v)
      → consume_write c value (record o { world = v }) ≡ some (tt, o')
      → write others now r c value timeout o ≡ some (ChannelResultValue.ok, o')
  unfolding write wait is_ok
  write_takes o others now r c value timeout v o' ticket written = ground (arith, ticket, written)

  consume_read_posts :
      (o : Os K) (c value : ℕ) (v : World)
      → get (o.channels c).buffer ((o.channels c).tail % (o.channels c).buffer.size) ≡ some value
      → post (o.channels c).writer_slots o.world ≡ some (SemaphoreReturnValue.ok, v)
      → consume_read c o
        ≡ some
            (value, record o { world = v; channels = update o.channels c (drained (o.channels c)) })
  unfolding consume_read is_ok
  consume_read_posts o c value v there e = ground (arith, e, there)

  pub read-write :
      (others : ℕ → N K (Unit {0})) (o : Os K) (now now' r r' c value m n : ℕ)
      (timeout timeout' : Int32) (used : ℕ → Bool) (readers writers : Semaphore.Semaphore)
      → leb (int 0) timeout ≡ false
      → Free o.world r (o.world.routines r).thread n used
      → n + 1 < 2 ^ 64
      → 0 < (o.channels c).buffer.size
      → (o.channels c).head ≡ (o.channels c).tail
      → (o.channels c).readers_slots ≢ (o.channels c).writer_slots
      → o.world.semaphores (o.channels c).readers_slots ≡ some readers
      → readers.counter ≡ int 0
      → Holds readers.waiters []
      → o.world.semaphores (o.channels c).writer_slots ≡ some writers
      → leb writers.counter (int 0) ≡ false
      → ltb disabling_threshold writers.counter ≡ false
      → Holds writers.waiters []
      → (o' : Os K) × (read
            (written_meanwhile others (suc (suc m)) now' r' c value timeout')
            now
            r
            c
            timeout
            o
          ≡ some ((ChannelResultValue.ok, some value), o'))
        × (o'.channels c ≡ drained (filled (o.channels c) value))
        × (writers' : Semaphore.Semaphore) × (writers'.counter ≡ writers.counter)
        × Holds writers'.waiters []
        × ((o'.world.routines r).status ≡ RoutineStatus.running)
        × Resumed r
            (o.world.routines r).thread
            (o.channels c).readers_slots
            o.world.next_ref
            n
            used
            (update o.world.semaphores (o.channels c).writer_slots (some writers'))
            o'.world
  unfolding read wait is_ok
  read-write others o now now' r r' c value m n timeout timeout' used readers writers negative free
        room size empty distinct er counter qr ew ticket enabled qw =
      let ch = o.channels c in
      let rs = ch.readers_slots in
      let ws = ch.writer_slots in
      let t = (o.world.routines r).thread in
      let p = o.world.next_ref in
      let ss = o.world.semaphores in
      let (v1, i, j, e1, fresh, k1) =
        begin_wait-Waits o.world now r rs n timeout used readers negative free room er counter qr in
      let used' : ℕ → Bool = λ l. used l || j == l in
      let taken =
        begin_wait-taken v1 now' r' ws timeout' writers (k1.rest ws (λ is. distinct (sym is)) ∙ ew)
          ticket enabled in
      let u1 : World = record v1 {
        semaphores = update v1.semaphores ws (some (lowered writers));
      } in
      let ss' : ℕ → Option Semaphore.Semaphore = update ss ws (some (lowered writers)) in
      let ku =
        elsewhere-Waits v1 r t rs p i j (n + 1) used' _ _ _ _ ss ws (lowered writers) distinct k1 in
      let (v2, e2, k2) = post_signals r t rs p i j (n + 1) used' ss' u1 ku in
      let (v3, e3, k3) = turn_resumes r t rs p i j (n + 1) used' ss' v2 m k2 in
      let (v4, e4, runs, same, k4) =
        end_wait-Resumed v3 r t rs p n used ss'
          (given_back v3 r t rs p j n used ss' fresh room k3) in
      let there4 : v4.semaphores ws ≡ some (lowered writers) =
        k4.rest ws (λ is. distinct (sym is)) ∙ ground arith in
      let (v5, e5, k5) =
        post-Counted v4 ws (lowered writers) there4 (ground (arith, ticket, enabled)) qw in
      let o1 : Os K = record o { world = u1 } in
      let written = consume_write_posts o1 c value v2 size e2 in
      let bs : ℕ → Channel =
        update (update o.channels c (record ch { head = add_size ch.head 1 })) c
          (filled ch value) in
      let here : bs c ≡ filled ch value = update_self (update o.channels c _) c (filled ch value) in
      let wrote =
        write_takes (record o { world = v1 }) others now' r' c value timeout' u1
          (record o { world = v2; channels = bs }) taken written in
      let o4 : Os K = record o { world = v4; channels = bs } in
      let took =
        consume_read_posts o4 c value v5
          (subst (λ (x : Channel). get x.buffer (x.tail % x.buffer.size) ≡ some value) (sym here)
            (ground (arith, empty, size)))
          (subst (λ (x : Channel). post x.writer_slots v4 ≡ some (SemaphoreReturnValue.ok, v5))
            (sym here) e5) in
      (
        record o { world = v5; channels = update bs c (drained (bs c)) },
        ground (arith, e1, e3, e4, wrote, took),
        update_self bs c (drained (bs c)) ∙ ap drained here,
        k5.sem',
        k5.counter ∙ ground (arith, ticket, enabled),
        k5.waiters,
        ap (λ (v : World). (v.routines r).status) k5.result ∙ runs,
        record {
          sem = k4.sem;
          there = k5.rest rs distinct ∙ k4.there;
          rest = λ z ne.
              elsewhere ws ss v4.semaphores v5.semaphores (lowered writers) k5.sem' k5.there z
                (k4.rest z ne) (k5.rest z);
          counter = k4.counter;
          waiters = k4.waiters;
          happened = ap (λ (v : World). (v.routines r).happened_type) k5.result ∙ k4.happened;
          same_thread = ap (λ (v : World). (v.routines r).thread) k5.result ∙ k4.same_thread;
          dead = ap (λ (v : World). v.refs p) k5.result ∙ k4.dead;
          suspended =
              ap (λ (v : World). (v.threads t).nb_suspended_routines) k5.result ∙ k4.suspended;
          commands = ap (λ (v : World). (v.threads t).engine_queue) k5.result ∙ k4.commands;
          slots =
              λ l. ap (λ (v : World). has (v.threads t).suspended_slots l) k5.result ∙ k4.slots l;
        },
      )
