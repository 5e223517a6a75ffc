-- ===== src/Workers/Capped.antt =====
-- The cap of a pool of workers, `max_workers` in python/pydeno/_sandbox_pool.py, is kept by every step.
use pydeno.Prelude.{
  ℕ, suc, ◌≤◌, ◌<◌, ◌≡◌, refl, sym, ap, ◌∙◌, subst, true, false, some, ltb, ltb→lt, length, arith,
}
use native.Mathlib.Nat.{le_trans}
use pydeno.Workers.{
  reserved, process, init, prune, live, find, assign, token_of, hand_over, replacement_pending,
  release, reserve,
}
use pydeno.Workers.Start.{
  System, begin, Step, polls, reserves, starts, records, gives_up, hands_over, exits, Reach, here,
  next,
}
use pydeno.Workers.Slots.{has, length-prune, length-assign}
use pydeno.Workers.Kept.{prune-AreKept, assign-AreKept}
use pydeno.Workers.Turns.{starts-AreKept, exits-AreKept}
use pydeno.Workers.Caps.{
  IsCapped, available_capped, reserve_capped, fresh_token, reserve-AreKept, start_token,
  let_go-AreKept, handed-AreKept,
}

-- A poll prunes the slots of processes that have exited.
live-IsCapped :
    (maximum : ℕ) (s : System)
    → IsCapped maximum s
    → IsCapped maximum
        (record s { capacity = record s.capacity { workers = prune s.alive s.capacity.workers } })
live-IsCapped maximum s h =
    let shorter : length (prune s.alive s.capacity.workers) ≤ maximum =
      le_trans (length-prune s.alive s.capacity.workers) h.size in
    record {
      cap = h.cap;
      size = shorter;
      kept =
          prune-AreKept s.alive s.running s.next_proc s.capacity.next_token s.capacity.workers
            h.kept;
    }

-- A reservation, where a slot is free.
reserve-IsCapped :
    (maximum : ℕ) (s : System)
    → IsCapped maximum s
    → length s.capacity.workers < maximum
    → IsCapped maximum (record s {
      capacity = record s.capacity {
        workers = assign s.capacity.next_token reserved s.capacity.workers;
        next_token = suc s.capacity.next_token;
      };
    })
reserve-IsCapped maximum s h room =
    let token = s.capacity.next_token in
    let ws = s.capacity.workers in
    let free : has token ws ≡ false = fresh_token token _ ws h.kept.slots in
    let longer : length (assign token reserved ws) ≡ suc (length ws) =
      length-assign token reserved ws ∙ rw free refl in
    record {
      cap = h.cap;
      size = omega (arith, longer, room);
      kept = reserve-AreKept s.alive s.running s.next_proc token ws h.kept;
    }

Step-IsCapped : (maximum : ℕ) {s t : System} → Step s t → IsCapped maximum s → IsCapped maximum t
unfolding live release hand_over replacement_pending
Step-IsCapped maximum {s} polls h = live-IsCapped maximum s h
Step-IsCapped maximum {s} (reserves a) h =
    let c = record s.capacity { workers = prune s.alive s.capacity.workers } in
    let polled = available_capped s.alive maximum s.capacity h.cap in
    let room : ltb (length c.workers) maximum ≡ true = sym (ap (λ x. x.1) polled) ∙ a in
    let path = ap (λ x. (reserve x.0).0) polled ∙ reserve_capped maximum c h.cap in
    subst (λ x. IsCapped maximum (record s { capacity = x })) (sym path)
      (reserve-IsCapped maximum (record s { capacity = c }) (live-IsCapped maximum s h)
        (ltb→lt _ _ room))
Step-IsCapped maximum {s} (starts token c n) h = record {
  cap = h.cap;
  size = h.size;
  kept =
      starts-AreKept s.alive s.running s.next_proc s.capacity.next_token s.capacity.workers h.kept
        token c n;
}
Step-IsCapped maximum {s} (records token p c l e) h =
    let slot =
      start_token s.alive s.running s.next_proc s.capacity.next_token s.capacity.workers h.kept
        token (find token s.capacity.workers) refl c in
    record {
      cap = h.cap;
      size = ground (arith, length-assign token (process p) s.capacity.workers, slot.1, h.size);
      kept =
          assign-AreKept s.alive s.running s.next_proc s.capacity.next_token token (process p)
            s.capacity.workers slot.0 (l, e) h.kept;
    }
Step-IsCapped maximum {s} (gives_up token n) h =
    let gone =
      let_go-AreKept s.alive s.running s.next_proc s.capacity.next_token s.capacity.workers h.kept
        token (find token s.capacity.workers) refl n in
    record { cap = h.cap; size = le_trans gone.1 h.size; kept = gone.0 }
Step-IsCapped maximum {s} (hands_over p) h =
    let given =
      handed-AreKept s.alive s.running s.next_proc s.capacity.next_token s.capacity.workers h.kept p
        (token_of p s.capacity.workers) refl in
    record { cap = h.cap; size = omega (arith, given.1, h.size); kept = given.0 }
Step-IsCapped maximum {s} (exits token p r) h = record {
  cap = h.cap;
  size = h.size;
  kept =
      exits-AreKept s.alive s.running s.next_proc s.capacity.next_token s.capacity.workers h.kept
        token p r;
}

pub begin-IsCapped : (maximum : ℕ) → IsCapped maximum (begin (some maximum))
unfolding init
begin-IsCapped maximum = record {
  cap = refl;
  size = omega arith;
  kept = record {
    slots = tt;
    distinct = tt;
    covered = λ token p e. cc;
    apart = λ token other p e f. cc;
    housed = λ p e. cc;
  };
}

pub Reach-IsCapped :
    (maximum : ℕ) {s t : System} → Reach s t → IsCapped maximum s → IsCapped maximum t
Reach-IsCapped maximum here h = h
Reach-IsCapped maximum (next r step) h = Step-IsCapped maximum step (Reach-IsCapped maximum r h)
