-- ===== src/MonoSeq/Threads.antt =====
-- Threads that share one generator: each loads the state, computes, and tries to exchange it. Any
-- interleaving of these steps issues ids that only rise, so no id is issued twice.
use rstrader.Base.{
  ℕ, ◌+◌, ◌*◌, ◌/◌, ◌%◌, ◌^◌, ◌≤◌, ◌<◌, ◌≡◌, Option, none, some, List, [], ◌∷◌, arith, ◌==◌,
  if◌then◌else◌,
}
use rstrader.Base.Int.{ℤ, pos, ◌≤ℤ◌, ◌<ℤ◌}
use rstrader.MonoSeq.{seq_bits, time_bits, max_seq, max_machine_id, attempt, pack, compose_id}
use rstrader.MonoSeq.Attempt.{Later, attempt-Later, pack_value, compose_id_value}

-- `loaded` is what each thread read and has not exchanged yet; `issued` has the newest id first.
pub record Threads : Type 0 where
  pub machine_id : ℕ
  pub last_state : ℕ
  pub loaded : ℕ → Option ℕ
  pub issued : List ℤ

abbrev pub update : (ℕ → Option ℕ) → ℕ → Option ℕ → ℕ → Option ℕ
update f t v u = if u == t then v else f u

-- One step of one thread: the load, an exchange that fails (another thread was first, or it fails
-- spuriously, as the weak exchange may) and one that succeeds before the clock leaves 41 bits.
pub data Step : Threads → Threads → Type 0 where
  load :
      (s : Threads) (t : ℕ) → Step s (record s { loaded = update s.loaded t (some s.last_state) })
  retry : (s : Threads) (t : ℕ) → Step s (record s { loaded = update s.loaded t none })
  commit :
      (s : Threads) (t prev ms seq : ℕ) (clock rest : List ℕ)
      → s.loaded t ≡ some prev
      → attempt prev clock ≡ some (ms, seq, rest)
      → s.last_state ≡ prev
      → ms < 2 ^ time_bits
      → Step s (record s {
        last_state = pack ms seq;
        loaded = update s.loaded t none;
        issued = compose_id s.machine_id ms seq ∷ s.issued;
      })

pub data Reach (s : Threads) : Threads → Type 0 where
  here : Reach s s
  next : {t u : Threads} → Reach s t → Step t u → Reach s u

unfoldable pub start : ℕ → Threads
start machine_id = record {
  machine_id = machine_id;
  last_state = 0;
  loaded = λ t. none;
  issued = [];
}

-- Each id is below the one issued after it, the newest is below the bound, and none is negative.
abbrev pub Rising : ℤ → List ℤ → Type 0
Rising bound [] = Unit
Rising bound (x ∷ xs) = (pos 0 ≤ℤ x) × (x <ℤ bound) × Rising x xs

-- One past the id that a state stands for.
abbrev bound_of : ℕ → ℕ → ℤ
bound_of machine_id st = pos (st / 2 ^ 12 * 2 ^ 22 + machine_id * 2 ^ 12 + st % 2 ^ 12 + 1)

record IsValid (s : Threads) : Type 0 where
  machine : s.machine_id ≤ max_machine_id
  fits : s.last_state < 2 ^ 53
  rising : Rising (bound_of s.machine_id s.last_state) s.issued

Rising-mono : (b c : ℤ) (xs : List ℤ) → b ≤ℤ c → Rising b xs → Rising c xs
Rising-mono b c [] h r = r
Rising-mono b c (x ∷ xs) h r = (r.0, omega arith, r.2)

-- The exchange stores a state that stands for the id handed out, which is above all before it.
commit-Rising :
    (m st ms seq : ℕ) (ids : List ℤ)
    → m ≤ max_machine_id
    → Later (st / 2 ^ seq_bits) (st % 2 ^ seq_bits) ms seq
    → seq ≤ max_seq
    → ms < 2 ^ time_bits
    → Rising (bound_of m st) ids
    → Rising (bound_of m (pack ms seq)) (compose_id m ms seq ∷ ids)
commit-Rising m st ms seq ids hm later s h r =
    let after : bound_of m st ≤ℤ pos (ms * 2 ^ 22 + m * 2 ^ 12 + seq) = ground arith in
    rw (pack_value ms seq (omega arith) s, compose_id_value m ms seq hm h s)
      (omega arith, omega arith, Rising-mono (bound_of m st) _ ids after r)

Step-IsValid : {s u : Threads} → Step s u → IsValid s → IsValid u
Step-IsValid (load s t) v = record { machine = v.machine; fits = v.fits; rising = v.rising }
Step-IsValid (retry s t) v = record { machine = v.machine; fits = v.fits; rising = v.rising }
Step-IsValid (commit s t prev ms seq clock rest l a e h) v =
    let (later, small) = attempt-Later prev clock ms seq rest a in
    let later' : Later (s.last_state / 2 ^ seq_bits) (s.last_state % 2 ^ seq_bits) ms seq =
      rw e later in
    record {
      machine = v.machine;
      fits = omega (arith, pack_value ms seq (omega arith) small);
      rising =
          commit-Rising s.machine_id s.last_state ms seq s.issued v.machine later' small h v.rising;
    }

Reach-IsValid : {s u : Threads} → IsValid s → Reach s u → IsValid u
Reach-IsValid v here = v
Reach-IsValid v (next r st) = Step-IsValid st (Reach-IsValid v r)

start-IsValid : (m : ℕ) → m ≤ max_machine_id → IsValid (start m)
unfolding start
start-IsValid m h = record { machine = h; fits = omega arith; rising = tt }

-- Whatever the threads do and however the clock jumps, before it leaves 41 bits, every id is a
-- nonnegative i64 and larger than each id issued before it.
pub ids_rise :
    (m : ℕ) {s : Threads} → m ≤ max_machine_id → Reach (start m) s → Rising (pos (2 ^ 63)) s.issued
ids_rise m {s} h r =
    let v = Reach-IsValid (start-IsValid m h) r in
    Rising-mono (bound_of s.machine_id s.last_state) (pos (2 ^ 63)) s.issued
      (omega (arith, v.machine, v.fits)) v.rising
